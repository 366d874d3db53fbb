-- ===== src/Signing/Kept.antt =====
-- The calls of osslsigncode, and what of the signing leaves a file that is not theirs.
use aas_sign.Base.{
  ℕ, ◌≡◌, ◌≢◌, sym, ◌∙◌, ◌⊎◌, inl, inr, Bool, true, false, Bool-cases, List, ok, ok-injective, Text,
  is_nil,
}
use aas_sign.Files.{Files, file_at, return, Platform, ProcessResult, IsPlatform}
use aas_sign.Files.Laws.{
  Keeps, >>=-Keeps_all, if-Keeps, lift-Keeps, require-Keeps, read_file-Keeps, same_file-Keeps,
  write_whole_file-Keeps, >>=-returned,
}
use aas_sign.Signing.{Kind, SigningOptions, read_blob, identify}
use aas_sign.Signing.Tool.{
  Command, add_timestamp, args_of, output_of, invoke, checked, judge, extract_existing,
}
use aas_sign.Signing.Staged.{strip_signature, stamp, check_output, dump, check_dump, check_table_of}

-- osslsigncode writes the file that a command names for its output, and no other.
pub record IsTool (p : Platform) : Type 0 where
  pub run_other :
      (exe : Text) (c : Command) (s : Files) (r : Text)
      → r ≢ output_of c
      → file_at (p.run_process exe (args_of c) s).1 r ≡ file_at s r

pub either-ne : (path r x y : Text) → path ≢ x → path ≢ y → (r ≡ x) ⊎ (r ≡ y) → path ≢ r
either-ne path r x y n k (inl e) q = n (q ∙ e)
either-ne path r x y n k (inr e) q = k (q ∙ e)

-- The output is one of two files.
pub stamp-result :
    (p : Platform) (o : SigningOptions) (no_timestamp enhanced : Bool) (output stamped : Text)
    (s : Files) (r : Text)
    → (stamp p o no_timestamp enhanced output stamped s).0 ≡ ok r
    → (r ≡ output) ⊎ (r ≡ stamped)
unfolding stamp
stamp-result p o true enhanced output stamped s r h = inl (sym (ok-injective h))
stamp-result p o false enhanced output stamped s r h =
    let (u, e, k, same) =
      >>=-returned (checked p o (add_timestamp enhanced o output stamped)) (λ _. return stamped) s
        h in
    inr (sym (ok-injective k))

module _ {path : Text} {b : List ℕ} (p : Platform) (laws : IsPlatform p) (tool : IsTool p)
    (o : SigningOptions) where
  pub invoke-Keeps : (c : Command) → path ≢ output_of c → Keeps path b (invoke p o c)
  unfolding invoke
  invoke-Keeps c n = record { kept = λ s e. tool.run_other o.osslsigncode c s path n ∙ e }

  pub checked-Keeps : (c : Command) → path ≢ output_of c → Keeps path b (checked p o c)
  unfolding checked
  checked-Keeps c n = search (>>=-Keeps_all, require-Keeps, invoke-Keeps)

  pub read_blob-Keeps : (q : Text) → Keeps path b (read_blob p q)
  unfolding read_blob
  read_blob-Keeps q = search (>>=-Keeps_all, require-Keeps, lift-Keeps, read_file-Keeps p laws)

  pub judge-Keeps :
      (output : Text) (kind : Kind) (r : ProcessResult) → Keeps path b (judge p o output kind r)
  unfolding judge
  judge-Keeps output kind r =
      search (if-Keeps, >>=-Keeps_all, require-Keeps, lift-Keeps, read_blob-Keeps) depth 20

  pub extract_existing-Keeps :
      (q output : Text) (kind : Kind)
      → path ≢ output
      → Keeps path b (extract_existing p o q output kind)
  unfolding extract_existing
  extract_existing-Keeps q output kind n = search (>>=-Keeps_all, invoke-Keeps, judge-Keeps)

  pub strip_signature-Keeps :
      (signed : Bool) (q unsigned : Text)
      → path ≢ unsigned
      → Keeps path b (strip_signature p o signed q unsigned)
  unfolding strip_signature
  strip_signature-Keeps false q unsigned n = lift-Keeps (ok q)
  strip_signature-Keeps true q unsigned n = search (>>=-Keeps_all, checked-Keeps, lift-Keeps)

  pub stamp-Keeps :
      (no_timestamp enhanced : Bool) (output stamped : Text)
      → path ≢ stamped
      → Keeps path b (stamp p o no_timestamp enhanced output stamped)
  unfolding stamp
  stamp-Keeps true enhanced output stamped n = lift-Keeps (ok output)
  stamp-Keeps false enhanced output stamped n = search (>>=-Keeps_all, checked-Keeps, lift-Keeps)

  pub check_output-Keeps :
      (enhanced : Bool) (indirect : List ℕ) (output final rechecked : Text)
      → path ≢ final
      → path ≢ rechecked
      → Keeps path b (check_output p o enhanced indirect output final rechecked)
  unfolding check_output
  check_output-Keeps enhanced indirect output final rechecked n k =
      search (>>=-Keeps_all, checked-Keeps, require-Keeps, lift-Keeps, read_blob-Keeps) depth 30

  pub dump-Keeps :
      (cms : List ℕ) → (is_nil o.dump_cms ≡ false → path ≢ o.dump_cms) → Keeps path b (dump p o cms)
  unfolding dump
  dump-Keeps cms n = elim (Bool-cases (is_nil o.dump_cms)) [
    | inl e ↦ rw e (lift-Keeps (ok tt))
    | inr e ↦ rw e (write_whole_file-Keeps p laws o.dump_cms cms (n e))
  ]

  pub check_table_of-Keeps : (kind : Kind) (q : Text) → Keeps path b (check_table_of p kind q)
  unfolding check_table_of
  check_table_of-Keeps kind q =
      search (if-Keeps, >>=-Keeps_all, lift-Keeps, read_file-Keeps p laws) depth 20

  pub check_dump-Keeps : (q : Text) → Keeps path b (check_dump p q o)
  unfolding check_dump
  check_dump-Keeps q =
      search (if-Keeps, >>=-Keeps_all, require-Keeps, lift-Keeps, same_file-Keeps p laws) depth 20

  pub identify-Keeps :
      (fs_extension : Text → Text) (q : Text) → Keeps path b (identify p fs_extension q)
  unfolding identify
  identify-Keeps fs_extension q = search (>>=-Keeps_all, lift-Keeps, read_file-Keeps p laws)
