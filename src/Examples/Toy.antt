-- ===== src/Examples/Toy.antt =====
-- A platform on a list of files, with a companion that takes a signature itself for a signed file.
use aas_sign.Base.{
  ℕ, ◌<◌, ◌==◌, ◌≡◌, ◌≢◌, refl, sym, ap, ◌∙◌, subst, Bool, true, false, Bool-cases, inl, inr, List,
  [], ◌∷◌, ◌++◌, arith, length, length-append, Option, none, some, ok, ok-injective, err, Text,
  codes, is, bytes_eq, bytes_eq_refl, bytes_eq→eq, if◌then◌else◌,
}
use aas_sign.Files.{
  Files, file_at, Action, return, throw, Platform, ProcessResult, IsPlatform, inside,
}
use aas_sign.Signing.Tool.{
  Command, extract_signature, remove_signature, extract_data, attach_signature, add_timestamp,
  args_of, output_of,
}
use aas_sign.Signing.Atomic.{IsRewriter}
use aas_sign.Signing.Kept.{IsTool}
use aas_sign.Signing.Certified.{IsExtractor}
use aas_sign.Signing.Made.{IsAttacher}
use aas_sign.Examples.Images.{cms}

pub file_at_here : (q : Text) (b : List ℕ) (s : Files) → file_at ((q, b) ∷ s) q ≡ some b
unfolding file_at
file_at_here q b s = rw (bytes_eq_refl q) refl

pub file_at_other :
    (q r : Text) (b : List ℕ) (s : Files) → r ≢ q → file_at ((q, b) ∷ s) r ≡ file_at s r
unfolding file_at
file_at_other q r b s n = elim (Bool-cases (bytes_eq q r)) [
  | inl e ↦ absurd (n (sym (bytes_eq→eq q r e)))
  | inr e ↦ rw e refl
]

-- The file at `to` is that at `from`, where there is one.
unfoldable pub put_file : Text → Option (List ℕ) → Action (Unit {0})
put_file to none s = (err "cannot open", s)
put_file to (some b) s = (ok tt, (to, b) ∷ s)

put_file_other :
    (to : Text) (b : Option (List ℕ)) (s : Files) (r : Text)
    → r ≢ to
    → file_at (put_file to b s).1 r ≡ file_at s r
unfolding put_file
put_file_other to none s r n = refl
put_file_other to (some b) s r n = file_at_other to r b s n

put_file_ok :
    (to : Text) (b : Option (List ℕ)) (s : Files)
    → (put_file to b s).0 ≡ ok tt
    → file_at (put_file to b s).1 to ≡ b
unfolding put_file
put_file_ok to none s h = cc
put_file_ok to (some b) s h = file_at_here to b s

put_file_failed :
    (to : Text) (b : Option (List ℕ)) (s : Files)
    → (put_file to b s).0 ≢ ok tt
    → file_at (put_file to b s).1 to ≡ file_at s to
unfolding put_file
put_file_failed to none s h = refl
put_file_failed to (some b) s h = absurd (h refl)

unfoldable pub read : Text → Option (List ℕ) → Action (List ℕ)
read q none s = (err "cannot open", s)
read q (some b) s = (ok b, s)

read_same : (q : Text) (b : Option (List ℕ)) (s : Files) → (read q b s).1 ≡ s
unfolding read
read_same q none s = refl
read_same q (some b) s = refl

read_ok :
    (q : Text) (b : Option (List ℕ)) (s : Files) (x : List ℕ) → (read q b s).0 ≡ ok x → b ≡ some x
unfolding read
read_ok q none s x h = cc
read_ok q (some b) s x h = ap some (ok-injective h)

-- A name that is longer than every path.
unfoldable pub fresh : Files → Text
fresh [] = codes "t"
fresh ((q, b) ∷ s) = b'/' ∷ q ++ fresh s

shorter : (s : Files) (r : Text) → length (fresh s) < length r → file_at s r ≡ none
unfolding fresh file_at
shorter [] r h = refl
shorter ((q, b) ∷ s) r h = elim (Bool-cases (bytes_eq q r)) [
  | inl e ↦
      let same = ap length (bytes_eq→eq q r e) in absurd (omega (arith, length-append q (fresh s)))
  | inr e ↦ rw e (shorter s r (omega (arith, length-append q (fresh s))))
]

unfoldable pub toy : (List Text → Action ProcessResult) → Platform
unfolding put_file read fresh
toy run = record {
  read_file = λ q s. read q (file_at s q) s;
  write_whole_file = λ q b. put_file q (some b);
  copy_file = λ from to s. put_file to (file_at s from) s;
  atomic_replace_file = λ from to s. put_file to (file_at s from) s;
  same_file = λ q r. return (bytes_eq q r);
  make_temp_dir = λ parent s. return (fresh s) s;
  remove_all = λ dir s. s;
  run_process = λ exe args. run args;
}

true-ne-false : true ≢ false
true-ne-false e = cc

pub toy-IsPlatform : (run : List Text → Action ProcessResult) → IsPlatform (toy run)
unfolding toy
toy-IsPlatform run = record {
  read_file_same = λ q s. read_same q (file_at s q) s;
  read_file_ok = λ q s b h. read_ok q (file_at s q) s b h;
  write_whole_file_other = λ q b s r n. put_file_other q (some b) s r n;
  write_whole_file_ok = λ q b s h. put_file_ok q (some b) s h;
  copy_file_other = λ from to s r n. put_file_other to (file_at s from) s r n;
  copy_file_ok = λ from to s h. put_file_ok to (file_at s from) s h;
  replace_other = λ from to s r n m. put_file_other to (file_at s from) s r m;
  replace_ok = λ from to s h. put_file_ok to (file_at s from) s h;
  replace_failed = λ from to s h. put_file_failed to (file_at s from) s h;
  same_file_same = λ q r s. refl;
  same_file_self = λ q s b h e. absurd (true-ne-false (sym (bytes_eq_refl q) ∙ ok-injective e));
  make_temp_dir_same = λ parent s. refl;
  make_temp_dir_new = λ parent s dir name h. shorter s (inside dir name) (
      subst (λ d. length (fresh s) < length (inside d name)) (ok-injective h)
        (omega (arith, length-append (fresh s) (b'/' ∷ name))));
  remove_all_other = λ dir s r o. refl;
}

-- A file that begins with a SEQUENCE is its own signature.
abbrev pub signature_of : List ℕ → Option (List ℕ)
signature_of [] = none
signature_of (c ∷ file) = if c == 0x30 then some (c ∷ file) else none

-- Every file has the content that the CMS of the example carries.
abbrev pub content_of : Bool → List ℕ → Option (List ℕ)
content_of enhanced file = some cms

abbrev and_then : Option (List ℕ) → (List ℕ → Option (List ℕ)) → Option (List ℕ)
and_then none f = none
and_then (some b) f = f b

abbrev respond : Text → Option (List ℕ) → Action ProcessResult
respond out none s =
    (ok (record { exit_code = 1; output = codes "AppxSignature.p7x does not exist" }), s)
respond out (some b) s = (ok (record { exit_code = 0; output = [] }), (out, b) ∷ s)

-- The arguments after a flag.
unfoldable pub args_after : Text → List Text → List Text
args_after flag [] = []
args_after flag (a ∷ args) = if bytes_eq a flag then args else args_after flag args

abbrev extract : (List ℕ → Option (List ℕ)) → List Text → Action ProcessResult
extract f (source ∷ flag ∷ out ∷ rest) s = respond out (and_then (file_at s source) f) s
extract f _ s = (err "usage", s)

abbrev sign : List Text → Action ProcessResult
sign (sig ∷ flag ∷ source ∷ other ∷ out ∷ rest) s =
    respond out (and_then (file_at s sig) signature_of) s
sign _ s = (err "usage", s)

unfoldable pub companion : List Text → Action ProcessResult
companion [] = throw "usage"
companion (name ∷ args) =
    if is name "extract-signature"
    then extract signature_of (args_after (codes "-in") args)
    else if is name "extract-data"
    then extract (content_of false) (args_after (codes "-in") args)
    else if is name "attach-signature"
    then sign (args_after (codes "-sigin") args)
    else throw "usage"

respond_other :
    (out : Text) (b : Option (List ℕ)) (s : Files) (r : Text)
    → r ≢ out
    → file_at (respond out b s).1 r ≡ file_at s r
respond_other out none s r n = refl
respond_other out (some b) s r n = file_at_other out r b s n

pub companion-IsTool : IsTool (toy companion)
unfolding toy companion args_after args_of bytes_eq
companion-IsTool = record { run_other = λ exe c s r. run_other c s r }
  where
    run_other :
        (c : Command) (s : Files) (r : Text)
        → r ≢ output_of c
        → file_at (companion (args_of c) s).1 r ≡ file_at s r
    run_other (extract_signature source output) s r n = respond_other output _ s r n
    run_other (remove_signature source output) s r n = refl
    run_other (extract_data false source output) s r n = respond_other output _ s r n
    run_other (extract_data true source output) s r n = respond_other output _ s r n
    run_other (attach_signature false sig source output) s r n = respond_other output _ s r n
    run_other (attach_signature true sig source output) s r n = respond_other output _ s r n
    run_other (add_timestamp enhanced o source output) s r n = refl

-- What was read for an answer with exit code 0.
respond_ok :
    (f : List ℕ → Option (List ℕ)) (there : Option (List ℕ)) (out : Text) (s : Files)
    (r : ProcessResult)
    → (respond out (and_then there f) s).0 ≡ ok r
    → r.exit_code ≡ 0
    → (file : List ℕ) × (b : List ℕ) × (there ≡ some file)
      × (f file ≡ some b)
      × (file_at (respond out (and_then there f) s).1 out ≡ some b)
respond_ok f none out s r h z = absurd (grind arith)
respond_ok f (some file) out s r h z = found (f file) refl h
  where
    found :
        (b : Option (List ℕ))
        → f file ≡ b
        → (respond out b s).0 ≡ ok r
        → (file' : List ℕ) × (b' : List ℕ) × (some file ≡ some file')
          × (f file' ≡ some b')
          × (file_at (respond out b s).1 out ≡ some b')
    found none e k = absurd (grind arith)
    found (some b) e k = (file, b, refl, e, file_at_here out b s)

pub companion-IsExtractor : IsExtractor (toy companion) signature_of content_of
unfolding toy companion args_after args_of bytes_eq
companion-IsExtractor = record {
  signature_ok =
      λ exe source output s r h z. respond_ok signature_of (file_at s source) output s r h z;
  content_ok = λ exe enhanced source output s r h z. content_ok enhanced source output s r h z;
}
  where
    content_ok :
        (enhanced : Bool) (source output : Text) (s : Files) (r : ProcessResult)
        → (companion (args_of (extract_data enhanced source output)) s).0 ≡ ok r
        → r.exit_code ≡ 0
        → (file : List ℕ) × (b : List ℕ) × (file_at s source ≡ some file)
          × (content_of enhanced file ≡ some b)
          × (file_at (companion (args_of (extract_data enhanced source output)) s).1 output
              ≡ some b)
    content_ok false source output s r h z =
        respond_ok (content_of false) (file_at s source) output s r h z
    content_ok true source output s r h z =
        respond_ok (content_of true) (file_at s source) output s r h z

-- The companion puts on no timestamps.
pub companion-IsAttacher : IsAttacher (toy companion) signature_of (λ own cms. ⊥)
unfolding toy companion args_after args_of bytes_eq
companion-IsAttacher = record {
  attach_ok = λ exe enhanced sig source output s r own h z e.
      attach_ok enhanced sig source output s r own h z e;
  stamp_ok = λ exe enhanced o source output s r old own h z e k. cc;
}
  where
    same_signature : (file b : List ℕ) → signature_of file ≡ some b → file ≡ b
    same_signature [] b h = cc
    same_signature (c ∷ file) b h = elim (Bool-cases (c == 0x30)) [
      | inl e ↦ let k : some (c ∷ file) ≡ some b = rw e at h in cc
      | inr e ↦ let k : none ≡ some b = rw e at h in cc
    ]

    attached :
        (sig output : Text) (s : Files) (r : ProcessResult) (own : List ℕ)
        → (respond output (and_then (file_at s sig) signature_of) s).0 ≡ ok r
        → r.exit_code ≡ 0
        → file_at s sig ≡ some own
        → (file : List ℕ) × (file_at
              (respond output (and_then (file_at s sig) signature_of) s).1
              output
            ≡ some file)
          × (signature_of file ≡ some own)
    attached sig output s r own h z e =
        let (file, b, there, is_sig, written) =
          respond_ok signature_of (file_at s sig) output s r h z in
        let same : file ≡ own = cc in
        let itself = same_signature file b is_sig in
        (
          b,
          written,
          subst (λ x. signature_of x ≡ some own) itself (is_sig ∙ ap some (sym itself ∙ same)),
        )

    attach_ok :
        (enhanced : Bool) (sig source output : Text) (s : Files) (r : ProcessResult) (own : List ℕ)
        → (companion (args_of (attach_signature enhanced sig source output)) s).0 ≡ ok r
        → r.exit_code ≡ 0
        → file_at s sig ≡ some own
        → (file : List ℕ) × (file_at
              (companion (args_of (attach_signature enhanced sig source output)) s).1
              output
            ≡ some file)
          × (signature_of file ≡ some own)
    attach_ok false sig source output s r own h z e = attached sig output s r own h z e
    attach_ok true sig source output s r own h z e = attached sig output s r own h z e

-- An installer without payloads.
abbrev pub rewrite : Text → (Text → Text → Action Bool) → Action (Unit {0})
rewrite staged sign = return tt

pub rewrite-IsRewriter : IsRewriter rewrite
rewrite-IsRewriter = record { rewrite-Keeps = λ path b staged sign n k. record { kept = λ s e. e } }
