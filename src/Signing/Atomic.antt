-- ===== src/Signing/Atomic.antt =====
-- A signing that does not succeed leaves the input as it was.
use aas_sign.Base.{
  ℕ, ◌≡◌, ◌≢◌, refl, ap, ◌∙◌, Bool, true, false, not, ◌&&◌, List, [], ◌++◌, some, String, Result,
  ok, Text, codes, is_nil,
}
use aas_sign.Azure.Sign.{AzureSignResult}
use aas_sign.Pe.{pe_has_signature}
use aas_sign.Files.{Files, file_at, Action, require, Platform, IsPlatform, inside, Outside}
use aas_sign.Files.Laws.{
  Keeps, Safe, >>=-Keeps, if-Keeps, >>=-Keeps_all, lift-Keeps, >>=-Safe, with_temp_dir-Keeps,
  with_temp_dir-Safe, read_file-Keeps, write_whole_file-Keeps, copy_file-Keeps, replace-Keeps,
  replace-Safe, >>=-returned,
}
use aas_sign.Signing.{Kind, pe, SigningOptions, extension}
use aas_sign.Signing.Staged.{
  is_msi, attach, sign_in, sign_staged, sign_if_unsigned, check_dump, rewrite_payload,
  sign_in_place, sign_file,
}
use aas_sign.Signing.Kept.{
  IsTool, either-ne, stamp-result, checked-Keeps, read_blob-Keeps, extract_existing-Keeps,
  strip_signature-Keeps, stamp-Keeps, check_output-Keeps, dump-Keeps, check_table_of-Keeps,
  check_dump-Keeps, identify-Keeps,
}

required-not :
    (same : Bool) (why : String) (s : Files) → (require (not same) why s).0 ≡ ok tt → same ≡ false
required-not true why s h = cc
required-not false why s h = refl

-- The rewriting of an installer writes its own files and those that the caller's signing of a payload
-- writes.
pub record IsRewriter (rewrite : Text → (Text → Text → Action Bool) → Action (Unit {0}))
    : Type 0 where
  pub rewrite-Keeps :
      (path : Text) (b : List ℕ) (staged : Text) (sign : Text → Text → Action Bool)
      → path ≢ staged
      → ((payload name : Text) → path ≢ payload → Keeps path b (sign payload name))
      → Keeps path b (rewrite staged sign)

module _ {path : Text} {b : List ℕ} (p : Platform) (laws : IsPlatform p) (tool : IsTool p)
    (fs_extension fs_parent : Text → Text) (sha256 : List ℕ → List ℕ)
    (sign_digest : List ℕ → Result AzureSignResult) where
  attach-Keeps :
      (o : SigningOptions) (enhanced : Bool) (source extracted signature_path output : Text)
      → path ≢ extracted
      → path ≢ signature_path
      → path ≢ output
      → Keeps path b (
          attach p fs_extension fs_parent sha256 sign_digest o enhanced source extracted
            signature_path output)
  unfolding attach
  attach-Keeps o enhanced source extracted signature_path output n k m =
      search
        (
          >>=-Keeps_all,
          checked-Keeps p laws tool o,
          lift-Keeps,
          read_blob-Keeps p laws tool o,
          write_whole_file-Keeps p laws,
        )
        depth 30

  -- A signing in its directory keeps every file outside but the one it signs and the dump.
  pub sign_in-Keeps :
      (target : Text) (kind : Kind) (o : SigningOptions) (work : Text)
      → path ≢ target
      → Outside work path
      → (is_nil o.dump_cms ≡ false → path ≢ o.dump_cms)
      → Keeps path b (sign_in p fs_extension fs_parent sha256 sign_digest target kind o work)
  unfolding sign_in
  sign_in-Keeps target kind o work n out d =
      let ext = extension fs_extension target in
      let signed = inside work (codes "signed" ++ ext) in
      let stamped = inside work (codes "timestamped" ++ ext) in
      >>=-Keeps_all _ _
        (extract_existing-Keeps p laws tool o target (inside work (codes "existing.der")) kind
          (out _))
        (λ signed_input.
          >>=-Keeps_all _ _
            (strip_signature-Keeps p laws tool o signed_input target
              (inside work (codes "unsigned" ++ ext)) (out _))
            (λ source.
              >>=-Keeps_all _ _
                (attach-Keeps o (is_msi kind && o.msi_dse) source
                  (inside work (codes "content.der")) (inside work (codes "signature.der")) signed
                  (out _) (out _) (out _))
                (λ indirect.
                  >>=-Keeps _ _
                    (stamp-Keeps p laws tool o o.no_timestamp (is_msi kind && o.msi_dse) signed
                      stamped (out _))
                    (λ output s e q.
                      let m = either-ne path output signed stamped (out _) (out _) (
                        stamp-result p o o.no_timestamp (is_msi kind && o.msi_dse) signed stamped s
                          output q) in
                      >>=-Keeps_all _ _
                        (check_output-Keeps p laws tool o (is_msi kind && o.msi_dse) indirect output
                          (inside work (codes "final.der")) (inside work (codes "rechecked.der"))
                          (out _) (out _))
                        (λ final.
                          >>=-Keeps_all _ _ (dump-Keeps p laws tool o final d)
                            (λ _. replace-Keeps p laws output target m n))))))

  pub sign_staged-Keeps :
      (target : Text) (kind : Kind) (o : SigningOptions)
      → path ≢ target
      → (is_nil o.dump_cms ≡ false → path ≢ o.dump_cms)
      → Keeps path b (sign_staged p fs_extension fs_parent sha256 sign_digest target kind o)
  unfolding sign_staged
  sign_staged-Keeps target kind o n d =
      with_temp_dir-Keeps p laws (fs_parent target) _
        (λ work out. sign_in-Keeps target kind o work n out d)

  sign_if_unsigned-Keeps :
      (o : SigningOptions) (payload name : Text)
      → path ≢ payload
      → Keeps path b (sign_if_unsigned p fs_extension fs_parent sha256 sign_digest o payload name)
  unfolding sign_if_unsigned
  sign_if_unsigned-Keeps o payload name n =
      let k =
        sign_staged-Keeps payload pe (record o { dump_cms = []; recursive = false }) n (λ e. cc) in
      >>=-Keeps_all _ _ (read_file-Keeps p laws payload) (λ file.
        >>=-Keeps_all _ _ (lift-Keeps (pe_has_signature file)) (λ signed.
          if-Keeps signed (lift-Keeps (ok false))
            (>>=-Keeps_all _ _ k (λ u. lift-Keeps (ok true)))))

  module _ (rewrite : Text → (Text → Text → Action Bool) → Action (Unit {0}))
      (rewriter : IsRewriter rewrite) (o : SigningOptions) where
    rewrite_payload-Keeps :
        (kind : Kind) (staged : Text)
        → path ≢ staged
        → Keeps path b
            (rewrite_payload p fs_extension fs_parent sha256 sign_digest rewrite kind o staged)
    unfolding rewrite_payload
    rewrite_payload-Keeps kind staged n =
        if-Keeps (is_msi kind && o.recursive)
          (rewriter.rewrite-Keeps path b staged _ n (sign_if_unsigned-Keeps o)) (lift-Keeps (ok tt))

    sign_in_place-Safe :
        (kind : Kind) (work : Text)
        → Outside work path
        → (is_nil o.dump_cms ≡ false → path ≢ o.dump_cms)
        → Safe path b
            (sign_in_place p fs_extension fs_parent sha256 sign_digest rewrite path kind o work)
    unfolding sign_in_place
    sign_in_place-Safe kind work out d =
        let staged = inside work (codes "input" ++ extension fs_extension path) in
        >>=-Safe _ _ (copy_file-Keeps p laws path staged (out _)) (λ u s e q.
          >>=-Safe _ _ (rewrite_payload-Keeps kind staged (out _)) (λ u' s' e' q'.
            >>=-Safe _ _ (sign_staged-Keeps staged kind o (out _) d)
              (λ u'' s'' e'' q''. replace-Safe p laws staged)))

    -- The dump is not the input.
    check_dump-ne :
        (s : Files)
        → file_at s path ≡ some b
        → (check_dump p path o s).0 ≡ ok tt
        → is_nil o.dump_cms ≡ false
        → path ≢ o.dump_cms
    unfolding check_dump
    check_dump-ne s h e n q =
        let (same, e₁, e₂, e₃) =
          >>=-returned (p.same_file path o.dump_cms)
            (λ same. require (not same) "--dump-cms must not refer to the input file") s
            (rw (check_dump, n) at e) in
        laws.same_file_self path s b h
          (ap (λ x. (p.same_file path x s).0) q ∙ e₁ ∙ ap ok (required-not same _ _ e₂))

    -- A signing that throws, or that never ends, leaves the input with the content it had.
    pub sign_file-Safe :
        Safe path b (sign_file p fs_extension fs_parent sha256 sign_digest rewrite path o)
    unfolding sign_file
    sign_file-Safe = >>=-Safe _ _ (check_dump-Keeps p laws tool o path) (λ u s e q.
        >>=-Safe _ _ (identify-Keeps p laws tool o fs_extension path) (λ kind s' e' q'.
          >>=-Safe _ _ (check_table_of-Keeps p laws tool o kind path) (λ u' s'' e'' q''.
            with_temp_dir-Safe p laws _ _
              (λ work out. sign_in_place-Safe kind work out (check_dump-ne s e q)))))

-- Whatever fails on the way (the companion, the service, the disk, a check of the result), a signing
-- that does not succeed leaves the input with the content it had, on a platform that keeps to its
-- header and with a companion that writes no file but its output.
pub sign_file_atomic :
    (p : Platform) (fs_extension fs_parent : Text → Text) (sha256 : List ℕ → List ℕ)
    (sign_digest : List ℕ → Result AzureSignResult)
    (rewrite : Text → (Text → Text → Action Bool) → Action (Unit {0})) (path : Text)
    (o : SigningOptions) (s : Files) (b : List ℕ)
    → IsPlatform p
    → IsTool p
    → IsRewriter rewrite
    → file_at s path ≡ some b
    → (sign_file p fs_extension fs_parent sha256 sign_digest rewrite path o s).0 ≢ ok tt
    → file_at (sign_file p fs_extension fs_parent sha256 sign_digest rewrite path o s).1 path
      ≡ some b
sign_file_atomic p fs_extension fs_parent sha256 sign_digest rewrite path o s b laws tool rewriter h
      n =
    (sign_file-Safe p laws tool fs_extension fs_parent sha256 sign_digest rewrite rewriter o).safe s
      h (λ u. n)
