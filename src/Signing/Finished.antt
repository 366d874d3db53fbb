-- ===== src/Signing/Finished.antt =====
-- The end of a signing: the output is checked and takes the place of its input.
use aas_sign.Base.{
  ℕ, ◌==◌, ◌≡◌, ◌≢◌, refl, sym, ap, ◌∙◌, subst, ◌⊎◌, inl, inr, Bool, false, ◌&&◌, List, [], ◌∷◌,
  ◌++◌, arith, Option, some, Result, ok, Text, codes,
}
use aas_sign.Azure.Sign.{AzureSignResult}
use aas_sign.Files.{Files, file_at, ◌>>=◌, ◌>>◌, Platform, IsPlatform, inside, Outside}
use aas_sign.Files.Laws.{>>=-returned}
use aas_sign.Signing.{Kind, SigningOptions, extension}
use aas_sign.Signing.Tool.{extract_existing}
use aas_sign.Signing.Staged.{is_msi, strip_signature, stamp, check_output, dump, attach, sign_in}
use aas_sign.Signing.Kept.{IsTool, check_output-Keeps, dump-Keeps, stamp-result}
use aas_sign.Signing.Made.{IsAttacher, Built, Carries, attach-Built, stamp-Carries}
use aas_sign.Signing.Certified.{IsExtractor, Certified, check_output-Certified}

some-injective : {a b : List ℕ} → some a ≡ some b → a ≡ b
some-injective h = cc

inside-injective : (work a b : Text) → inside work a ≡ inside work b → a ≡ b
inside-injective [] a b h = ground arith
inside-injective (c ∷ work) a b h = inside-injective work a b (cc)

head-ne : (x y : ℕ) {xs ys : Text} → (x == y) ≡ false → x ∷ xs ≢ y ∷ ys
head-ne x y h e = ground arith

output-ne :
    (work ext output name : Text)
    → codes "signed" ++ ext ≢ name
    → codes "timestamped" ++ ext ≢ name
    → (output ≡ inside work (codes "signed" ++ ext))
      ⊎ (output ≡ inside work (codes "timestamped" ++ ext))
    → output ≢ inside work name
output-ne work ext output name n m (inl e) q = n (inside-injective work _ name (sym e ∙ q))
output-ne work ext output name n m (inr e) q = m (inside-injective work _ name (sym e ∙ q))

output-ne_dump :
    (work ext output dump_cms : Text)
    → Outside work dump_cms
    → (output ≡ inside work (codes "signed" ++ ext))
      ⊎ (output ≡ inside work (codes "timestamped" ++ ext))
    → output ≢ dump_cms
output-ne_dump work ext output dump_cms out (inl e) q = out _ (sym q ∙ e)
output-ne_dump work ext output dump_cms out (inr e) q = out _ (sym q ∙ e)

-- A path that holds a file with a signature over its own content, made by the service.
abbrev pub Holds :
    (List ℕ → List ℕ)
    → (List ℕ → Result AzureSignResult)
    → (List ℕ → Option (List ℕ))
    → (Bool → List ℕ → Option (List ℕ))
    → (List ℕ → List ℕ → Type 0)
    → Files
    → Text
    → Type 0
Holds sha256 sign_digest signature_of content_of Stamped s path =
    (indirect : List ℕ) × (own : List ℕ) × (file : List ℕ) × (file_at s path ≡ some file)
    × Certified signature_of content_of indirect file
    × Built sha256 sign_digest indirect own
    × Carries signature_of Stamped own file

-- No directory that is made on the way holds the path.
abbrev pub NeverIn : Platform → Text → Type 0
NeverIn p path =
    (parent : Text) (s : Files) (dir : Text)
    → (p.make_temp_dir parent s).0 ≡ ok dir
    → Outside dir path

module _ (p : Platform) (fs_extension fs_parent : Text → Text) (sha256 : List ℕ → List ℕ)
    (sign_digest : List ℕ → Result AzureSignResult) where
  module _ (laws : IsPlatform p) (tool : IsTool p) (signature_of : List ℕ → Option (List ℕ))
      (content_of : Bool → List ℕ → Option (List ℕ)) (Stamped : List ℕ → List ℕ → Type 0)
      (extractor : IsExtractor p signature_of content_of)
      (attacher : IsAttacher p signature_of Stamped) where
    finish-Certified :
        (target : Text) (o : SigningOptions) (enhanced : Bool) (work ext : Text) (indirect : List ℕ)
        (output : Text) (s : Files) (file : List ℕ)
        → file_at s output ≡ some file
        → Outside work o.dump_cms
        → (output ≡ inside work (codes "signed" ++ ext))
          ⊎ (output ≡ inside work (codes "timestamped" ++ ext))
        → ((do
          final_cms ←
              check_output p o enhanced indirect output
                (inside work (codes "final.der"))
                (inside work (codes "rechecked.der"))
          dump p o final_cms
          p.atomic_replace_file output target)
            s).0
          ≡ ok tt
        → Certified signature_of content_of indirect file
          × (file_at
                ((do
                  final_cms ←
                      check_output p o enhanced indirect output
                        (inside work (codes "final.der"))
                        (inside work (codes "rechecked.der"))
                  dump p o final_cms
                  p.atomic_replace_file output target)
                  s).1
                target
              ≡ some file)
    finish-Certified target o enhanced work ext indirect output s file before out which h =
        let final_path = inside work (codes "final.der") in
        let rechecked = inside work (codes "rechecked.der") in
        let (final_cms, e₁, h₁, q₁) =
          >>=-returned (check_output p o enhanced indirect output final_path rechecked) _ s h in
        let s₁ = (check_output p o enhanced indirect output final_path rechecked s).1 in
        let (u, e₂, h₂, q₂) = >>=-returned (dump p o final_cms) _ s₁ h₁ in
        let s₂ = (dump p o final_cms s₁).1 in
        let n =
          output-ne work ext output (codes "final.der") (head-ne b's' b'f' refl)
            (head-ne b't' b'f' refl) which in
        let n' =
          output-ne work ext output (codes "rechecked.der") (head-ne b's' b'r' refl)
            (head-ne b't' b'r' refl) which in
        let (file', certified, there) =
          check_output-Certified p laws o signature_of content_of tool extractor enhanced indirect
            output final_path rechecked s final_cms n n' e₁ in
        let same : file' ≡ file = some-injective (
          sym there
          ∙ (check_output-Keeps p laws tool o enhanced indirect output final_path rechecked n
                n').kept
              s before) in
        let kept =
          (dump-Keeps p laws tool o final_cms
              (λ e. output-ne_dump work ext output o.dump_cms out which)).kept
            s₁ there in
        (
          subst (Certified signature_of content_of indirect) same certified,
          ap (λ x. file_at x.1 target) (q₁ ∙ q₂)
              ∙ (laws.replace_ok output target s₂ h₂ ∙ (kept ∙ ap some same)),
        )

    pub sign_in-Holds :
        (target : Text) (kind : Kind) (o : SigningOptions) (work : Text) (s : Files)
        → Outside work o.dump_cms
        → (sign_in p fs_extension fs_parent sha256 sign_digest target kind o work s).0 ≡ ok tt
        → Holds sha256 sign_digest signature_of content_of Stamped
            (sign_in p fs_extension fs_parent sha256 sign_digest target kind o work s).1
            target
    unfolding sign_in
    sign_in-Holds target kind o work s out h =
        let ext = extension fs_extension target in
        let enhanced = is_msi kind && o.msi_dse in
        let signed = inside work (codes "signed" ++ ext) in
        let stamped = inside work (codes "timestamped" ++ ext) in
        let final_path = inside work (codes "final.der") in
        let rechecked = inside work (codes "rechecked.der") in
        let existing = inside work (codes "existing.der") in
        let unsigned_path = inside work (codes "unsigned" ++ ext) in
        let content_path = inside work (codes "content.der") in
        let signature_path = inside work (codes "signature.der") in
        let (signed_input, e₁, h₁, q₁) =
          >>=-returned (extract_existing p o target existing kind) _ s h in
        let s₁ = (extract_existing p o target existing kind s).1 in
        let (source, e₂, h₂, q₂) =
          >>=-returned (strip_signature p o signed_input target unsigned_path) _ s₁ h₁ in
        let s₂ = (strip_signature p o signed_input target unsigned_path s₁).1 in
        let attach_here =
          attach p fs_extension fs_parent sha256 sign_digest o enhanced source content_path
            signature_path signed in
        let (indirect, e₃, h₃, q₃) = >>=-returned attach_here _ s₂ h₂ in
        let s₃ = (attach_here s₂).1 in
        let (own, first, built, at_signed, carried) =
          attach-Built p laws signature_of Stamped attacher fs_extension fs_parent sha256
            sign_digest o enhanced source content_path signature_path signed s₂ indirect e₃ in
        let (output, e₄, h₄, q₄) =
          >>=-returned (stamp p o o.no_timestamp enhanced signed stamped) _ s₃ h₃ in
        let s₄ = (stamp p o o.no_timestamp enhanced signed stamped s₃).1 in
        let (file, at_output, carries) =
          stamp-Carries p laws signature_of Stamped attacher o o.no_timestamp enhanced signed
            stamped s₃ first own output at_signed carried e₄ in
        let (certified, there) =
          finish-Certified target o enhanced work ext indirect output s₄ file at_output out
            (stamp-result p o o.no_timestamp enhanced signed stamped s₃ output e₄) h₄ in
        (
          indirect,
          own,
          file,
          ap (λ x. file_at x.1 target) (q₁ ∙ (q₂ ∙ (q₃ ∙ q₄))) ∙ there,
          certified,
          built,
          carries,
        )
