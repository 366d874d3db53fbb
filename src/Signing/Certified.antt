-- ===== src/Signing/Certified.antt =====
-- What a signing that succeeds has put in the place of the input.
use aas_sign.Base.{
  ℕ, length, ltb, ==_iff, ◌≡◌, ◌≢◌, refl, sym, ap, ◌∙◌, subst, Bool, true, false, not, List, Option,
  some, String, ok, Text, bytes_eq, bytes_eq→eq,
}
use aas_sign.Cms.Extract.{cms_extract_indirect_data}
use aas_sign.Cms.Signers.{cms_has_signer}
use aas_sign.Pe.{max_cms}
use aas_sign.Files.{Files, file_at, lift, return, require, Platform, ProcessResult, IsPlatform}
use aas_sign.Files.Laws.{>>=-returned}
use aas_sign.Signing.{SigningOptions, read_blob}
use aas_sign.Signing.Tool.{Command, extract_signature, extract_data, args_of, invoke, checked}
use aas_sign.Signing.Staged.{check_output}
use aas_sign.Signing.Kept.{IsTool, check_output-Keeps}

-- The two extractions of osslsigncode depend on the file alone.
pub record IsExtractor (p : Platform) (signature_of : List ℕ → Option (List ℕ))
    (content_of : Bool → List ℕ → Option (List ℕ)) : Type 0 where
  pub signature_ok :
      (exe source output : Text) (s : Files) (r : ProcessResult)
      → (p.run_process exe (args_of (extract_signature source output)) s).0 ≡ ok r
      → r.exit_code ≡ 0
      → (file : List ℕ) × (sig : List ℕ) × (file_at s source ≡ some file)
        × (signature_of file ≡ some sig)
        × (file_at (p.run_process exe (args_of (extract_signature source output)) s).1 output
            ≡ some sig)
  pub content_ok :
      (exe : Text) (enhanced : Bool) (source output : Text) (s : Files) (r : ProcessResult)
      → (p.run_process exe (args_of (extract_data enhanced source output)) s).0 ≡ ok r
      → r.exit_code ≡ 0
      → (file : List ℕ) × (content : List ℕ) × (file_at s source ≡ some file)
        × (content_of enhanced file ≡ some content)
        × (file_at (p.run_process exe (args_of (extract_data enhanced source output)) s).1 output
            ≡ some content)

-- A file with a signature that has a signer, over the same data as the file's own content, when the
-- data is what the service signed.
pub record Certified (signature_of : List ℕ → Option (List ℕ))
    (content_of : Bool → List ℕ → Option (List ℕ)) (indirect : List ℕ) (file : List ℕ)
    : Type 0 where
  pub cms : List ℕ
  pub extracted : signature_of file ≡ some cms
  pub signer : cms_has_signer cms ≡ ok true
  pub signed_data : cms_extract_indirect_data cms ≡ ok indirect
  pub enhanced : Bool
  pub content : List ℕ
  pub of_file : content_of enhanced file ≡ some content
  pub file_data : cms_extract_indirect_data content ≡ ok indirect

required :
    (test : Bool) (why : String) (s : Files) {u : Unit {0}}
    → (require test why s).0 ≡ ok u
    → test ≡ true
required true why s h = refl
required false why s h = cc

require_same : (test : Bool) (why : String) (s : Files) → (require test why s).1 ≡ s
require_same true why s = refl
require_same false why s = refl

module _ (p : Platform) (laws : IsPlatform p) (o : SigningOptions) where
  read_blob-ok :
      (q : Text) (s : Files) (blob : List ℕ)
      → (read_blob p q s).0 ≡ ok blob
      → (file_at s q ≡ some blob) × ((read_blob p q s).1 ≡ s)
  unfolding read_blob
  read_blob-ok q s blob h =
      let (bytes, e, h₁, same) = >>=-returned (p.read_file q) _ s h in
      let (u, e₂, h₂, same₂) =
        >>=-returned (require (not (ltb max_cms (length bytes))) "signature data exceeds 16 MiB")
          (λ _. return bytes) (p.read_file q s).1 h₁ in
      (
        laws.read_file_ok q s blob (e ∙ h₂),
        ap (λ x. x.1) (same ∙ same₂)
            ∙ require_same _ _ (p.read_file q s).1
            ∙ laws.read_file_same q s,
      )

  pub checked-ok :
      (c : Command) (s : Files) {u : Unit {0}}
      → (checked p o c s).0 ≡ ok u
      → (r : ProcessResult) × ((p.run_process o.osslsigncode (args_of c) s).0 ≡ ok r)
        × (r.exit_code ≡ 0)
        × ((checked p o c s).1 ≡ (p.run_process o.osslsigncode (args_of c) s).1)
  unfolding checked invoke
  checked-ok c s h =
      let (r, e, h₁, same) = >>=-returned (invoke p o c) _ s h in
      let k = (==_iff r.exit_code 0).0 (required _ _ (invoke p o c s).1 h₁) in
      (r, e, k, ap (λ x. x.1) same ∙ require_same _ _ (invoke p o c s).1)

  module _ (signature_of : List ℕ → Option (List ℕ)) (content_of : Bool → List ℕ → Option (List ℕ))
      (tool : IsTool p) (extractor : IsExtractor p signature_of content_of) where
    -- A signature that was extracted and read back.
    extracted_signature :
        (output f : Text) (s : Files) {u : Unit {0}} {cms : List ℕ}
        → output ≢ f
        → (checked p o (extract_signature output f) s).0 ≡ ok u
        → (read_blob p f (checked p o (extract_signature output f) s).1).0 ≡ ok cms
        → (file : List ℕ) × (signature_of file ≡ some cms)
          × (file_at s output ≡ some file)
          × (file_at (checked p o (extract_signature output f) s).1 output ≡ some file)
    extracted_signature output f s {cms = cms} n h k =
        let (r, e, z, same) = checked-ok (extract_signature output f) s h in
        let (file, sig, there, is_sig, written) =
          extractor.signature_ok o.osslsigncode output f s r e z in
        let found = (read_blob-ok f _ cms k).0 in
        let same_sig = ap (λ t. file_at t f) (sym same) in
        (
          file,
          is_sig ∙ (sym written ∙ (same_sig ∙ found)),
          there,
          ap (λ t. file_at t output) same
              ∙ (tool.run_other o.osslsigncode (extract_signature output f) s output n ∙ there),
        )

    extracted_content :
        (enhanced : Bool) (output f : Text) (s : Files) {u : Unit {0}} {content : List ℕ}
        → output ≢ f
        → (checked p o (extract_data enhanced output f) s).0 ≡ ok u
        → (read_blob p f (checked p o (extract_data enhanced output f) s).1).0 ≡ ok content
        → (file : List ℕ) × (content_of enhanced file ≡ some content)
          × (file_at s output ≡ some file)
          × (file_at (checked p o (extract_data enhanced output f) s).1 output ≡ some file)
    extracted_content enhanced output f s {content = content} n h k =
        let (r, e, z, same) = checked-ok (extract_data enhanced output f) s h in
        let (file, c, there, is_content, written) =
          extractor.content_ok o.osslsigncode enhanced output f s r e z in
        let found = (read_blob-ok f _ content k).0 in
        let same_content = ap (λ t. file_at t f) (sym same) in
        (
          file,
          is_content ∙ (sym written ∙ (same_content ∙ found)),
          there,
          ap (λ t. file_at t output) same
              ∙ (tool.run_other o.osslsigncode (extract_data enhanced output f) s output n ∙ there),
        )

    pub check_output-Certified :
        (enhanced : Bool) (indirect : List ℕ) (output f f' : Text) (s : Files) (cms : List ℕ)
        → output ≢ f
        → output ≢ f'
        → (check_output p o enhanced indirect output f f' s).0 ≡ ok cms
        → (file : List ℕ) × Certified signature_of content_of indirect file
          × (file_at (check_output p o enhanced indirect output f f' s).1 output ≡ some file)
    unfolding check_output
    check_output-Certified enhanced indirect output f f' s cms n n' h =
        let (u₁, e₁, h₁, q₁) = >>=-returned (checked p o (extract_signature output f)) _ s h in
        let s₁ = (checked p o (extract_signature output f) s).1 in
        let (final, e₂, h₂, q₂) = >>=-returned (read_blob p f) _ s₁ h₁ in
        let s₂ = (read_blob p f s₁).1 in
        let (signer, e₃, h₃, q₃) = >>=-returned (lift (cms_has_signer final)) _ s₂ h₂ in
        let (u₄, e₄, h₄, q₄) =
          >>=-returned (require signer "completed signature contains no signer") _ s₂ h₃ in
        let s₄ = (require signer "completed signature contains no signer" s₂).1 in
        let (final_data, e₅, h₅, q₅) =
          >>=-returned (lift (cms_extract_indirect_data final)) _ s₄ h₄ in
        let (u₆, e₆, h₆, q₆) =
          >>=-returned
            (require (bytes_eq final_data indirect) "completed signature changed the indirect data")
            _ s₄ h₅ in
        let s₆ =
          (require (bytes_eq final_data indirect) "completed signature changed the indirect data"
            s₄).1 in
        let (u₇, e₇, h₇, q₇) =
          >>=-returned (checked p o (extract_data enhanced output f')) _ s₆ h₆ in
        let s₇ = (checked p o (extract_data enhanced output f') s₆).1 in
        let (recheck, e₈, h₈, q₈) = >>=-returned (read_blob p f') _ s₇ h₇ in
        let s₈ = (read_blob p f' s₇).1 in
        let (file_data, e₉, h₉, q₉) =
          >>=-returned (lift (cms_extract_indirect_data recheck)) _ s₈ h₈ in
        let (u₀, e₀, h₀, q₀) =
          >>=-returned
            (require (bytes_eq file_data indirect) "completed file no longer matches its signature")
            _ s₈ h₉ in
        let (file, is_sig, there, after) = extracted_signature output f s n e₁ e₂ in
        let (file', is_content, there', after') =
          extracted_content enhanced output f' s₆ n' e₇ e₈ in
        let unchanged =
          require_same _ _ s₄ ∙ (require_same _ _ s₂ ∙ (read_blob-ok f s₁ final e₂).1) in
        let same_file : some file ≡ some file' =
          sym after ∙ (ap (λ t. file_at t output) (sym unchanged) ∙ there') in
        let e : file' ≡ file = cc in
        (
          file,
          record {
            cms = final;
            extracted = is_sig;
            signer = e₃ ∙ ap ok (required signer _ s₂ e₄);
            signed_data = e₅ ∙ ap ok (bytes_eq→eq final_data indirect (required _ _ s₄ e₆));
            enhanced = enhanced;
            content = recheck;
            of_file = subst (λ x. content_of enhanced x ≡ some recheck) e is_content;
            file_data = e₉ ∙ ap ok (bytes_eq→eq file_data indirect (required _ _ s₈ e₀));
          },
          (check_output-Keeps p laws tool o enhanced indirect output f f' n n').kept s there,
        )
