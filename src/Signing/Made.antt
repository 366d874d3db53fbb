-- ===== src/Signing/Made.antt =====
-- That the signature in a signed file is the service's, attached by the companion.
use aas_sign.Base.{
  ℕ, ◌≡◌, refl, sym, ap, ◌∙◌, subst, ◌⊎◌, inl, inr, Bool, true, false, List, Option, some, Result,
  ok, ok-injective, Text,
}
use aas_sign.Azure.Sign.{AzureSignResult}
use aas_sign.Cms.Build.{cms_build_authenticode, cms_auth_attrs_hash}
use aas_sign.Cms.Extract.{cms_extract_indirect_data}
use aas_sign.Files.{Files, file_at, return, lift, Platform, ProcessResult, IsPlatform}
use aas_sign.Files.Laws.{>>=-returned}
use aas_sign.Signing.{SigningOptions, read_blob}
use aas_sign.Signing.Tool.{extract_data, attach_signature, add_timestamp, args_of, checked}
use aas_sign.Signing.Staged.{stamp, attach}
use aas_sign.Signing.Certified.{checked-ok}

-- attach-signature puts the signature that it is given into its output; add puts a timestamp on the
-- signature of its input: `Stamped` says how the two differ.
pub record IsAttacher (p : Platform) (signature_of : List ℕ → Option (List ℕ))
    (Stamped : List ℕ → List ℕ → Type 0) : Type 0 where
  pub attach_ok :
      (exe : Text) (enhanced : Bool) (sig source output : Text) (s : Files) (r : ProcessResult)
      (own : List ℕ)
      → (p.run_process exe (args_of (attach_signature enhanced sig source output)) s).0 ≡ ok r
      → r.exit_code ≡ 0
      → file_at s sig ≡ some own
      → (file : List ℕ) × (file_at
            (p.run_process exe (args_of (attach_signature enhanced sig source output)) s).1
            output
          ≡ some file)
        × (signature_of file ≡ some own)
  pub stamp_ok :
      (exe : Text) (enhanced : Bool) (o : SigningOptions) (source output : Text) (s : Files)
      (r : ProcessResult) (old own : List ℕ)
      → (p.run_process exe (args_of (add_timestamp enhanced o source output)) s).0 ≡ ok r
      → r.exit_code ≡ 0
      → file_at s source ≡ some old
      → signature_of old ≡ some own
      → (file : List ℕ) × (cms : List ℕ) × (file_at
            (p.run_process exe (args_of (add_timestamp enhanced o source output)) s).1
            output
          ≡ some file)
        × (signature_of file ≡ some cms)
        × Stamped own cms

-- The CMS that is assembled around the data from what the service answers to its digest.
abbrev pub Built : (List ℕ → List ℕ) → (List ℕ → Result AzureSignResult) → List ℕ → List ℕ → Type 0
Built sha256 sign_digest indirect own =
    (digest : List ℕ) × (answer : AzureSignResult) × (cms_auth_attrs_hash sha256 indirect
      ≡ ok digest)
    × (sign_digest digest ≡ ok answer)
    × (cms_build_authenticode sha256 indirect answer.signature answer.cert_chain_der ≡ ok own)

-- A file that carries it, with a timestamp or without.
abbrev pub Carries :
    (List ℕ → Option (List ℕ)) → (List ℕ → List ℕ → Type 0) → List ℕ → List ℕ → Type 0
Carries signature_of Stamped own file =
    (cms : List ℕ) × (signature_of file ≡ some cms) × ((cms ≡ own) ⊎ Stamped own cms)

module _ (p : Platform) (laws : IsPlatform p) (signature_of : List ℕ → Option (List ℕ))
    (Stamped : List ℕ → List ℕ → Type 0) (attacher : IsAttacher p signature_of Stamped) where
  pub attach-Built :
      (fs_extension fs_parent : Text → Text) (sha256 : List ℕ → List ℕ)
      (sign_digest : List ℕ → Result AzureSignResult) (o : SigningOptions) (enhanced : Bool)
      (source extracted signature_path output : Text) (s : Files) (indirect : List ℕ)
      → (attach p fs_extension fs_parent sha256 sign_digest o enhanced source extracted
          signature_path output s).0
        ≡ ok indirect
      → (own : List ℕ) × (file : List ℕ) × Built sha256 sign_digest indirect own
        × (file_at
              (attach p fs_extension fs_parent sha256 sign_digest o enhanced source extracted
                signature_path output s).1
              output
            ≡ some file)
        × (signature_of file ≡ some own)
  unfolding attach
  attach-Built ext parent sha256 sign_digest o enhanced source extracted signature_path output s
        indirect h =
      let (u₁, e₁, h₁, q₁) =
        >>=-returned (checked p o (extract_data enhanced source extracted)) _ s h in
      let (blob, e₂, h₂, q₂) = >>=-returned (read_blob p extracted) _ _ h₁ in
      let (idc, e₃, h₃, q₃) = >>=-returned (lift (cms_extract_indirect_data blob)) _ _ h₂ in
      let (digest, e₄, h₄, q₄) = >>=-returned (lift (cms_auth_attrs_hash sha256 idc)) _ _ h₃ in
      let (answer, e₅, h₅, q₅) = >>=-returned (lift (sign_digest digest)) _ _ h₄ in
      let (own, e₆, h₆, q₆) =
        >>=-returned
          (lift (cms_build_authenticode sha256 idc answer.signature answer.cert_chain_der)) _ _
          h₅ in
      let s₆ =
        (read_blob p extracted (checked p o (extract_data enhanced source extracted) s).1).1 in
      let (u₇, e₇, h₇, q₇) = >>=-returned (p.write_whole_file signature_path own) _ s₆ h₆ in
      let s₇ = (p.write_whole_file signature_path own s₆).1 in
      let (u₈, e₈, h₈, q₈) =
        >>=-returned (checked p o (attach_signature enhanced signature_path source output)) _ s₇
          h₇ in
      let (r, run, zero, same) =
        checked-ok p laws o (attach_signature enhanced signature_path source output) s₇ e₈ in
      let (file, there, carried) =
        attacher.attach_ok o.osslsigncode enhanced signature_path source output s₇ r own run zero
          (laws.write_whole_file_ok signature_path own s₆ e₇) in
      (
        own,
        file,
        subst (λ i. Built sha256 sign_digest i own) (ok-injective h₈) (digest, answer, e₄, e₅, e₆),
        ap (λ x. file_at x.1 output) (q₁ ∙ (q₂ ∙ (q₃ ∙ (q₄ ∙ (q₅ ∙ (q₆ ∙ (q₇ ∙ q₈)))))))
            ∙ (ap (λ t. file_at t output) same ∙ there),
        carried,
      )

  pub stamp-Carries :
      (o : SigningOptions) (no_timestamp enhanced : Bool) (output stamped : Text) (s : Files)
      (file own : List ℕ) (r : Text)
      → file_at s output ≡ some file
      → signature_of file ≡ some own
      → (stamp p o no_timestamp enhanced output stamped s).0 ≡ ok r
      → (file' : List ℕ) × (file_at (stamp p o no_timestamp enhanced output stamped s).1 r
          ≡ some file')
        × Carries signature_of Stamped own file'
  unfolding stamp
  stamp-Carries o true enhanced output stamped s file own r there carried h =
      (file, ap (file_at s) (sym (ok-injective h)) ∙ there, (own, carried, inl refl))
  stamp-Carries o false enhanced output stamped s file own r there carried h =
      let (u, e, k, q) =
        >>=-returned (checked p o (add_timestamp enhanced o output stamped)) (λ _. return stamped) s
          h in
      let (result, run, zero, same) =
        checked-ok p laws o (add_timestamp enhanced o output stamped) s e in
      let (file', cms, there', carried', is_stamped) =
        attacher.stamp_ok o.osslsigncode enhanced o output stamped s result file own run zero there
          carried in
      (
        file',
        ap (λ x. file_at x.1 r) q
            ∙ (ap (λ t. file_at t r) same
                ∙ (ap
                      (file_at
                        (p.run_process o.osslsigncode
                          (args_of (add_timestamp enhanced o output stamped)) s).1)
                      (sym (ok-injective k))
                    ∙ there')),
        (cms, carried', inr is_stamped),
      )
