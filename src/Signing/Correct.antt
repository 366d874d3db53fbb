-- ===== src/Signing/Correct.antt =====
-- A signing that succeeds leaves a certified file in the place of the input.
use aas_sign.Base.{
  ℕ, ◌≡◌, refl, sym, ap, ◌∙◌, subst, Bool, false, List, ◌++◌, Option, some, Result, ok, Text, codes,
}
use aas_sign.Azure.Sign.{AzureSignResult}
use aas_sign.Files.{Files, file_at, Action, Platform, IsPlatform, inside, Outside, with_temp_dir}
use aas_sign.Files.Laws.{>>=-returned, new_dir-Outside}
use aas_sign.Signing.{Kind, pe, msi, msix, SigningOptions, extension, identify}
use aas_sign.Signing.Staged.{
  sign_staged, check_dump, check_table_of, rewrite_payload, sign_in_place, sign_file,
}
use aas_sign.Signing.Kept.{IsTool, check_dump-Keeps, check_table_of-Keeps, identify-Keeps}
use aas_sign.Signing.Certified.{IsExtractor}
use aas_sign.Signing.Made.{IsAttacher}
use aas_sign.Signing.Finished.{Holds, NeverIn, sign_in-Holds}

module _ (p : Platform) (fs_extension fs_parent : Text → Text) (sha256 : List ℕ → List ℕ)
    (sign_digest : List ℕ → Result AzureSignResult) where
  module _ (laws : IsPlatform p) (tool : IsTool p) (signature_of : List ℕ → Option (List ℕ))
      (content_of : Bool → List ℕ → Option (List ℕ)) (Stamped : List ℕ → List ℕ → Type 0)
      (extractor : IsExtractor p signature_of content_of)
      (attacher : IsAttacher p signature_of Stamped) where
    Holds-removed :
        (dir : Text) (s : Files) (path : Text)
        → Outside dir path
        → Holds sha256 sign_digest signature_of content_of Stamped s path
        → Holds sha256 sign_digest signature_of content_of Stamped (p.remove_all dir s) path
    Holds-removed dir s path out (indirect, own, file, there, certified, built, carries) = (
      indirect,
      own,
      file,
      laws.remove_all_other dir s path out ∙ there,
      certified,
      built,
      carries,
    )

    -- A body in a new directory, for a path that was there before.
    with_temp_dir-Holds :
        (parent : Text) (body : Text → Action (Unit {0})) (s : Files) (path : Text) (b : List ℕ)
        → file_at s path ≡ some b
        → ((dir : Text)
            → (p.make_temp_dir parent s).0 ≡ ok dir
            → Outside dir path
            → (body dir s).0 ≡ ok tt
            → Holds sha256 sign_digest signature_of content_of Stamped (body dir s).1 path)
        → (with_temp_dir p parent body s).0 ≡ ok tt
        → Holds sha256 sign_digest signature_of content_of Stamped
            (with_temp_dir p parent body s).1
            path
    with_temp_dir-Holds parent body s path b there k h =
        let (dir, e, h₁, q) =
          >>=-returned (p.make_temp_dir parent)
            (λ dir files. let (r, files') = body dir files in (r, p.remove_all dir files')) s h in
        let out = new_dir-Outside p laws parent s dir there e in
        let same = laws.make_temp_dir_same parent s in
        let done = k dir e out (subst (λ t. (body dir t).0 ≡ ok tt) same h₁) in
        let done' =
          subst (λ t. Holds sha256 sign_digest signature_of content_of Stamped (body dir t).1 path)
            (sym same) done in
        subst (λ r. Holds sha256 sign_digest signature_of content_of Stamped r.1 path) (sym q)
          (Holds-removed dir (body dir (p.make_temp_dir parent s).1).1 path out done')

    pub sign_staged-Holds :
        (target : Text) (kind : Kind) (o : SigningOptions) (s : Files) (b : List ℕ)
        → file_at s target ≡ some b
        → NeverIn p o.dump_cms
        → (sign_staged p fs_extension fs_parent sha256 sign_digest target kind o s).0 ≡ ok tt
        → Holds sha256 sign_digest signature_of content_of Stamped
            (sign_staged p fs_extension fs_parent sha256 sign_digest target kind o s).1
            target
    unfolding sign_staged
    sign_staged-Holds target kind o s b there never h =
        with_temp_dir-Holds (fs_parent target) _ s target b there
          (λ dir e out k.
            sign_in-Holds p fs_extension fs_parent sha256 sign_digest laws tool signature_of
              content_of Stamped extractor attacher target kind o dir s (never _ s dir e) k)
          h

    module _ (rewrite : Text → (Text → Text → Action Bool) → Action (Unit {0})) (o : SigningOptions)
        (flat : o.recursive ≡ false) (never : NeverIn p o.dump_cms) where
      rewrite_none :
          (kind : Kind) (staged : Text) (s : Files)
          → (rewrite_payload p fs_extension fs_parent sha256 sign_digest rewrite kind o staged s).1
            ≡ s
      unfolding rewrite_payload
      rewrite_none pe staged s = refl
      rewrite_none msi staged s = rw flat refl
      rewrite_none msix staged s = refl

      sign_in_place-Holds :
          (path : Text) (kind : Kind) (work : Text) (s : Files) (b : List ℕ)
          → file_at s path ≡ some b
          → (sign_in_place p fs_extension fs_parent sha256 sign_digest rewrite path kind o work s).0
            ≡ ok tt
          → Holds sha256 sign_digest signature_of content_of Stamped
              (sign_in_place p fs_extension fs_parent sha256 sign_digest rewrite path kind o work
                s).1
              path
      unfolding sign_in_place
      sign_in_place-Holds path kind work s b there h =
          let staged = inside work (codes "input" ++ extension fs_extension path) in
          let (u₁, e₁, h₁, q₁) = >>=-returned (p.copy_file path staged) _ s h in
          let s₁ = (p.copy_file path staged s).1 in
          let (u₂, e₂, h₂, q₂) =
            >>=-returned
              (rewrite_payload p fs_extension fs_parent sha256 sign_digest rewrite kind o staged) _
              s₁ h₁ in
          let s₂ =
            (rewrite_payload p fs_extension fs_parent sha256 sign_digest rewrite kind o staged
              s₁).1 in
          let (u₃, e₃, h₃, q₃) =
            >>=-returned (sign_staged p fs_extension fs_parent sha256 sign_digest staged kind o) _
              s₂ h₂ in
          let s₃ = (sign_staged p fs_extension fs_parent sha256 sign_digest staged kind o s₂).1 in
          let copied =
            ap (λ t. file_at t staged) (rewrite_none kind staged s₁)
            ∙ (laws.copy_file_ok path staged s e₁ ∙ there) in
          let (indirect, own, file, k, certified, built, carries) =
            sign_staged-Holds staged kind o s₂ b copied never e₃ in
          (
            indirect,
            own,
            file,
            ap (λ x. file_at x.1 path) (q₁ ∙ (q₂ ∙ q₃)) ∙ (laws.replace_ok staged path s₃ h₃ ∙ k),
            certified,
            built,
            carries,
          )

      pub sign_file-Holds :
          (path : Text) (s : Files) (b : List ℕ)
          → file_at s path ≡ some b
          → (sign_file p fs_extension fs_parent sha256 sign_digest rewrite path o s).0 ≡ ok tt
          → Holds sha256 sign_digest signature_of content_of Stamped
              (sign_file p fs_extension fs_parent sha256 sign_digest rewrite path o s).1
              path
      unfolding sign_file
      sign_file-Holds path s b there h =
          let (u₁, e₁, h₁, q₁) = >>=-returned (check_dump p path o) _ s h in
          let s₁ = (check_dump p path o s).1 in
          let (kind, e₂, h₂, q₂) = >>=-returned (identify p fs_extension path) _ s₁ h₁ in
          let s₂ = (identify p fs_extension path s₁).1 in
          let (u₃, e₃, h₃, q₃) = >>=-returned (check_table_of p kind path) _ s₂ h₂ in
          let s₃ = (check_table_of p kind path s₂).1 in
          let k₁ = (check_dump-Keeps p laws tool o path).kept s there in
          let k₂ = (identify-Keeps p laws tool o fs_extension path).kept s₁ k₁ in
          let k₃ = (check_table_of-Keeps p laws tool o kind path).kept s₂ k₂ in
          subst (λ r. Holds sha256 sign_digest signature_of content_of Stamped r.1 path)
            (sym (q₁ ∙ (q₂ ∙ q₃)))
            (with_temp_dir-Holds _ _ s₃ path b k₃
              (λ dir e out k. sign_in_place-Holds path kind dir s₃ b k₃ k) h₃)

-- A signing that succeeds, of a file whose payloads are not to be signed, leaves in the place of the
-- input a file whose extracted signature has a signer and carries the data that the companion
-- extracts from the file itself; and this signature is the CMS that is assembled from that data and
-- from the signature and the chain that the service has answered to the digest of that data, or that
-- CMS with a timestamp. This is so on a platform that keeps to its header, with a companion that
-- writes no file but its output, whose extracting commands write what they find, whose attaching
-- command puts in the signature that it is given, and whose timestamps change it as `Stamped` says,
-- and with a dump that is in none of the private directories.
pub sign_file-Certified :
    (p : Platform) (fs_extension fs_parent : Text → Text) (sha256 : List ℕ → List ℕ)
    (sign_digest : List ℕ → Result AzureSignResult) (signature_of : List ℕ → Option (List ℕ))
    (content_of : Bool → List ℕ → Option (List ℕ)) (Stamped : List ℕ → List ℕ → Type 0)
    (rewrite : Text → (Text → Text → Action Bool) → Action (Unit {0})) (path : Text)
    (o : SigningOptions) (s : Files) (b : List ℕ)
    → IsPlatform p
    → IsTool p
    → IsExtractor p signature_of content_of
    → IsAttacher p signature_of Stamped
    → o.recursive ≡ false
    → NeverIn p o.dump_cms
    → file_at s path ≡ some b
    → (sign_file p fs_extension fs_parent sha256 sign_digest rewrite path o s).0 ≡ ok tt
    → Holds sha256 sign_digest signature_of content_of Stamped
        (sign_file p fs_extension fs_parent sha256 sign_digest rewrite path o s).1
        path
sign_file-Certified p fs_extension fs_parent sha256 sign_digest signature_of content_of Stamped
      rewrite path o s b laws tool extractor attacher flat never =
    sign_file-Holds p fs_extension fs_parent sha256 sign_digest laws tool signature_of content_of
      Stamped extractor attacher rewrite o flat never path s b
