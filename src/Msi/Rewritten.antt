-- ===== src/Msi/Rewritten.antt =====
-- `rewrite_msi_payload` of src/msi_recursive.cpp as what `sign_file` of src/signing.cpp calls.
use aas_sign.Base.{
  ℕ, suc, ◌≡◌, ◌≢◌, refl, ap, ◌∙◌, ◌==◌, false, Bool-cases, arith, inl, inr, ok-injective, zero,
  List, [], some, ok, Text,
}
use aas_sign.Files.{Files, file_at, Action, ◌>>=◌, ◌>>◌, return, Platform, IsPlatform, Outside}
use aas_sign.Files.Laws.{
  Keeps, >>=-Keeps, >>=-Keeps_all, lift-Keeps, with_temp_dir-Keeps, >>=-returned, new_dir-Outside,
}
use aas_sign.Signing.Atomic.{IsRewriter}
use aas_sign.Msi.Database.{Packages, IsPackages, Database, renew_package_code}
use aas_sign.Msi.Unpack.{unpack}
use aas_sign.Msi.Rewrite.{
  Signer, Progress, MsiRewriteResult, sign_payloads, finish, execute_statement, rewrite_in,
  rewrite_msi_payload,
}
use aas_sign.Msi.Workspace.{>>=-KeepsThen}
use aas_sign.Msi.Contained.{unpack-KeepsThen}
use aas_sign.Msi.Rewriter.{Spares, sign_payloads-Keeps, finish-Keeps}

-- What `sign_file` passes on; the counts are for its log.
unfoldable pub rewriting : Platform → Packages → Text → Signer → Action (Unit {0})
unfolding rewrite_msi_payload
rewriting p a staged sign = do counts ← rewrite_msi_payload p a staged sign; return tt

module _ (p : Platform) (laws : IsPlatform p) (a : Packages) (packages : IsPackages a) (path : Text)
    (b : List ℕ) (staged : Text) (sign : Signer) (spares : Spares path b sign) (dir : Text)
    (out : Outside dir path) where
  rewrite_in-Keeps : path ≢ staged → Keeps path b (rewrite_in p a staged sign dir)
  unfolding rewrite_in
  rewrite_in-Keeps n = >>=-Keeps _ _ (packages.open_database-Keeps path b staged) λ db s e q.
      let database = packages.open_database-IsDatabase staged s db q in
      (>>=-KeepsThen _ _ (unpack-KeepsThen p laws a packages staged db database dir out)
        λ payloads within. record {
          kept =
              >>=-Keeps_all _ _
                (sign_payloads-Keeps p laws a packages staged db database payloads sign spares dir
                  out within)
                λ pr. finish-Keeps p laws a packages staged db database pr n;
          answer = λ s r e q. tt;
        }).kept

-- The rewriting of an installer is as `sign_file` relies on: it leaves every file that is neither the
-- installer nor a payload to be signed as it was, with the payloads, the rebuilt cabinets and all
-- else it writes in a new directory, on a platform and with a database that keep to what their
-- headers say.
pub rewriting-IsRewriter :
    (p : Platform) (a : Packages) → IsPlatform p → IsPackages a → IsRewriter (rewriting p a)
unfolding rewriting rewrite_msi_payload
rewriting-IsRewriter p a laws packages = record {
  rewrite-Keeps = λ path b staged sign n spares.
      >>=-Keeps_all _ _
        (with_temp_dir-Keeps p laws [] (rewrite_in p a staged sign)
          (λ dir out. rewrite_in-Keeps p laws a packages path b staged sign spares dir out n))
        λ counts. lift-Keeps _;
}

one_ne_none : (n : ℕ) → (n == 0) ≡ false → n ≡ 0 → ⊥
one_ne_none zero e h = cc
one_ne_none (suc n) e h = omega arith

-- The end of a rewriting returns what has been counted, and does nothing when that is no signature.
finish-returned :
    (db : Database) (pr : Progress) (s : Files) (r : MsiRewriteResult)
    → (finish db pr s).0 ≡ ok r
    → r.signed_files ≡ 0
    → (finish db pr s).1 ≡ s
unfolding finish
finish-returned db pr s r h z = elim (Bool-cases (pr.result.signed_files == 0)) [
  | inl e ↦ rw e refl
  | inr e ↦
      let h' : ((execute_statement db renew_package_code pr >>= λ renewed.
      db.commit renewed.commands >> return pr.result)
            s).0
          ≡ ok r =
        rw e at h in
      let (renewed, e₁, h₁, q₁) =
        >>=-returned (execute_statement db renew_package_code pr) _ s h' in
      let (u, e₂, h₂, q₂) = >>=-returned (db.commit renewed.commands) _ _ h₁ in
      absurd (one_ne_none pr.result.signed_files e (ap (λ x. x.signed_files) (ok-injective h₂) ∙ z))
]

module _ (p : Platform) (laws : IsPlatform p) (a : Packages) (packages : IsPackages a) (b : List ℕ)
    (staged : Text) (sign : Signer) (spares : Spares staged b sign) where
  rewrite_in-unsigned :
      (dir : Text) (s : Files) (r : MsiRewriteResult)
      → Outside dir staged
      → file_at s staged ≡ some b
      → (rewrite_in p a staged sign dir s).0 ≡ ok r
      → r.signed_files ≡ 0
      → file_at (rewrite_in p a staged sign dir s).1 staged ≡ some b
  unfolding rewrite_in
  rewrite_in-unsigned dir s r out there h z =
      let (db, e₁, h₁, q₁) = >>=-returned (a.open_database staged) _ s h in
      let database = packages.open_database-IsDatabase staged s db e₁ in
      let k₁ = (packages.open_database-Keeps staged b staged).kept s there in
      let unpacked = unpack-KeepsThen {b = b} p laws a packages staged db database dir out in
      let (payloads, e₂, h₂, q₂) = >>=-returned (unpack p a db dir) _ _ h₁ in
      let k₂ = unpacked.kept.kept _ k₁ in
      let within = unpacked.answer _ payloads k₁ e₂ in
      let (pr, e₃, h₃, q₃) = >>=-returned (sign_payloads p a db payloads sign) _ _ h₂ in
      let k₃ =
        (sign_payloads-Keeps p laws a packages staged db database payloads sign spares dir out
            within).kept
          _ k₂ in
      let same = finish-returned db pr _ r h₃ z in
      ap (λ t. file_at t.1 staged) (q₁ ∙ q₂ ∙ q₃) ∙ ap (λ t. file_at t staged) same ∙ k₃

-- A rewriting that returns and has signed no payload leaves the installer with the content it had,
-- whatever it has looked at, on a platform and with a database that keep to what their headers say,
-- when the signing of a payload does not touch the installer.
pub rewrite_msi_payload-unsigned :
    (p : Platform) (a : Packages) (b : List ℕ) (staged : Text) (sign : Signer) (s : Files)
    (r : MsiRewriteResult)
    → IsPlatform p
    → IsPackages a
    → Spares staged b sign
    → file_at s staged ≡ some b
    → (rewrite_msi_payload p a staged sign s).0 ≡ ok r
    → r.signed_files ≡ 0
    → file_at (rewrite_msi_payload p a staged sign s).1 staged ≡ some b
unfolding rewrite_msi_payload
rewrite_msi_payload-unsigned p a b staged sign s r laws packages spares there h z =
    let (dir, e, h₁, q) =
      >>=-returned (p.make_temp_dir [])
        (λ dir files.
          let (r, files') = rewrite_in p a staged sign dir files in (r, p.remove_all dir files'))
        s h in
    let out = new_dir-Outside p laws [] s dir there e in
    let there₁ = ap (λ t. file_at t staged) (laws.make_temp_dir_same [] s) ∙ there in
    ap (λ t. file_at t.1 staged) q
    ∙ laws.remove_all_other dir _ staged out
    ∙ rewrite_in-unsigned p laws a packages b staged sign spares dir _ r out there₁ h₁ z
