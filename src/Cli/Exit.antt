-- ===== src/Cli/Exit.antt =====
-- What the exit status of a signing says.
use aas_sign.Base.{
  ℕ, zero, suc, ◌+◌, ◌<◌, ◌≤◌, ◌≡◌, ◌≢◌, ◌↔◌, ◌⊎◌, refl, sym, ap, ◌∙◌, subst, Bool, true, false,
  ==_iff, ◌==◌, Bool-cases, inl, inr, arith, List, [], ◌∷◌, All, Option, some, Result, ok, err,
  stuck, ok-injective, Text,
}
use aas_sign.Azure.Sign.{AzureSignResult}
use aas_sign.Cli.{Options}
use aas_sign.Cli.Pool.{Worker, Shared, Runs, start, workers}
use aas_sign.Cli.Pool.Steps.{AllDone}
use aas_sign.Cli.Pool.Laws.{pool_lem}
use aas_sign.Cli.Run.{
  SignResult, caught, sign_one_file, signing_options, or_default, collect, failures, end_of,
  counted_text, summary,
}
use aas_sign.Files.{Files, file_at, Action, Platform, IsPlatform}
use aas_sign.Signing.Staged.{sign_file}
use aas_sign.Signing.Kept.{IsTool}
use aas_sign.Signing.Certified.{IsExtractor}
use aas_sign.Signing.Made.{IsAttacher}
use aas_sign.Signing.Finished.{Holds, NeverIn}
use aas_sign.Signing.Atomic.{IsRewriter, sign_file_atomic}
use aas_sign.Signing.Correct.{sign_file-Certified}

abbrev pub Succeeded : SignResult → Type 0
Succeeded r = r.succeeded ≡ true

later : (i j : ℕ) → i ≤ j → (i == j) ≡ false → suc i ≤ j
later i j h e = ground arith

true-ne-false : true ≢ false
true-ne-false h = cc

cons-ne-nil : {r : SignResult} {results : List SignResult} → r ∷ results ≢ []
cons-ne-nil h = cc

failures_iff : (results : List SignResult) → (failures results ≡ []) ↔ All Succeeded results
unfolding failures
failures_iff [] = (λ h. tt, λ h. refl)
failures_iff (r ∷ results) =
    let (there, back) = failures_iff results in
    elim (Bool-cases r.succeeded) [
      | inl e ↦ (λ h. (e, there (rw e at h)), λ k. rw e (back k.1))
      | inr e ↦ (λ h. absurd (cons-ne-nil (rw e at h)), λ k. absurd (true-ne-false (sym k.0 ∙ e)))
    ]

end_of_iff :
    (counted : Text) (failed : List SignResult) → ((end_of counted failed).0 ≡ 0) ↔ (failed ≡ [])
end_of_iff counted [] = (λ h. refl, λ h. refl)
end_of_iff counted (f ∷ failed) = (λ h. absurd (one_ne_zero h), λ h. absurd (cons-ne-nil h))
  where
    one_ne_zero : ◌≢◌ {A = ℕ} 1 0
    one_ne_zero e = omega arith

summary_iff : (results : List SignResult) → ((summary results).0 ≡ 0) ↔ All Succeeded results
unfolding summary
summary_iff results =
    let (there, back) = end_of_iff (counted_text results) (failures results) in
    let (all, none) = failures_iff results in (λ h. all (there h), λ k. back (none k))

collect-All :
    (i n : ℕ) (results : ℕ → Option SignResult) (sign : ℕ → SignResult)
    → ((j : ℕ) → i ≤ j → j < i + n → results j ≡ some (sign j))
    → All Succeeded (collect i n results) ↔ ((j : ℕ) → i ≤ j → j < i + n → Succeeded (sign j))
unfolding collect
collect-All i zero results sign h = (λ a j l m. absurd (omega arith), λ k. tt)
collect-All i (suc n) results sign h =
    let here : or_default (results i) ≡ sign i = ap or_default (h i (omega arith) (omega arith)) in
    let (there, back) =
      collect-All (suc i) n results sign (λ j l m. h j (omega arith) (omega arith)) in
    (
      λ a j l m. elim (Bool-cases (i == j)) [
        | inl e ↦ subst (λ k. Succeeded (sign k)) ((==_iff i j).0 e) (subst Succeeded here a.0)
        | inr e ↦ there a.1 j (later i j l e) (omega arith)
      ],
      λ k. (
        subst Succeeded (sym here) (k i (omega arith) (omega arith)),
        back (λ j l m. k j (omega arith) (omega arith)),
      ),
    )

-- When several files are signed by a pool of workers and its threads have ended, however they
-- interleaved, the exit status is 0 if and only if the signing of every file has succeeded.
pub pool_exit_iff :
    (n k : ℕ) (sign : ℕ → SignResult) (g : Shared SignResult) (w : Worker) (ws : List Worker)
    → Runs n sign (start n sign) (workers k) g (w ∷ ws)
    → AllDone (w ∷ ws)
    → ((summary (collect 0 n g.results)).0 ≡ 0) ↔ ((j : ℕ) → j < n → Succeeded (sign j))
pool_exit_iff n k sign g w ws runs ended =
    let (stored, taken) = pool_lem n sign k w runs ended in
    let total : 0 + n ≡ n = omega arith in
    let (zero_all, all_zero) = summary_iff (collect 0 n g.results) in
    let (there, back) =
      collect-All 0 n g.results sign (λ j l m. stored j (subst (λ t. j < t) total m)) in
    (
      λ h j m. there (zero_all h) j (omega arith) (subst (λ t. j < t) (sym total) m),
      λ all. all_zero (back (λ j l m. all j (subst (λ t. j < t) total m))),
    )

-- What a call leaves: what was promised of one that succeeds, or the file as it was, and the result
-- says which.
abbrev pub Reports : (Files → Type 0) → Text → List ℕ → SignResult → Files → Type 0
Reports promised path b r s =
    ((r.succeeded ≡ true) × promised s) ⊎ ((r.succeeded ≡ false) × (file_at s path ≡ some b))

caught-Reports :
    (promised : Files → Type 0) (path : Text) (b : List ℕ) (done : Result (Unit {0}) × Files)
    {r : SignResult}
    → (done.0 ≡ ok tt → promised done.1)
    → (done.0 ≢ ok tt → file_at done.1 path ≡ some b)
    → (caught path done).0 ≡ ok r
    → Reports promised path b r (caught path done).1
unfolding caught
caught-Reports promised path b (ok u, s) h k e =
    inl (sym (ap (λ r. r.succeeded) (ok-injective e)), h refl)
caught-Reports promised path b (err why, s) h k e =
    inr (sym (ap (λ r. r.succeeded) (ok-injective e)), k (λ q. cc))
caught-Reports promised path b (stuck, s) h k e = cc

-- The signing of one file, with everything under it, does what its result says: a result of success
-- comes with a file whose signature is over its own content and is the CMS assembled from what the
-- service has answered, or that CMS with a timestamp, and any other result comes with the file as it
-- was; on a platform and with a companion that keep to what is promised of them, without the rewriting
-- of payloads, and with a dump that is no temporary file.
pub sign_one_file-Reports :
    (p : Platform) (fs_extension fs_parent : Text → Text) (sha256 : List ℕ → List ℕ)
    (sign_digest : List ℕ → Result AzureSignResult) (signature_of : List ℕ → Option (List ℕ))
    (content_of : Bool → List ℕ → Option (List ℕ)) (Stamped : List ℕ → List ℕ → Type 0)
    (rewrite : Text → (Text → Text → Action Bool) → Action (Unit {0})) (cfg : Options) (path : Text)
    (s : Files) (b : List ℕ) (r : SignResult)
    → IsPlatform p
    → IsTool p
    → IsExtractor p signature_of content_of
    → IsAttacher p signature_of Stamped
    → IsRewriter rewrite
    → cfg.recursive ≡ false
    → NeverIn p cfg.dump_cms
    → file_at s path ≡ some b
    → (sign_one_file (sign_file p fs_extension fs_parent sha256 sign_digest rewrite) cfg path s).0
      ≡ ok r
    → Reports
        (λ s'. Holds sha256 sign_digest signature_of content_of Stamped s' path)
        path
        b
        r
        (sign_one_file (sign_file p fs_extension fs_parent sha256 sign_digest rewrite) cfg path s).1
unfolding sign_one_file
sign_one_file-Reports p fs_extension fs_parent sha256 sign_digest signature_of content_of Stamped
      rewrite cfg path s b r laws tool extractor attacher rewriter flat never there e =
    caught-Reports (λ s'. Holds sha256 sign_digest signature_of content_of Stamped s' path) path b _
      (sign_file-Certified p fs_extension fs_parent sha256 sign_digest signature_of content_of
        Stamped rewrite path (signing_options cfg) s b laws tool extractor attacher flat never
        there)
      (sign_file_atomic p fs_extension fs_parent sha256 sign_digest rewrite path
        (signing_options cfg) s b laws tool rewriter there)
      e
