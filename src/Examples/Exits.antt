-- ===== src/Examples/Exits.antt =====
-- The exit status of a pool, and the result of the signing of one file.
use aas_sign.Base.{ℕ, ◌≡◌, refl, ◌<◌, ◌↔◌, arith, true, false, [], ◌∷◌, ok, none, codes, bytes_eq}
use aas_sign.Cli.{Options, initial}
use aas_sign.Cli.Pool.{
  Shared, Runs, start, workers, idle, done, signing, take, leave, store, this, other, rest, more,
}
use aas_sign.Cli.Run.{SignResult, sign_one_file, collect, summary}
use aas_sign.Cli.Exit.{Succeeded, pool_exit_iff, Reports, sign_one_file-Reports}
use aas_sign.Files.{file_at}
use aas_sign.Signing.Staged.{sign_file}
use aas_sign.Signing.Finished.{Holds}
use aas_sign.Examples.Certificates.{zeros}
use aas_sign.Examples.Toy.{
  toy, companion, rewrite, toy-IsPlatform, companion-IsTool, rewrite-IsRewriter,
  companion-IsExtractor, companion-IsAttacher, signature_of, content_of,
}
use aas_sign.Examples.Signed.{path, msix_bytes, files, fs_extension, fs_parent, sign, never, signed}

abbrev signed_at : ℕ → SignResult
signed_at idx = record { file = codes "a"; succeeded = true; error = [] }

abbrev after_take : Shared SignResult
after_take = record { next = 1; results = λ _. none; started = 0 ∷ [] }

abbrev after_leave : Shared SignResult
after_leave = record after_take { next = 2 }

run :
    (g : Shared SignResult) × Runs 1 signed_at (start 1 signed_at) (workers 2) g (done ∷ done ∷ [])
run = (
  _,
  more
      (more
        (more (more rest (this (idle ∷ []) (take (start 1 signed_at) (omega arith))))
          (other (signing 0) (this [] (leave after_take (omega arith)))))
        (this (done ∷ []) (store after_leave 0)))
      (this (done ∷ []) (leave _ (omega arith))),
)

pool_exit_iff_example :
    ((summary (collect 0 1 run.0.results)).0 ≡ 0) ↔ ((j : ℕ) → j < 1 → Succeeded (signed_at j))
pool_exit_iff_example = pool_exit_iff 1 2 signed_at run.0 done (done ∷ []) run.1 tt

abbrev cfg : Options
cfg = record (initial [] [] false) { osslsigncode = codes "osslsigncode"; no_timestamp = true }

abbrev result : SignResult
result = record { file = path; succeeded = true; error = [] }

reported :
    (sign_one_file
      (sign_file (toy companion) fs_extension fs_parent zeros sign rewrite)
      cfg
      path
      files).0
    ≡ ok result
unfolding sign_one_file
reported = rw signed refl

sign_one_file-Reports_example :
    Reports
      (λ s. Holds zeros sign signature_of content_of (λ own cms. ⊥) s path)
      path
      msix_bytes
      result
      (sign_one_file
        (sign_file (toy companion) fs_extension fs_parent zeros sign rewrite)
        cfg
        path
        files).1
unfolding file_at bytes_eq
sign_one_file-Reports_example =
    sign_one_file-Reports (toy companion) fs_extension fs_parent zeros sign signature_of content_of
      (λ own cms. ⊥) rewrite cfg path files msix_bytes result (toy-IsPlatform companion)
      companion-IsTool companion-IsExtractor companion-IsAttacher rewrite-IsRewriter refl never refl
      reported
