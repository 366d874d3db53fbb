-- ===== src/Examples/Commands.antt =====
-- The command line and the worker pool at concrete inputs.
use aas_sign.Base.{
  ℕ, ◌+◌, ◌*◌, ◌≤◌, is_nil, ◌<◌, ◌≡◌, refl, arith, ◌⊎◌, List, [], ◌∷◌, false, true, Option, none,
  some, String, Result, ok, err, Text, codes, bytes_eq,
}
use aas_sign.Der.Integers.{ℤ, pos}
use aas_sign.Signer.{parse_signer_tuple}
use aas_sign.Cli.{Options, initial}
use aas_sign.Cli.Args.{ready, returned, parse_args}
use aas_sign.Cli.Laws.{IsSane, parse_args-IsSane}
use aas_sign.Cli.Dispatch.{sign, flag_of, sweep, dispatch, Clean, sweep-Clean}
use aas_sign.Cli.Prepare.{prepare}
use aas_sign.Cli.Ready.{IsReady, Source, prepare-IsReady}
use aas_sign.Cli.Pool.{
  Worker, idle, signing, done, Shared, take, leave, store, Step, this, other, start, Runs, rest,
  more, workers,
}
use aas_sign.Cli.Pool.Steps.{AllDone, steps, pool_ends}
use aas_sign.Cli.Pool.Laws.{downto, pool_lem}

abbrev atoi : Text → ℤ
atoi s = pos 0

abbrev arguments : List Text
arguments =
    codes "--as" ∷ codes "eus:acct:prof" ∷ codes "a.exe" ∷ codes "--max-parallel" ∷ codes "0" ∷ []

abbrev before_args : Options
before_args = initial (codes "http://t") [] false

abbrev after_args : Options
after_args = record before_args {
  as_arg = codes "eus:acct:prof";
  files = codes "a.exe" ∷ [];
  max_parallel = 1;
}

read : parse_args atoi before_args arguments ≡ ready after_args
unfolding parse_args bytes_eq
read = refl

unknown : parse_args atoi before_args (codes "a.exe" ∷ codes "--token" ∷ []) ≡ returned 1
unfolding parse_args bytes_eq
unknown = refl

parse_args-IsSane_example : IsSane [] false after_args
parse_args-IsSane_example =
    parse_args-IsSane atoi [] false before_args arguments after_args (omega arith, tt, refl, refl)
      read

abbrev getenv : String → Option Text
getenv name = none

abbrev fetch : Text → Text → Result Text
fetch client_id tenant_id = err "not in a runner"

abbrev companion : Text → Result Text
companion path = ok (codes "/bin/osslsigncode")

abbrev prepared : Options
prepared = record after_args {
  endpoint = codes "eus.codesigning.azure.net";
  account = codes "acct";
  profile = codes "prof";
  token = codes "login";
  osslsigncode = codes "/bin/osslsigncode";
}

goes_on : prepare getenv fetch (ok (codes "login")) none companion after_args ≡ ok prepared
unfolding prepare parse_signer_tuple
goes_on = refl

prepare-IsReady_example :
    IsReady prepared
    × (companion [] ≡ ok (codes "/bin/osslsigncode"))
    × Source getenv fetch (ok (codes "login")) after_args (codes "login")
    × ((is_nil after_args.as_arg ≡ true)
        ⊎ (parse_signer_tuple after_args.as_arg
            ≡ ok (record {
              endpoint = prepared.endpoint;
              account = prepared.account;
              profile = prepared.profile;
            })))
prepare-IsReady_example =
    prepare-IsReady getenv fetch (ok (codes "login")) none companion after_args prepared goes_on

-- Two workers for one file; the second finds nothing to do.
abbrev sign_at : ℕ → ℕ
sign_at idx = idx + 7

abbrev after_take : Shared ℕ
after_take = record { next = 1; results = λ _. none; started = 0 ∷ [] }

abbrev after_leave : Shared ℕ
after_leave = record after_take { next = 2 }

run : (g : Shared ℕ) × Runs 1 sign_at (start 1 sign_at) (workers 2) g (done ∷ done ∷ [])
run = (
  _,
  more
      (more
        (more (more rest (this (idle ∷ []) (take (start 1 sign_at) (omega arith))))
          (other (signing 0) (this [] (leave after_take (omega arith)))))
        (this (done ∷ []) (store after_leave 0)))
      (this (done ∷ []) (leave _ (omega arith))),
)

pool_ends_example :
    (steps 1 sign_at run.1 ≤ 2 * 1 + 2)
    × (AllDone (done ∷ done ∷ [])
        ⊎ ((g' : Shared ℕ) × (ws' : List Worker) × Step 1 sign_at run.0 (done ∷ done ∷ []) g' ws'))
pool_ends_example = pool_ends 1 sign_at 2 run.1

pool_lem_example :
    ((j : ℕ) → j < 1 → run.0.results j ≡ some (sign_at j)) × (run.0.started ≡ downto 1)
pool_lem_example = pool_lem 1 sign_at 2 done run.1 tt

abbrev argument_line : List Text
argument_line =
    codes "sign" ∷ codes "--insecure" ∷ codes "a.exe" ∷ codes "--cacert" ∷ codes "ca" ∷ []

dispatched :
    dispatch argument_line
    ≡ sign (record {
      ca_bundle = codes "ca";
      insecure = true;
      args = codes "sign" ∷ codes "a.exe" ∷ [];
    })
unfolding dispatch bytes_eq
dispatched = refl

sweep-Clean_example : Clean (sweep [] false argument_line).args
sweep-Clean_example = sweep-Clean [] false argument_line

line-Clean : Clean (codes "sign" ∷ codes "a.exe" ∷ [])
unfolding flag_of bytes_eq
line-Clean = (refl, refl, refl)
