-- ===== src/Cli/Args.antt =====
-- The loop of `sign_main` over its arguments. `atoi` is the C library's.
use Prim.Native.Nat.{max}
use aas_sign.Base.{
  ℕ, Bool, true, false, not, ◌||◌, List, [], ◌∷◌, ◌++◌, Option, none, some, Text, is, ◌==◌,
  if◌then◌else◌,
}
use aas_sign.Der.Integers.{ℤ, pos, negsuc}
use aas_sign.Cli.{Options}

-- std::max(1, n)
unfoldable pub at_least_one : ℤ → ℕ
at_least_one (pos n) = max 1 n
at_least_one (negsuc n) = 1

-- argv[i][0] == '-'
abbrev pub is_option : Text → Bool
is_option [] = false
is_option (c ∷ _) = c == b'-'

-- An argument sets a value from the next one, or something by itself, or ends the program with an
-- exit code.
pub data Effect : Type 0 where
  takes : Options → Effect
  sets : Options → Effect
  exits : ℕ → Effect

-- The options without a value, the files, and what is none of these.
unfoldable pub plain : Options → Text → Effect
plain o arg =
    if is arg "--no-timestamp"
    then sets (record o { no_timestamp = true })
    else if is arg "--msi-dse"
    then sets (record o { msi_dse = true })
    else if is arg "--recursive"
    then sets (record o { recursive = true })
    else if is arg "--help" || is arg "-h"
    then exits 0
    else if is arg "--version"
    then exits 0
    else if not (is_option arg)
    then sets (record o { files = o.files ++ arg ∷ [] })
    else exits 1

pub data Outcome : Type 0 where
  ready : Options → Outcome
  returned : ℕ → Outcome

module _ (atoi : Text → ℤ) where
  -- The options with a value, where a next argument is there.
  unfoldable pub valued : Options → Text → Text → Option Options
  unfolding at_least_one
  valued o arg v =
      if is arg "--as"
      then some (record o { as_arg = v })
      else if is arg "--endpoint"
      then some (record o { endpoint = v })
      else if is arg "--account"
      then some (record o { account = v })
      else if is arg "--profile"
      then some (record o { profile = v })
      else if is arg "--token"
      then some (record o { token = v })
      else if is arg "--oidc-client-id"
      then some (record o { oidc_client_id = v })
      else if is arg "--oidc-tenant-id"
      then some (record o { oidc_tenant_id = v })
      else if is arg "--dump-cms"
      then some (record o { dump_cms = v })
      else if is arg "--timestamp-url"
      then some (record o { timestamp_url = v })
      else if is arg "--osslsigncode"
      then some (record o { osslsigncode = v })
      else if is arg "--max-parallel"
      then some (record o { max_parallel = at_least_one (atoi v) })
      else none

  unfoldable pub effect : Options → Text → Text → Effect
  unfolding valued plain
  effect o arg v = elim (valued o arg v) [ none ↦ plain o arg | some o' ↦ takes o' ]

  -- for (int i = 2; i < argc; i++)
  unfoldable pub parse_args : Options → List Text → Outcome
  unfolding effect plain
  parse_args o [] = ready o
  parse_args o (arg ∷ []) = elim (plain o arg) [
    | takes o' ↦ ready o'
    | sets o' ↦ ready o'
    | exits code ↦ returned code
  ]
  parse_args o (arg ∷ v ∷ rest) = elim (effect o arg v) [
    | takes o' ↦ parse_args o' rest
    | sets o' ↦ parse_args o' (v ∷ rest)
    | exits code ↦ returned code
  ]
