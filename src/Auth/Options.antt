-- ===== src/Auth/Options.antt =====
-- The command lines of login, config and logout in src/auth_laptop.cpp. The result of a command is its
-- exit code; usage texts and messages are left out.
use aas_sign.Base.{
  ℕ, ◌==◌, Bool, true, false, not, ◌&&◌, ◌||◌, List, [], ◌∷◌, Option, none, some, Result, ok, err,
  stuck, ◌>>=◌, ◌>>◌, guard, Text, is, is_nil, if◌then◌else◌,
}
use aas_sign.Signer.{parse_signer_tuple}
use aas_sign.Files.{Files, Action}
use aas_sign.Auth.{
  Json, Disk, default_tenant, default_client_id, cache_path, delete_cache, save_signing_defaults,
}

-- The variables of `login_main` and `config_main`.
pub record Settings : Type 0 where
  pub tenant : Text
  pub client_id : Text
  pub endpoint : Text
  pub account : Text
  pub profile : Text
  pub tuple : Text
  pub individual_flags_used : Bool

abbrev pub initial_settings : Settings
initial_settings = record {
  tenant = default_tenant;
  client_id = default_client_id;
  endpoint = [];
  account = [];
  profile = [];
  tuple = [];
  individual_flags_used = false;
}

pub data Parsed : Type 0 where
  go : Settings → Parsed
  usage : Parsed
  unknown : Text → Parsed

-- An option of config and its value.
unfoldable pub config_valued : Text → Text → Settings → Option Settings
config_valued arg v o =
    if is arg "--endpoint"
    then some (record o { endpoint = v; individual_flags_used = true })
    else if is arg "--account"
    then some (record o { account = v; individual_flags_used = true })
    else if is arg "--profile"
    then some (record o { profile = v; individual_flags_used = true })
    else none

unfoldable pub login_valued : Text → Text → Settings → Option Settings
unfolding config_valued
login_valued arg v o =
    if is arg "--tenant"
    then some (record o { tenant = v })
    else if is arg "--client-id"
    then some (record o { client_id = v })
    else config_valued arg v o

-- argv[i][0] != '-'
abbrev pub is_positional : Text → Bool
is_positional [] = true
is_positional (c ∷ arg) = not (c == b'-')

-- An argument that takes no value, or has none behind it: an end, or new settings.
unfoldable pub plain_arg : Text → Settings → Parsed
plain_arg arg o =
    if is arg "--help" || is arg "-h"
    then usage
    else if is_positional arg && is_nil o.tuple
    then go (record o { tuple = arg })
    else unknown arg

unfoldable pub parse_settings :
    (Text → Text → Settings → Option Settings) → List Text → Settings → Parsed
unfolding plain_arg
parse_settings valued [] o = go o
parse_settings valued (arg ∷ []) o = plain_arg arg o
parse_settings valued (arg ∷ v ∷ args) o = elim (valued arg v o) [
  | some o' ↦ parse_settings valued args o'
  | none ↦ elim (plain_arg arg o) [
    | go o' ↦ parse_settings valued (v ∷ args) o'
    | usage ↦ usage
    | unknown a ↦ unknown a
  ]
]

-- The positional tuple, exclusive with the three options that it stands for.
unfoldable pub resolve_tuple : Settings → Result Settings
resolve_tuple o = if is_nil o.tuple then ok o else (do
  guard (not o.individual_flags_used) "positional REGION:ACCOUNT:PROFILE is mutually exclusive"
  t ← parse_signer_tuple o.tuple
  ok (record o { endpoint = t.endpoint; account = t.account; profile = t.profile }))

-- An action, and the exit code 0 behind it.
abbrev pub exit_0 : Result (Unit {0}) × Files → Result ℕ × Files
exit_0 (ok u, s) = (ok 0, s)
exit_0 (err why, s) = (err why, s)
exit_0 (stuck, s) = (stuck, s)

module _ {J : Type 0} (json : Json J) (disk : Disk) where
  unfoldable pub config_with : Settings → Action ℕ
  config_with o s =
      if is_nil o.endpoint && (is_nil o.account && is_nil o.profile)
      then (ok 1, s)
      else exit_0 (save_signing_defaults json disk o.endpoint o.account o.profile s)

  unfoldable pub config_go : Result Settings → Action ℕ
  unfolding config_with
  config_go (ok o) s = config_with o s
  config_go (err why) s = (ok 1, s)
  config_go stuck s = (stuck, s)

  unfoldable pub config_parsed : Parsed → Action ℕ
  unfolding config_go
  config_parsed usage s = (ok 0, s)
  config_parsed (unknown arg) s = (ok 1, s)
  config_parsed (go o) s = config_go (resolve_tuple o) s

  unfoldable pub config_main : List Text → Action ℕ
  unfolding config_parsed parse_settings
  config_main args = config_parsed (parse_settings config_valued args initial_settings)

  abbrev logout_at : Result Text → Action ℕ
  logout_at (ok path) s = elim (disk.open_file path s) [
    | none ↦ (ok 0, s)
    | some b ↦ exit_0 (delete_cache json disk s)
  ]
  logout_at (err why) s = (err why, s)
  logout_at stuck s = (stuck, s)

  unfoldable pub logout_main : List Text → Action ℕ
  logout_main [] s = logout_at (cache_path json disk) s
  logout_main (arg ∷ args) s = if is arg "--help" || is arg "-h" then (ok 0, s) else (ok 1, s)
