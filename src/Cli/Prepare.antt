-- ===== src/Cli/Prepare.antt =====
-- `sign_main` between its arguments and the first file: the signer, the saved settings, the companion
-- program, the token and what is required. An error is the exit code 1. `saved` is config.json, where
-- it is there: it may not parse, and a value may be no text; `companion` finds osslsigncode and
-- `cached_refresh` is the token of a login.
use aas_sign.Base.{
  ltb, Bool, true, false, not, ◌&&◌, List, [], ◌∷◌, length, Option, none, some, String, Result, ok,
  err, stuck, ◌>>=◌, ◌>>◌, guard, Text, is_nil, if◌then◌else◌,
}
use aas_sign.Signer.{parse_signer_tuple}
use aas_sign.Cli.{Options}

-- files.empty()
abbrev pub no_files : List Text → Bool
no_files [] = true
no_files (_ ∷ _) = false

-- Exclusive with the three options that it stands for.
unfoldable pub resolve_as : Options → Result Options
resolve_as o = if is_nil o.as_arg then ok o else (do
  guard (is_nil o.endpoint && (is_nil o.account && is_nil o.profile)) "--as is mutually exclusive"
  t ← parse_signer_tuple o.as_arg
  ok (record o { endpoint = t.endpoint; account = t.account; profile = t.profile }))

-- A field that is not set yet is read, and reading may throw.
abbrev pub fill_field : (String → Result Text) → Text → String → Result Text
fill_field value now key = if is_nil now then value key else ok now

unfoldable pub fill_profile : (String → Result Text) → Options → Options
fill_profile value o = elim (fill_field value o.profile "profile") [
  | ok s ↦ record o { profile = s }
  | err _ ↦ o
  | stuck ↦ o
]

unfoldable pub fill_account : (String → Result Text) → Options → Options
unfolding fill_profile
fill_account value o = elim (fill_field value o.account "account") [
  | ok s ↦ fill_profile value (record o { account = s })
  | err _ ↦ o
  | stuck ↦ o
]

unfoldable pub fill_endpoint : (String → Result Text) → Options → Options
unfolding fill_account
fill_endpoint value o = elim (fill_field value o.endpoint "endpoint") [
  | ok s ↦ fill_account value (record o { endpoint = s })
  | err _ ↦ o
  | stuck ↦ o
]

-- What is read before a throw stays.
unfoldable pub fill_saved : Option (Result (String → Result Text)) → Options → Options
unfolding fill_endpoint
fill_saved none o = o
fill_saved (some (ok value)) o = fill_endpoint value o
fill_saved (some (err _)) o = o
fill_saved (some stuck) o = o

unfoldable pub check_required : Options → Result Options
check_required o = do
  guard
      (not (is_nil o.endpoint)
        && (not (is_nil o.account)
            && (not (is_nil o.profile) && (not (is_nil o.token) && not (no_files o.files)))))
      "missing argument"
  guard (not (ltb 1 (length o.files) && not (is_nil o.dump_cms)))
      "--dump-cms only supported when signing a single file"
  ok o

module _ (getenv : String → Option Text) where
  -- A value of the environment, where the option is not set.
  unfoldable pub or_env : Text → String → Text
  or_env now name = if is_nil now then elim (getenv name) [ none ↦ now | some v ↦ v ] else now

  module _ (fetch : Text → Text → Result Text) (cached_refresh : Result Text) where
    unfoldable pub from_oidc : Text → Text → Text → Result Text
    from_oidc token client_id tenant_id =
        if is_nil token && (not (is_nil client_id) && not (is_nil tenant_id))
        then fetch client_id tenant_id
        else ok token

    unfoldable pub resolve_token : Options → Result Options
    unfolding or_env from_oidc
    resolve_token o = do
      let given = or_env o.token "AZURE_ACCESS_TOKEN"
      let client_id = or_env o.oidc_client_id "AZURE_CLIENT_ID"
      let tenant_id = or_env o.oidc_tenant_id "AZURE_TENANT_ID"
      token ← from_oidc given client_id tenant_id
      token' ← (if is_nil token then cached_refresh else ok token)
      ok (record o { token = token'; oidc_client_id = client_id; oidc_tenant_id = tenant_id })

    module _ (saved : Option (Result (String → Result Text))) (companion : Text → Result Text) where
      unfoldable pub prepare : Options → Result Options
      unfolding resolve_as fill_saved resolve_token check_required
      prepare o = do
        o₁ ← resolve_as o
        let o₂ = fill_saved saved o₁
        program ← companion o₂.osslsigncode
        o₃ ← resolve_token (record o₂ { osslsigncode = program })
        check_required o₃
