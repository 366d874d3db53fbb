-- ===== src/Cli/Ready.antt =====
-- About the settings that `sign_main` goes on with.
use aas_sign.Base.{
  ltb, ◌≡◌, refl, Bool-cases, Option-cases, sym, ◌∙◌, ap, subst, ◌⊎◌, inl, inr, arith, Bool, true,
  false, not, ◌&&◌, [], ◌∷◌, length, Option, none, some, String, Result, ok, err, stuck, ◌>>=◌,
  ◌>>◌, guard, >>=-eq-ok, ok-injective, Text, is_nil, if◌then◌else◌,
}
use aas_sign.Signer.{SignerTuple, expand_region, parse_signer_tuple}
use aas_sign.Signer.Laws.{parse_signer_tuple-inv}
use aas_sign.Web.{after}
use aas_sign.Cli.{Options}
use aas_sign.Cli.Prepare.{
  no_files, resolve_as, fill_saved, fill_endpoint, fill_account, fill_profile, check_required,
  or_env, from_oidc, resolve_token, prepare,
}

-- Everything a signing needs, and a CMS dump for one file at most.
pub record IsReady (o : Options) : Type 0 where
  pub endpoint : is_nil o.endpoint ≡ false
  pub account : is_nil o.account ≡ false
  pub profile : is_nil o.profile ≡ false
  pub token : is_nil o.token ≡ false
  pub files : no_files o.files ≡ false
  pub dump : ltb 1 (length o.files) && not (is_nil o.dump_cms) ≡ false

check_required-IsReady :
    (o : Options) {o' : Options} → check_required o ≡ ok o' → (o ≡ o') × IsReady o
unfolding check_required
check_required-IsReady o h = (
  ground arith,
  record {
    endpoint = ground arith;
    account = ground arith;
    profile = ground arith;
    token = ground arith;
    files = ground arith;
    dump = ground arith;
  },
)

fill_saved-same :
    (saved : Option (Result (String → Result Text))) (o : Options)
    → is_nil o.endpoint ≡ false
    → is_nil o.account ≡ false
    → is_nil o.profile ≡ false
    → fill_saved saved o ≡ o
unfolding fill_saved fill_endpoint fill_account fill_profile
fill_saved-same none o e a p = refl
fill_saved-same (some (err why)) o e a p = refl
fill_saved-same (some stuck) o e a p = refl
fill_saved-same (some (ok value)) o e a p =
    rw (fill_saved, fill_endpoint, e, fill_account, a, fill_profile, p) refl

-- What the token is resolved from, and the companion.
abbrev auth : Options → Text × Text × Text × Text
auth o = (o.token, o.oidc_client_id, o.oidc_tenant_id, o.osslsigncode)

fill_profile-auth :
    (value : String → Result Text) (o : Options) → auth (fill_profile value o) ≡ auth o
unfolding fill_profile
fill_profile-auth value o = ground arith

fill_account-auth :
    (value : String → Result Text) (o : Options) → auth (fill_account value o) ≡ auth o
unfolding fill_account
fill_account-auth value o = ground (arith, fill_profile-auth value)

fill_saved-auth :
    (saved : Option (Result (String → Result Text))) (o : Options)
    → auth (fill_saved saved o) ≡ auth o
unfolding fill_saved fill_endpoint
fill_saved-auth none o = refl
fill_saved-auth (some (err why)) o = refl
fill_saved-auth (some stuck) o = refl
fill_saved-auth (some (ok value)) o = ground (arith, fill_account-auth value)

expand_region-some : (region : Text) → is_nil region ≡ false → is_nil (expand_region region) ≡ false
unfolding expand_region
expand_region-some [] h = cc
expand_region-some (c ∷ region) h = elim (Option-cases (after b'.' (c ∷ region))) [
  | inl e ↦ rw (expand_region, e) refl
  | inr (rest, e) ↦ rw (expand_region, e) refl
]

guarded :
    {A : Type 0} (b : Bool) (why : String) (m : Result A) {a : A}
    → (guard b why >> m) ≡ ok a
    → m ≡ ok a
guarded true why m h = h
guarded false why m h = cc

resolve_as-tuple :
    (o o₁ : Options)
    → is_nil o.as_arg ≡ false
    → resolve_as o ≡ ok o₁
    → (t : SignerTuple) × (parse_signer_tuple o.as_arg ≡ ok t)
      × (record o { endpoint = t.endpoint; account = t.account; profile = t.profile } ≡ o₁)
unfolding resolve_as
resolve_as-tuple o o₁ n h =
    let (t, e, k) =
      >>=-eq-ok (parse_signer_tuple o.as_arg) _ (guarded _ _ _ (rw (resolve_as, n) at h)) in
    (t, e, ok-injective k)

resolve_as-auth : (o o₁ : Options) → resolve_as o ≡ ok o₁ → auth o₁ ≡ auth o
unfolding resolve_as
resolve_as-auth o o₁ h = elim (Bool-cases (is_nil o.as_arg)) [
  | inl n ↦ ap auth (sym (ok-injective (rw (resolve_as, n) at h)))
  | inr n ↦ ap auth (sym (resolve_as-tuple o o₁ n h).2)
]

tuple-eq :
    (endpoint account profile : Text) (t : SignerTuple)
    → endpoint ≡ t.endpoint
    → account ≡ t.account
    → profile ≡ t.profile
    → t ≡ record { endpoint = endpoint; account = account; profile = profile }
tuple-eq endpoint account profile t e a p = cc

module _ (getenv : String → Option Text) (fetch : Text → Text → Result Text)
    (cached_refresh : Result Text) where
  -- Where the token comes from: the option, the environment, the run's token exchanged, or a login, each
  -- only where those before it give none.
  abbrev FromAuth : Text × Text × Text × Text → Text → Type 0
  FromAuth a token =
      let given = or_env getenv a.0 "AZURE_ACCESS_TOKEN" in
      let client_id = or_env getenv a.1 "AZURE_CLIENT_ID" in
      let tenant_id = or_env getenv a.2 "AZURE_TENANT_ID" in
      ((is_nil given ≡ false) × (token ≡ given))
      ⊎ (((is_nil given ≡ true) × (fetch client_id tenant_id ≡ ok token))
          ⊎ ((is_nil given ≡ true) × (cached_refresh ≡ ok token)))

  abbrev pub Source : Options → Text → Type 0
  Source o token = FromAuth (auth o) token

  from_oidc-given :
      (given client_id tenant_id token : Text)
      → is_nil given ≡ false
      → from_oidc getenv fetch cached_refresh given client_id tenant_id ≡ ok token
      → given ≡ token
  unfolding from_oidc
  from_oidc-given given client_id tenant_id token g h = ground arith

  from_oidc-fetched :
      (given client_id tenant_id token : Text)
      → is_nil given ≡ true
      → is_nil token ≡ false
      → from_oidc getenv fetch cached_refresh given client_id tenant_id ≡ ok token
      → fetch client_id tenant_id ≡ ok token
  unfolding from_oidc
  from_oidc-fetched given client_id tenant_id token g n h = ground arith

  token-Source :
      (o : Options) (token token' : Text)
      → from_oidc getenv fetch cached_refresh
          (or_env getenv o.token "AZURE_ACCESS_TOKEN")
          (or_env getenv o.oidc_client_id "AZURE_CLIENT_ID")
          (or_env getenv o.oidc_tenant_id "AZURE_TENANT_ID")
        ≡ ok token
      → (if is_nil token then cached_refresh else ok token) ≡ ok token'
      → Source o token'
  unfolding from_oidc
  token-Source o token token' h k =
      let given = or_env getenv o.token "AZURE_ACCESS_TOKEN" in
      elim (Bool-cases (is_nil given)) [
        | inl g ↦ elim (Bool-cases (is_nil token)) [
          | inl n ↦ inr (inr (g, rw n at k))
          | inr n ↦ inr (inl (g, from_oidc-fetched given _ _ token g n h ∙ rw n at k))
        ]
        | inr g ↦
            let e = from_oidc-given given _ _ token g h in
            inl (g, sym (ok-injective (rw (sym e, g) at k)))
      ]

  resolve_token-inv :
      (o o₃ : Options)
      → resolve_token getenv fetch cached_refresh o ≡ ok o₃
      → (o₃.endpoint ≡ o.endpoint)
        × (o₃.account ≡ o.account)
        × (o₃.profile ≡ o.profile)
        × (o₃.osslsigncode ≡ o.osslsigncode)
        × Source o o₃.token
  unfolding resolve_token
  resolve_token-inv o o₃ h =
      let given = or_env getenv o.token "AZURE_ACCESS_TOKEN" in
      let client_id = or_env getenv o.oidc_client_id "AZURE_CLIENT_ID" in
      let tenant_id = or_env getenv o.oidc_tenant_id "AZURE_TENANT_ID" in
      let (token, e₁, h₁) =
        >>=-eq-ok (from_oidc getenv fetch cached_refresh given client_id tenant_id)
          (λ token. do
            token' ← (if is_nil token then cached_refresh else ok token)
            ok (record o {
              token = token';
              oidc_client_id = client_id;
              oidc_tenant_id = tenant_id;
            }))
          h in
      let (token', e₂, h₂) =
        >>=-eq-ok (if is_nil token then cached_refresh else ok token)
          (λ token'.
            ok
              (record o { token = token'; oidc_client_id = client_id; oidc_tenant_id = tenant_id }))
          h₁ in
      let e = sym (ok-injective h₂) in
      (
        ap (λ x. x.endpoint) e,
        ap (λ x. x.account) e,
        ap (λ x. x.profile) e,
        ap (λ x. x.osslsigncode) e,
        subst (λ x. Source o x.token) (sym e) (token-Source o token token' e₁ e₂),
      )

module _ (getenv : String → Option Text) (fetch : Text → Text → Result Text)
    (cached_refresh : Result Text) (saved : Option (Result (String → Result Text)))
    (companion : Text → Result Text) where
  prepare-inv :
      (o o' : Options)
      → prepare getenv fetch cached_refresh saved companion o ≡ ok o'
      → (o₁ : Options) × (program : Text) × (resolve_as o ≡ ok o₁)
        × (companion (fill_saved saved o₁).osslsigncode ≡ ok program)
        × (resolve_token getenv fetch cached_refresh
              (record (fill_saved saved o₁) { osslsigncode = program })
            ≡ ok o')
        × IsReady o'
  unfolding prepare
  prepare-inv o o' h =
      let (o₁, e₁, h₁) = >>=-eq-ok (resolve_as o) _ h in
      let o₂ = fill_saved saved o₁ in
      let (program, e₂, h₂) = >>=-eq-ok (companion o₂.osslsigncode) _ h₁ in
      let (o₃, e₃, h₃) =
        >>=-eq-ok (resolve_token getenv fetch cached_refresh (record o₂ { osslsigncode = program }))
          check_required h₂ in
      let (e, r) = check_required-IsReady o₃ h₃ in
      (o₁, program, e₁, e₂, e₃ ∙ ap ok e, subst IsReady e r)

  -- The token that `sign_main` goes on with comes from the option, the environment, the run's token
  -- exchanged, or a login, the later ones only where option and environment give none.
  prepare-Source :
      (o o' : Options)
      → prepare getenv fetch cached_refresh saved companion o ≡ ok o'
      → Source getenv fetch cached_refresh o o'.token
  prepare-Source o o' h =
      let (o₁, program, e₁, e₀, e₂, r) = prepare-inv o o' h in
      let k =
        resolve_token-inv getenv fetch cached_refresh
          (record (fill_saved saved o₁) { osslsigncode = program }) o' e₂ in
      subst (λ (a : Text × Text × Text × Text). FromAuth getenv fetch cached_refresh a o'.token)
        (fill_saved-auth saved o₁ ∙ resolve_as-auth o o₁ e₁) k.4

  -- With `--as`, the signer that `sign_main` goes on with is the tuple's, whatever config.json says.
  prepare-tuple :
      (o o' : Options)
      → is_nil o.as_arg ≡ false
      → prepare getenv fetch cached_refresh saved companion o ≡ ok o'
      → parse_signer_tuple o.as_arg
        ≡ ok (record { endpoint = o'.endpoint; account = o'.account; profile = o'.profile })
  prepare-tuple o o' n h =
      let (o₁, program, e₁, e₀, e₂, r) = prepare-inv o o' h in
      let (t, e₃, e₄) = resolve_as-tuple o o₁ n e₁ in
      let (region, s_eq, ep, p₁, p₂, p₃) = parse_signer_tuple-inv o.as_arg t e₃ in
      let k =
        resolve_token-inv getenv fetch cached_refresh
          (record (fill_saved saved o₁) { osslsigncode = program }) o' e₂ in
      let x = record o { endpoint = t.endpoint; account = t.account; profile = t.profile } in
      let some_endpoint =
        subst (λ u. is_nil u ≡ false) (sym ep) (expand_region-some region p₁.some_text) in
      let e =
        ap (fill_saved saved) (sym e₄)
        ∙ fill_saved-same saved x some_endpoint p₂.some_text p₃.some_text in
      e₃
      ∙ ap ok (
          tuple-eq o'.endpoint o'.account o'.profile t (k.0 ∙ ap (λ u. u.endpoint) e)
            (k.1 ∙ ap (λ u. u.account) e) (k.2 ∙ ap (λ u. u.profile) e))

  -- The companion that is looked for is the one of the options.
  prepare-companion :
      (o o' : Options)
      → prepare getenv fetch cached_refresh saved companion o ≡ ok o'
      → companion o.osslsigncode ≡ ok o'.osslsigncode
  prepare-companion o o' h =
      let (o₁, program, e₁, e₀, e₂, r) = prepare-inv o o' h in
      let k =
        resolve_token-inv getenv fetch cached_refresh
          (record (fill_saved saved o₁) { osslsigncode = program }) o' e₂ in
      let same =
        ap (λ (a : Text × Text × Text × Text). a.3)
          (fill_saved-auth saved o₁ ∙ resolve_as-auth o o₁ e₁) in
      ap companion (sym same) ∙ e₀ ∙ ap ok (sym k.3)

  -- Settings that `sign_main` goes on with hold an endpoint, an account, a profile, a token and a
  -- file, and a path for the CMS only with a single file. Their companion is the one that was found
  -- for the option; their token comes from the option, the environment, the run's token exchanged, or
  -- a login, the later ones only where option and environment give none; and with `--as` their signer
  -- is that of the tuple, whatever config.json says.
  pub prepare-IsReady :
      (o o' : Options)
      → prepare getenv fetch cached_refresh saved companion o ≡ ok o'
      → IsReady o'
        × (companion o.osslsigncode ≡ ok o'.osslsigncode)
        × Source getenv fetch cached_refresh o o'.token
        × ((is_nil o.as_arg ≡ true)
            ⊎ (parse_signer_tuple o.as_arg
                ≡ ok (record {
                  endpoint = o'.endpoint;
                  account = o'.account;
                  profile = o'.profile;
                })))
  prepare-IsReady o o' h =
      let (o₁, program, e₁, e₀, e₂, r) = prepare-inv o o' h in
      (
        r,
        prepare-companion o o' h,
        prepare-Source o o' h,
        elim (Bool-cases (is_nil o.as_arg)) [
          | inl n ↦ inl n
          | inr n ↦ inr (prepare-tuple o o' n h)
        ],
      )
