-- ===== src/Auth/Login.antt =====
-- `login_main` of src/auth_laptop.cpp. `browse` opens the authorization page and gives the target of
-- the request that the loopback server then gets; the random bytes and the port are parameters too.
use aas_sign.Base.{
  ℕ, ◌==◌, not, ◌&&◌, List, [], ◌∷◌, ◌++◌, Option, none, some, Result, ok, err, stuck, ◌>>=◌, ◌>>◌,
  guard, Text, codes, is_nil, bytes_eq, if◌then◌else◌,
}
use aas_sign.Base64.{base64url_encode, base64url_decode}
use aas_sign.Web.{before, after, Query, find, hex_encode, url_encode, parse_query, form_encode}
use aas_sign.Azure.{HttpResponse}
use aas_sign.Files.{Action, lift, require}
use aas_sign.Files
use aas_sign.Msi.{to_string}
use aas_sign.Auth.{Json, Disk, token_url, form_type, scope_sign, write_cache, save_signing_defaults}
use aas_sign.Auth.Options.{
  Settings, initial_settings, Parsed, go, usage, unknown, login_valued, parse_settings,
  resolve_tuple,
}

abbrev pub login_scope : Text
login_scope = scope_sign ++ codes " offline_access"

unfoldable pub redirect_uri : ℕ → Text
redirect_uri port = codes "http://localhost:" ++ to_string port

unfoldable pub authorize_url : Text → Text → Text → Text → Text → Text
authorize_url tenant client_id redirect state challenge =
    codes "https://login.microsoftonline.com/"
    ++ (tenant
        ++ (codes "/oauth2/v2.0/authorize"
            ++ (codes "?client_id="
                ++ (url_encode client_id
                    ++ (codes "&response_type=code"
                        ++ (codes "&redirect_uri="
                            ++ (url_encode redirect
                                ++ (codes "&response_mode=query"
                                    ++ (codes "&scope="
                                        ++ (url_encode login_scope
                                            ++ (codes "&state="
                                                ++ (state
                                                    ++ (codes "&code_challenge="
                                                        ++ (challenge
                                                            ++ codes
                                                            "&code_challenge_method=S256"))))))))))))))

-- The page that the browser opens.
unfoldable pub login_page : (List ℕ → List ℕ) → List ℕ → List ℕ → ℕ → Settings → Text
unfolding authorize_url redirect_uri
login_page sha256 verifier_bytes state_bytes port o =
    authorize_url o.tenant o.client_id (redirect_uri port) (hex_encode state_bytes)
      (base64url_encode (sha256 (base64url_encode verifier_bytes)))

-- What the redirect says: a code, or the exit code 1.
pub data Redirect : Type 0 where
  granted : Text → Redirect
  denied : Redirect

unfoldable pub check_state : Text → Option Text → Option Text → Redirect
check_state state none given = denied
check_state state (some code) none = denied
check_state state (some code) (some given) = if bytes_eq given state then granted code else denied

unfoldable pub redirect_of : Query → Text → Redirect
unfolding check_state find
redirect_of q state = elim (find (codes "error") q) [
  | some e ↦ denied
  | none ↦ check_state state (find (codes "code") q) (find (codes "state") q)
]

abbrev pub code_form : Text → Text → Text → Text → Text
code_form client_id code redirect verifier = form_encode (
    (codes "client_id", client_id)
    ∷ (codes "grant_type", codes "authorization_code")
    ∷ (codes "code", code)
    ∷ (codes "redirect_uri", redirect)
    ∷ (codes "code_verifier", verifier)
    ∷ (codes "scope", login_scope)
    ∷ [])

-- What is known of the user.
pub record Identity : Type 0 where
  pub tenant_id : Text
  pub oid : Text
  pub username : Text

abbrev pub nobody_known : Identity
nobody_known = record { tenant_id = []; oid = []; username = codes "unknown" }

abbrev pub home_account_id : Identity → Text
home_account_id who = if is_nil who.oid then [] else who.oid ++ b'.' ∷ who.tenant_id

module _ {J : Type 0} (json : Json J) where
  abbrev pub or_null : Result J → J
  or_null (ok j) = j
  or_null (err why) = json.null
  or_null stuck = json.null

  -- The middle part of a token, between its first two dots.
  unfoldable pub decode_jwt_payload : Text → J
  unfolding after before base64url_decode
  decode_jwt_payload jwt = elim (after b'.' jwt) [
    | none ↦ json.null
    | some rest ↦ elim (after b'.' rest) [
      | none ↦ json.null
      | some signature ↦ or_null (json.parse (base64url_decode (before b'.' rest)))
    ]
  ]

  -- The value of the next key, where there is no name yet.
  abbrev pub or_value : J → Text → Text → Result Text
  or_value claims key name = if is_nil name then json.value claims key else ok name

  unfoldable pub user_name : J → Result Text
  user_name claims = do
    preferred ← json.value claims (codes "preferred_username")
    upn ← or_value claims (codes "upn") preferred
    email ← or_value claims (codes "email") upn
    ok (if is_nil email then codes "unknown" else email)

  unfoldable pub claimed : J → Result Identity
  unfolding user_name
  claimed claims = do
    tenant_id ← json.value claims (codes "tid")
    oid ← json.value claims (codes "oid")
    username ← user_name claims
    ok (record { tenant_id = tenant_id; oid = oid; username = username })

  unfoldable pub identity_of : Text → Result Identity
  unfolding decode_jwt_payload claimed
  identity_of id_token =
      if not (is_nil id_token) && json.is_object (decode_jwt_payload id_token)
      then claimed (decode_jwt_payload id_token)
      else ok nobody_known

  unfoldable pub new_cache : Identity → Text → Text → J
  new_cache who client_id refresh_token =
      let j₁ = json.set json.null (codes "version") (json.number 1) in
      let j₂ = json.set j₁ (codes "tenant_id") (json.text who.tenant_id) in
      let j₃ = json.set j₂ (codes "client_id") (json.text client_id) in
      let j₄ = json.set j₃ (codes "home_account_id") (json.text (home_account_id who)) in
      let j₅ = json.set j₄ (codes "username") (json.text who.username) in
      json.set j₅ (codes "refresh_token") (json.text refresh_token)

  module _ (disk : Disk) where
    unfoldable pub finish_login : Settings → Text × Identity → Action ℕ
    unfolding new_cache
    finish_login o (refresh_token, who) =
        Files.◌>>=◌ (write_cache json disk (new_cache who o.client_id refresh_token)) (λ u.
          Files.◌>>=◌ (save_signing_defaults json disk o.endpoint o.account o.profile)
            (λ v. Files.return 0))

  module _ (https_post_url : Text → Text → Text → Result HttpResponse) where
    -- The code for the refresh token and what the identity token says.
    unfoldable pub exchange_code : Text → Text → Result (Text × Identity)
    unfolding identity_of token_url
    exchange_code tenant form = do
      resp ← https_post_url (token_url tenant) form_type form
      guard (resp.status == 200) "token exchange failed"
      body ← json.parse resp.body
      refresh_token ← json.value body (codes "refresh_token")
      id_token ← json.value body (codes "id_token")
      guard (not (is_nil refresh_token)) "no refresh_token in token response"
      who ← identity_of id_token
      ok (refresh_token, who)

    module _ (disk : Disk) (sha256 : List ℕ → List ℕ) (verifier_bytes state_bytes : List ℕ)
        (port : ℕ) (browse : Text → Result Text) where
      unfoldable pub login_redirected : Settings → Redirect → Action ℕ
      unfolding finish_login exchange_code
      login_redirected o denied = Files.return 1
      login_redirected o (granted code) =
          Files.◌>>=◌
            (lift (
              exchange_code o.tenant
                (code_form o.client_id code (redirect_uri port) (base64url_encode verifier_bytes))))
            (finish_login disk o)

      unfoldable pub login_go : Result Settings → Action ℕ
      unfolding login_redirected redirect_of login_page
      login_go (ok o) =
          Files.◌>>=◌ (lift (browse (login_page sha256 verifier_bytes state_bytes port o)))
            (λ target.
              login_redirected o (redirect_of (parse_query target) (hex_encode state_bytes)))
      login_go (err why) = Files.return 1
      login_go stuck = lift stuck

      unfoldable pub login_parsed : Parsed → Action ℕ
      unfolding login_go
      login_parsed usage = Files.return 0
      login_parsed (unknown arg) = Files.return 1
      login_parsed (go o) = login_go (resolve_tuple o)

      unfoldable pub login_main : List Text → Action ℕ
      unfolding login_parsed parse_settings
      login_main args = login_parsed (parse_settings login_valued args initial_settings)
