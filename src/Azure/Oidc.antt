-- ===== src/Azure/Oidc.antt =====
-- src/oidc.cpp: GitHub's token for the run, exchanged for Azure's. `value` is
-- `json::parse(text).value(key, "")`, and `getenv` the environment.
use aas_sign.Base.{
  ℕ, ◌≡◌, refl, List, [], ◌∷◌, ◌++◌, Bool, true, false, not, ◌&&◌, Option, none, some, String,
  Result, ok, ◌>>=◌, ◌>>◌, guard, >>=-eq-ok, ok-injective, ap, ◌∙◌, subst, arith, Text, codes,
  is_nil, ◌==◌, ◌||◌, All, IsByte, bytes_eq,
}
use aas_sign.Web.{form_encode, after, put, find, parse_query}
use aas_sign.Web.RoundTrip.{Free, IsPair, put_all, parse_query-form_encode}
use aas_sign.Azure.{HttpResponse}

pub record OidcRuntime : Type 0 where
  pub request_url : Text
  pub request_token : Text

or_empty : Option Text → Text
or_empty none = []
or_empty (some s) = s

unfoldable pub oidc_runtime : (String → Option Text) → OidcRuntime
unfolding or_empty
oidc_runtime getenv = record {
  request_url = or_empty (getenv "ACTIONS_ID_TOKEN_REQUEST_URL");
  request_token = or_empty (getenv "ACTIONS_ID_TOKEN_REQUEST_TOKEN");
}

-- '?' where the URL has none yet, '&' where it has
separator : Text → ℕ
unfolding after
separator url = elim (after b'?' url) [ none ↦ b'?' | some _ ↦ b'&' ]

unfoldable pub mint_url : Text → Text
unfolding separator
mint_url url = url ++ separator url ∷ codes "audience=api%3A%2F%2FAzureADTokenExchange"

abbrev pub oidc_pairs : Text → Text → List (Text × Text)
oidc_pairs client_id jwt =
    (codes "client_id", client_id)
    ∷ (codes "scope", codes "https://codesigning.azure.net/.default")
    ∷ (
      codes "client_assertion_type",
      codes "urn:ietf:params:oauth:client-assertion-type:jwt-bearer",
    )
    ∷ (codes "client_assertion", jwt)
    ∷ (codes "grant_type", codes "client_credentials")
    ∷ []

unfoldable pub oidc_form : Text → Text → Text
oidc_form client_id jwt = form_encode (oidc_pairs client_id jwt)

abbrev pub az_url : Text → Text
az_url tenant_id =
    codes "https://login.microsoftonline.com/" ++ (tenant_id ++ codes "/oauth2/v2.0/token")

module _ (https_get_url : Text → Text → Result HttpResponse)
    (https_post_url : Text → Text → Text → Result HttpResponse)
    (value : Text → String → Result Text) where
  -- The token of the run.
  unfoldable pub mint : OidcRuntime → Result Text
  mint r = do
    github ← https_get_url (mint_url r.request_url) r.request_token
    guard (github.status == 200) "GitHub OIDC mint failed"
    jwt ← value github.body "value"
    guard (not (is_nil jwt)) "GitHub OIDC response missing `value' field"
    ok jwt

  unfoldable pub exchange : Text → Text → Text → Result Text
  exchange client_id tenant_id jwt = do
    az ←
        https_post_url (az_url tenant_id) (codes "application/x-www-form-urlencoded")
          (oidc_form client_id jwt)
    guard (az.status == 200) "Azure token exchange failed"
    token ← value az.body "access_token"
    guard (not (is_nil token)) "Azure token response missing `access_token' field"
    ok token

  unfoldable pub oidc_fetch_azure_token : OidcRuntime → Text → Text → Result Text
  unfolding mint exchange
  oidc_fetch_azure_token r client_id tenant_id = do
    guard (not (is_nil r.request_url) && not (is_nil r.request_token))
        "OIDC requested outside of a runner"
    jwt ← mint r
    exchange client_id tenant_id jwt

  -- What a guarded bind that returned has passed.
  guard-inv :
      {A : Type 0} (b : Bool) (why : String) (m : Result A) (a : A)
      → (guard b why >> m) ≡ ok a
      → (b ≡ true) × (m ≡ ok a)
  guard-inv true why m a h = (refl, h)
  guard-inv false why m a h = cc

  -- An answer 200 whose body holds the text, which is not empty, under the key.
  abbrev pub Answered : Result HttpResponse → String → Text → Type 0
  Answered m key t =
      (resp : HttpResponse) × (m ≡ ok resp)
      × ((resp.status == 200) ≡ true)
      × (value resp.body key ≡ ok t)
      × (is_nil t ≡ false)

  last-inv :
      (missing : String) (t token : Text)
      → (guard (not (is_nil t)) missing >> ok t) ≡ ok token
      → (t ≡ token) × (is_nil token ≡ false)
  last-inv missing [] token h = cc
  last-inv missing (c ∷ t) token h =
      let e = ok-injective h in (e, subst (λ u. is_nil u ≡ false) e refl)

  answer-inv :
      (m : Result HttpResponse) (why missing key : String) (token : Text)
      → (do
        resp ← m
        guard (resp.status == 200) why
        t ← value resp.body key
        guard (not (is_nil t)) missing
        ok t)
        ≡ ok token
      → Answered m key token
  answer-inv m why missing key token h =
      let (resp, e₁, h₁) = >>=-eq-ok m _ h in
      let (e₂, h₂) = guard-inv (resp.status == 200) why _ token h₁ in
      let (t, e₃, h₃) = >>=-eq-ok (value resp.body key) _ h₂ in
      let (e₄, e₅) = last-inv missing t token h₃ in (resp, e₁, e₂, e₃ ∙ ap ok e₄, e₅)

  -- A form whose pairs a server reads as a client credential: the token of the run for a client.
  pub record IsExchange (client_id jwt form : Text) : Type 0 where
    pub grant :
        find (codes "grant_type") (parse_query (b'?' ∷ form)) ≡ some (codes "client_credentials")
    pub client : find (codes "client_id") (parse_query (b'?' ∷ form)) ≡ some client_id
    pub assertion : find (codes "client_assertion") (parse_query (b'?' ∷ form)) ≡ some jwt
    pub assertion_type :
        find (codes "client_assertion_type") (parse_query (b'?' ∷ form))
        ≡ some (codes "urn:ietf:params:oauth:client-assertion-type:jwt-bearer")
    pub scope :
        find (codes "scope") (parse_query (b'?' ∷ form))
        ≡ some (codes "https://codesigning.azure.net/.default")

  abbrev has_any : Text → Bool
  has_any [] = false
  has_any (c ∷ key) = (c == b'&' || c == b'=') || has_any key

  plain_key : (key : Text) → has_any key ≡ false → Free b'&' key × Free b'=' key
  plain_key [] h = (tt, tt)
  plain_key (c ∷ key) h =
      let (k, l) = plain_key key (ground arith) in ((ground arith, k), (ground arith, l))

  pair : (key v : Text) → has_any key ≡ false → All IsByte v → IsPair (key, v)
  pair key v h k = let (a, b) = plain_key key h in (a, b, k)

  oidc_form-IsExchange :
      (client_id jwt : Text)
      → All IsByte client_id
      → All IsByte jwt
      → IsExchange client_id jwt (oidc_form client_id jwt)
  unfolding oidc_form put find bytes_eq
  oidc_form-IsExchange client_id jwt h k =
      let pairs = oidc_pairs client_id jwt in
      let read : parse_query (b'?' ∷ form_encode pairs) ≡ put_all pairs [] =
        parse_query-form_encode [] pairs tt (
          pair (codes "client_id") client_id refl h,
          (
            pair (codes "scope") (codes "https://codesigning.azure.net/.default") refl
                (omega arith),
            (
              pair (codes "client_assertion_type")
                  (codes "urn:ietf:params:oauth:client-assertion-type:jwt-bearer") refl
                  (omega arith),
              (
                pair (codes "client_assertion") jwt refl k,
                (pair (codes "grant_type") (codes "client_credentials") refl (omega arith), tt),
              ),
            ),
          ),
        ) in
      record {
        grant = ap (find (codes "grant_type")) read ∙ refl;
        client = ap (find (codes "client_id")) read ∙ refl;
        assertion = ap (find (codes "client_assertion")) read ∙ refl;
        assertion_type = ap (find (codes "client_assertion_type")) read ∙ refl;
        scope = ap (find (codes "scope")) read ∙ refl;
      }

  -- A token that was fetched is not empty and is the `access_token` of an answer 200 at the token
  -- endpoint of the tenant to a form that a server reads as the minted token, as the assertion of the
  -- client, for the scope of signing. The minted token is not empty and is the `value` of an answer 200
  -- at the minting URL, asked with the runner's token; the runner's URL and token are not empty.
  pub oidc_fetch_azure_token-inv :
      (r : OidcRuntime) (client_id tenant_id token : Text)
      → All IsByte client_id
      → ((body : Text) (key : String) (t : Text) → value body key ≡ ok t → All IsByte t)
      → oidc_fetch_azure_token r client_id tenant_id ≡ ok token
      → (is_nil r.request_url ≡ false)
        × (is_nil r.request_token ≡ false)
        × ((jwt : Text) × (form : Text) × Answered
              (https_get_url (mint_url r.request_url) r.request_token)
              "value"
              jwt
            × IsExchange client_id jwt form
            × Answered
                (https_post_url (az_url tenant_id) (codes "application/x-www-form-urlencoded") form)
                "access_token"
                token)
  unfolding oidc_fetch_azure_token mint exchange
  oidc_fetch_azure_token-inv r client_id tenant_id token bytes values h =
      let (e, h₁) =
        guard-inv (not (is_nil r.request_url) && not (is_nil r.request_token)) _ _ token h in
      let (jwt, e₁, h₂) = >>=-eq-ok (mint r) (exchange client_id tenant_id) h₁ in
      let minted : Answered (https_get_url (mint_url r.request_url) r.request_token) "value" jwt =
        answer-inv _ _ _ "value" jwt e₁ in
      let (resp, got, accepted, read, not_empty) = minted in
      (
        ground arith,
        ground arith,
        (
          jwt,
          oidc_form client_id jwt,
          minted,
          oidc_form-IsExchange client_id jwt bytes (values resp.body "value" jwt read),
          answer-inv _ _ _ "access_token" token h₂,
        ),
      )
