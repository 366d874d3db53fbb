-- ===== src/Auth/SignedIn.antt =====
-- A login of src/auth_laptop.cpp that succeeds, and the refresh after it.
use aas_sign.Base.{ℕ, ◌≡◌, List, ◌++◌, none, some, Result, ok, Text, codes}
use aas_sign.Base64.{base64url_encode}
use aas_sign.Web.{url_encode, hex_encode, find, parse_query}
use aas_sign.Azure.{HttpResponse}
use aas_sign.Files.{Files}
use aas_sign.Auth.{Json, Disk}
use aas_sign.Auth.Options.{Settings}
use aas_sign.Auth.Login.{login_scope, redirect_uri, code_form, Identity, exchange_code}
use aas_sign.Auth.Cached.{Cached}

-- A login that has opened the browser and exits with 0.
pub record IsLogin {J : Type 0} (json : Json J)
    (https_post_url : Text → Text → Text → Result HttpResponse) (disk : Disk)
    (sha256 : List ℕ → List ℕ) (verifier_bytes state_bytes : List ℕ) (port : ℕ)
    (browse : Text → Result Text) (o : Settings) (s' : Files) : Type 0 where
  pub target : Text
  pub page : Text
  pub front : Text
  pub sent :
      page
      ≡ front
        ++ (codes "&state="
            ++ (hex_encode state_bytes
                ++ (codes "&code_challenge="
                    ++ (base64url_encode (sha256 (base64url_encode verifier_bytes))
                        ++ codes "&code_challenge_method=S256"))))
  pub opened : browse page ≡ ok target
  pub no_error : find (codes "error") (parse_query target) ≡ none
  pub own_state : find (codes "state") (parse_query target) ≡ some (hex_encode state_bytes)
  pub code : Text
  pub given_code : find (codes "code") (parse_query target) ≡ some code
  pub refresh_token : Text
  pub who : Identity
  pub exchanged :
      exchange_code json https_post_url o.tenant
        (code_form o.client_id code (redirect_uri port) (base64url_encode verifier_bytes))
      ≡ ok (refresh_token, who)
  pub path : Text
  pub cache : J
  pub tenant : Text
  pub cached : Cached json disk s' path cache refresh_token o.client_id tenant

-- The page up to the state.
abbrev page_front : Settings → ℕ → Text
page_front o port =
    codes "https://login.microsoftonline.com/"
    ++ (o.tenant
        ++ (codes "/oauth2/v2.0/authorize?client_id="
            ++ (url_encode o.client_id
                ++ (codes "&response_type=code&redirect_uri="
                    ++ (url_encode (redirect_uri port)
                        ++ (codes "&response_mode=query&scope=" ++ url_encode login_scope))))))
