-- ===== src/Examples/Requests.antt =====
-- A request at its second attempt, over a connection that takes the text in two pieces.
use aas_sign.Base.{
  ℕ, suc, ◌≡◌, refl, Bool, true, false, Bool-cases, inl, inr, is, if◌then◌else◌, String, List, [],
  ◌∷◌, ◌++◌, Option, none, some, ok, Text, codes, bytes_eq,
}
use aas_sign.Der.Integers.{pos}
use aas_sign.Azure.Urls.{HttpsUrl, parse_https_url}
use aas_sign.Http.{ClientResponse, blank_line}
use aas_sign.Http.Retry.{done}
use aas_sign.Http.Client.{
  Connection, wrote, write_wants_io, got, read_wants_io, close_notify, post_text, https_post_url,
}
use aas_sign.Http.Binary.{Socket, http_post_binary}
use aas_sign.Http.Sent.{Answered}
use aas_sign.Http.Tls.{
  Handshake, shaken, shake_again, shake_error, TlsCalls, shake, find_ca_bundle, connect,
}
use aas_sign.Http.Trusted.{IsVerifying, https_post_url-Trusted}
use aas_sign.Http.Body.{body_in, post_text-body}

abbrev response_text : Text
response_text = codes "HTTP/1.1 200 OK" ++ blank_line ++ codes "hi"

abbrev served : Connection
served = record {
  writes = wrote 30 ∷ write_wants_io ∷ wrote 200 ∷ [];
  reads = got response_text ∷ read_wants_io ∷ close_notify ∷ [];
}

-- It is opened to one host only.
abbrev handshake_with : Option Text → List Handshake
handshake_with none = []
handshake_with (some host) =
    if is host "login.example" then shake_again ∷ shaken ∷ [] else shake_error "certificate" ∷ []

abbrev net_connect : ℕ → Option String
net_connect (suc (suc attempt)) = none
net_connect _ = some "timeout"

abbrev tls : Text → ℕ → TlsCalls
tls host attempt = record {
  psa_crypto_init = none;
  ctr_drbg_seed = none;
  net_connect = λ to. net_connect attempt;
  config_defaults = none;
  crt_parse_file = λ bundle. none;
  ssl_setup = none;
  set_hostname = λ to. none;
  handshake = λ settings. handshake_with settings.hostname;
  conn = served;
}

abbrev Trusted : Text → Text → Type 0
Trusted bundle host = is host "login.example" ≡ true

tls-IsVerifying : IsVerifying Trusted tls
unfolding shake
tls-IsVerifying host bundle attempt h = elim (Bool-cases (is host "login.example")) [
  | inl e ↦ e
  | inr e ↦ absurd (refused (is host "login.example") e h)
]
  where
    refused :
        (b : Bool)
        → b ≡ false
        → shake (if b then shake_again ∷ shaken ∷ [] else shake_error "certificate" ∷ []) ≡ done tt
        → ⊥
    refused true e h = cc
    refused false e h = cc

abbrev bundle : Text
unfolding find_ca_bundle
bundle = find_ca_bundle (λ path. is path "/etc/ssl/cert.pem") [] (codes "/missing.pem")

abbrev token_url : Text
token_url = codes "https://login.example:443/token"

abbrev hi : ClientResponse
hi = record { status = pos 200; body = codes "hi" }

abbrev form : Text
form = codes "a=b"

https_post_url-Trusted_example :
    (parts : HttpsUrl) × (parse_https_url token_url ≡ ok parts)
    × Trusted bundle parts.host
    × Answered
        (connect false bundle tls parts.host
          (https_post_url (connect false bundle tls) token_url (codes "k") form).calls)
        (post_text parts (codes "k") form)
        (ok hi)
unfolding https_post_url connect find_ca_bundle bytes_eq
https_post_url-Trusted_example =
    https_post_url-Trusted Trusted tls tls-IsVerifying bundle token_url (codes "k") form hi refl

abbrev parts : HttpsUrl
parts = record { host = codes "h"; path_and_query = codes "/t" }

post_text-body_example :
    body_in (post_text parts (codes "k") (13 ∷ 10 ∷ 13 ∷ 10 ∷ [])) ≡ 13 ∷ 10 ∷ 13 ∷ 10 ∷ []
post_text-body_example =
    post_text-body parts (codes "k") (13 ∷ 10 ∷ 13 ∷ 10 ∷ []) ((λ p. cc), tt)
      ((λ p. cc), ((λ p. cc), tt)) ((λ p. cc), tt)

-- The first address refuses.
abbrev addresses : Text → Text → ℕ → Option (List (Option Socket))
addresses host port attempt =
    some (
      none
      ∷ some (record { writes = some 400 ∷ some 3 ∷ []; reads = some response_text ∷ [] })
      ∷ [])

stamped :
    (http_post_binary addresses
      (codes "tsa")
      8080
      (codes "/")
      (codes "q")
      []
      (1 ∷ 2 ∷ 3 ∷ [])).outcome
    ≡ done (ok hi)
unfolding http_post_binary
stamped = refl
