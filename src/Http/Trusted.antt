-- ===== src/Http/Trusted.antt =====
-- Whom the client of src/posix.cpp talks to.
use aas_sign.Base.{ℕ, ◌≡◌, sym, ap, ◌∙◌, false, [], ◌∷◌, none, some, ok, Text}
use aas_sign.Azure.Urls.{HttpsUrl, parse_https_url}
use aas_sign.Http.{ClientResponse}
use aas_sign.Http.Retry.{done}
use aas_sign.Http.Client.{post_text, https_post_url}
use aas_sign.Http.Sent.{done-injective, and_then-done, Answered, https_post_url-Answered}
use aas_sign.Http.Tls.{
  verify_required, TlsSettings, TlsCalls, call, network_call, shake, configure, named, open_tls,
  connect,
}

-- What the TLS library promises: a handshake that ends well under verification has shown a certificate
-- for the host that a certificate of the bundle vouches for.
abbrev pub IsVerifying {ℓ} : (Text → Text → Type ℓ) → (Text → ℕ → TlsCalls) → Type ℓ
IsVerifying Trusted tls =
    (host bundle : Text) (attempt : ℕ)
    → shake (
        (tls host attempt).handshake
          (record { authmode = verify_required; ca_chain = some bundle; hostname = some host }))
      ≡ done tt
    → Trusted bundle host

configure-done :
    (bundle : Text) (tls : TlsCalls) (settings : TlsSettings)
    → configure false bundle tls ≡ done settings
    → settings ≡ record { authmode = verify_required; ca_chain = some bundle; hostname = none }
configure-done [] tls settings h = cc
configure-done (c ∷ bundle) tls settings h =
    let (u, e, k) = and_then-done (call (tls.crt_parse_file (c ∷ bundle))) _ settings h in
    sym (done-injective k)

-- Nothing is opened without verification, the bundle and the name of the host.
open_tls-shake :
    (bundle : Text) (tls : TlsCalls) (host : Text) (settings : TlsSettings)
    → open_tls false bundle tls host ≡ done settings
    → shake (
        tls.handshake
          (record { authmode = verify_required; ca_chain = some bundle; hostname = some host }))
      ≡ done tt
unfolding open_tls
open_tls-shake bundle tls host settings h =
    let (u1, e1, h1) = and_then-done (call tls.psa_crypto_init) _ settings h in
    let (u2, e2, h2) = and_then-done (call tls.ctr_drbg_seed) _ settings h1 in
    let (u3, e3, h3) = and_then-done (network_call (tls.net_connect host)) _ settings h2 in
    let (u4, e4, h4) = and_then-done (call tls.config_defaults) _ settings h3 in
    let (s, e5, h5) = and_then-done (configure false bundle tls) _ settings h4 in
    let (u6, e6, h6) = and_then-done (call tls.ssl_setup) _ settings h5 in
    let (u7, e7, h7) = and_then-done (call (tls.set_hostname host)) _ settings h6 in
    let (u8, e8, h8) = and_then-done (shake (tls.handshake (named host s))) _ settings h7 in
    ap (λ t. shake (tls.handshake (named host t))) (sym (configure-done bundle tls s e5)) ∙ e8

module _ {ℓ} (Trusted : Text → Text → Type ℓ) (tls : Text → ℕ → TlsCalls) where
  -- Without --insecure, and with a TLS library that verifies: when `https_post_url` returns a response,
  -- the URL names a host that the bundle of certificates vouches for, and the connection of the last
  -- call is one to that host, took the text of the request whole, and gave the bytes that the response
  -- is read from.
  pub https_post_url-Trusted :
      IsVerifying Trusted tls
      → (bundle url content_type body : Text) (response : ClientResponse)
      → (https_post_url (connect false bundle tls) url content_type body).outcome
        ≡ done (ok response)
      → (parts : HttpsUrl) × (parse_https_url url ≡ ok parts)
        × Trusted bundle parts.host
        × Answered
            (connect false bundle tls parts.host
              (https_post_url (connect false bundle tls) url content_type body).calls)
            (post_text parts content_type body)
            (ok response)
  unfolding connect
  https_post_url-Trusted verifying bundle url content_type body response h =
      let (parts, read, answered) =
        https_post_url-Answered (connect false bundle tls) url content_type body response h in
      let attempt = (https_post_url (connect false bundle tls) url content_type body).calls in
      let (settings, opened, k) =
        and_then-done (open_tls false bundle (tls parts.host attempt) parts.host) _ answered.conn
          answered.is_open in
      (
        parts,
        read,
        verifying parts.host bundle attempt
            (open_tls-shake bundle (tls parts.host attempt) parts.host settings opened),
        answered,
      )
