-- ===== src/Http/Tls.antt =====
-- The opening of a connection in src/posix.cpp: the constructor of TlsConnection and the choice of the
-- certificates that it trusts. What the calls of the TLS library say is a parameter: none is a success.
use aas_sign.Base.{
  ℕ, Bool, true, false, not, ◌&&◌, List, [], ◌∷◌, Option, none, some, String, Text, codes, is_nil,
  if◌then◌else◌,
}
use aas_sign.Http.Retry.{Attempted, done, transient, failed}
use aas_sign.Http.Client.{and_then, Connection}

pub data AuthMode : Type 0 where
  verify_unset : AuthMode
  verify_none : AuthMode
  verify_required : AuthMode

-- A call of mbedtls_ssl_handshake: 0, tls_wants_io or tls_received_session_ticket, or an error.
pub data Handshake : Type 0 where
  shaken : Handshake
  shake_again : Handshake
  shake_error : String → Handshake

-- What the handshake goes by.
pub record TlsSettings : Type 0 where
  pub authmode : AuthMode
  pub ca_chain : Option Text
  pub hostname : Option Text

-- What the calls of one attempt return, and the connection that they open.
pub record TlsCalls : Type 0 where
  pub psa_crypto_init : Option String
  pub ctr_drbg_seed : Option String
  pub net_connect : Text → Option String
  pub config_defaults : Option String
  pub crt_parse_file : Text → Option String
  pub ssl_setup : Option String
  pub set_hostname : Text → Option String
  pub handshake : TlsSettings → List Handshake
  pub conn : Connection

-- throw std::runtime_error
abbrev pub call : Option String → Attempted (Unit {0})
call none = done tt
call (some why) = failed why

-- throw TransientNetworkError
abbrev pub network_call : Option String → Attempted (Unit {0})
network_call none = done tt
network_call (some why) = transient why

-- while ((ret = mbedtls_ssl_handshake(&ssl)) != 0)
unfoldable pub shake : List Handshake → Attempted (Unit {0})
shake [] = transient "TLS handshake"
shake (shaken ∷ calls) = done tt
shake (shake_again ∷ calls) = shake calls
shake (shake_error why ∷ calls) = transient why

abbrev pub ca_paths : List Text
ca_paths =
    codes "/etc/ssl/certs/ca-certificates.crt"
    ∷ codes "/etc/pki/tls/certs/ca-bundle.crt"
    ∷ codes "/etc/ssl/ca-bundle.pem"
    ∷ codes "/etc/ssl/cert.pem"
    ∷ codes "/etc/pki/tls/cacert.pem"
    ∷ codes "/usr/local/share/certs/ca-root-nss.crt"
    ∷ codes "/usr/local/etc/openssl@3/cert.pem"
    ∷ codes "/opt/homebrew/etc/openssl@3/cert.pem"
    ∷ []

-- Which paths stat finds.
module _ (exists : Text → Bool) where
  unfoldable pub first_path : List Text → Text
  first_path [] = []
  first_path (p ∷ paths) = if exists p then p else first_path paths

  -- What --cacert gives, and the variable SSL_CERT_FILE, which is empty when it is not set.
  unfoldable pub find_ca_bundle : Text → Text → Text
  unfolding first_path
  find_ca_bundle ca_bundle_override ssl_cert_file =
      if not (is_nil ca_bundle_override)
      then ca_bundle_override
      else if not (is_nil ssl_cert_file) && exists ssl_cert_file
      then ssl_cert_file
      else first_path ca_paths

abbrev pub configure : Bool → Text → TlsCalls → Attempted TlsSettings
configure true bundle tls =
    done (record { authmode = verify_none; ca_chain = none; hostname = none })
configure false [] tls = failed "no CA certificate bundle found"
configure false (c ∷ bundle) tls = and_then (call (tls.crt_parse_file (c ∷ bundle))) (λ u.
    done (record { authmode = verify_required; ca_chain = some (c ∷ bundle); hostname = none }))

abbrev pub named : Text → TlsSettings → TlsSettings
named host settings = record settings { hostname = some host }

unfoldable pub open_tls : Bool → Text → TlsCalls → Text → Attempted TlsSettings
unfolding shake
open_tls insecure bundle tls host = and_then (call tls.psa_crypto_init) (λ _.
    and_then (call tls.ctr_drbg_seed) (λ _. and_then (network_call (tls.net_connect host)) (λ _.
      and_then (call tls.config_defaults) (λ _.
        and_then (configure insecure bundle tls) (λ settings. and_then (call tls.ssl_setup) (λ _.
          and_then (call (tls.set_hostname host)) (λ _.
            and_then (shake (tls.handshake (named host settings)))
              (λ _. done (named host settings)))))))))

-- The connection of an attempt, as the client takes it.
unfoldable pub connect : Bool → Text → (Text → ℕ → TlsCalls) → Text → ℕ → Attempted Connection
unfolding open_tls
connect insecure bundle tls host attempt =
    and_then (open_tls insecure bundle (tls host attempt) host)
      (λ settings. done (tls host attempt).conn)
