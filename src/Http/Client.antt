-- ===== src/Http/Client.antt =====
-- The HTTP client of src/posix.cpp over its connections. A connection is what the calls of the TLS
-- library or of the system on it return, one after the other; behind the last of them it is closed.
use aas_sign.Base.{
  ℕ, zero, suc, List, [], ◌∷◌, ◌++◌, length, take, drop, Option, none, some, Result, ok, err, stuck,
  String, Text, codes,
}
use aas_sign.Azure.Urls.{HttpsUrl, parse_https_url}
use aas_sign.Msi.{to_string}
use aas_sign.Http.{ClientResponse, crlf, parse_http_response, request_text}
use aas_sign.Http.Retry.{Attempted, done, transient, failed, Retried, retry_transient}

module _ {ℓ κ} {A : Type ℓ} {B : Type κ} where
  -- One step behind another, unless that one throws.
  abbrev pub and_then : Attempted A → (A → Attempted B) → Attempted B
  and_then (done a) f = f a
  and_then (transient why) f = transient why
  and_then (failed why) f = failed why

-- A call of mbedtls_ssl_write: so many bytes went out, tls_wants_io, tls_received_session_ticket, or an
-- error.
pub data SslWrite : Type 0 where
  wrote : ℕ → SslWrite
  write_wants_io : SslWrite
  write_ticket : SslWrite
  write_error : String → SslWrite

-- A call of mbedtls_ssl_read: bytes have come, tls_wants_io or tls_received_session_ticket, the peer
-- has closed, or an error.
pub data SslRead : Type 0 where
  got : Text → SslRead
  read_wants_io : SslRead
  close_notify : SslRead
  read_error : String → SslRead

pub record Connection : Type 0 where
  pub writes : List SslWrite
  pub reads : List SslRead

-- while (remaining > 0), with the bytes that went out so far. No call writes more than it is given.
unfoldable pub write_all : List SslWrite → Text → Text → Attempted Text
write_all [] [] sent = done sent
write_all [] (c ∷ data_bytes) sent = transient "ssl_write: connection closed without progress"
write_all (call ∷ calls) [] sent = done sent
write_all (wrote zero ∷ calls) (c ∷ data_bytes) sent =
    transient "ssl_write: connection closed without progress"
write_all (wrote (suc n) ∷ calls) (c ∷ data_bytes) sent =
    write_all calls (drop n data_bytes) (sent ++ c ∷ take n data_bytes)
write_all (write_wants_io ∷ calls) (c ∷ data_bytes) sent = write_all calls (c ∷ data_bytes) sent
write_all (write_ticket ∷ calls) (c ∷ data_bytes) sent =
    transient "ssl_write interrupted by TLS session ticket"
write_all (write_error why ∷ calls) (c ∷ data_bytes) sent = transient why

unfoldable pub read_all : List SslRead → Text → Attempted Text
read_all [] result = done result
read_all (got [] ∷ calls) result = done result
read_all (got (c ∷ bytes) ∷ calls) result = read_all calls (result ++ c ∷ bytes)
read_all (read_wants_io ∷ calls) result = read_all calls result
read_all (close_notify ∷ calls) result = done result
read_all (read_error why ∷ calls) result = transient why

-- parse_http_response throws std::runtime_error only; where it does not return, nothing follows.
abbrev pub parsed : Result ClientResponse → Attempted (Result ClientResponse)
parsed (ok response) = done (ok response)
parsed (err why) = failed why
parsed stuck = done stuck

-- The constructor of TlsConnection, the writing of a request and the reading of its answer.
abbrev pub exchange : Attempted Connection → Text → Attempted (Result ClientResponse)
exchange opened text = and_then opened (λ conn.
    and_then (write_all conn.writes text [])
      (λ sent. and_then (read_all conn.reads []) (λ raw. parsed (parse_http_response raw))))

-- req << ...
abbrev pub streamed : List Text → Text
streamed [] = []
streamed (piece ∷ pieces) = piece ++ streamed pieces

abbrev pub get_text : HttpsUrl → Text → Text
get_text url bearer_token = streamed (
    codes "GET "
    ∷ url.path_and_query
    ∷ codes " HTTP/1.1"
    ∷ crlf
    ∷ codes "Host: "
    ∷ url.host
    ∷ crlf
    ∷ codes "User-Agent: aas-sign/1.0"
    ∷ crlf
    ∷ codes "Accept: application/json"
    ∷ crlf
    ∷ codes "Authorization: Bearer "
    ∷ bearer_token
    ∷ crlf
    ∷ codes "Connection: close"
    ∷ crlf
    ∷ crlf
    ∷ [])

abbrev pub post_text : HttpsUrl → Text → Text → Text
post_text url content_type body = streamed (
    codes "POST "
    ∷ url.path_and_query
    ∷ codes " HTTP/1.1"
    ∷ crlf
    ∷ codes "Host: "
    ∷ url.host
    ∷ crlf
    ∷ codes "User-Agent: aas-sign/1.0"
    ∷ crlf
    ∷ codes "Accept: application/json"
    ∷ crlf
    ∷ codes "Content-Type: "
    ∷ content_type
    ∷ crlf
    ∷ codes "Content-Length: "
    ∷ to_string (length body)
    ∷ crlf
    ∷ codes "Connection: close"
    ∷ crlf
    ∷ crlf
    ∷ body
    ∷ [])

-- The connection of an attempt to a host.
module _ (connect : Text → ℕ → Attempted Connection) where
  -- The attempt is at a URL, when it can be read.
  abbrev pub at_url : Result HttpsUrl → (HttpsUrl → Text) → ℕ → Attempted (Result ClientResponse)
  at_url (ok url) text attempt = exchange (connect url.host attempt) (text url)
  at_url (err why) text attempt = failed why
  at_url stuck text attempt = done stuck

  unfoldable pub do_request :
      Text → Text → Text → Text → Option Text → ℕ → Attempted (Result ClientResponse)
  unfolding write_all read_all parse_http_response request_text
  do_request host method path bearer_token body attempt =
      exchange (connect host attempt) (request_text host method path bearer_token body)

  unfoldable pub https_post : Text → Text → Text → Text → Retried (Result ClientResponse)
  unfolding do_request retry_transient
  https_post host path bearer_token json_body =
      retry_transient (do_request host (codes "POST") path bearer_token (some json_body)) 3

  unfoldable pub https_get : Text → Text → Text → Retried (Result ClientResponse)
  unfolding do_request retry_transient
  https_get host path bearer_token =
      retry_transient (do_request host (codes "GET") path bearer_token none) 3

  unfoldable pub https_get_url : Text → Text → Retried (Result ClientResponse)
  unfolding parse_https_url write_all read_all parse_http_response retry_transient
  https_get_url url bearer_token =
      retry_transient (at_url (parse_https_url url) (λ parts. get_text parts bearer_token)) 3

  unfoldable pub https_post_url : Text → Text → Text → Retried (Result ClientResponse)
  unfolding parse_https_url to_string write_all read_all parse_http_response retry_transient
  https_post_url url content_type body =
      retry_transient (at_url (parse_https_url url) (λ parts. post_text parts content_type body)) 3
