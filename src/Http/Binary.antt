-- ===== src/Http/Binary.antt =====
-- `http_post_binary` of src/posix.cpp, with which a timestamp is fetched, over plain sockets: what the
-- calls of write and of read on a socket return, one after the other, none for an error; behind the
-- last of them they return 0. A port is not negative.
use aas_sign.Base.{
  ℕ, zero, suc, ◌==◌, not, List, [], ◌∷◌, ◌++◌, length, take, drop, Option, none, some, Result,
  Text, codes, is_nil, if◌then◌else◌,
}
use aas_sign.Msi.{to_string}
use aas_sign.Http.{ClientResponse, crlf, parse_http_response}
use aas_sign.Http.Retry.{Attempted, done, transient, Retried, retry_transient}
use aas_sign.Http.Client.{and_then, parsed, streamed}

pub record Socket : Type 0 where
  pub writes : List (Option ℕ)
  pub reads : List (Option Text)

-- for (addrinfo *a = res; a; a = a->ai_next), where an address is its socket when it connects
unfoldable pub first_open : List (Option Socket) → Option Socket
first_open [] = none
first_open (none ∷ addresses) = first_open addresses
first_open (some fd ∷ addresses) = some fd

-- The calls that are left, and the bytes that went out so far. No call writes more than it is given.
unfoldable pub write_n : List (Option ℕ) → Text → Text → Attempted (List (Option ℕ) × Text)
write_n [] [] sent = done ([], sent)
write_n [] (c ∷ data_bytes) sent = transient "write to TSA failed"
write_n (call ∷ calls) [] sent = done (call ∷ calls, sent)
write_n (none ∷ calls) (c ∷ data_bytes) sent = transient "write to TSA failed"
write_n (some zero ∷ calls) (c ∷ data_bytes) sent = transient "write to TSA failed"
write_n (some (suc n) ∷ calls) (c ∷ data_bytes) sent =
    write_n calls (drop n data_bytes) (sent ++ c ∷ take n data_bytes)

-- for (;;) { read ... }
unfoldable pub read_raw : List (Option Text) → Text → Attempted Text
read_raw [] raw = done raw
read_raw (none ∷ calls) raw = transient "read from TSA failed"
read_raw (some [] ∷ calls) raw = done raw
read_raw (some (c ∷ bytes) ∷ calls) raw = read_raw calls (raw ++ c ∷ bytes)

abbrev pub host_port : Text → ℕ → Text
host_port host port = if port == 80 then host else host ++ b':' ∷ to_string port

abbrev pub accept_header : Text → Text
accept_header accept = if not (is_nil accept) then codes "Accept: " ++ accept ++ crlf else []

abbrev pub binary_header : Text → ℕ → Text → Text → Text → Text → Text
binary_header host port path content_type accept body = streamed (
    codes "POST "
    ∷ path
    ∷ codes " HTTP/1.1"
    ∷ crlf
    ∷ codes "Host: "
    ∷ host_port host port
    ∷ crlf
    ∷ codes "User-Agent: aas-sign/1.0"
    ∷ crlf
    ∷ codes "Content-Type: "
    ∷ content_type
    ∷ crlf
    ∷ accept_header accept
    ∷ codes "Content-Length: "
    ∷ to_string (length body)
    ∷ crlf
    ∷ codes "Connection: close"
    ∷ crlf
    ∷ crlf
    ∷ [])

-- The writing of the header and then of the body, and the reading of the answer.
abbrev pub send_binary : Socket → Text → Text → Attempted (Result ClientResponse)
send_binary fd header body = and_then (write_n fd.writes header []) (λ left.
    and_then (write_n left.0 body left.1)
      (λ sent. and_then (read_raw fd.reads []) (λ raw. parsed (parse_http_response raw))))

abbrev pub connected : Option Socket → Text → Text → Attempted (Result ClientResponse)
connected none header body = transient "cannot connect"
connected (some fd) header body = send_binary fd header body

abbrev pub at_addresses :
    Option (List (Option Socket)) → Text → Text → Attempted (Result ClientResponse)
at_addresses none header body = transient "getaddrinfo"
at_addresses (some addresses) header body = connected (first_open addresses) header body

-- What getaddrinfo finds for the host and the port, in every attempt.
module _ (getaddrinfo : Text → Text → ℕ → Option (List (Option Socket))) where
  unfoldable pub http_post_binary :
      Text → ℕ → Text → Text → Text → Text → Retried (Result ClientResponse)
  unfolding to_string first_open write_n read_raw parse_http_response retry_transient
  http_post_binary host port path content_type accept body =
      retry_transient
        (λ attempt.
          at_addresses (getaddrinfo host (to_string port) attempt)
            (binary_header host port path content_type accept body) body)
        3
