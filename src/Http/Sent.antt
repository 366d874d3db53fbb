-- ===== src/Http/Sent.antt =====
-- What the client of src/posix.cpp has sent, and to whom, when a request is answered.
use aas_sign.Base.{
  ℕ, zero, suc, ◌≡◌, refl, sym, ap, ◌∙◌, arith, List, [], ◌∷◌, ◌++◌, append-nil, append_assoc, take,
  drop, some, Result, ok, err, stuck, Text, codes,
}
use aas_sign.Azure.Urls.{HttpsUrl, parse_https_url}
use aas_sign.Http.{ClientResponse, parse_http_response, request_text}
use aas_sign.Http.Retry.{
  Attempted, done, transient, failed, retry_transient, retry_transient-IsRetried,
}
use aas_sign.Http.Client.{
  SslWrite, wrote, write_wants_io, write_ticket, write_error, Connection, and_then, write_all,
  read_all, parsed, exchange, post_text, at_url, do_request, https_post, https_post_url,
}

pub done-injective {ℓ} : {A : Type ℓ} {a b : A} → done a ≡ done b → a ≡ b
done-injective h = cc

take-drop : (n : ℕ) (xs : Text) → take n xs ++ drop n xs ≡ xs
take-drop zero xs = refl
take-drop (suc n) [] = refl
take-drop (suc n) (x ∷ xs) = ap (λ t. x ∷ t) (take-drop n xs)

pub write_all-done :
    (calls : List SslWrite) (data_bytes sent out : Text)
    → write_all calls data_bytes sent ≡ done out
    → out ≡ sent ++ data_bytes
unfolding write_all
write_all-done [] [] sent out h = done-injective (sym h) ∙ sym (append-nil sent)
write_all-done [] (c ∷ data_bytes) sent out h = cc
write_all-done (call ∷ calls) [] sent out h = done-injective (sym h) ∙ sym (append-nil sent)
write_all-done (wrote zero ∷ calls) (c ∷ data_bytes) sent out h = cc
write_all-done (wrote (suc n) ∷ calls) (c ∷ data_bytes) sent out h =
    write_all-done calls (drop n data_bytes) (sent ++ c ∷ take n data_bytes) out h
    ∙ append_assoc sent (c ∷ take n data_bytes) (drop n data_bytes)
    ∙ ap (λ t. sent ++ c ∷ t) (take-drop n data_bytes)
write_all-done (write_wants_io ∷ calls) (c ∷ data_bytes) sent out h =
    write_all-done calls (c ∷ data_bytes) sent out h
write_all-done (write_ticket ∷ calls) (c ∷ data_bytes) sent out h = cc
write_all-done (write_error why ∷ calls) (c ∷ data_bytes) sent out h = cc

module _ {ℓ κ} {A : Type ℓ} {B : Type κ} where
  pub and_then-done :
      (a : Attempted A) (f : A → Attempted B) (b : B)
      → and_then a f ≡ done b
      → (x : A) × (a ≡ done x) × (f x ≡ done b)
  and_then-done (done x) f b h = (x, refl, h)
  and_then-done (transient why) f b h = cc
  and_then-done (failed why) f b h = cc

parsed-done : (r a : Result ClientResponse) → parsed r ≡ done a → r ≡ a
parsed-done (ok response) a h = done-injective h
parsed-done (err why) a h = cc
parsed-done stuck a h = done-injective h

-- The last call is the one that returns.
answered :
    (op : ℕ → Attempted (Result ClientResponse)) (answer : Result ClientResponse)
    → (retry_transient op 3).outcome ≡ done answer
    → op (retry_transient op 3).calls ≡ done answer
answered op answer h = sym (retry_transient-IsRetried op 3 (omega arith)).outcome ∙ h

-- A connection has taken the whole text, once and in its order, and the answer is what has come back.
pub record Answered (opened : Attempted Connection) (text : Text) (answer : Result ClientResponse)
    : Type 0 where
  pub conn : Connection
  pub is_open : opened ≡ done conn
  pub sent : write_all conn.writes text [] ≡ done text
  pub raw : Text
  pub received : read_all conn.reads [] ≡ done raw
  pub read_as : parse_http_response raw ≡ answer

pub exchange-Answered :
    (opened : Attempted Connection) (text : Text) (answer : Result ClientResponse)
    → exchange opened text ≡ done answer
    → Answered opened text answer
exchange-Answered opened text answer h =
    let (conn, open_lem, h1) = and_then-done opened _ answer h in
    let (sent, sent_lem, h2) = and_then-done (write_all conn.writes text []) _ answer h1 in
    let (raw, raw_lem, h3) = and_then-done (read_all conn.reads []) _ answer h2 in
    record {
      conn = conn;
      is_open = open_lem;
      sent = sent_lem ∙ ap done (write_all-done conn.writes text [] sent sent_lem);
      raw = raw;
      received = raw_lem;
      read_as = parsed-done (parse_http_response raw) answer h3;
    }

module _ (connect : Text → ℕ → Attempted Connection) where
  -- The URL could be read, and the connection of the attempt is one to its host.
  abbrev pub UrlAnswered : Text → (HttpsUrl → Text) → ℕ → Result ClientResponse → Type 0
  UrlAnswered url text attempt answer =
      (parts : HttpsUrl) × (parse_https_url url ≡ ok parts)
      × Answered (connect parts.host attempt) (text parts) answer

  at_url-UrlAnswered :
      (read : Result HttpsUrl) (text : HttpsUrl → Text) (attempt : ℕ) (response : ClientResponse)
      → at_url connect read text attempt ≡ done (ok response)
      → (parts : HttpsUrl) × (read ≡ ok parts)
        × Answered (connect parts.host attempt) (text parts) (ok response)
  at_url-UrlAnswered (ok parts) text attempt response h =
      (parts, refl, exchange-Answered (connect parts.host attempt) (text parts) (ok response) h)
  at_url-UrlAnswered (err why) text attempt response h = cc
  at_url-UrlAnswered stuck text attempt response h = cc

  -- The response of `https_post_url` is one to its own request: the URL names a host, and the connection
  -- of the last call is one to that host, took the text of the request whole, and gave the bytes that the
  -- response is read from.
  pub https_post_url-Answered :
      (url content_type body : Text) (response : ClientResponse)
      → (https_post_url connect url content_type body).outcome ≡ done (ok response)
      → UrlAnswered url
          (λ parts. post_text parts content_type body)
          ((https_post_url connect url content_type body).calls)
          (ok response)
  unfolding https_post_url
  https_post_url-Answered url content_type body response h =
      at_url-UrlAnswered (parse_https_url url) (λ parts. post_text parts content_type body) _
        response
        (answered
          (at_url connect (parse_https_url url) (λ parts. post_text parts content_type body))
          (ok response) h)

  -- The same of `https_post` and the host that it is given.
  pub https_post-Answered :
      (host path bearer_token json_body : Text) (response : ClientResponse)
      → (https_post connect host path bearer_token json_body).outcome ≡ done (ok response)
      → Answered
          (connect host ((https_post connect host path bearer_token json_body).calls))
          (request_text host (codes "POST") path bearer_token (some json_body))
          (ok response)
  unfolding https_post do_request
  https_post-Answered host path bearer_token json_body response h =
      exchange-Answered _ _ (ok response) (
        answered (do_request connect host (codes "POST") path bearer_token (some json_body))
          (ok response) h)
