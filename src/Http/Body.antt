-- ===== src/Http/Body.antt =====
-- Where a reader finds the body of a request of src/posix.cpp: behind the first blank line.
use aas_sign.Base.{
  ℕ, zero, suc, ◌+◌, ◌/◌, ◌%◌, ◌==◌, ◌≡◌, ◌≢◌, refl, ap, ◌∙◌, Bool, true, false, not, ◌&&◌, inl,
  inr, arith, [], ◌∷◌, ◌++◌, append-nil, length, drop, Option-cases, Text, codes, ltb,
  if◌then◌else◌,
}
use aas_sign.Web.RoundTrip.{Free}
use aas_sign.Azure.Urls.{HttpsUrl}
use aas_sign.Msi.{to_string, digits}
use aas_sign.Process.{starts_with}
use aas_sign.Http.{blank_line, crlf, find_text, body_of}
use aas_sign.Http.Client.{post_text}

abbrev pub body_in : Text → Text
unfolding find_text
body_in text = body_of (find_text blank_line text) text

-- A character at which no blank line starts is passed over.
body_in-step :
    (c : ℕ) (text : Text)
    → starts_with (c ∷ text) blank_line ≡ false
    → body_in (c ∷ text) ≡ body_in text
unfolding body_in find_text
body_in-step c text h = elim (Option-cases (find_text blank_line text)) [
  | inl e ↦ rw (h, e) refl
  | inr (k, e) ↦
      let sum : suc k + 4 ≡ suc (k + 4) = omega arith in rw (h, e) (ap (λ n. drop n (c ∷ text)) sum)
]

other : (c : ℕ) (text : Text) → c ≢ 13 → starts_with (c ∷ text) blank_line ≡ false
unfolding starts_with
other c text h = ground arith

body_in-Free : (line text : Text) → Free 13 line → body_in (line ++ text) ≡ body_in text
body_in-Free [] text h = refl
body_in-Free (c ∷ line) text (h, hs) =
    body_in-step c (line ++ text) (other c (line ++ text) h) ∙ body_in-Free line text hs

-- No blank line starts in the text, whatever stands behind it.
might_start : Text → Text → Bool
might_start s [] = true
might_start [] (c ∷ needle) = true
might_start (d ∷ s) (c ∷ needle) = d == c && might_start s needle

abbrev clear : Text → Bool
unfolding might_start
clear [] = true
clear (c ∷ s) = not (might_start (c ∷ s) blank_line) && clear s

starts_with-might_start :
    (s text needle : Text) → might_start s needle ≡ false → starts_with (s ++ text) needle ≡ false
unfolding starts_with might_start
starts_with-might_start s text [] h = cc
starts_with-might_start [] text (c ∷ needle) h = cc
starts_with-might_start (d ∷ s) text (c ∷ needle) h =
    let rest = starts_with-might_start s text needle in ground (arith, rest)

body_in-clear : (s text : Text) → clear s ≡ true → body_in (s ++ text) ≡ body_in text
unfolding clear
body_in-clear [] text h = refl
body_in-clear (c ∷ s) text h =
    let start : might_start (c ∷ s) blank_line ≡ false = ground (arith, h) in
    let others : clear s ≡ true = ground (arith, h) in
    body_in-step c (s ++ text) (starts_with-might_start (c ∷ s) text blank_line start)
    ∙ body_in-clear s text others

digit : (n : ℕ) → b'0' + n % 10 ≢ 13
digit n h = absurd (omega (arith, h))

if-Free : (b : Bool) (s text : Text) → Free 13 s → Free 13 text → Free 13 (if b then s else text)
if-Free true s text h k = h
if-Free false s text h k = k

digits-Free : (k n : ℕ) (acc : Text) → Free 13 acc → Free 13 (digits k n acc)
unfolding digits
digits-Free zero n acc h = h
digits-Free (suc k) n acc h =
    let here : Free 13 ((b'0' + n % 10) ∷ acc) = (digit n, h) in
    let rest = digits-Free k (n / 10) ((b'0' + n % 10) ∷ acc) here in
    if-Free (ltb n 10) ((b'0' + n % 10) ∷ acc) (digits k (n / 10) ((b'0' + n % 10) ∷ acc)) here rest

to_string-Free : (n : ℕ) → Free 13 (to_string n)
unfolding to_string
to_string-Free n = digits-Free 20 n [] tt

body_in-here : (body : Text) → body_in (blank_line ++ body) ≡ body
unfolding find_text starts_with
body_in-here body = refl

abbrev version_to_host : Text
version_to_host = codes " HTTP/1.1" ++ crlf ++ codes "Host: "

abbrev agent_to_kind : Text
agent_to_kind =
    crlf
    ++ codes "User-Agent: aas-sign/1.0"
    ++ crlf
    ++ codes "Accept: application/json"
    ++ crlf
    ++ codes "Content-Type: "

abbrev to_length : Text
to_length = crlf ++ codes "Content-Length: "

abbrev to_close : Text
to_close = crlf ++ codes "Connection: close"

-- In the text of `https_post_url`, what stands behind the first blank line is the body, when neither the
-- host nor the path nor the content type has a carriage return.
pub post_text-body :
    (url : HttpsUrl) (content_type body : Text)
    → Free 13 url.host
    → Free 13 url.path_and_query
    → Free 13 content_type
    → body_in (post_text url content_type body) ≡ body
unfolding clear body_in
post_text-body url content_type body host path kind =
    let size = to_string (length body) in
    let at_end = to_close ++ (blank_line ++ (body ++ [])) in
    let at_size = to_length ++ (size ++ at_end) in
    let at_kind = agent_to_kind ++ (content_type ++ at_size) in
    let at_host = version_to_host ++ (url.host ++ at_kind) in
    body_in-clear (codes "POST ") (url.path_and_query ++ at_host) refl
    ∙ body_in-Free url.path_and_query at_host path
    ∙ body_in-clear version_to_host (url.host ++ at_kind) refl
    ∙ body_in-Free url.host at_kind host
    ∙ body_in-clear agent_to_kind (content_type ++ at_size) refl
    ∙ body_in-Free content_type at_size kind
    ∙ body_in-clear to_length (size ++ at_end) refl
    ∙ body_in-Free size at_end (to_string-Free (length body))
    ∙ body_in-clear to_close (blank_line ++ (body ++ [])) refl
    ∙ body_in-here (body ++ [])
    ∙ append-nil body
