-- ===== src/Http.antt =====
-- The HTTP client of src/posix.cpp above its connection: the text of a request, and the response that
-- is read from the bytes of an answer. Numbers are read as std::stoi and std::stoul read them.

pub mod Retry
pub mod Chunks
pub mod Endless
pub mod Client
pub mod Binary
pub mod Sent
pub mod Body
pub mod Tls
pub mod Trusted
use aas_sign.Base.{
  ℕ, zero, suc, ◌+◌, ◌-◌, ◌*◌, ◌%◌, ◌^◌, ltb, leb, ◌==◌, Bool, true, false, not, ◌&&◌, ◌||◌, List,
  [], ◌∷◌, ◌++◌, length, take, drop, Option, none, some, Result, ok, err, stuck, ◌>>=◌, ◌>>◌, guard,
  String, Text, codes, if◌then◌else◌,
}
use aas_sign.Der.Integers.{ℤ, pos, negsuc}
use aas_sign.Msi.{minus, to_string}
use aas_sign.Process.{starts_with}

pub record ClientResponse : Type 0 where
  pub status : ℤ
  pub body : Text

abbrev pub one_later : Option ℕ → Option ℕ
one_later none = none
one_later (some k) = some (suc k)

-- s.find(needle), where the needle is not empty
unfoldable pub find_text : Text → Text → Option ℕ
unfolding starts_with
find_text needle [] = none
find_text needle (c ∷ s) =
    if starts_with (c ∷ s) needle then some 0 else one_later (find_text needle s)

abbrev pub is_some : Option ℕ → Bool
is_some none = false
is_some (some k) = true

abbrev pub crlf : Text
crlf = 13 ∷ 10 ∷ []

abbrev pub blank_line : Text
blank_line = 13 ∷ 10 ∷ 13 ∷ 10 ∷ []

-- std::isspace
abbrev is_space : ℕ → Bool
is_space c = c == 32 || (leb 9 c && leb c 13)

unfoldable pub skip_spaces : Text → Text
skip_spaces [] = []
skip_spaces (c ∷ s) = if is_space c then skip_spaces s else c ∷ s

-- Whether there is a minus, and what is behind the sign.
unfoldable pub sign_of : Text → Bool × Text
sign_of [] = (false, [])
sign_of (c ∷ s) = if c == b'-' then (true, s) else if c == b'+' then (false, s) else (false, c ∷ s)

abbrev pub decimal_value : ℕ → Option ℕ
decimal_value c = if leb b'0' c && leb c b'9' then some (c - b'0') else none

abbrev pub hex_digit_value : ℕ → Option ℕ
hex_digit_value c =
    if leb b'0' c && leb c b'9'
    then some (c - b'0')
    else if leb b'a' c && leb c b'f'
    then some (c - b'a' + 10)
    else if leb b'A' c && leb c b'F'
    then some (c - b'A' + 10)
    else none

-- The digits at the front of a text, after a number that has been read.
unfoldable pub digits_from : (ℕ → Option ℕ) → ℕ → ℕ → Text → ℕ
digits_from value base n [] = n
digits_from value base n (c ∷ s) = elim (value c) [
  | none ↦ n
  | some d ↦ digits_from value base (n * base + d) s
]

-- There is a digit at least.
unfoldable pub number_of : (ℕ → Option ℕ) → ℕ → Text → Result ℕ
unfolding digits_from
number_of value base [] = err "no conversion"
number_of value base (c ∷ s) = elim (value c) [
  | none ↦ err "no conversion"
  | some d ↦ ok (digits_from value base d s)
]

-- std::stoi of a text that is too short to be out of range
unfoldable pub stoi : Text → Result ℤ
unfolding number_of sign_of skip_spaces minus
stoi text = do
  n ← number_of decimal_value 10 (sign_of (skip_spaces text)).1
  ok (if (sign_of (skip_spaces text)).0 then minus n else pos n)

-- "0x" before a digit
unfoldable pub without_prefix : Text → Text
without_prefix (a ∷ b ∷ c ∷ s) =
    if a == b'0' && (b == b'x' || b == b'X')
    then elim (hex_digit_value c) [ none ↦ a ∷ b ∷ c ∷ s | some d ↦ c ∷ s ]
    else a ∷ b ∷ c ∷ s
without_prefix s = s

-- std::stoul(text, nullptr, 16); a negative number wraps around.
unfoldable pub stoul_16 : Text → Result ℕ
unfolding number_of sign_of skip_spaces without_prefix
stoul_16 text = do
  n ← number_of hex_digit_value 16 (without_prefix (sign_of (skip_spaces text)).1)
  guard (ltb n (2 ^ 64)) "stoul"
  ok (if (sign_of (skip_spaces text)).0 then (2 ^ 64 - n) % 2 ^ 64 else n)

-- The position behind a chunk of n bytes, whose size stands in k characters; size_t wraps around.
abbrev pub behind_chunk : ℕ → ℕ → ℕ → ℕ
behind_chunk at k n = (at + k + 2 + (n + 2)) % 2 ^ 64

-- while (pos < src.size()); `stuck` is a loop that outlives its fuel.
unfoldable pub decode_chunks : ℕ → Text → ℕ → Text → Result Text
unfolding find_text stoul_16
decode_chunks zero src at decoded = stuck
decode_chunks (suc fuel) src at decoded =
    let next = decode_chunks fuel src in
    if not (ltb at (length src)) then ok decoded else elim (find_text crlf (drop at src)) [
      | none ↦ ok decoded
      | some k ↦ (do
        n ← stoul_16 (take k (drop at src))
        (if n == 0
            then ok decoded
            else next (behind_chunk at k n) (decoded ++ take n (drop (at + k + 2) src))))
    ]

abbrev pub body_of : Option ℕ → Text → Text
body_of none raw = []
body_of (some k) raw = drop (k + 4) raw

unfoldable pub is_chunked : Text → Bool
unfolding find_text
is_chunked raw =
    is_some (find_text (codes "Transfer-Encoding: chunked") raw)
    || is_some (find_text (codes "transfer-encoding: chunked") raw)

abbrev pub status_of : Option ℕ → Text → Result ℤ
status_of none raw = err "malformed HTTP status line"
status_of (some k) raw = stoi (take 3 (drop (k + 1) raw))

unfoldable pub parse_http_response : Text → Result ClientResponse
unfolding decode_chunks is_chunked stoi find_text
parse_http_response raw = do
  guard (is_some (find_text crlf raw)) "malformed HTTP response"
  status ← status_of (find_text (codes " ") raw) raw
  let body = body_of (find_text blank_line raw) raw
  (if is_chunked raw
      then (do
        decoded ← decode_chunks (length body + 1) body 0 []
        ok (record { status = status; body = decoded }))
      else ok (record { status = status; body = body }))

-- The text of a request.
abbrev pub content_headers : Option Text → Text
content_headers none = []
content_headers (some body) =
    codes "Content-Type: application/json; charset=utf-8"
    ++ crlf
    ++ codes "Content-Length: "
    ++ to_string (length body)
    ++ crlf

abbrev pub text_of : Option Text → Text
text_of none = []
text_of (some body) = body

unfoldable pub request_text : Text → Text → Text → Text → Option Text → Text
unfolding to_string
request_text host method path bearer_token body =
    method
    ++ codes " "
    ++ path
    ++ codes " HTTP/1.1"
    ++ crlf
    ++ codes "Host: "
    ++ host
    ++ crlf
    ++ codes "Authorization: Bearer "
    ++ bearer_token
    ++ crlf
    ++ codes "Connection: close"
    ++ crlf
    ++ content_headers body
    ++ crlf
    ++ text_of body
