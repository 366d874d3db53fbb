-- ===== src/Web.antt =====
-- Percent-encoding, query strings and forms: src/urlenc.cpp and the helpers at the top of
-- src/auth_laptop.cpp. A text is the list of its bytes.
pub mod RoundTrip
use aas_sign.Base.{
  bytes_eq, ℕ, zero, suc, ◌+◌, ◌-◌, ◌*◌, ◌%◌, List, [], ◌∷◌, ◌++◌, Bool, true, false, not, ◌&&◌,
  ◌||◌, Option, none, some, bit_and, bit_or, leb, ◌==◌, if◌then◌else◌, length, drop, codes,
}
use aas_sign.Base.Bits.{shr, shl, byte}

-- std::isalnum in the C locale
unfoldable pub isalnum : ℕ → Bool
isalnum c = (leb b'0' c && leb c b'9') || (leb b'A' c && leb c b'Z') || (leb b'a' c && leb c b'z')

-- hex[k] in the upper and the lower case digits
unfoldable pub hex_digit : ℕ → ℕ → ℕ
hex_digit letter k = if leb k 9 then b'0' + k else letter + (k - 10)

unfoldable pub is_unreserved : ℕ → Bool
unfolding isalnum
is_unreserved c = isalnum c || c == b'-' || c == b'_' || c == b'.' || c == b'~'

unfoldable pub url_encode : List ℕ → List ℕ
unfolding is_unreserved hex_digit
url_encode [] = []
url_encode (c ∷ s) =
    (if is_unreserved c
      then c ∷ []
      else b'%' ∷ hex_digit b'A' (bit_and (shr c 4) 0xf) ∷ hex_digit b'A' (bit_and c 0xf) ∷ [])
    ++ url_encode s

unfoldable pub hex_encode : List ℕ → List ℕ
unfolding hex_digit
hex_encode [] = []
hex_encode (b ∷ bytes) =
    hex_digit b'a' (bit_and (shr b 4) 0xf) ∷ hex_digit b'a' (bit_and b 0xf) ∷ hex_encode bytes

-- The lambda `h` of `parse_query`; any other character counts as 0.
unfoldable pub hex_value : ℕ → ℕ
hex_value c =
    if leb b'0' c && leb c b'9'
    then c - b'0'
    else if leb b'a' c && leb c b'f'
    then c - b'a' + 10
    else if leb b'A' c && leb c b'F'
    then c - b'A' + 10
    else 0

-- The loop over the value of a pair; a `%` with fewer than two characters behind it stands for itself.
unfoldable pub url_decode : List ℕ → List ℕ
unfolding hex_value
url_decode [] = []
url_decode (c ∷ []) = (if c == b'+' then b' ' else c) ∷ []
url_decode (c ∷ h ∷ []) = (if c == b'+' then b' ' else c) ∷ url_decode (h ∷ [])
url_decode (c ∷ h ∷ l ∷ rest) =
    let escaped = byte (bit_or (shl (hex_value h) 4) (hex_value l)) ∷ url_decode rest in
    let plain = (if c == b'+' then b' ' else c) ∷ url_decode (h ∷ l ∷ rest) in
    if c == b'%' then escaped else plain

-- The part of a text before a character, and the part behind it, if the character is there.
unfoldable pub before : ℕ → List ℕ → List ℕ
before c [] = []
before c (x ∷ s) = if x == c then [] else x ∷ before c s

unfoldable pub after : ℕ → List ℕ → Option (List ℕ)
after c [] = none
after c (x ∷ s) = if x == c then some s else after c s

-- std::map<std::string, std::string>, with one entry for a key
abbrev pub Query : Type 0
Query = List (List ℕ × List ℕ)

-- q[k] = v
unfoldable pub put : List ℕ → List ℕ → Query → Query
unfolding bytes_eq
put k v [] = (k, v) ∷ []
put k v ((j, w) ∷ q) = if bytes_eq j k then (k, v) ∷ q else (j, w) ∷ put k v q

unfoldable pub find : List ℕ → Query → Option (List ℕ)
unfolding bytes_eq
find k [] = none
find k ((j, w) ∷ q) = if bytes_eq j k then some w else find k q

-- One pair `key=value`; without `=` the value is empty.
unfoldable pub add_pair : List ℕ → Query → Query
unfolding before after url_decode put
add_pair pair q =
    put (before b'=' pair) (elim (after b'=' pair) [ none ↦ [] | some v ↦ url_decode v ]) q

-- while (p < qs.size()): a pair up to the next `&`
unfoldable pub query_loop : ℕ → List ℕ → Query → Query
unfolding add_pair before
query_loop fuel [] q = q
query_loop zero (c ∷ qs) q = q
query_loop (suc fuel) (c ∷ qs) q =
    let pair = before b'&' (c ∷ qs) in
    query_loop fuel (drop (length pair + 1) (c ∷ qs)) (add_pair pair q)

-- Each round takes a character at least, so the length is fuel enough.
abbrev pub parse_pairs : Option (List ℕ) → Query
parse_pairs none = []
parse_pairs (some qs) = query_loop (length qs) qs []

unfoldable pub parse_query : List ℕ → Query
unfolding query_loop after
parse_query target = parse_pairs (after b'?' target)

-- for (auto &kv : pairs), with what is written already
unfoldable pub form_loop : List ℕ → List (List ℕ × List ℕ) → List ℕ
unfolding url_encode
form_loop out [] = out
form_loop [] ((k, v) ∷ pairs) = form_loop (k ++ b'=' ∷ url_encode v) pairs
form_loop (c ∷ out) ((k, v) ∷ pairs) =
    form_loop ((c ∷ out) ++ b'&' ∷ (k ++ b'=' ∷ url_encode v)) pairs

unfoldable pub form_encode : List (List ℕ × List ℕ) → List ℕ
unfolding form_loop
form_encode pairs = form_loop [] pairs
