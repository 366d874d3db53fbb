-- ===== src/Base64.antt =====
-- src/base64.cpp: base64 and base64url over bytes. The two encoders differ in their alphabet and in
-- the padding, the two decoders in the alphabet.
pub mod RoundTrip
use aas_sign.Base.{
  ℕ, ◌+◌, ◌-◌, ◌%◌, ◌^◌, List, [], ◌∷◌, ◌++◌, Bool, ◌&&◌, Option, none, some, bit_and, bit_or, leb,
  ◌==◌, if◌then◌else◌, codes, zero, suc,
}
use aas_sign.Base.Bits.{shr, shl, byte}

abbrev pub table : List ℕ
table = codes "ABCDEFGHIJKLMNOPQRSTUVWXYZabcdefghijklmnopqrstuvwxyz0123456789+/"

abbrev pub url_table : List ℕ
url_table = codes "ABCDEFGHIJKLMNOPQRSTUVWXYZabcdefghijklmnopqrstuvwxyz0123456789-_"

-- table[k]; every index is masked to six bits
unfoldable pub char_at : List ℕ → ℕ → ℕ
char_at [] k = 0
char_at (c ∷ cs) zero = c
char_at (c ∷ cs) (suc k) = char_at cs k

-- The characters for n >> 18, n >> 12, n >> 6 and n.
unfoldable pub sextet : List ℕ → ℕ → ℕ → ℕ
unfolding char_at
sextet alphabet n k = char_at alphabet (bit_and (shr n k) 0x3f)

-- A round of the loop for three bytes, and for the one or two at the end.
unfoldable pub encode_with : List ℕ → List ℕ → List ℕ → List ℕ
unfolding sextet
encode_with alphabet pad [] = []
encode_with alphabet pad (a ∷ []) =
    let n = shl a 16 in sextet alphabet n 18 ∷ sextet alphabet n 12 ∷ pad ++ pad
encode_with alphabet pad (a ∷ b ∷ []) =
    let n = bit_or (shl a 16) (shl b 8) in
    sextet alphabet n 18 ∷ sextet alphabet n 12 ∷ sextet alphabet n 6 ∷ pad
encode_with alphabet pad (a ∷ b ∷ c ∷ rest) =
    let n = bit_or (bit_or (shl a 16) (shl b 8)) c in
    sextet alphabet n 18
    ∷ sextet alphabet n 12
    ∷ sextet alphabet n 6
    ∷ sextet alphabet n 0
    ∷ encode_with alphabet pad rest

unfoldable pub base64_encode : List ℕ → List ℕ
unfolding encode_with
base64_encode bytes = encode_with table (b'=' ∷ []) bytes

-- no '=' padding
unfoldable pub base64url_encode : List ℕ → List ℕ
unfolding encode_with
base64url_encode bytes = encode_with url_table [] bytes

-- `none` is -1; the last two characters of the alphabet are arguments
unfoldable pub decode_alphabet : ℕ → ℕ → ℕ → Option ℕ
decode_alphabet c62 c63 c =
    if leb b'A' c && leb c b'Z'
    then some (c - b'A')
    else if leb b'a' c && leb c b'z'
    then some (c - b'a' + 26)
    else if leb b'0' c && leb c b'9'
    then some (c - b'0' + 52)
    else if c == c62
    then some 62
    else if c == c63
    then some 63
    else none

unfoldable pub decode_char : ℕ → Option ℕ
unfolding decode_alphabet
decode_char c = decode_alphabet b'+' b'/' c

unfoldable pub decode_url_char : ℕ → Option ℕ
unfolding decode_alphabet
decode_url_char c = decode_alphabet b'-' b'_' c

-- accum = (accum << 6) | v, on 32 bits
abbrev pub push : ℕ → ℕ → ℕ
push accum v = bit_or (shl accum 6 % 2 ^ 32) v

-- The loop of both decoders over the characters that are left.
unfoldable pub decode_with : (ℕ → Option ℕ) → List ℕ → ℕ → ℕ → List ℕ
decode_with decode [] accum bits = []
decode_with decode (c ∷ s) accum bits = elim (decode c) [
  | none ↦ decode_with decode s accum bits
  | some v ↦
      let accum' = push accum v in
      let bits' = bits + 6 in
      let full =
        byte (bit_and (shr accum' (bits' - 8)) 0xff) ∷ decode_with decode s accum' (bits' - 8) in
      let partial = decode_with decode s accum' bits' in if leb 8 bits' then full else partial
]

unfoldable pub base64_decode : List ℕ → List ℕ
unfolding decode_with decode_char
base64_decode s = decode_with decode_char s 0 0

unfoldable pub base64_mime_decode : List ℕ → List ℕ
unfolding base64_decode
base64_mime_decode s = base64_decode s

unfoldable pub base64url_decode : List ℕ → List ℕ
unfolding decode_with decode_url_char
base64url_decode s = decode_with decode_url_char s 0 0
