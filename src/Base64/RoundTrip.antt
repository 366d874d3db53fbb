-- ===== src/Base64/RoundTrip.antt =====
-- Decoding undoes encoding, whatever stands between the characters that is not of the alphabet.
use aas_sign.Base.{
  ℕ, ◌+◌, ◌-◌, ◌*◌, ◌/◌, ◌%◌, ◌^◌, ◌<◌, ◌≡◌, ◌∙◌, refl, ap, sym, arith, List, [], ◌∷◌, ◌++◌, Option,
  none, some, bit_and, bit_or, leb, if◌then◌else◌, All, IsByte, Option-cases, append-nil, inl, inr,
}
use mathlib.Core.Path.{ap₂}
use aas_sign.Base.Bits.{
  shr, shl, byte, bit_or_disjoint, bit_and_63, bit_and_255, agree_below, agree_below→eq,
}
use aas_sign.Base64.{
  table, url_table, char_at, sextet, encode_with, base64_encode, base64url_encode, decode_char,
  decode_url_char, push, decode_with, base64_decode, base64url_decode,
}

push_lem : (accum v : ℕ) → v < 64 → push accum v ≡ accum % 2 ^ 26 * 64 + v
push_lem accum v h =
    let kept : shl accum 6 % 2 ^ 32 ≡ accum % 2 ^ 26 * 2 ^ 6 = omega arith in
    rw kept (bit_or_disjoint 6 (accum % 2 ^ 26) v h)

two_bytes : (a b : ℕ) → b < 256 → bit_or (shl a 16) (shl b 8) ≡ (a * 256 + b) * 256
two_bytes a b h = omega (arith, bit_or_disjoint 16 a (shl b 8) (omega arith))

three_bytes :
    (a b c : ℕ)
    → b < 256
    → c < 256
    → bit_or (bit_or (shl a 16) (shl b 8)) c ≡ (a * 256 + b) * 256 + c
three_bytes a b c h k = rw (two_bytes a b h) (bit_or_disjoint 8 (a * 256 + b) c k)

-- The byte that is pushed out of the accumulator.
abbrev out : ℕ → ℕ → ℕ
out accum bits = byte (bit_and (shr accum bits) 0xff)

module _ (A n : ℕ) where
  abbrev after_two : ℕ
  after_two = push (push A (shr n 18 % 64)) (shr n 12 % 64)

  abbrev after_three : ℕ
  after_three = push after_two (shr n 6 % 64)

  first_byte : out after_two 4 ≡ n / 65536 % 256
  first_byte = omega (
    arith,
    bit_and_255 (shr after_two 4),
    push_lem A (shr n 18 % 64),
    push_lem (push A (shr n 18 % 64)) (shr n 12 % 64),
  )

  second_byte : out after_three 2 ≡ n / 256 % 256
  second_byte = omega (
    arith,
    bit_and_255 (shr after_three 2),
    push_lem (push A (shr n 18 % 64)) (shr n 12 % 64),
    push_lem after_two (shr n 6 % 64),
  )

  third_byte : out (push after_three (shr n 0 % 64)) 0 ≡ n % 256
  third_byte = omega (
    arith,
    bit_and_255 (shr (push after_three (shr n 0 % 64)) 0),
    push_lem after_two (shr n 6 % 64),
    push_lem after_three (shr n 0 % 64),
  )

-- `decode` reads back each of the 64 characters of the alphabet.
abbrev pub Reads : (ℕ → Option ℕ) → List ℕ → Type 0
Reads decode alphabet = (k : ℕ) → k < 64 → decode (char_at alphabet k) ≡ some k

-- Characters that the decoder skips.
abbrev pub Skips : (ℕ → Option ℕ) → List ℕ → Type 0
Skips decode cs = All (λ c. decode c ≡ none) cs

decode-skip :
    (decode : ℕ → Option ℕ) (cs s : List ℕ) (A bits : ℕ)
    → Skips decode cs
    → decode_with decode (cs ++ s) A bits ≡ decode_with decode s A bits
unfolding decode_with
decode-skip decode [] s A bits h = refl
decode-skip decode (c ∷ cs) s A bits h = rw h.0 (decode-skip decode cs s A bits h.1)

decode-all_skipped :
    (decode : ℕ → Option ℕ) (cs : List ℕ) (A bits : ℕ)
    → Skips decode cs
    → decode_with decode cs A bits ≡ []
decode-all_skipped decode cs A bits h =
    rw append-nil at (decode-skip decode cs [] A bits h) ∙ unfold decode_with in refl

module _ (decode : ℕ → Option ℕ) (alphabet : List ℕ) (reads : Reads decode alphabet) where
  sextet_reads : (n k : ℕ) → decode (sextet alphabet n k) ≡ some (shr n k % 64)
  unfolding sextet
  sextet_reads n k = rw bit_and_63 (reads (shr n k % 64) (omega arith))

  decode_two :
      (n A : ℕ) (s : List ℕ)
      → decode_with decode (sextet alphabet n 18 ∷ sextet alphabet n 12 ∷ s) A 0
        ≡ out (after_two A n) 4 ∷ decode_with decode s (after_two A n) 4
  unfolding decode_with
  decode_two n A s = rw (sextet_reads n 18, decode_with) (rw (sextet_reads n 12, decode_with))

  decode_third :
      (n A : ℕ) (s : List ℕ)
      → decode_with decode (sextet alphabet n 6 ∷ s) A 4
        ≡ out (push A (shr n 6 % 64)) 2 ∷ decode_with decode s (push A (shr n 6 % 64)) 2
  unfolding decode_with
  decode_third n A s = rw (sextet_reads n 6, decode_with)

  decode_fourth :
      (n A : ℕ) (s : List ℕ)
      → decode_with decode (sextet alphabet n 0 ∷ s) A 2
        ≡ out (push A (shr n 0 % 64)) 0 ∷ decode_with decode s (push A (shr n 0 % 64)) 0
  unfolding decode_with
  decode_fourth n A s = rw (sextet_reads n 0, decode_with)

  pub decode-encode :
      (pad bytes : List ℕ) (A : ℕ)
      → Skips decode pad
      → All IsByte bytes
      → decode_with decode (encode_with alphabet pad bytes) A 0 ≡ bytes
  unfolding encode_with
  decode-encode pad [] A skip h = unfold decode_with in refl
  decode-encode pad (a ∷ []) A skip h =
      let n = shl a 16 in
      decode_two n A (pad ++ pad)
      ∙ ap₂ ◌∷◌ (first_byte A n ∙ omega arith) (
          decode-skip decode pad pad (after_two A n) 4 skip
          ∙ decode-all_skipped decode pad (after_two A n) 4 skip)
  decode-encode pad (a ∷ b ∷ []) A skip h =
      let n = bit_or (shl a 16) (shl b 8) in
      decode_two n A (sextet alphabet n 6 ∷ pad)
      ∙ ap₂ ◌∷◌ (first_byte A n ∙ omega (arith, two_bytes a b h.1.0)) (
          decode_third n (after_two A n) pad
          ∙ ap₂ ◌∷◌ (second_byte A n ∙ omega (arith, two_bytes a b h.1.0))
              (decode-all_skipped decode pad (after_three A n) 2 skip))
  decode-encode pad (a ∷ b ∷ c ∷ rest) A skip (ha, (hb, (hc, h))) =
      let n = bit_or (bit_or (shl a 16) (shl b 8)) c in
      let word : n ≡ (a * 256 + b) * 256 + c = three_bytes a b c hb hc in
      decode_two n A (sextet alphabet n 6 ∷ sextet alphabet n 0 ∷ encode_with alphabet pad rest)
      ∙ ap₂ ◌∷◌ (first_byte A n ∙ omega arith) (
          decode_third n (after_two A n) (sextet alphabet n 0 ∷ encode_with alphabet pad rest)
          ∙ ap₂ ◌∷◌ (second_byte A n ∙ omega arith) (
              decode_fourth n (after_three A n) (encode_with alphabet pad rest)
              ∙ ap₂ ◌∷◌ (third_byte A n ∙ omega arith)
                  (decode-encode pad rest (push (after_three A n) (shr n 0 % 64)) skip h)))

-- The characters of the alphabet in a text.
unfoldable pub keep : (ℕ → Option ℕ) → List ℕ → List ℕ
keep decode [] = []
keep decode (c ∷ s) = elim (decode c) [ none ↦ keep decode s | some _ ↦ c ∷ keep decode s ]

keep-none :
    (decode : ℕ → Option ℕ) (c : ℕ) (s : List ℕ)
    → decode c ≡ none
    → keep decode (c ∷ s) ≡ keep decode s
unfolding keep
keep-none decode c s e = rw (e, keep)

keep-some :
    (decode : ℕ → Option ℕ) (c v : ℕ) (s : List ℕ)
    → decode c ≡ some v
    → keep decode (c ∷ s) ≡ c ∷ keep decode s
unfolding keep
keep-some decode c v s e = rw (e, keep)

decode_some :
    (decode : ℕ → Option ℕ) (c v : ℕ) (s : List ℕ) (A bits : ℕ)
    → decode c ≡ some v
    → decode_with decode (c ∷ s) A bits ≡ (
        if leb 8 (bits + 6)
        then out (push A v) (bits + 6 - 8) ∷ decode_with decode s (push A v) (bits + 6 - 8)
        else decode_with decode s (push A v) (bits + 6))
unfolding decode_with
decode_some decode c v s A bits e = rw (e, decode_with)

decode-keep :
    (decode : ℕ → Option ℕ) (s : List ℕ) (A bits : ℕ)
    → decode_with decode s A bits ≡ decode_with decode (keep decode s) A bits
decode-keep decode [] A bits = unfold keep in refl
decode-keep decode (c ∷ s) A bits = elim (Option-cases (decode c)) [
  | inl e ↦
      rw (keep-none decode c s e)
        (decode-skip decode (c ∷ []) s A bits (e, tt) ∙ decode-keep decode s A bits)
  | inr (v, e) ↦ rw (
    keep-some decode c v s e,
    decode_some decode c v s A bits e,
    decode_some decode c v (keep decode s) A bits e,
    decode-keep decode s (push A v) (bits + 6),
    decode-keep decode s (push A v) (bits + 6 - 8),
  )
]

from_option : Option ℕ → ℕ
from_option none = 64
from_option (some v) = v

from_option-lt : (o : Option ℕ) (k : ℕ) → k < 64 → from_option o ≡ k → o ≡ some k
unfolding from_option
from_option-lt o k h e = ground arith

table-Reads : Reads decode_char table
unfolding agree_below from_option decode_char char_at
table-Reads k h =
    from_option-lt (decode_char (char_at table k)) k h
      (agree_below→eq (λ i. from_option (decode_char (char_at table i))) (λ i. i) 64 refl k h)

url_table-Reads : Reads decode_url_char url_table
unfolding agree_below from_option decode_url_char char_at
url_table-Reads k h =
    from_option-lt (decode_url_char (char_at url_table k)) k h (
      agree_below→eq (λ i. from_option (decode_url_char (char_at url_table i))) (λ i. i) 64 refl k
        h)

-- `base64_decode` recovers the bytes from every text that has the base64 characters of their
-- encoding in the same order, whatever other characters (line breaks, padding) stand between them.
pub base64_decode-base64_encode :
    (bytes s : List ℕ)
    → All IsByte bytes
    → keep decode_char s ≡ keep decode_char (base64_encode bytes)
    → base64_decode s ≡ bytes
unfolding base64_decode base64_encode
base64_decode-base64_encode bytes s h e =
    decode-keep decode_char s 0 0
    ∙ ap (λ t. decode_with decode_char t 0 0) e
    ∙ sym (decode-keep decode_char (encode_with table (b'=' ∷ []) bytes) 0 0)
    ∙ decode-encode decode_char table table-Reads (b'=' ∷ []) bytes 0 (refl, tt) h

-- `base64url_decode` undoes `base64url_encode`, which writes no padding.
pub base64url_decode-base64url_encode :
    (bytes : List ℕ) → All IsByte bytes → base64url_decode (base64url_encode bytes) ≡ bytes
unfolding base64url_decode base64url_encode
base64url_decode-base64url_encode bytes h =
    decode-encode decode_url_char url_table url_table-Reads [] bytes 0 tt h
