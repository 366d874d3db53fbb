-- ===== src/X509/Tlv.antt =====
-- What `der_read_tlv` accepts, and that it reads back what `der_wrap` writes.
use aas_sign.Base.{
  ℕ, ◌+◌, ◌*◌, ◌<◌, ◌≤◌, ◌^◌, ◌≡◌, ◌∙◌, refl, arith, List, [], ◌∷◌, ◌++◌, ok, bit_and, ltb, length,
  length-append, take-append, drop-append, le→ltb, lt→ltb, ltb→lt, Bool-cases, inl, inr,
}
use aas_sign.Base.Bits.{shr, byte, bit_or_disjoint, bit_and_127}
use aas_sign.Der.{write_length, der_wrap}
use aas_sign.X509.{TlvView, read_length, finish_tlv, der_read_tlv}

-- The view of a TLV that `der_wrap` wrote.
abbrev pub view_of : ℕ → List ℕ → TlvView
view_of tag content = record {
  tag = tag;
  content = content;
  content_len = length content;
  total_len = length (der_wrap tag content);
}

finish_tlv-append :
    (len tag pos n : ℕ) (content rest : List ℕ)
    → n ≡ length content
    → pos + length content ≤ len
    → finish_tlv len tag pos n (content ++ rest)
      ≡ ok (record {
        tag = tag;
        content = content;
        content_len = length content;
        total_len = pos + length content;
      })
unfolding finish_tlv
finish_tlv-append len tag pos n content rest e h =
    rw (e, le→ltb len (pos + length content) h, take-append content rest)

-- One length byte.
read_step :
    (acc b : ℕ) (bs : List ℕ) → b < 256 → read_length acc (b ∷ bs) ≡ read_length (acc * 256 + b) bs
unfolding read_length
read_step acc b bs h = rw (bit_or_disjoint 8 acc b h)

read_one : (n : ℕ) → n < 2 ^ 8 → read_length 0 (byte n ∷ []) ≡ n
read_one n h = read_step 0 (byte n) [] (omega arith) ∙ unfold read_length in omega arith

read_two : (n : ℕ) → n < 2 ^ 16 → read_length 0 (byte (shr n 8) ∷ byte n ∷ []) ≡ n
read_two n h =
    read_step 0 (byte (shr n 8)) (byte n ∷ []) (omega arith)
    ∙ read_step (0 * 256 + byte (shr n 8)) (byte n) [] (omega arith)
    ∙ unfold read_length in omega arith

read_three :
    (n : ℕ) → n < 2 ^ 24 → read_length 0 (byte (shr n 16) ∷ byte (shr n 8) ∷ byte n ∷ []) ≡ n
read_three n h =
    read_step 0 (byte (shr n 16)) (byte (shr n 8) ∷ byte n ∷ []) (omega arith)
    ∙ read_step (0 * 256 + byte (shr n 16)) (byte (shr n 8)) (byte n ∷ []) (omega arith)
    ∙ read_step ((0 * 256 + byte (shr n 16)) * 256 + byte (shr n 8)) (byte n) [] (omega arith)
    ∙ unfold read_length in omega arith

read_four :
    (n : ℕ)
    → n < 2 ^ 32
    → read_length 0 (byte (shr n 24) ∷ byte (shr n 16) ∷ byte (shr n 8) ∷ byte n ∷ []) ≡ n
read_four n h =
    read_step 0 (byte (shr n 24)) (byte (shr n 16) ∷ byte (shr n 8) ∷ byte n ∷ []) (omega arith)
    ∙ read_step (0 * 256 + byte (shr n 24)) (byte (shr n 16)) (byte (shr n 8) ∷ byte n ∷ [])
        (omega arith)
    ∙ read_step ((0 * 256 + byte (shr n 24)) * 256 + byte (shr n 16)) (byte (shr n 8)) (byte n ∷ [])
        (omega arith)
    ∙ read_step (((0 * 256 + byte (shr n 24)) * 256 + byte (shr n 16)) * 256 + byte (shr n 8))
        (byte n) [] (omega arith)
    ∙ unfold read_length in omega arith

-- A length field of one to four bytes that holds the length of the content.
long_form :
    (tag : ℕ) (ls content rest : List ℕ)
    → 1 ≤ length ls
    → length ls ≤ 4
    → read_length 0 ls ≡ length content
    → der_read_tlv (tag ∷ (128 + length ls) ∷ ls ++ (content ++ rest))
      ≡ ok (record {
        tag = tag;
        content = content;
        content_len = length content;
        total_len = 2 + length ls + length content;
      })
unfolding der_read_tlv
long_form tag ls content rest lo hi r =
    rw (mask, take-append ls (content ++ rest), drop-append ls (content ++ rest), r)
      (ground (
        arith,
        finish_tlv-append (length (tag ∷ (128 + length ls) ∷ ls ++ (content ++ rest))) tag
            (2 + length ls) (length content) content rest refl,
        fits,
      ))
  where
    mask : bit_and (128 + length ls) 0x7f ≡ length ls
    mask = omega (arith, bit_and_127 (128 + length ls))

    fits :
        2 + length ls + length content ≤ length (tag ∷ (128 + length ls) ∷ ls ++ (content ++ rest))
    fits = omega (arith, length-append ls (content ++ rest), length-append content rest)

short_form :
    (tag : ℕ) (content rest : List ℕ)
    → length content < 128
    → der_read_tlv (tag ∷ length content ∷ content ++ rest)
      ≡ ok (record {
        tag = tag;
        content = content;
        content_len = length content;
        total_len = 2 + length content;
      })
unfolding der_read_tlv
short_form tag content rest h = rw (lt→ltb (length content) 128 h) (
    finish_tlv-append (length (tag ∷ length content ∷ content ++ rest)) tag 2 (length content)
      content rest refl (omega (arith, length-append content rest)))

-- `der_read_tlv` reads back the tag and the content that `der_wrap` wrote, whatever follows them,
-- for a content whose length fits four bytes.
pub der_read_tlv-der_wrap :
    (tag : ℕ) (content rest : List ℕ)
    → length content < 2 ^ 32
    → der_read_tlv (der_wrap tag content ++ rest) ≡ ok (view_of tag content)
unfolding der_wrap write_length
der_read_tlv-der_wrap tag content rest h =
    let n = length content in
    elim (Bool-cases (ltb n 0x80)) [
      | inl a ↦
          let small : byte n ≡ n = omega (arith, ltb→lt n 0x80 a) in
          rw (a, small) (ground (arith, short_form tag content rest))
      | inr a ↦ elim (Bool-cases (ltb n 0x100)) [
        | inl b ↦
            rw (a, b)
              (ground
                (arith, long_form tag (byte n ∷ []) content rest, read_one n, ltb→lt n 0x100 b))
        | inr b ↦ elim (Bool-cases (ltb n 0x10000)) [
          | inl c ↦
              rw (a, b, c)
                (ground
                  (arith, long_form tag (byte (shr n 8) ∷ byte n ∷ []) content rest, read_two n))
          | inr c ↦ elim (Bool-cases (ltb n 0x1000000)) [
            | inl d ↦
                rw (a, b, c, d)
                  (ground (
                    arith,
                    long_form tag (byte (shr n 16) ∷ byte (shr n 8) ∷ byte n ∷ []) content rest,
                    read_three n,
                  ))
            | inr d ↦
                rw (a, b, c, d)
                  (ground (
                    arith,
                    long_form tag (byte (shr n 24) ∷ byte (shr n 16) ∷ byte (shr n 8) ∷ byte n ∷ [])
                        content rest,
                    read_four n,
                  ))
          ]
        ]
      ]
    ]
