-- ===== src/Der.antt =====
-- src/der.cpp: the DER encoder. A `Bytes` is the list of its bytes, and an initializer list of
-- pointers to byte strings is the list of the byte strings.
pub mod Oid
pub mod Sets
pub mod Integers
use aas_sign.Base.{
  ℕ, zero, suc, ◌+◌, List, [], ◌∷◌, ◌++◌, Bool, true, false, not, ◌&&◌, Result, ok, err, bit_and,
  bit_or, ltb, ◌==◌, if◌then◌else◌, length,
}
use aas_sign.Base.Bits.{shr, byte}

-- Lengths past four bytes do not fit the last form, which keeps their low 32 bits.
unfoldable pub write_length : ℕ → List ℕ
write_length len =
    if ltb len 0x80
    then byte len ∷ []
    else if ltb len 0x100
    then 0x81 ∷ byte len ∷ []
    else if ltb len 0x10000
    then 0x82 ∷ byte (shr len 8) ∷ byte len ∷ []
    else if ltb len 0x1000000
    then 0x83 ∷ byte (shr len 16) ∷ byte (shr len 8) ∷ byte len ∷ []
    else 0x84 ∷ byte (shr len 24) ∷ byte (shr len 16) ∷ byte (shr len 8) ∷ byte len ∷ []

unfoldable pub der_wrap : ℕ → List ℕ → List ℕ
der_wrap tag content = tag ∷ write_length (length content) ++ content

unfoldable pub der_cat : List (List ℕ) → List ℕ
der_cat [] = []
der_cat (p ∷ parts) = p ++ der_cat parts

abbrev pub der_sequence_tag : ℕ
der_sequence_tag = 0x30

abbrev pub der_set_tag : ℕ
der_set_tag = 0x31

unfoldable pub der_sequence : List (List ℕ) → List ℕ
der_sequence parts = der_wrap der_sequence_tag (der_cat parts)

unfoldable pub der_octet_string : List ℕ → List ℕ
der_octet_string bytes = der_wrap 0x04 bytes

unfoldable pub der_bit_string : List ℕ → List ℕ
der_bit_string bytes = der_wrap 0x03 (0 ∷ bytes)

unfoldable pub der_boolean : Bool → List ℕ
der_boolean value = 0x01 ∷ 0x01 ∷ (if value then 0xff else 0x00) ∷ []

unfoldable pub der_null : List ℕ
der_null = 0x05 ∷ 0x00 ∷ []

unfoldable pub der_explicit : ℕ → List ℕ → List ℕ
der_explicit tag_number content = der_wrap (bit_or 0xa0 (byte (bit_and tag_number 0x1f))) content

-- Only the first byte changes.
unfoldable pub der_implicit : ℕ → Bool → List ℕ → Result (List ℕ)
der_implicit tag_number constructed [] = err "cannot implicit-tag empty content"
der_implicit tag_number constructed (_ ∷ rest) =
    let tag = bit_or 0x80 (byte (bit_and tag_number 0x1f)) in
    ok ((if constructed then bit_or tag 0x20 else tag) ∷ rest)
