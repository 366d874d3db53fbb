-- ===== src/Der/Integers.antt =====
-- `der_integer` of src/der.cpp, from bytes and from an int64_t.
use aas_sign.Base.{
  ℕ, zero, suc, List, [], ◌∷◌, Bool, false, not, ◌&&◌, Result, ok, err, bit_and, ◌==◌,
  if◌then◌else◌,
}
use aas_sign.Base.Bits.{shr, byte}
use aas_sign.Der.{der_wrap}

-- `negsuc n` is -(n + 1).
pub data ℤ : Type 0 where
  pos negsuc : ℕ → ℤ

-- data[0] & 0x80, where there is such a byte
unfoldable pub has_high_bit : List ℕ → Bool
has_high_bit [] = false
has_high_bit (b ∷ _) = not (bit_and b 0x80 == 0)

unfoldable pub strip_zeros : List ℕ → List ℕ
strip_zeros [] = []
strip_zeros (a ∷ []) = a ∷ []
strip_zeros (a ∷ b ∷ rest) =
    if a == 0 && not (has_high_bit (b ∷ rest)) then strip_zeros (b ∷ rest) else a ∷ b ∷ rest

unfoldable pub integer_content : List ℕ → List ℕ
unfolding has_high_bit strip_zeros
integer_content bytes = let s = strip_zeros bytes in if has_high_bit s then 0 ∷ s else s

unfoldable pub der_integer_bytes : List ℕ → List ℕ
unfolding integer_content
der_integer_bytes bytes = der_wrap 0x02 (integer_content bytes)

-- for (uint64_t tmp = v; tmp > 0; tmp >>= 8) nbytes++;
byte_count : ℕ → ℕ → ℕ
byte_count zero v = 0
byte_count (suc fuel) v = let rest = byte_count fuel (shr v 8) in if v == 0 then 0 else suc rest

-- The loop that fills `buf` from its end.
fill : ℕ → ℕ → List ℕ → List ℕ
fill zero v buf = buf
fill (suc n) v buf = fill n (shr v 8) (byte (bit_and v 0xff) ∷ buf)

-- A uint64_t has at most eight bytes, the size of `buf`.
unfoldable pub integer_bytes : ℕ → List ℕ
unfolding byte_count fill
integer_bytes v = if v == 0 then 0 ∷ [] else fill (byte_count 8 v) v []

unfoldable pub der_integer : ℤ → Result (List ℕ)
unfolding integer_bytes der_integer_bytes
der_integer (pos v) = ok (der_integer_bytes (integer_bytes v))
der_integer (negsuc v) = err "negative integers not supported"
