-- ===== src/Der/Oid.antt =====
-- `der_oid` of src/der.cpp, over the bytes of the dotted text.
use Prim.Native.Nat.{min}
use mathlib.Core.List.{reverse}
use aas_sign.Base.{
  ℕ, zero, suc, ◌+◌, ◌-◌, ◌*◌, ◌^◌, List, [], ◌∷◌, ◌++◌, map, Bool, ◌&&◌, Result, ok, err, stuck,
  ◌>>=◌, bit_and, bit_or, leb, ◌==◌, if◌then◌else◌, length,
}
use aas_sign.Base.Bits.{shr, byte}
use aas_sign.Der.{der_wrap}

unfoldable pub is_digit : ℕ → Bool
is_digit c = leb b'0' c && leb c b'9'

-- strtoul in base 10 on a text that begins with no blank and no sign: it saturates, and without a
-- digit it returns 0 and stays where it is.
unfoldable pub strtoul : ℕ → List ℕ → ℕ × List ℕ
unfolding is_digit
strtoul acc [] = (acc, [])
strtoul acc (c ∷ rest) =
    let next = strtoul (min (acc * 10 + (c - b'0')) (2 ^ 64 - 1)) rest in
    if is_digit c then next else (acc, c ∷ rest)

skip_dot : List ℕ → List ℕ
skip_dot [] = []
skip_dot (c ∷ rest) = if c == b'.' then rest else c ∷ rest

-- A round that reads nothing leaves the pointer, and the source would loop for ever.
components : ℕ → List ℕ → Result (List ℕ)
unfolding strtoul skip_dot
components fuel [] = ok []
components zero (c ∷ rest) = stuck
components (suc fuel) (c ∷ rest) =
    let (v, end) = strtoul 0 (c ∷ rest) in do vs ← components fuel (skip_dot end); ok (v ∷ vs)

-- buf: the groups of seven bits, lowest first
groups : ℕ → ℕ → List ℕ
groups zero v = []
groups (suc fuel) v =
    let rest = groups fuel (shr v 7) in byte (bit_and v 0x7f) ∷ (if shr v 7 == 0 then [] else rest)

-- A loop from the last group down to the second, and then the first.
emit : List ℕ → List ℕ
emit [] = []
emit (g ∷ gs) = map (λ b. bit_or b 0x80) (reverse gs) ++ g ∷ []

-- An unsigned long has at most ten groups, the size of `buf`.
pub oid_component : ℕ → List ℕ
unfolding groups emit
oid_component v = emit (groups 10 v)

oid_rest : List ℕ → List ℕ
unfolding oid_component
oid_rest [] = []
oid_rest (v ∷ vs) = oid_component v ++ oid_rest vs

oid_content : List ℕ → Result (List ℕ)
unfolding oid_rest
oid_content (a ∷ b ∷ vs) = ok (byte (40 * a + b) ∷ oid_rest vs)
oid_content _ = err "OID must have at least 2 components"

unfoldable pub der_oid : List ℕ → Result (List ℕ)
unfolding components oid_content
der_oid dotted = do
  vs ← components (length dotted) dotted
  content ← oid_content vs
  ok (der_wrap 0x06 content)
