-- ===== src/Msi.antt =====
-- src/msi_recursive.cpp: the payloads of an installer. A cabinet is given as its bytes.
pub mod Ranges
pub mod Folders
pub mod Cabinet
pub mod Bounds
pub mod Tables
pub mod Spread
pub mod Placed
pub mod Sound
pub mod Total
pub mod Database
pub mod Media
pub mod Unpack
pub mod Restore
pub mod Overwrite
pub mod Restored
pub mod Preserved
pub mod Rewrite
pub mod Workspace
pub mod Contained
pub mod Rewriter
pub mod Matched
pub mod Rewritten
use aas_sign.Base.{
  ℕ, zero, suc, ◌+◌, ◌-◌, ◌*◌, ◌/◌, ◌%◌, ◌^◌, ltb, leb, bit_or, ◌==◌, Bool, true, false, not, ◌&&◌,
  ◌||◌, List, [], ◌∷◌, ◌++◌, drop, Option, none, some, Result, ok, err, ◌>>=◌, ◌>>◌, guard, Text,
  codes, is, is_nil, bytes_eq, if◌then◌else◌,
}
use aas_sign.Base.Bits.{shl}
use aas_sign.Der.Integers.{ℤ, pos, negsuc}

abbrev pub expansion_limit : ℕ
expansion_limit = 1024 * 1024 * 1024

abbrev pub member_limit : ℕ
member_limit = 65535

-- Buffers are longer than what is read of them.
unfoldable pub u16 : List ℕ → ℕ
u16 (a ∷ b ∷ _) = bit_or a (shl b 8)
u16 _ = 0

unfoldable pub u32 : List ℕ → ℕ
unfolding u16
u32 p = bit_or (u16 p) (shl (u16 (drop 2 p)) 16)

-- The value of decimal digits, after those already read.
unfoldable pub digits_value : ℕ → Text → Option ℕ
digits_value n [] = some n
digits_value n (c ∷ cs) =
    if leb b'0' c && leb c b'9' then digits_value (10 * n + (c - b'0')) cs else none

-- std::from_chars on all of the text; a number outside of int32_t is an error too.
abbrev in_range : ℕ → Option ℕ → Result ℕ
in_range limit none = err "invalid integer in database"
in_range limit (some n) = guard (leb n limit) "invalid integer in database" >> ok n

unfoldable pub minus : ℕ → ℤ
minus zero = pos 0
minus (suc n) = negsuc n

abbrev pub whole_value : Text → Option ℕ
whole_value [] = none
whole_value (c ∷ cs) = digits_value 0 (c ∷ cs)

unfoldable pub integer : Text → Result ℤ
unfolding digits_value minus
integer [] = ok (pos 0)
integer (c ∷ cs) =
    if c == b'-'
    then (do n ← in_range (2 ^ 31) (whole_value cs); ok (minus n))
    else (do n ← in_range (2 ^ 31 - 1) (whole_value (c ∷ cs)); ok (pos n))

-- name.find_first_of("/\\:"), and the control characters
abbrev pub is_unsafe : ℕ → Bool
is_unsafe c = c == b'/' || (c == b'\\' || (c == b':' || (ltb c 32 || c == 127)))

unfoldable pub none_unsafe : Text → Bool
none_unsafe [] = true
none_unsafe (c ∷ cs) = not (is_unsafe c) && none_unsafe cs

unfoldable pub safe_name : Text → Bool
unfolding none_unsafe
safe_name name =
    not (is_nil name) && (not (is name ".") && (not (is name "..") && none_unsafe name))

-- std::to_string of a number with at most 20 digits
unfoldable pub digits : ℕ → ℕ → Text → Text
digits zero n acc = acc
digits (suc k) n acc =
    let more = digits k (n / 10) ((b'0' + n % 10) ∷ acc) in
    if ltb n 10 then (b'0' + n % 10) ∷ acc else more

unfoldable pub to_string : ℕ → Text
unfolding digits
to_string n = digits 20 n []

pub record CabinetMember : Type 0 where
  pub name : Text
  pub path : Text
  pub size : ℕ
  pub date : ℕ
  pub time : ℕ
  pub attributes : ℕ
