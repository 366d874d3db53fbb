-- ===== src/Base/Bits.antt =====
-- Shifts and masks of machine words as arithmetic on the native numbers.
use Prim.Native.Nat.{
  ℕ, zero, suc, ◌+◌, ◌*◌, ◌/◌, ◌%◌, ◌^◌, ◌≤◌, ◌<◌, min, max, bit_and, bit_or, digits,
  bit_and-bitwise, bit_or-bitwise,
}
use mathlib.Core.Path.{◌≡◌, refl, sym, ap, ◌∙◌}
use native.Mathlib.Nat.{pow-suc}
use native.Mathlib.Omega.{arith}
use mathlib.Core.Bool.{Bool, true, ◌&&◌}
use aas_sign.Base.Tests.{◌==◌}

-- x >> k and x << k
abbrev pub shr : ℕ → ℕ → ℕ
shr x k = x / 2 ^ k

abbrev pub shl : ℕ → ℕ → ℕ
shl x k = x * 2 ^ k

-- uint8_t(x)
abbrev pub byte : ℕ → ℕ
byte x = x % 256

-- The digit recursion behind the bit operations: it takes as many rounds as its fuel allows, and
-- any fuel from the first number on gives the same.
module _ (tail : ℕ → ℕ) (bit : ℕ → ℕ → ℕ) where
  abbrev rounds : ℕ → ℕ → ℕ → ℕ
  rounds fuel x y = digits tail bit fuel x y

  rounds_settle : (x y p q : ℕ) → x ≤ p → x ≤ q → rounds p x y ≡ rounds q x y
  rounds_settle zero y zero zero _ _ = refl
  rounds_settle zero y zero (suc q) _ _ = refl
  rounds_settle zero y (suc p) zero _ _ = refl
  rounds_settle zero y (suc p) (suc q) _ _ = refl
  rounds_settle (suc x) y zero q hp hq = absurd (omega arith)
  rounds_settle (suc x) y (suc p) zero hp hq = absurd (omega arith)
  rounds_settle (suc x) y (suc p) (suc q) hp hq =
      ap (λ t. t * 2 + bit (suc x % 2) (y % 2))
        (rounds_settle (suc x / 2) (y / 2) p q (omega arith) (omega arith))

pub zero-bit_or : (y : ℕ) → bit_or 0 y ≡ y
zero-bit_or y = bit_or-bitwise 0 y

pub or_digit : (x y : ℕ) → bit_or x y ≡ bit_or (x / 2) (y / 2) * 2 + max (x % 2) (y % 2)
or_digit zero y = omega (arith, zero-bit_or y, zero-bit_or (y / 2))
or_digit (suc x) y = omega (
  arith,
  bit_or-bitwise (suc x / 2) (y / 2),
  bit_or-bitwise (suc x) y,
  rounds_settle (λ c. c) max (suc x / 2) (y / 2) x (suc x / 2) (omega arith) (omega arith),
)

or_none : (n x : ℕ) → x ≤ n → bit_or x 0 ≡ x
or_none n zero h = refl
or_none zero (suc x) h = absurd (omega arith)
or_none (suc n) (suc x) h = omega (arith, or_digit (suc x) 0, or_none n (suc x / 2) (omega arith))

pub bit_or-zero : (x : ℕ) → bit_or x 0 ≡ x
bit_or-zero x = or_none x x (omega arith)

or_swapped : (n x y : ℕ) → x ≤ n → bit_or x y ≡ bit_or y x
or_swapped n zero y h = zero-bit_or y ∙ sym (bit_or-zero y)
or_swapped zero (suc x) y h = absurd (omega arith)
or_swapped (suc n) (suc x) y h =
    omega (
      arith,
      or_digit (suc x) y,
      or_digit y (suc x),
      or_swapped n (suc x / 2) (y / 2) (omega arith),
    )

pub bit_or_comm : (x y : ℕ) → bit_or x y ≡ bit_or y x
bit_or_comm x y = or_swapped x x y (omega arith)

-- `|` of x shifted word and one that fits below it is their sum.
pub bit_or_disjoint : (k x y : ℕ) → y < 2 ^ k → bit_or (x * 2 ^ k) y ≡ x * 2 ^ k + y
bit_or_disjoint zero x y h =
    let e : y ≡ 0 = omega arith in rw e (omega (arith, bit_or-zero (x * 1)))
bit_or_disjoint (suc k) x y h = omega (
  arith,
  or_digit (x * 2 ^ suc k) y,
  halved,
  ap (λ (t : ℕ). bit_or t (y / 2)) halved,
  bit_or_disjoint k x (y / 2) (omega (arith, pow-suc 2 k)),
  ap (λ (t : ℕ). x * t) (pow-suc 2 k),
)
  where
    halved : x * 2 ^ suc k / 2 ≡ x * 2 ^ k
    halved = omega (arith, ap (λ (t : ℕ). x * t) (pow-suc 2 k))

none_and : (y : ℕ) → bit_and 0 y ≡ 0
none_and y = bit_and-bitwise 0 y

pub and_digit : (x y : ℕ) → bit_and x y ≡ bit_and (x / 2) (y / 2) * 2 + min (x % 2) (y % 2)
and_digit zero y = omega (arith, none_and y, none_and (y / 2))
and_digit (suc x) y = omega (
  arith,
  bit_and-bitwise (suc x / 2) (y / 2),
  bit_and-bitwise (suc x) y,
  rounds_settle (λ c. 0) min (suc x / 2) (y / 2) x (suc x / 2) (omega arith) (omega arith),
)

and_none : (n x : ℕ) → x ≤ n → bit_and x 0 ≡ 0
and_none n zero h = refl
and_none zero (suc x) h = absurd (omega arith)
and_none (suc n) (suc x) h =
    omega (arith, and_digit (suc x) 0, and_none n (suc x / 2) (omega arith))

-- `x & (2^k - 1)` keeps the low k bits.
bit_and_1 : (x : ℕ) → bit_and x 1 ≡ x % 2
bit_and_1 x = omega (arith, and_digit x 1, and_none (x / 2) (x / 2) (omega arith))

bit_and_3 : (x : ℕ) → bit_and x 3 ≡ x % 4
bit_and_3 x = omega (arith, and_digit x 3, bit_and_1 (x / 2))

pub bit_and_7 : (x : ℕ) → bit_and x 7 ≡ x % 8
bit_and_7 x = omega (arith, and_digit x 7, bit_and_3 (x / 2))

pub bit_and_15 : (x : ℕ) → bit_and x 15 ≡ x % 16
bit_and_15 x = omega (arith, and_digit x 15, bit_and_7 (x / 2))

pub bit_and_31 : (x : ℕ) → bit_and x 31 ≡ x % 32
bit_and_31 x = omega (arith, and_digit x 31, bit_and_15 (x / 2))

pub bit_and_63 : (x : ℕ) → bit_and x 63 ≡ x % 64
bit_and_63 x = omega (arith, and_digit x 63, bit_and_31 (x / 2))

pub bit_and_127 : (x : ℕ) → bit_and x 127 ≡ x % 128
bit_and_127 x = omega (arith, and_digit x 127, bit_and_63 (x / 2))

pub bit_and_255 : (x : ℕ) → bit_and x 255 ≡ x % 256
bit_and_255 x = omega (arith, and_digit x 255, bit_and_127 (x / 2))

-- Over a byte, a table of all its values.
module _ (f g : ℕ → ℕ) where
  unfoldable pub agree_below : ℕ → Bool
  agree_below zero = true
  agree_below (suc n) = (f n == g n) && agree_below n

  pub agree_below→eq : (n : ℕ) → agree_below n ≡ true → (i : ℕ) → i < n → f i ≡ g i
  unfolding agree_below
  agree_below→eq zero e i h = absurd (omega arith)
  agree_below→eq (suc n) e i h = ground (arith, agree_below→eq n (ground arith) i)

-- The bit that marks a constructed tag, and the continuation bit.
pub bit_or_128 : (a : ℕ) → a < 128 → bit_or a 0x80 ≡ a + 128
unfolding agree_below
bit_or_128 = agree_below→eq (λ a. bit_or a 0x80) (λ a. a + 128) 128 refl
