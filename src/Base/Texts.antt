-- ===== src/Base/Texts.antt =====
-- Byte strings as keys and option names.
use Prim.Native.Nat.{ℕ}
use Prim.Native.String.{String}
use mathlib.Core.Path.{◌≡◌, refl}
use mathlib.Core.Bool.{Bool, true, false, ◌&&◌}
use mathlib.Core.List.{List, [], ◌∷◌}
use native.Mathlib.Omega.{arith}
use aas_sign.Base.Tests.{◌==◌, ==_refl}
use aas_sign.Base.Lists.{codes}

-- a std::string or an argument of the command line
abbrev pub Text : Type 0
Text = List ℕ

-- memcmp(a, b, n) == 0, strcmp(a, b) == 0, a == b
unfoldable pub bytes_eq : Text → Text → Bool
bytes_eq [] [] = true
bytes_eq [] (y ∷ ys) = false
bytes_eq (x ∷ xs) [] = false
bytes_eq (x ∷ xs) (y ∷ ys) = x == y && bytes_eq xs ys

pub bytes_eq_refl : (xs : Text) → bytes_eq xs xs ≡ true
unfolding bytes_eq
bytes_eq_refl [] = refl
bytes_eq_refl (x ∷ xs) = rw (==_refl x) (bytes_eq_refl xs)

pub bytes_eq→eq : (xs ys : Text) → bytes_eq xs ys ≡ true → xs ≡ ys
unfolding bytes_eq
bytes_eq→eq [] [] h = refl
bytes_eq→eq [] (y ∷ ys) h = cc
bytes_eq→eq (x ∷ xs) [] h = cc
bytes_eq→eq (x ∷ xs) (y ∷ ys) h = ground (arith, bytes_eq→eq xs ys)

abbrev pub is : Text → String → Bool
is arg name = bytes_eq arg (codes name)

-- s.empty()
abbrev pub is_nil : Text → Bool
is_nil [] = true
is_nil (_ ∷ _) = false
