-- ===== src/Base/Results.antt =====
-- A C++ call that returns, throws `std::runtime_error`, or (for a loop on fuel) is still running
-- when the fuel is used up. Theorems show where `stuck` cannot come up.
use Prim.Native.String.{String}
use mathlib.Core.Path.{◌≡◌, refl}
use aas_sign.Base.Tests.{if◌then◌else◌}
use mathlib.Core.Logic.{◌≢◌}
use mathlib.Core.Bool.{Bool, true, false}

pub data Result {ℓ} (A : Type ℓ) : Type ℓ where
  ok : A → Result A
  err : String → Result A
  stuck : Result A

module _ {ℓ κ} {A : Type ℓ} {B : Type κ} where
  infixl 5 ◌>>=◌ ◌>>◌
  abbrev pub ◌>>=◌ : Result A → (A → Result B) → Result B
  stuck >>= k = stuck
  err why >>= k = err why
  ok x >>= k = k x

  abbrev pub ◌>>◌ : Result A → Result B → Result B
  r >> next = r >>= λ _. next

  -- What a bind that returned has gone through.
  pub >>=-eq-ok :
      (r : Result A) (k : A → Result B) {y : B}
      → (r >>= k) ≡ ok y
      → (x : A) × (r ≡ ok x) × (k x ≡ ok y)
  >>=-eq-ok stuck k e = cc
  >>=-eq-ok (err why) k e = cc
  >>=-eq-ok (ok x) k e = (x, refl, e)

-- `if (!test) throw std::runtime_error(why)`
abbrev pub guard : Bool → String → Result (Unit {0})
guard true why = ok tt
guard false why = err why

-- A test that let a call return.
pub guard-eq-ok {ℓ} :
    {A : Type ℓ} (b : Bool) (why : String) {k : Result A} {y : A}
    → (guard b why >> k) ≡ ok y
    → (b ≡ true) × (k ≡ ok y)
guard-eq-ok true why e = (refl, e)
guard-eq-ok false why e = cc

-- A bind is not stuck if neither of its parts is.
pub >>=-ne-stuck {ℓ κ} :
    {A : Type ℓ} {B : Type κ} (m : Result A) (f : A → Result B)
    → m ≢ stuck
    → ((a : A) → m ≡ ok a → f a ≢ stuck)
    → (m >>= f) ≢ stuck
>>=-ne-stuck (ok a) f h k = k a refl
>>=-ne-stuck (err e) f h k = λ p. cc
>>=-ne-stuck stuck f h k = absurd (h refl)

pub ok-ne-stuck {ℓ} : {A : Type ℓ} (a : A) → ok a ≢ stuck
ok-ne-stuck a = λ p. cc

pub err-ne-stuck {ℓ} : {A : Type ℓ} (e : String) → ◌≢◌ {A = Result A} (err e) stuck
err-ne-stuck e = λ p. cc

pub guard-ne-stuck : (b : Bool) (e : String) → guard b e ≢ stuck
guard-ne-stuck true e = λ p. cc
guard-ne-stuck false e = λ p. cc

pub if-ne-stuck {ℓ} :
    {A : Type ℓ} (b : Bool) (m n : Result A) → m ≢ stuck → n ≢ stuck → (if b then m else n) ≢ stuck
if-ne-stuck true m n h k = h
if-ne-stuck false m n h k = k

pub ruleset total_rules = (>>=-ne-stuck, ok-ne-stuck, err-ne-stuck, guard-ne-stuck, if-ne-stuck)

pub ok-injective {ℓ} : {A : Type ℓ} {a b : A} → ok a ≡ ok b → a ≡ b
ok-injective h = cc

-- A call that returns.
abbrev pub Returns {ℓ} : {A : Type ℓ} → Result A → Type ℓ
Returns {A = A} m = (a : A) × (m ≡ ok a)

pub >>=-Returns {ℓ κ} :
    {A : Type ℓ} {B : Type κ} (m : Result A) (f : A → Result B) {a : A}
    → m ≡ ok a
    → Returns (f a)
    → Returns (m >>= f)
>>=-Returns m f e r = rw e r
