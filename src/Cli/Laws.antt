-- ===== src/Cli/Laws.antt =====
-- About the loop over the arguments.
use aas_sign.Base.{
  ℕ, ◌≡◌, refl, ◌≤◌, ◌⊎◌, inl, inr, arith, Bool, true, false, not, List, [], ◌∷◌, ◌++◌, All,
  All-append, Option, none, some, Option-cases, Text, subst, if◌then◌else◌,
}
use aas_sign.Der.Integers.{ℤ, pos, negsuc}
use aas_sign.Cli.{Options}
use aas_sign.Cli.Args.{
  Effect, takes, sets, exits, ready, is_option, at_least_one, plain, valued, effect, parse_args,
}

-- At least one worker, files that are no options, and the TLS settings the program came with.
abbrev pub IsSane : Text → Bool → Options → Type 0
IsSane ca_bundle insecure o =
    (1 ≤ o.max_parallel)
    × All (λ f. is_option f ≡ false) o.files
    × (o.ca_bundle ≡ ca_bundle)
    × (o.insecure ≡ insecure)

-- What an argument may come to.
abbrev After : Text → Bool → Effect → Type 0
After c i (takes o) = IsSane c i o
After c i (sets o) = IsSane c i o
After c i (exits code) = Unit

add_file :
    (o : Options) (arg : Text)
    → is_option arg ≡ false
    → All (λ f. is_option f ≡ false) o.files
    → All (λ f. is_option f ≡ false) (o.files ++ arg ∷ [])
add_file o arg h s = All-append (λ f. is_option f ≡ false) o.files (arg ∷ []) s (h, tt)

if-holds :
    {A : Type 0} (P : A → Type 0) (b : Bool) {m n : A}
    → (b ≡ true → P m)
    → (b ≡ false → P n)
    → P (if b then m else n)
if-holds P true h k = h refl
if-holds P false h k = k refl

not-true : (b : Bool) → not b ≡ true → b ≡ false
not-true true h = cc
not-true false h = refl

at_least_one_lem : (n : ℤ) → 1 ≤ at_least_one n
unfolding at_least_one
at_least_one_lem (pos n) = omega arith
at_least_one_lem (negsuc n) = omega arith

Effect-cases :
    (e : Effect)
    → ((o : Options) × (e ≡ takes o))
      ⊎ (((o : Options) × (e ≡ sets o)) ⊎ ((code : ℕ) × (e ≡ exits code)))
Effect-cases (takes o) = inl (o, refl)
Effect-cases (sets o) = inr (inl (o, refl))
Effect-cases (exits code) = inr (inr (code, refl))

ready-injective : {o o' : Options} → ready o ≡ ready o' → o ≡ o'
ready-injective h = cc

module _ (atoi : Text → ℤ) (c : Text) (i : Bool) where
  -- The same of an option with a value, where it is one.
  abbrev Set : Option Options → Type 0
  Set none = Unit
  Set (some o) = IsSane c i o

  plain-After : (o : Options) (arg : Text) → IsSane c i o → After c i (plain o arg)
  unfolding plain
  plain-After o arg s = ground (arith, s, add_file o arg)

  valued-Set : (o : Options) (arg v : Text) → IsSane c i o → Set (valued atoi o arg v)
  unfolding valued
  valued-Set o arg v s = ground (arith, s, at_least_one_lem (atoi v))

  effect-After : (o : Options) (arg v : Text) → IsSane c i o → After c i (effect atoi o arg v)
  unfolding effect
  effect-After o arg v s =
      let k = valued-Set o arg v s in
      elim (Option-cases (valued atoi o arg v)) [
        | inl n ↦ rw (After, n) (plain-After o arg s)
        | inr (o', e) ↦ rw (After, e) (subst Set e k)
      ]

  -- Whatever the arguments are, options that were read name at least one worker, their files are no
  -- options, and they keep the TLS settings of the command line.
  pub parse_args-IsSane :
      (o : Options) (args : List Text) (o' : Options)
      → IsSane c i o
      → parse_args atoi o args ≡ ready o'
      → IsSane c i o'
  unfolding parse_args
  parse_args-IsSane o [] o' s h = subst (IsSane c i) (ready-injective h) s
  parse_args-IsSane o (arg ∷ []) o' s h =
      let k = plain-After o arg s in
      elim (Effect-cases (plain o arg)) [
        | inl (o₁, e) ↦
            subst (IsSane c i) (ready-injective (rw (parse_args, e) at h)) (subst (After c i) e k)
        | inr (inl (o₁, e)) ↦
            subst (IsSane c i) (ready-injective (rw (parse_args, e) at h)) (subst (After c i) e k)
        | inr (inr (code, e)) ↦ cc (rw (parse_args, e) at h)
      ]
  parse_args-IsSane o (arg ∷ v ∷ rest) o' s h =
      let k = effect-After o arg v s in
      elim (Effect-cases (effect atoi o arg v)) [
        | inl (o₁, e) ↦
            parse_args-IsSane o₁ rest o' (subst (After c i) e k) (rw (parse_args, e) at h)
        | inr (inl (o₁, e)) ↦
            parse_args-IsSane o₁ (v ∷ rest) o' (subst (After c i) e k) (rw (parse_args, e) at h)
        | inr (inr (code, e)) ↦ cc (rw (parse_args, e) at h)
      ]
