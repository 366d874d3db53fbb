-- ===== src/Cli/Dispatch.antt =====
-- `aas_sign_main` of src/main.cpp: the TLS flags that any subcommand takes, and the choice of the
-- subcommand. The arguments are those behind argv[0].
use aas_sign.Base.{
  ◌≡◌, ◌≢◌, refl, sym, ◌∙◌, Bool-cases, ◌⊎◌, inl, inr, ap, Bool, true, false, ◌||◌, List, [], ◌∷◌,
  Text, is, if◌then◌else◌,
}

pub data Flag : Type 0 where
  insecure_flag cacert_flag other_flag : Flag

-- Which of the flags an argument is.
unfoldable pub flag_of : Text → Flag
flag_of arg =
    if is arg "--insecure"
    then insecure_flag
    else if is arg "--cacert"
    then cacert_flag
    else other_flag

pub record Swept : Type 0 where
  pub ca_bundle : Text
  pub insecure : Bool
  pub args : List Text

abbrev keep_arg : Text → Swept → Swept
keep_arg arg s = record s { args = arg ∷ s.args }

-- for (int i = 1; i < argc; )
unfoldable pub sweep : Text → Bool → List Text → Swept
unfolding flag_of
sweep c i [] = record { ca_bundle = c; insecure = i; args = [] }
sweep c i (arg ∷ []) = elim (flag_of arg) [
  | insecure_flag ↦ record { ca_bundle = c; insecure = true; args = [] }
  | cacert_flag ↦ record { ca_bundle = c; insecure = i; args = arg ∷ [] }
  | other_flag ↦ record { ca_bundle = c; insecure = i; args = arg ∷ [] }
]
sweep c i (arg ∷ v ∷ rest) = elim (flag_of arg) [
  | insecure_flag ↦ sweep c true (v ∷ rest)
  | cacert_flag ↦ sweep v i rest
  | other_flag ↦ keep_arg arg (sweep c i (v ∷ rest))
]

-- What the program does next; the last is an unknown subcommand.
pub data Command : Type 0 where
  usage_error full_usage version : Command
  sign login logout config : Swept → Command
  unknown : Text → Command

unfoldable pub choose : Swept → List Text → Command
choose s [] = usage_error
choose s (arg ∷ _) =
    if is arg "--help" || is arg "-h"
    then full_usage
    else if is arg "--version"
    then version
    else if is arg "sign"
    then sign s
    else if is arg "login"
    then login s
    else if is arg "logout"
    then logout s
    else if is arg "config"
    then config s
    else unknown arg

unfoldable pub dispatch : List Text → Command
unfolding sweep choose
dispatch args = let s = sweep [] false args in choose s s.args

-- Arguments with no TLS flag left in them: none but a last `--cacert`, which has no value.
abbrev pub Clean : List Text → Type 0
Clean [] = Unit
Clean (arg ∷ []) = is arg "--insecure" ≡ false
Clean (arg ∷ v ∷ rest) =
    (is arg "--insecure" ≡ false) × (is arg "--cacert" ≡ false) × Clean (v ∷ rest)

differ_cacert : cacert_flag ≢ insecure_flag
differ_cacert h = cc

differ_other : other_flag ≢ insecure_flag
differ_other h = cc

differ_flags : cacert_flag ≢ other_flag
differ_flags h = cc

not_insecure : (arg : Text) → flag_of arg ≢ insecure_flag → is arg "--insecure" ≡ false
unfolding flag_of
not_insecure arg h = elim (Bool-cases (is arg "--insecure")) [
  | inl e ↦ absurd (h (rw e refl))
  | inr e ↦ e
]

not_cacert : (arg : Text) → flag_of arg ≡ other_flag → is arg "--cacert" ≡ false
unfolding flag_of
not_cacert arg h = elim (Bool-cases (is arg "--cacert")) [
  | inr k ↦ k
  | inl k ↦ elim (Bool-cases (is arg "--insecure")) [
    | inl i ↦ absurd (differ_other (sym (rw i at h)))
    | inr i ↦ absurd (differ_flags (rw (i, k) at h))
  ]
]

to_other :
    (arg : Text)
    → is arg "--insecure" ≡ false
    → is arg "--cacert" ≡ false
    → flag_of arg ≡ other_flag
unfolding flag_of
to_other arg h k = rw (h, k) refl

Flag-cases : (f : Flag) → (f ≡ insecure_flag) ⊎ ((f ≡ cacert_flag) ⊎ (f ≡ other_flag))
Flag-cases insecure_flag = inl refl
Flag-cases cacert_flag = inr (inl refl)
Flag-cases other_flag = inr (inr refl)

Clean-cons :
    (arg : Text) (args : List Text) → flag_of arg ≡ other_flag → Clean args → Clean (arg ∷ args)
Clean-cons arg [] h k = not_insecure arg (λ e. differ_other (sym h ∙ e))
Clean-cons arg (v ∷ rest) h k =
    (not_insecure arg (λ e. differ_other (sym h ∙ e)), not_cacert arg h, k)

-- No argument that a subcommand sees is `--insecure`, and none but the last is `--cacert`.
pub sweep-Clean : (c : Text) (i : Bool) (args : List Text) → Clean (sweep c i args).args
unfolding sweep
sweep-Clean c i [] = tt
sweep-Clean c i (arg ∷ []) = elim (Flag-cases (flag_of arg)) [
  | inl e ↦ rw (sweep, e) tt
  | inr (inl e) ↦ rw (sweep, e) (not_insecure arg (λ q. differ_cacert (sym e ∙ q)))
  | inr (inr e) ↦ rw (sweep, e) (not_insecure arg (λ q. differ_other (sym e ∙ q)))
]
sweep-Clean c i (arg ∷ v ∷ rest) = elim (Flag-cases (flag_of arg)) [
  | inl e ↦ rw (sweep, e) (sweep-Clean c true (v ∷ rest))
  | inr (inl e) ↦ rw (sweep, e) (sweep-Clean v i rest)
  | inr (inr e) ↦
      rw (sweep, e) (Clean-cons arg (sweep c i (v ∷ rest)).args e (sweep-Clean c i (v ∷ rest)))
]

not_flag : (arg : Text) → is arg "--insecure" ≡ false → flag_of arg ≢ insecure_flag
unfolding flag_of
not_flag arg h e = elim (Bool-cases (is arg "--cacert")) [
  | inl k ↦ absurd (differ_cacert (rw (h, k) at e))
  | inr k ↦ absurd (differ_other (rw (h, k) at e))
]

-- Arguments without the TLS flags reach the subcommand unchanged, with the settings as they were.
pub sweep-same :
    (c : Text) (i : Bool) (args : List Text)
    → Clean args
    → sweep c i args ≡ record { ca_bundle = c; insecure = i; args = args }
unfolding sweep
sweep-same c i [] h = refl
sweep-same c i (arg ∷ []) h = elim (Flag-cases (flag_of arg)) [
  | inl e ↦ absurd (not_flag arg h e)
  | inr (inl e) ↦ rw (sweep, e) refl
  | inr (inr e) ↦ rw (sweep, e) refl
]
sweep-same c i (arg ∷ v ∷ rest) h =
    rw (sweep, to_other arg h.0 h.1) (ap (keep_arg arg) (sweep-same c i (v ∷ rest) h.2))
