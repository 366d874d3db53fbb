-- ===== src/Process/Quoting.antt =====
-- The rules by which a Windows program takes its command line apart, as Microsoft documents them, and
-- the command lines of src/win32.cpp under them.
use aas_sign.Base.{
  ℕ, zero, suc, ◌+◌, ◌*◌, ◌/◌, ◌%◌, ◌<◌, ltb, ◌==◌, ◌≡◌, refl, sym, ap, ◌∙◌, subst, Bool, true,
  false, not, ◌&&◌, ◌||◌, ==_iff, ltb→lt, Bool-cases, inl, inr, arith, List, [], ◌∷◌, ◌++◌,
  append-nil, append_assoc, length, Result, ok, ok-injective, guard-eq-ok, >>=-eq-ok, Text,
  if◌then◌else◌,
}
use aas_sign.Process.{has_char}
use aas_sign.Process.Windows.{
  slashes, quote_rest, quote, quote_argument, quote_arguments, command_line,
}

-- Between two arguments, or in one: whether inside quotes, the backslashes that have just been read,
-- and what the argument has before these.
pub data Mode : Type 0 where
  gap : Mode
  reading : Bool → ℕ → Text → Mode

abbrev is_blank : ℕ → Bool
is_blank c = c == b' ' || c == b'\t'

-- Of backslashes before a quote each two are one; an odd one makes the quote a character of the
-- argument.
unfoldable pub next : Bool → ℕ → Text → ℕ → Mode
unfolding slashes
next quoted n arg c =
    if c == b'\\'
    then reading quoted (suc n) arg
    else if c == b'"'
    then (if n % 2 == 0
        then reading (not quoted) 0 (arg ++ slashes (n / 2))
        else reading quoted 0 (arg ++ slashes (n / 2) ++ b'"' ∷ []))
    else if not quoted && is_blank c
    then gap
    else reading quoted 0 (arg ++ slashes n ++ c ∷ [])

-- An argument that a blank has ended.
abbrev ended : Bool → ℕ → Text → ℕ → List Text
ended quoted n arg c = if not quoted && is_blank c then (arg ++ slashes n) ∷ [] else []

-- The arguments of a command line.
unfoldable pub arguments : Mode → Text → List Text
unfolding next
arguments gap [] = []
arguments (reading quoted n arg) [] = (arg ++ slashes n) ∷ []
arguments gap (c ∷ line) = arguments (if is_blank c then gap else next false 0 [] c) line
arguments (reading quoted n arg) (c ∷ line) =
    ended quoted n arg c ++ arguments (next quoted n arg c) line

slashes-suc : (n : ℕ) (xs : Text) → slashes n ++ b'\\' ∷ xs ≡ slashes (suc n) ++ xs
unfolding slashes
slashes-suc zero xs = refl
slashes-suc (suc n) xs = ap (λ t. b'\\' ∷ t) (slashes-suc n xs)

-- Backslashes are counted.
arguments-slashes :
    (k n : ℕ) (arg rest : Text)
    → arguments (reading true n arg) (slashes k ++ rest) ≡ arguments (reading true (k + n) arg) rest
unfolding arguments slashes
arguments-slashes zero n arg rest =
    let e : n ≡ 0 + n = omega arith in ap (λ m. arguments (reading true m arg) rest) e
arguments-slashes (suc k) n arg rest =
    let e : k + suc n ≡ suc k + n = omega arith in
    arguments-slashes k (suc n) arg rest ∙ ap (λ m. arguments (reading true m arg) rest) e

halved : (n : ℕ) → n * 2 / 2 ≡ n
halved n = omega arith

even : (n : ℕ) → (n * 2 % 2 == 0) ≡ true
even n = ground arith

odd_half : (n : ℕ) → (n * 2 + 1) / 2 ≡ n
odd_half n = omega arith

odd : (n : ℕ) → ((n * 2 + 1) % 2 == 0) ≡ false
odd n = ground arith

read_close :
    (n : ℕ) (arg rest : Text)
    → arguments (reading true (n * 2) arg) (b'"' ∷ rest)
      ≡ arguments (reading false 0 (arg ++ slashes n)) rest
unfolding arguments
read_close n arg rest = rw (even n, halved n) refl

read_quote :
    (n : ℕ) (arg rest : Text)
    → arguments (reading true (n * 2 + 1) arg) (b'"' ∷ rest)
      ≡ arguments (reading true 0 (arg ++ slashes n ++ b'"' ∷ [])) rest
unfolding arguments
read_quote n arg rest = rw (odd n, odd_half n) refl

read_char :
    (n c : ℕ) (arg rest : Text)
    → (c == b'\\') ≡ false
    → (c == b'"') ≡ false
    → arguments (reading true n arg) (c ∷ rest)
      ≡ arguments (reading true 0 (arg ++ slashes n ++ c ∷ [])) rest
unfolding arguments
read_char n c arg rest e f = rw (e, f) refl

joined :
    (arg back : Text) (c : ℕ) (input : Text)
    → (arg ++ back ++ c ∷ []) ++ input ≡ arg ++ (back ++ c ∷ input)
joined arg back c input =
    append_assoc (arg ++ back) (c ∷ []) input ∙ append_assoc arg back (c ∷ input)

-- What is read of backslashes and of a character behind them.
past :
    (k : ℕ) (c : ℕ) (arg others rest : Text)
    → arguments (reading true 0 arg) ((slashes k ++ c ∷ others) ++ rest)
      ≡ arguments (reading true k arg) (c ∷ (others ++ rest))
past k c arg others rest =
    let e : k + 0 ≡ k = omega arith in
    ap (arguments (reading true 0 arg)) (append_assoc (slashes k) (c ∷ others) rest)
    ∙ arguments-slashes k 0 arg (c ∷ (others ++ rest))
    ∙ ap (λ m. arguments (reading true m arg) (c ∷ (others ++ rest))) e

-- A quoted argument is read to its end.
arguments-quote_rest :
    (n : ℕ) (input arg rest : Text)
    → arguments (reading true 0 arg) (quote_rest n input ++ rest)
      ≡ arguments (reading false 0 (arg ++ (slashes n ++ input))) rest
unfolding quote_rest slashes
arguments-quote_rest n [] arg rest =
    past (n * 2) b'"' arg [] rest
    ∙ read_close n arg rest
    ∙ ap (λ t. arguments (reading false 0 (arg ++ t)) rest) (sym (append-nil (slashes n)))
arguments-quote_rest n (c ∷ input) arg rest = elim (Bool-cases (c == b'\\')) [
  | inl e ↦
      rw e (arguments-quote_rest (suc n) input arg rest)
      ∙ ap (λ t. arguments (reading false 0 (arg ++ t)) rest)
          (sym (slashes-suc n input)
            ∙ ap (λ x. slashes n ++ x ∷ input) (sym ((==_iff c b'\\').0 e)))
  | inr e ↦ elim (Bool-cases (c == b'"')) [
    | inl f ↦
        let quoted = (==_iff c b'"').0 f in
        rw (e, f, quoted)
          (past (n * 2 + 1) b'"' arg (quote_rest 0 input) rest
            ∙ read_quote n arg (quote_rest 0 input ++ rest)
            ∙ arguments-quote_rest 0 input _ rest
            ∙ ap (λ t. arguments (reading false 0 t) rest) (joined arg (slashes n) b'"' input))
    | inr f ↦
        rw (e, f)
          (past n c arg (quote_rest 0 input) rest
            ∙ read_char n c arg (quote_rest 0 input ++ rest) e f
            ∙ arguments-quote_rest 0 input _ rest
            ∙ ap (λ t. arguments (reading false 0 t) rest) (joined arg (slashes n) c input))
  ]
]

-- An argument behind a blank.
arguments-quote :
    (input rest : Text)
    → arguments gap (b' ' ∷ (quote input ++ rest)) ≡ arguments (reading false 0 input) rest
unfolding quote arguments slashes
arguments-quote input rest = arguments-quote_rest 0 input [] rest

-- The texts that the arguments are as wide texts.
abbrev pub AllWide : (Text → Result Text) → List Text → List Text → Type 0
AllWide wide [] [] = Unit
AllWide wide [] (w ∷ ws) = ⊥
AllWide wide (arg ∷ args) [] = ⊥
AllWide wide (arg ∷ args) (w ∷ ws) = (wide arg ≡ ok w) × AllWide wide args ws

module _ (wide : Text → Result Text) where
  quote_argument-quote :
      (arg : Text) {quoted : Text}
      → quote_argument wide arg ≡ ok quoted
      → (w : Text) × (wide arg ≡ ok w) × (quoted ≡ quote w)
  unfolding quote_argument
  quote_argument-quote arg h =
      let (e, h₁) = guard-eq-ok (not (has_char 0 arg)) _ h in
      let (w, e₂, h₂) = >>=-eq-ok (wide arg) _ h₁ in (w, e₂, sym (ok-injective h₂))

  -- What a line is read into, between arguments and behind one.
  record IsRead (args : List Text) (ws : List Text) (line : Text) : Type 0 where
    all : AllWide wide args ws
    at_gap : arguments gap line ≡ ws
    behind : (arg : Text) → arguments (reading false 0 arg) line ≡ arg ∷ ws

  -- One argument after another; the first of them ends what was read before.
  quote_arguments-IsRead :
      (args : List Text) {line : Text}
      → quote_arguments wide args ≡ ok line
      → (ws : List Text) × IsRead args ws line
  unfolding quote_arguments arguments slashes
  quote_arguments-IsRead [] h = (
    [],
    subst (IsRead [] []) (ok-injective h)
        (record { all = tt; at_gap = refl; behind = λ arg. ap (λ t. t ∷ []) (append-nil arg) }),
  )
  quote_arguments-IsRead (arg ∷ args) h =
      let (quoted, e₁, h₁) = >>=-eq-ok (quote_argument wide arg) _ h in
      let (rest, e₂, h₂) = >>=-eq-ok (quote_arguments wide args) _ h₁ in
      let (w, e₃, same) = quote_argument-quote arg e₁ in
      let (ws, k) = quote_arguments-IsRead args e₂ in
      let read : arguments gap (b' ' ∷ (quote w ++ rest)) ≡ w ∷ ws =
        arguments-quote w rest ∙ k.behind w in
      let line_of : b' ' ∷ (quote w ++ rest) ≡ _ =
        ap (λ q. b' ' ∷ (q ++ rest)) (sym same) ∙ ok-injective h₂ in
      (
        w ∷ ws,
        subst (IsRead (arg ∷ args) (w ∷ ws)) line_of (record {
          all = (e₃, k.all);
          at_gap = read;
          behind = λ a.
              ap (λ t. t ∷ arguments gap (b' ' ∷ (quote w ++ rest))) (append-nil a)
              ∙ ap (λ t. a ∷ t) read;
        }),
      )

-- A command line that is let through is shorter than the limit of Windows, and a program takes what
-- is behind its own name apart, by the documented rules, into the arguments it was to be called with,
-- in their order, as wide texts: whatever quotes, blanks and backslashes they have, and the empty
-- ones among them.
pub command_line-arguments :
    (wide : Text → Result Text) (resolved : Text) (args : List Text) (line : Text)
    → command_line wide resolved args ≡ ok line
    → (length line < 32767)
      × ((first : Text) × (back : Text) × (ws : List Text) × (quote_argument wide resolved
            ≡ ok first)
          × (line ≡ first ++ back)
          × AllWide wide args ws
          × (arguments gap back ≡ ws))
unfolding command_line
command_line-arguments wide resolved args line h =
    let (first, e₁, h₁) = >>=-eq-ok (quote_argument wide resolved) _ h in
    let (back, e₂, h₂) = >>=-eq-ok (quote_arguments wide args) _ h₁ in
    let (e₃, h₃) = guard-eq-ok (ltb (length (first ++ back)) 32767) _ h₂ in
    let (ws, k) = quote_arguments-IsRead wide args e₂ in
    let same = ok-injective h₃ in
    (
      subst (λ l. length l < 32767) same (ltb→lt (length (first ++ back)) 32767 e₃),
      (first, back, ws, e₁, sym same, k.all, k.at_gap),
    )
