-- ===== src/Cli/Pool/Laws.antt =====
-- What the worker pool has done when its threads have ended.
use Prim.Native.Nat.{min}
use aas_sign.Base.{
  ℕ, zero, suc, ◌<◌, ◌≤◌, ◌≡◌, refl, sym, ap, ◌∙◌, ◌⊎◌, inl, inr, arith, List, [], ◌∷◌, some,
  ==_refl,
}
use aas_sign.Cli.Pool.Steps.{AllDone, lt_or_le}
use aas_sign.Cli.Pool.{
  Worker, idle, signing, done, Shared, Act, take, leave, store, Step, this, other, start, Runs,
  rest, more, workers,
}

-- Worker at file j.
abbrev Works : ℕ → List Worker → Type 0
Works j [] = ⊥
Works j (idle ∷ ws) = Works j ws
Works j (done ∷ ws) = Works j ws
Works j (signing i ∷ ws) = (j ≡ i) ⊎ Works j ws

abbrev AnyDone : List Worker → Type 0
AnyDone [] = ⊥
AnyDone (done ∷ ws) = Unit
AnyDone (idle ∷ ws) = AnyDone ws
AnyDone (signing i ∷ ws) = AnyDone ws

-- k - 1, ..., 1, 0
abbrev pub downto : ℕ → List ℕ
downto zero = []
downto (suc k) = k ∷ downto k

min_left : (a b : ℕ) → a < b → min a b ≡ a
min_left a b h = omega arith

min-suc : (a b : ℕ) → a < b → min (suc a) b ≡ suc a
min-suc a b h = omega arith

min_past : (a b : ℕ) → b ≤ a → min a b ≡ min (suc a) b
min_past a b h = omega arith

min_zero : (b : ℕ) → 0 ≡ min 0 b
min_zero b = omega arith

min_all : (a b : ℕ) → b ≤ a → min a b ≡ b
min_all a b h = omega arith

module _ {A : Type 0} (n : ℕ) (sign : ℕ → A) where
  -- A result that is stored stays; what a worker is at is stored or still with it; what is newly taken
  -- is with a worker.
  abbrev Stored : Shared A → ℕ → Type 0
  Stored g j = g.results j ≡ some (sign j)

  Act-Stored :
      {g g' : Shared A} {w w' : Worker} (j : ℕ) → Act n sign g w g' w' → Stored g j → Stored g' j
  Act-Stored j (take g h) k = k
  Act-Stored j (leave g h) k = k
  Act-Stored j (store g idx) k = ground arith

  Step-Stored :
      {g g' : Shared A} {ws ws' : List Worker} (j : ℕ)
      → Step n sign g ws g' ws'
      → Stored g j
      → Stored g' j
  Step-Stored j (this ws a) k = Act-Stored j a k
  Step-Stored j (other w s) k = Step-Stored j s k

  Step-Works :
      {g g' : Shared A} {ws ws' : List Worker} (j : ℕ)
      → Step n sign g ws g' ws'
      → Works j ws
      → Stored g' j ⊎ Works j ws'
  Step-Works j (this ws (take g h)) k = inr (inr k)
  Step-Works j (this ws (leave g h)) k = inr k
  Step-Works j (this ws (store g idx)) (inl e) = inl (rw (e, ==_refl idx) refl)
  Step-Works j (this ws (store g idx)) (inr k) = inr k
  Step-Works j (other idle s) k = Step-Works j s k
  Step-Works j (other done s) k = Step-Works j s k
  Step-Works j (other (signing i) s) (inl e) = inr (inl e)
  Step-Works j (other (signing i) s) (inr k) = elim (Step-Works j s k) [
    | inl h ↦ inl h
    | inr h ↦ inr (inr h)
  ]

  Step-Taken :
      {g g' : Shared A} {ws ws' : List Worker} (j : ℕ)
      → Step n sign g ws g' ws'
      → j < n
      → g.next ≤ j
      → j < g'.next
      → Works j ws'
  Step-Taken j (this ws (take g h)) k l m = inl (omega arith)
  Step-Taken j (this ws (leave g h)) k l m = absurd (omega arith)
  Step-Taken j (this ws (store g idx)) k l m = absurd (omega arith)
  Step-Taken j (other idle s) k l m = Step-Taken j s k l m
  Step-Taken j (other done s) k l m = Step-Taken j s k l m
  Step-Taken j (other (signing i) s) k l m = inr (Step-Taken j s k l m)

  Step-next : {g g' : Shared A} {ws ws' : List Worker} → Step n sign g ws g' ws' → g.next ≤ g'.next
  Step-next (this ws (take g h)) = omega arith
  Step-next (this ws (leave g h)) = omega arith
  Step-next (this ws (store g idx)) = omega arith
  Step-next (other w s) = Step-next s

  Step-AnyDone :
      {g g' : Shared A} {ws ws' : List Worker}
      → Step n sign g ws g' ws'
      → (AnyDone ws → n ≤ g.next)
      → AnyDone ws'
      → n ≤ g'.next
  Step-AnyDone (this ws (take g h)) k d = omega (arith, k d)
  Step-AnyDone (this ws (leave g h)) k d = omega arith
  Step-AnyDone (this ws (store g idx)) k d = k d
  Step-AnyDone (other idle s) k d = Step-AnyDone s k d
  Step-AnyDone (other done s) k d = omega (arith, k tt, Step-next s)
  Step-AnyDone (other (signing i) s) k d = Step-AnyDone s k d

  Step-started :
      {g g' : Shared A} {ws ws' : List Worker}
      → Step n sign g ws g' ws'
      → g.started ≡ downto (min g.next n)
      → g'.started ≡ downto (min g'.next n)
  Step-started (this ws (take g h)) k =
      ap (λ l. g.next ∷ l) (k ∙ ap downto (min_left g.next n h))
      ∙ sym (ap downto (min-suc g.next n h))
  Step-started (this ws (leave g h)) k = k ∙ ap downto (min_past g.next n h)
  Step-started (this ws (store g idx)) k = k
  Step-started (other w s) k = Step-started s k

  -- What holds in every state of the pool.
  record IsPool (g : Shared A) (ws : List Worker) : Type 0 where
    covered : (j : ℕ) → j < n → j < g.next → Stored g j ⊎ Works j ws
    ended : AnyDone ws → n ≤ g.next
    taken : g.started ≡ downto (min g.next n)

  Step-IsPool :
      {g g' : Shared A} {ws ws' : List Worker}
      → Step n sign g ws g' ws'
      → IsPool g ws
      → IsPool g' ws'
  Step-IsPool {g = g} {g'} {ws} {ws'} s p = record {
    covered = λ j h k. elim (lt_or_le j g.next) [
      | inl l ↦ elim (p.covered j h l) [
        | inl st ↦ inl (Step-Stored j s st)
        | inr w ↦ Step-Works j s w
      ]
      | inr l ↦ inr (Step-Taken j s h l k)
    ];
    ended = Step-AnyDone s p.ended;
    taken = Step-started s p.taken;
  }

  start-AnyDone : (k : ℕ) → AnyDone (workers k) → ⊥
  start-AnyDone zero d = elim d [ ]
  start-AnyDone (suc k) d = start-AnyDone k d

  start-IsPool : (k : ℕ) → IsPool (start n sign) (workers k)
  start-IsPool k = record {
    covered = λ j h l. absurd (omega arith);
    ended = λ d. absurd (start-AnyDone k d);
    taken = ap downto (min_zero n);
  }

  Runs-IsPool :
      {g g' : Shared A} {ws ws' : List Worker}
      → Runs n sign g ws g' ws'
      → IsPool g ws
      → IsPool g' ws'
  Runs-IsPool rest p = p
  Runs-IsPool (more r s) p = Step-IsPool s (Runs-IsPool r p)

  AllDone-Works : (j : ℕ) (ws : List Worker) → AllDone ws → Works j ws → ⊥
  AllDone-Works j [] d w = elim w [ ]
  AllDone-Works j (idle ∷ ws) d w = elim d [ ]
  AllDone-Works j (signing i ∷ ws) d w = elim d [ ]
  AllDone-Works j (done ∷ ws) d w = AllDone-Works j ws d w

  -- When the threads of a pool with workers have ended, however they interleaved, each file has the
  -- result of its own signing, and the files were taken once each, in their order.
  pub pool_lem :
      (k : ℕ) {g : Shared A} (w : Worker) {ws : List Worker}
      → Runs n sign (start n sign) (workers k) g (w ∷ ws)
      → AllDone (w ∷ ws)
      → ((j : ℕ) → j < n → g.results j ≡ some (sign j)) × (g.started ≡ downto n)
  pool_lem k {g} done {ws} r d =
      let p = Runs-IsPool r (start-IsPool k) in
      let e = p.ended tt in
      (
        λ j h. elim (p.covered j h (omega arith)) [
          | inl st ↦ st
          | inr w ↦ absurd (AllDone-Works j (done ∷ ws) d w)
        ],
        p.taken ∙ ap downto (min_all g.next n e),
      )
  pool_lem k idle r d = absurd d
  pool_lem k (signing i) r d = absurd d
