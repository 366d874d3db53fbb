-- ===== src/Cli/Pool/Steps.antt =====
-- How long the worker pool runs.
use aas_sign.Base.{
  ℕ, zero, suc, ◌+◌, ◌*◌, ◌-◌, ◌<◌, ◌≤◌, ◌≡◌, refl, ◌⊎◌, inl, inr, arith, List, [], ◌∷◌,
}
use aas_sign.Cli.Pool.{
  Worker, idle, signing, done, Shared, Act, take, leave, store, Step, this, other, start, Runs,
  rest, more, workers,
}

abbrev pub AllDone : List Worker → Type 0
AllDone [] = Unit
AllDone (done ∷ ws) = AllDone ws
AllDone (idle ∷ ws) = ⊥
AllDone (signing i ∷ ws) = ⊥

-- What a worker has still to do.
abbrev weight : List Worker → ℕ
weight [] = 0
weight (idle ∷ ws) = 1 + weight ws
weight (done ∷ ws) = weight ws
weight (signing i ∷ ws) = 2 + weight ws

pub lt_or_le : (a b : ℕ) → (a < b) ⊎ (b ≤ a)
lt_or_le a b = omega arith

module _ {A : Type 0} (n : ℕ) (sign : ℕ → A) where
  -- The actions left in a state of the pool, at most.
  abbrev pub measure : Shared A → List Worker → ℕ
  measure g ws = 2 * (n - g.next) + weight ws

  Act-measure :
      {g g' : Shared A} {w w' : Worker} (ws : List Worker)
      → Act n sign g w g' w'
      → measure g' (w' ∷ ws) < measure g (w ∷ ws)
  Act-measure ws (take g h) = omega arith
  Act-measure ws (leave g h) = omega arith
  Act-measure ws (store g idx) = omega arith

  Step-measure :
      {g g' : Shared A} {ws ws' : List Worker}
      → Step n sign g ws g' ws'
      → measure g' ws' < measure g ws
  Step-measure (this ws a) = Act-measure ws a
  Step-measure (other idle s) = let h = Step-measure s in omega arith
  Step-measure (other done s) = Step-measure s
  Step-measure (other (signing i) s) = let h = Step-measure s in omega arith

  abbrev pub steps : {g g' : Shared A} {ws ws' : List Worker} → Runs n sign g ws g' ws' → ℕ
  steps rest = 0
  steps (more r s) = suc (steps r)

  Runs-measure :
      {g g' : Shared A} {ws ws' : List Worker} (r : Runs n sign g ws g' ws')
      → steps r + measure g' ws' ≤ measure g ws
  Runs-measure rest = omega arith
  Runs-measure (more r s) = let h = Runs-measure r in let k = Step-measure s in omega arith

  weight-workers : (k : ℕ) → weight (workers k) ≡ k
  weight-workers zero = refl
  weight-workers (suc k) = omega (arith, weight-workers k)

  -- However the workers interleave, the pool takes at most two actions per file and one per worker.
  pub steps-start :
      (k : ℕ) {g : Shared A} {ws : List Worker} (r : Runs n sign (start n sign) (workers k) g ws)
      → steps r ≤ 2 * n + k
  steps-start k r = omega (arith, Runs-measure r, weight-workers k)

  -- As long as a thread has not ended, some worker can act.
  pool_acts :
      (g : Shared A) (ws : List Worker)
      → AllDone ws ⊎ ((g' : Shared A) × (ws' : List Worker) × Step n sign g ws g' ws')
  pool_acts g [] = inl tt
  pool_acts g (done ∷ ws) = elim (pool_acts g ws) [
    | inl h ↦ inl h
    | inr (g', ws', s) ↦ inr (g', done ∷ ws', other done s)
  ]
  pool_acts g (signing i ∷ ws) = inr (_, idle ∷ ws, this ws (store g i))
  pool_acts g (idle ∷ ws) = elim (lt_or_le g.next n) [
    | inl h ↦ inr (_, _, this ws (take g h))
    | inr h ↦ inr (_, _, this ws (leave g h))
  ]

  -- However the threads interleave, the pool comes to an end: from its start it takes at most two
  -- actions per file and one per thread, and in every state that it comes to, all threads have
  -- ended or one of them can act.
  pub pool_ends :
      (k : ℕ) {g : Shared A} {ws : List Worker} (r : Runs n sign (start n sign) (workers k) g ws)
      → (steps r ≤ 2 * n + k)
        × (AllDone ws ⊎ ((g' : Shared A) × (ws' : List Worker) × Step n sign g ws g' ws'))
  pool_ends k {g} {ws} r = (steps-start k r, pool_acts g ws)
