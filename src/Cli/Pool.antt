-- ===== src/Cli/Pool.antt =====
-- The worker pool of `sign_main`: threads that take the next index from an atomic counter. `sign` is
-- what `sign_one_file` returns for the file at an index; the log is left out. A step is one atomic
-- action of one worker, and steps interleave freely.
pub mod Steps
pub mod Laws
use aas_sign.Base.{ℕ, zero, suc, ◌<◌, ◌≤◌, List, [], ◌∷◌, Option, none, some, ◌==◌, if◌then◌else◌}

-- `done` is a thread that has ended.
pub data Worker : Type 0 where
  idle : Worker
  signing : ℕ → Worker
  done : Worker

-- The counter and the results; `started` is no variable of the program: it records which files have
-- been taken, the last first.
pub record Shared (A : Type 0) : Type 0 where
  pub next : ℕ
  pub results : ℕ → Option A
  pub started : List ℕ

module _ {A : Type 0} (n_files : ℕ) (sign : ℕ → A) where
  -- results[idx] = r
  abbrev pub store_at : (ℕ → Option A) → ℕ → ℕ → Option A
  store_at results idx j = if j == idx then some (sign idx) else results j

  -- next.fetch_add(1), and what follows from the old value.
  pub data Act : Shared A → Worker → Shared A → Worker → Type 0 where
    take :
        (g : Shared A)
        → g.next < n_files
        → Act g idle (record g { next = suc g.next; started = g.next ∷ g.started }) (signing g.next)
    leave : (g : Shared A) → n_files ≤ g.next → Act g idle (record g { next = suc g.next }) done
    store :
        (g : Shared A) (idx : ℕ)
        → Act g (signing idx) (record g { results = store_at g.results idx }) idle

  pub data Step : Shared A → List Worker → Shared A → List Worker → Type 0 where
    this :
        {g g' : Shared A} {w w' : Worker} (ws : List Worker)
        → Act g w g' w'
        → Step g (w ∷ ws) g' (w' ∷ ws)
    other :
        {g g' : Shared A} {ws ws' : List Worker} (w : Worker)
        → Step g ws g' ws'
        → Step g (w ∷ ws) g' (w ∷ ws')

  -- next{0}, results(n_files), and n_workers threads.
  abbrev pub start : Shared A
  start = record { next = 0; results = λ _. none; started = [] }

  pub data Runs : Shared A → List Worker → Shared A → List Worker → Type 0 where
    rest : {g : Shared A} {ws : List Worker} → Runs g ws g ws
    more :
        {g g' g'' : Shared A} {ws ws' ws'' : List Worker}
        → Runs g ws g' ws'
        → Step g' ws' g'' ws''
        → Runs g ws g'' ws''

abbrev pub workers : ℕ → List Worker
workers zero = []
workers (suc k) = idle ∷ workers k
