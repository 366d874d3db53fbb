-- ===== src/Http/Retry.antt =====
-- `retry_transient` of src/platform.hpp. An attempt is given by its number; the waiting is recorded.
use aas_sign.Base.{
  ℕ, zero, suc, ◌+◌, ◌-◌, ◌*◌, ◌<◌, ◌≤◌, ◌≡◌, refl, sym, ap, ◌∙◌, subst, Bool-cases, ==_iff, ◌==◌,
  inl, inr, arith, Bool, true, false, List, [], ◌∷◌, String,
}

-- What a call returns or throws: an error of the network that may pass, or another one.
pub data Attempted {ℓ} (A : Type ℓ) : Type ℓ where
  done : A → Attempted A
  transient : String → Attempted A
  failed : String → Attempted A

-- The outcome, how often the operation was called, and the seconds of each waiting.
pub record Retried {ℓ} (A : Type ℓ) : Type ℓ where
  pub outcome : Attempted A
  pub calls : ℕ
  pub waits : List ℕ

later : (attempt i : ℕ) → attempt ≤ i → (attempt == i) ≡ false → suc attempt ≤ i
later attempt i h e = ground arith

module _ {ℓ} {A : Type ℓ} (op : ℕ → Attempted A) where
  abbrev pub waited : ℕ → Retried A → Retried A
  waited seconds r = record r { waits = seconds ∷ r.waits }

  -- What follows the outcome of an attempt, given what the later ones would do.
  abbrev pub judged : ℕ → Bool → Attempted A → Retried A → Retried A
  judged attempt last (done a) later = record { outcome = done a; calls = attempt; waits = [] }
  judged attempt last (failed why) later = record {
    outcome = failed why;
    calls = attempt;
    waits = [];
  }
  judged attempt true (transient why) later = record {
    outcome = transient why;
    calls = attempt;
    waits = [];
  }
  judged attempt false (transient why) later = waited (attempt * 2) later

  -- for (int attempt = 1; ; ++attempt), with so many attempts left behind this one.
  unfoldable pub retry_from : ℕ → ℕ → Retried A
  retry_from zero attempt =
      judged attempt true (op attempt)
        (record { outcome = op attempt; calls = attempt; waits = [] })
  retry_from (suc left) attempt = judged attempt false (op attempt) (retry_from left (suc attempt))

  -- Less than one attempt is one.
  unfoldable pub retry_transient : ℕ → Retried A
  unfolding retry_from
  retry_transient max_attempts = retry_from (max_attempts - 1) 1

  abbrev pub IsTransient : Attempted A → Type 0
  IsTransient (done a) = ⊥
  IsTransient (failed why) = ⊥
  IsTransient (transient why) = Unit

  -- Two seconds more from one waiting to the next.
  abbrev pub backoff : ℕ → ℕ → List ℕ
  backoff attempt zero = []
  backoff attempt (suc n) = attempt * 2 ∷ backoff (suc attempt) n

  -- The outcome is that of the last call, all those before it were transient, and a transient one is
  -- kept only when no attempt is left.
  pub record IsRetried (max_attempts attempt : ℕ) (r : Retried A) : Type ℓ where
    pub at_least : attempt ≤ r.calls
    pub at_most : r.calls ≤ max_attempts
    pub outcome : r.outcome ≡ op r.calls
    pub passed : (i : ℕ) → attempt ≤ i → i < r.calls → IsTransient (op i)
    pub given_up : IsTransient r.outcome → r.calls ≡ max_attempts
    pub waits : r.waits ≡ backoff attempt (r.calls - attempt)

  settled :
      (max_attempts attempt : ℕ) (o : Attempted A)
      → op attempt ≡ o
      → attempt ≤ max_attempts
      → (IsTransient o → attempt ≡ max_attempts)
      → IsRetried max_attempts attempt (record { outcome = o; calls = attempt; waits = [] })
  settled max_attempts attempt o e l g =
      let none : 0 ≡ attempt - attempt = omega arith in
      record {
        at_least = omega arith;
        at_most = l;
        outcome = sym e;
        passed = λ i h k. absurd (omega arith);
        given_up = g;
        waits = ap (backoff attempt) none;
      }

  again :
      (max_attempts attempt : ℕ) (why : String) (r : Retried A)
      → op attempt ≡ transient why
      → IsRetried max_attempts (suc attempt) r
      → IsRetried max_attempts attempt (waited (attempt * 2) r)
  again max_attempts attempt why r e k =
      let least = k.at_least in
      let more : suc (r.calls - suc attempt) ≡ r.calls - attempt = omega arith in
      record {
        at_least = omega (arith, k.at_least);
        at_most = k.at_most;
        outcome = k.outcome;
        passed = λ i h l. elim (Bool-cases (attempt == i)) [
          | inl same ↦
              subst (λ j. IsTransient (op j)) ((==_iff attempt i).0 same)
                (subst IsTransient (sym e) tt)
          | inr differ ↦ k.passed i (later attempt i h differ) l
        ];
        given_up = k.given_up;
        waits = ap (λ t. attempt * 2 ∷ t) k.waits ∙ ap (backoff attempt) more;
      }

  retry_from-IsRetried :
      (left attempt : ℕ) → IsRetried (attempt + left) attempt (retry_from left attempt)
  unfolding retry_from
  retry_from-IsRetried zero attempt = last (op attempt) refl
    where
      last :
          (o : Attempted A)
          → op attempt ≡ o
          → IsRetried
              (attempt + 0)
              attempt
              (judged attempt true o (record { outcome = op attempt; calls = attempt; waits = [] }))
      last (done a) e = settled (attempt + 0) attempt (done a) e (omega arith) (λ h. absurd h)
      last (failed why) e =
          settled (attempt + 0) attempt (failed why) e (omega arith) (λ h. absurd h)
      last (transient why) e =
          settled (attempt + 0) attempt (transient why) e (omega arith) (λ h. omega arith)
  retry_from-IsRetried (suc left) attempt =
      let total : suc attempt + left ≡ attempt + suc left = omega arith in
      first (op attempt) refl (
        subst (λ n. IsRetried n (suc attempt) (retry_from left (suc attempt))) total
          (retry_from-IsRetried left (suc attempt)))
    where
      first :
          (o : Attempted A)
          → op attempt ≡ o
          → IsRetried (attempt + suc left) (suc attempt) (retry_from left (suc attempt))
          → IsRetried
              (attempt + suc left)
              attempt
              (judged attempt false o (retry_from left (suc attempt)))
      first (done a) e k =
          settled (attempt + suc left) attempt (done a) e (omega arith) (λ h. absurd h)
      first (failed why) e k =
          settled (attempt + suc left) attempt (failed why) e (omega arith) (λ h. absurd h)
      first (transient why) e k = again (attempt + suc left) attempt why _ e k

-- An operation is called at most as often as allowed, and once at least: until an outcome that is not
-- a passing error of the network, which is the outcome of the whole; a passing error is the outcome
-- only when it is that of the last call allowed. Between two calls there are 2, 4, 6, ... seconds.
pub retry_transient-IsRetried {ℓ} :
    {A : Type ℓ} (op : ℕ → Attempted A) (max_attempts : ℕ)
    → 1 ≤ max_attempts
    → IsRetried op max_attempts 1 (retry_transient op max_attempts)
unfolding retry_transient
retry_transient-IsRetried op max_attempts h =
    let total : 1 + (max_attempts - 1) ≡ max_attempts = omega arith in
    subst (λ n. IsRetried op n 1 (retry_from op (max_attempts - 1) 1)) total
      (retry_from-IsRetried op (max_attempts - 1) 1)
