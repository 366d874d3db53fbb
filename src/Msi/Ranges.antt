-- ===== src/Msi/Ranges.antt =====
-- Ranges of bytes: the sorting of src/msi_recursive.cpp and its tests for overlaps.
use aas_sign.Base.{
  ℕ, ◌≤◌, ltb, ◌&&◌, ◌||◌, ◌==◌, ◌≡◌, ◌⊎◌, inl, inr, Bool, Bool-cases, not, List, [], ◌∷◌, All,
  arith, String, Result, ok, ◌>>◌, guard, guard-eq-ok, if◌then◌else◌,
}

abbrev pub Range : Type 0
Range = ℕ × ℕ

-- operator< of std::pair
unfoldable pub range_before : Range → Range → Bool
range_before (a, b) (c, d) = ltb a c || (a == c && ltb b d)

unfoldable pub insert_range : Range → List Range → List Range
unfolding range_before
insert_range r [] = r ∷ []
insert_range r (q ∷ ranges) =
    let rest = insert_range r ranges in if range_before q r then q ∷ rest else r ∷ q ∷ ranges

-- std::sort; equal pairs are the same, so every sort gives this list.
unfoldable pub sort_ranges : List Range → List Range
unfolding insert_range
sort_ranges [] = []
sort_ranges (r ∷ ranges) = insert_range r (sort_ranges ranges)

-- No range begins before the end of the one before it.
unfoldable pub check_ranges : String → ℕ → List Range → Result (Unit {0})
check_ranges why end [] = ok tt
check_ranges why end ((first, second) ∷ ranges) = do
  guard (not (ltb first end)) why
  check_ranges why second ranges

abbrev pub Pairwise {ℓ κ} : {A : Type ℓ} → (A → A → Type κ) → List A → Type κ
Pairwise R [] = Unit
Pairwise R (x ∷ xs) = All (R x) xs × Pairwise R xs

-- Two ranges have no byte in common.
abbrev pub Disjoint : Range → Range → Type 0
Disjoint q r = (q.1 ≤ r.0) ⊎ (r.1 ≤ q.0)

Disjoint-sym : (q r : Range) → Disjoint q r → Disjoint r q
Disjoint-sym q r (inl h) = inr h
Disjoint-sym q r (inr h) = inl h

module _ {κ} (P : Range → Type κ) where
  All-insert_range :
      (r : Range) (ranges : List Range) → All P (insert_range r ranges) → P r × All P ranges
  unfolding insert_range
  All-insert_range r [] h = h
  All-insert_range r (q ∷ ranges) h = elim (Bool-cases (range_before q r)) [
    | inl e ↦ let (k, l) = rw e at h in let (m, n) = All-insert_range r ranges l in (m, (k, n))
    | inr e ↦ rw e at h
  ]

  pub All-sort_ranges : (ranges : List Range) → All P (sort_ranges ranges) → All P ranges
  unfolding sort_ranges
  All-sort_ranges [] h = tt
  All-sort_ranges (r ∷ ranges) h =
      let (k, l) = All-insert_range r (sort_ranges ranges) h in (k, All-sort_ranges ranges l)

  insert_range-All :
      (r : Range) (ranges : List Range) → P r → All P ranges → All P (insert_range r ranges)
  unfolding insert_range
  insert_range-All r [] h k = (h, k)
  insert_range-All r (q ∷ ranges) h (k, l) = elim (Bool-cases (range_before q r)) [
    | inl e ↦ rw e (k, insert_range-All r ranges h l)
    | inr e ↦ rw e (h, (k, l))
  ]

  pub sort_ranges-All : (ranges : List Range) → All P ranges → All P (sort_ranges ranges)
  unfolding sort_ranges
  sort_ranges-All [] h = tt
  sort_ranges-All (r ∷ ranges) (h, k) =
      insert_range-All r (sort_ranges ranges) h (sort_ranges-All ranges k)

-- A symmetric relation between the elements does not depend on their order.
Pairwise-insert_range :
    (r : Range) (ranges : List Range)
    → Pairwise Disjoint (insert_range r ranges)
    → All (Disjoint r) ranges × Pairwise Disjoint ranges
unfolding insert_range
Pairwise-insert_range r [] h = (tt, tt)
Pairwise-insert_range r (q ∷ ranges) h = elim (Bool-cases (range_before q r)) [
  | inl e ↦
      let (k, l) = rw e at h in
      let (m, n) = All-insert_range (Disjoint q) r ranges k in
      let (o, p) = Pairwise-insert_range r ranges l in ((Disjoint-sym q r m, o), (n, p))
  | inr e ↦ rw e at h
]

Pairwise-sort_ranges :
    (ranges : List Range) → Pairwise Disjoint (sort_ranges ranges) → Pairwise Disjoint ranges
unfolding sort_ranges
Pairwise-sort_ranges [] h = tt
Pairwise-sort_ranges (r ∷ ranges) h =
    let (k, l) = Pairwise-insert_range r (sort_ranges ranges) h in
    (All-sort_ranges (Disjoint r) ranges k, Pairwise-sort_ranges ranges l)

-- A range that does not end before it begins.
abbrev pub IsRange : Range → Type 0
IsRange r = r.0 ≤ r.1

-- Ranges in order lie behind the end, and behind one another.
in_order :
    (why : String) (end : ℕ) (ranges : List Range)
    → All IsRange ranges
    → check_ranges why end ranges ≡ ok tt
    → All (λ r. end ≤ r.0) ranges × Pairwise Disjoint ranges
unfolding check_ranges
in_order why end [] a h = (tt, tt)
in_order why end ((first, second) ∷ ranges) (i, a) h =
    let (e, k) = guard-eq-ok (not (ltb first end)) why h in
    let (l, m) = in_order why second ranges a k in
    let le : end ≤ first = ground arith in ((le, weaken ranges l le), (pairs ranges l, m))
  where
    weaken : (rs : List Range) → All (λ r. second ≤ r.0) rs → end ≤ first → All (λ r. end ≤ r.0) rs
    weaken [] l le = tt
    weaken (r ∷ rs) (l, ls) le = (omega arith, weaken rs ls le)

    pairs : (rs : List Range) → All (λ r. second ≤ r.0) rs → All (Disjoint (first, second)) rs
    pairs [] l = tt
    pairs (r ∷ rs) (l, ls) = (inl l, pairs rs ls)

-- The test after the sorting.
pub check_sorted :
    (why : String) (end : ℕ) (ranges : List Range)
    → All IsRange ranges
    → check_ranges why end (sort_ranges ranges) ≡ ok tt
    → All (λ r. end ≤ r.0) ranges × Pairwise Disjoint ranges
check_sorted why end ranges a h =
    let (k, l) = in_order why end (sort_ranges ranges) (sort_ranges-All IsRange ranges a) h in
    (All-sort_ranges (λ r. end ≤ r.0) ranges k, Pairwise-sort_ranges ranges l)
