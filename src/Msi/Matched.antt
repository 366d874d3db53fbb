-- ===== src/Msi/Matched.antt =====
-- How `rewrite_msi_payload` of src/msi_recursive.cpp matches the members of a cabinet with the rows
-- of the File table.
use aas_sign.Base.{
  ℕ, suc, ◌+◌, ◌≡◌, ◌≢◌, refl, sym, ap, ◌∙◌, subst, Bool, true, false, Bool-cases, inl, inr, not,
  ◌||◌, arith, List, [], ◌∷◌, length, All, some, ok, ok-injective, guard-eq-ok, >>=-eq-ok, Text,
  bytes_eq, bytes_eq→eq, bytes_eq_refl, if◌then◌else◌,
}
use aas_sign.Msi.{CabinetMember}
use aas_sign.Msi.Media.{
  Cabinet, FileRow, row_of, less, word, is_matching, find_member, find_members,
}

abbrev pub found_count : List (Text × FileRow) → ℕ
found_count [] = 0
found_count ((name, row) ∷ files) = if row.found then suc (found_count files) else found_count files

-- The row of a member: no other member has it, its sequence is one of the cabinet's, and its size is
-- the member's.
pub record IsRow (cab : Cabinet) (m : CabinetMember) (row : FileRow) : Type 0 where
  pub new : row.found ≡ false
  pub behind_first : less row.sequence cab.first ≡ false
  pub before_last : less cab.last row.sequence ≡ false
  pub size : word row.size ≡ m.size

abbrev pub HasRow : Cabinet → List (Text × FileRow) → CabinetMember → Type 0
HasRow cab files m = (row : FileRow) × (row_of m.name files ≡ some row) × IsRow cab m row

or-false : (a b : Bool) → not (a || b) ≡ true → (a ≡ false) × (not b ≡ true)
or-false true b h = cc
or-false false b h = (refl, h)

matching-IsRow :
    (cab : Cabinet) (m : CabinetMember) (row : FileRow)
    → is_matching cab m row ≡ true
    → IsRow cab m row
unfolding is_matching
matching-IsRow cab m row h =
    let (e₁, h₁) = or-false row.found _ h in
    let (e₂, h₂) = or-false (less row.sequence cab.first) _ h₁ in
    let (e₃, h₃) = or-false (less cab.last row.sequence) _ h₂ in
    record { new = e₁; behind_first = e₂; before_last = e₃; size = ground arith }

-- What the search for the row of a member has done.
record Finds (cab : Cabinet) (m : CabinetMember) (files files' : List (Text × FileRow))
    : Type 0 where
  has : HasRow cab files m
  marked : (row : FileRow) × (row_of m.name files' ≡ some row) × (row.found ≡ true)
  same : (name : Text) → m.name ≢ name → row_of name files' ≡ row_of name files
  counted : found_count files' ≡ suc (found_count files)

true_ne_false : true ≢ false
true_ne_false q = cc

some-injective : {row row' : FileRow} → some row ≡ some row' → row ≡ row'
some-injective h = cc

differ : (n m : Text) → n ≢ m → bytes_eq n m ≡ false
differ n m h = elim (Bool-cases (bytes_eq n m)) [
  | inl e ↦ absurd (h (bytes_eq→eq n m e))
  | inr e ↦ e
]

different : (n m : Text) → bytes_eq n m ≡ false → n ≢ m
different n m h e =
    absurd (true_ne_false (sym (bytes_eq_refl m) ∙ ap (λ x. bytes_eq x m) (sym e) ∙ h))

find_member-Finds :
    (cab : Cabinet) (m : CabinetMember) (files : List (Text × FileRow))
    {files' : List (Text × FileRow)}
    → find_member cab m files ≡ ok files'
    → Finds cab m files files'
unfolding find_member row_of
find_member-Finds cab m [] h = cc
find_member-Finds cab m ((name, row) ∷ files) h = elim (Bool-cases (bytes_eq name m.name)) [
  | inl e ↦
      let (k, h₁) = guard-eq-ok (is_matching cab m row) _ (rw e at h) in
      let is_row = matching-IsRow cab m row k in
      subst (Finds cab m ((name, row) ∷ files)) (ok-injective h₁) (record {
        has = (row, rw e refl, is_row);
        marked = (record row { found = true }, rw e refl, refl);
        same = λ n ne. rw (differ name n (λ q. ne (sym (bytes_eq→eq name m.name e) ∙ q))) refl;
        counted = rw is_row.new refl;
      })
  | inr e ↦
      let (rest, e₁, h₁) = >>=-eq-ok (find_member cab m files) _ (rw e at h) in
      let k = find_member-Finds cab m files e₁ in
      subst (Finds cab m ((name, row) ∷ files)) (ok-injective h₁) (record {
        has = (k.has.0, rw e k.has.1, k.has.2);
        marked = (k.marked.0, rw e k.marked.1, k.marked.2);
        same = λ n ne. ap (λ x. if bytes_eq name n then some row else x) (k.same n ne);
        counted = ground (arith, k.counted);
      })
]

abbrev pub HasFound : List (Text × FileRow) → Text → Type 0
HasFound files name = (row : FileRow) × (row_of name files ≡ some row) × (row.found ≡ true)

-- The members of a cabinet have rows of their own, which are marked.
pub record Matches (cab : Cabinet) (members : List CabinetMember)
    (files files' : List (Text × FileRow)) : Type 0 where
  pub rows : All (HasRow cab files) members
  pub marked : All (λ m. HasFound files' m.name) members
  pub stay : (name : Text) → HasFound files name → HasFound files' name
  pub counted : found_count files' ≡ found_count files + length members

module _ (cab : Cabinet) (m : CabinetMember) {files files' : List (Text × FileRow)}
    (k : Finds cab m files files') where
  -- What has been marked is no row of another member.
  HasFound-ne : (n : CabinetMember) → HasRow cab files' n → m.name ≢ n.name
  HasFound-ne n (row, e, is_row) same =
      let there : some k.marked.0 ≡ some row =
        sym k.marked.1 ∙ ap (λ x. row_of x files') same ∙ e in
      true_ne_false (sym k.marked.2 ∙ ap (λ r. r.found) (some-injective there) ∙ is_row.new)

  before-HasRow :
      (members : List CabinetMember)
      → All (HasRow cab files') members
      → All (HasRow cab files) members
  before-HasRow [] h = tt
  before-HasRow (n ∷ members) ((row, e, is_row), hs) = (
    (row, sym (k.same n.name (HasFound-ne n (row, e, is_row))) ∙ e, is_row),
    before-HasRow members hs,
  )

  stay_found : (name : Text) → HasFound files name → HasFound files' name
  stay_found name (row, e, found) = (
    row,
    k.same name (λ same. true_ne_false (
          sym found
          ∙ ap (λ r. r.found)
              (some-injective (sym e ∙ ap (λ x. row_of x files) (sym same) ∙ k.has.1))
          ∙ k.has.2.new))
        ∙ e,
    found,
  )

-- When the members of a cabinet are let through, each of them has a row of its name that no member
-- before it had, with a sequence from the cabinet's range and the member's size; these rows are
-- marked, rows that were marked stay so, and there are as many more as members: no two members share
-- a row.
pub find_members-Matches :
    (cab : Cabinet) (members : List CabinetMember) (files files' : List (Text × FileRow))
    → find_members cab members files ≡ ok files'
    → Matches cab members files files'
unfolding find_members
find_members-Matches cab [] files files' h =
    subst (Matches cab [] files) (ok-injective h)
      (record { rows = tt; marked = tt; stay = λ name found. found; counted = omega arith })
find_members-Matches cab (m ∷ members) files files' h =
    let (files₁, e, h₁) = >>=-eq-ok (find_member cab m files) _ h in
    let k = find_member-Finds cab m files e in
    let l = find_members-Matches cab members files₁ files' h₁ in
    record {
      rows = (k.has, before-HasRow cab m k members l.rows);
      marked = (l.stay m.name k.marked, l.marked);
      stay = λ name found. l.stay name (stay_found cab m k name found);
      counted = omega (arith, k.counted, l.counted);
    }
