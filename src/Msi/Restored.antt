-- ===== src/Msi/Restored.antt =====
-- What `preserve_cabinet_metadata` of src/msi_recursive.cpp leaves in a rebuilt cabinet.
use aas_sign.Base.{
  ℕ, zero, suc, ◌+◌, ◌-◌, ◌≤◌, ◌<◌, ltb, ◌==◌, ◌≡◌, refl, sym, ap, ◌∙◌, subst, not, ◌||◌,
  Bool-cases, inl, inr, true, arith, List, [], ◌∷◌, length, take, drop, Result, ok, ok-injective,
  guard-eq-ok, >>=-eq-ok, Text, bytes_eq, bytes_eq→eq,
}
use aas_sign.Pe.{read_at}
use aas_sign.Msi.{u16, u32, CabinetMember}
use aas_sign.Msi.Folders.{at}
use aas_sign.Msi.Restore.{
  write_at, metadata_bytes, read_rebuilt_name, check_record, restore_members,
}
use aas_sign.Msi.Overwrite.{
  Same, Same-within, Same-trans, Same-slice, read_at-Same, write_at-Same_before,
  write_at-Same_behind, write_at-written,
}

u32-first : (xs : List ℕ) → u32 (take 16 xs) ≡ u32 (take 4 xs)
unfolding u32 u16
u32-first [] = refl
u32-first (a ∷ []) = refl
u32-first (a ∷ b ∷ []) = refl
u32-first (a ∷ b ∷ c ∷ []) = refl
u32-first (a ∷ b ∷ c ∷ d ∷ xs) = refl

read-eq-ok :
    (file : List ℕ) (o n : ℕ) {f : List ℕ} → read_at file o n ≡ ok f → f ≡ take n (drop o file)
unfolding read_at
read-eq-ok file o n h =
    let (e, h₁) = guard-eq-ok (not (ltb (length file) (o + n))) _ h in sym (ok-injective h₁)

-- The record of a member in the file table, up to where the next one begins: its metadata and its
-- name are the member's, and its size is that of the member's payload.
pub record HasRecord (payload_size : Text → Result ℕ) (file : List ℕ) (cursor : ℕ)
    (m : CabinetMember) (next : ℕ) : Type 0 where
  pub behind : cursor + 16 < next
  pub size : payload_size m.path ≡ ok (u32 (take 4 (drop cursor file)))
  pub metadata : take 6 (drop (cursor + 10) file) ≡ metadata_bytes m
  pub name : read_rebuilt_name file 256 (cursor + 16) ≡ ok (m.name, next)

abbrev pub HasRecords : (Text → Result ℕ) → List ℕ → ℕ → List CabinetMember → Type 0
HasRecords payload_size file cursor [] = Unit
HasRecords payload_size file cursor (m ∷ members) =
    (next : ℕ) × HasRecord payload_size file cursor m next
    × HasRecords payload_size file next members

read_rebuilt_name-next :
    (file : List ℕ) (allowance c : ℕ) {r : Text × ℕ}
    → read_rebuilt_name file allowance c ≡ ok r
    → c < r.1
unfolding read_rebuilt_name
read_rebuilt_name-next file zero c h = cc
read_rebuilt_name-next file (suc allowance) c h =
    let (e₁, h₁) = guard-eq-ok (ltb c (length file)) _ h in
    let (ch, e₂, h₂) = >>=-eq-ok (read_at file c 1) _ h₁ in
    elim (Bool-cases (at ch 0 == 0)) [
      | inl e ↦
          let e₃ : ok ([], c + 1) ≡ ok _ = rw e at h₂ in
          subst (λ r. c < r.1) (ok-injective e₃) (omega arith)
      | inr e ↦
          let (rest, e₃, h₃) =
            >>=-eq-ok (read_rebuilt_name file allowance (c + 1)) _ (rw e at h₂) in
          let l = read_rebuilt_name-next file allowance (c + 1) e₃ in
          subst (λ r. c < r.1) (ok-injective h₃) (omega (arith, l))
    ]

read_rebuilt_name-Same :
    {file file' : List ℕ} (allowance c : ℕ) {r : Text × ℕ}
    → read_rebuilt_name file allowance c ≡ ok r
    → Same c r.1 file file'
    → read_rebuilt_name file' allowance c ≡ ok r
unfolding read_rebuilt_name
read_rebuilt_name-Same zero c h s = cc
read_rebuilt_name-Same {file} {file'} (suc allowance) c {r} h s =
    let behind = read_rebuilt_name-next file (suc allowance) c h in
    let (e₁, h₁) = guard-eq-ok (ltb c (length file)) _ h in
    let (ch, e₂, h₂) = >>=-eq-ok (read_at file c 1) _ h₁ in
    let inside : ltb c (length file') ≡ true = ap (ltb c) (sym s.long) ∙ e₁ in
    let read : read_at file' c 1 ≡ ok ch =
      sym (read_at-Same 1 c (Same-within (omega arith) (omega arith) s)) ∙ e₂ in
    elim (Bool-cases (at ch 0 == 0)) [
      | inl e ↦ let e₃ : ok ([], c + 1) ≡ ok r = rw e at h₂ in rw (inside, read, e) e₃
      | inr e ↦
          let (rest, e₃, h₃) =
            >>=-eq-ok (read_rebuilt_name file allowance (c + 1)) _ (rw e at h₂) in
          let same : rest.1 ≡ r.1 = ap (λ x. x.1) (ok-injective h₃) in
          let k =
            read_rebuilt_name-Same {file = file} {file' = file'} allowance (c + 1) e₃
              (Same-within (omega arith) (omega (arith, same)) s) in
          rw (inside, read, e, k) h₃
    ]

-- What reads only bytes that stay.
HasRecord-Same :
    (payload_size : Text → Result ℕ) {file file' : List ℕ} {cursor next : ℕ} {m : CabinetMember}
    → HasRecord payload_size file cursor m next
    → Same cursor next file file'
    → HasRecord payload_size file' cursor m next
HasRecord-Same payload_size {cursor = cursor} {next} k s =
    let behind = k.behind in
    record {
      behind = k.behind;
      size =
          k.size
          ∙ ap (λ x. ok (u32 x)) (Same-slice 4 cursor (Same-within (omega arith) (omega arith) s));
      metadata =
          sym (Same-slice 6 (cursor + 10) (Same-within (omega arith) (omega arith) s)) ∙ k.metadata;
      name =
          read_rebuilt_name-Same 256 (cursor + 16) k.name
            (Same-within (omega arith) (omega arith) s);
    }

record-room :
    (size cursor : ℕ) → not (ltb size cursor || ltb (size - cursor) 17) ≡ true → cursor + 16 ≤ size
record-room size cursor h = ground arith

equal-size : (a b : ℕ) → (a == b) ≡ true → a ≡ b
equal-size a b h = ground arith

pair_eq :
    {named : Text × ℕ} {name : Text} {next : ℕ}
    → named.0 ≡ name
    → named.1 ≡ next
    → named ≡ (name, next)
pair_eq e e' = cc

metadata-room :
    (cursor : ℕ) (m : CabinetMember) (file : List ℕ)
    → cursor + 16 ≤ length file
    → cursor + 10 + length (metadata_bytes m) ≤ length file
unfolding metadata_bytes
metadata-room cursor m file h = omega arith

module _ (payload_size : Text → Result ℕ) where
  check_record-lem :
      (file : List ℕ) (cursor : ℕ) (m : CabinetMember) {next : ℕ}
      → check_record payload_size file cursor m ≡ ok next
      → HasRecord payload_size (write_at file (cursor + 10) (metadata_bytes m)) cursor m next
        × (cursor + 16 ≤ length file)
  unfolding check_record metadata_bytes
  check_record-lem file cursor m {next} h =
      let (e₁, h₁) =
        guard-eq-ok (not (ltb (length file) cursor || ltb (length file - cursor) 17)) _ h in
      let (f, e₂, h₂) = >>=-eq-ok (read_at file cursor 16) _ h₁ in
      let (size, e₃, h₃) = >>=-eq-ok (payload_size m.path) _ h₂ in
      let (e₄, h₄) = guard-eq-ok (u32 f == size) _ h₃ in
      let (named, e₅, h₅) = >>=-eq-ok (read_rebuilt_name file 256 (cursor + 16)) _ h₄ in
      let (e₆, h₆) = guard-eq-ok (bytes_eq named.0 m.name) _ h₅ in
      let fits = record-room (length file) cursor e₁ in
      let room = metadata-room cursor m file fits in
      let same_name : named ≡ (m.name, next) =
        pair_eq (bytes_eq→eq named.0 m.name e₆) (ok-injective h₆) in
      let name : read_rebuilt_name file 256 (cursor + 16) ≡ ok (m.name, next) =
        e₅ ∙ ap ok same_name in
      let before = write_at-Same_before (metadata_bytes m) (cursor + 10) file room in
      let behind = write_at-Same_behind (metadata_bytes m) (cursor + 10) file room in
      let size_there : u32 f ≡ u32 (take 4 (drop cursor file)) =
        ap u32 (read-eq-ok file cursor 16 e₂) ∙ u32-first (drop cursor file) in
      let size_same : size ≡ u32 f = sym (equal-size (u32 f) size e₄) in
      (
        record {
          behind = read_rebuilt_name-next file 256 (cursor + 16) name;
          size =
              e₃
              ∙ ap ok (
                  size_same
                  ∙ size_there
                  ∙ ap u32 (Same-slice 4 cursor (Same-within (omega arith) (omega arith) before)));
          metadata = write_at-written (metadata_bytes m) (cursor + 10) file room;
          name =
              read_rebuilt_name-Same 256 (cursor + 16) name
                (Same-within (omega arith) (omega arith) (behind next));
        },
        fits,
      )

  pub restore_members-lem :
      (members : List CabinetMember) (cursor : ℕ) (file : List ℕ) {file' : List ℕ}
      → restore_members payload_size members cursor file ≡ ok file'
      → Same 0 cursor file file' × HasRecords payload_size file' cursor members
  unfolding restore_members
  restore_members-lem [] cursor file h = (
    subst (Same 0 cursor file) (ok-injective h) (record { long = refl; bytes = λ i l m. refl }),
    tt,
  )
  restore_members-lem (m ∷ members) cursor file h =
      let (next, e, h₁) = >>=-eq-ok (check_record payload_size file cursor m) _ h in
      let (here, room) = check_record-lem file cursor m e in
      let (rest, others) = restore_members-lem members next _ h₁ in
      let behind = here.behind in
      let written =
        write_at-Same_before (metadata_bytes m) (cursor + 10) file
          (metadata-room cursor m file room) in
      (
        Same-trans (Same-within (omega arith) (omega arith) written)
            (Same-within (omega arith) (omega arith) rest),
        (
          next,
          HasRecord-Same payload_size here (Same-within (omega arith) (omega arith) rest),
          others,
        ),
      )
