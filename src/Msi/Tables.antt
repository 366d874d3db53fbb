-- ===== src/Msi/Tables.antt =====
-- The file table of an inspected cabinet.
use aas_sign.Base.{
  ℕ, zero, suc, ◌+◌, ◌-◌, ltb, ◌≡◌, ◌≢◌, refl, sym, ap, ◌∙◌, subst, Bool, true, false, not, ◌&&◌,
  List, [], ◌∷◌, ◌++◌, length, length-append, All, All-append, drop, arith, ok, ok-injective,
  guard-eq-ok, >>=-eq-ok, Text, bytes_eq, bytes_eq_refl, Bool-cases, inl, inr,
}
use aas_sign.Pe.{read_at}
use aas_sign.Msi.{u16, safe_name, CabinetMember}
use aas_sign.Msi.Ranges.{Pairwise}
use aas_sign.Msi.Folders.{Folder}
use aas_sign.Msi.Cabinet.{place, has_name, Table, read_name, read_member, read_members}
use aas_sign.Msi.Bounds.{IsFolder, place-All}

true-ne-false : true ≢ false
true-ne-false e = cc

-- Safe names, none of them twice.
pub record AreNamed (members : List CabinetMember) : Type 0 where
  pub safe : All (λ m. safe_name m.name ≡ true) members
  pub distinct : Pairwise (λ m n. m.name ≢ n.name) members

has_name-All :
    (name : Text) (members : List CabinetMember)
    → has_name name members ≡ false
    → All (λ m. m.name ≢ name) members
unfolding has_name
has_name-All name [] h = tt
has_name-All name (m ∷ members) h = elim (Bool-cases (bytes_eq m.name name)) [
  | inl e ↦ absurd (true-ne-false (rw e at h))
  | inr e ↦ (
    λ same. true-ne-false (sym (bytes_eq_refl name) ∙ ap (λ x. bytes_eq x name) (sym same) ∙ e),
    has_name-All name members (rw e at h),
  )
]

Pairwise-append {ℓ κ} :
    {A : Type ℓ} (R : A → A → Type κ) (xs : List A) (y : A)
    → Pairwise R xs
    → All (λ x. R x y) xs
    → Pairwise R (xs ++ y ∷ [])
Pairwise-append R [] y h k = (tt, tt)
Pairwise-append R (x ∷ xs) y (h, hs) (k, ks) =
    (All-append (R x) xs (y ∷ []) h (k, tt), Pairwise-append R xs y hs ks)

-- What the reading of the file table keeps to, n members after `count` of them.
pub record IsTable (file : List ℕ) (count : ℕ) (t : Table) : Type 0 where
  pub folders : All (IsFolder file) t.folders
  pub named : AreNamed t.members
  pub counted : t.count ≡ count + length t.members

and-true : (a b : Bool) → (a && b) ≡ true → (a ≡ true) × (b ≡ true)
and-true true b h = (refl, h)
and-true false b h = cc

not-true : (a : Bool) → not a ≡ true → a ≡ false
not-true true h = cc
not-true false h = refl

module _ (file : List ℕ) (count : ℕ) where
  added-IsTable :
      (t : Table) (m : CabinetMember) (folders : List Folder) (cursor : ℕ)
      → IsTable file count t
      → All (IsFolder file) folders
      → (safe_name m.name && not (has_name m.name t.members)) ≡ true
      → IsTable file count (record {
        folders = folders;
        members = t.members ++ m ∷ [];
        cursor = cursor;
        count = t.count + 1;
      })
  added-IsTable t m folders cursor k a h =
      let (safe, new) = and-true (safe_name m.name) _ h in
      record {
        folders = a;
        named = record {
          safe = All-append _ t.members (m ∷ []) k.named.safe (safe, tt);
          distinct =
              Pairwise-append _ t.members m k.named.distinct
                (has_name-All m.name t.members (not-true _ new));
        };
        counted = omega (arith, k.counted, length-append t.members (m ∷ []));
      }

  -- The table with one more member.
  abbrev pub IsNext : Table → Table → Type 0
  IsNext t t' = IsTable file count t' × (length t'.members ≡ suc (length t.members))

  read_member-IsNext :
      (n_folders : ℕ) (workspace : Text) (t : Table) {t' : Table}
      → IsTable file count t
      → read_member file n_folders workspace t ≡ ok t'
      → IsNext t t'
  unfolding read_member
  read_member-IsNext n_folders workspace t k h =
      let (e₁, h₁) = guard-eq-ok (not (ltb (length file - t.cursor) 17)) _ h in
      let (f, e₂, h₂) = >>=-eq-ok (read_at file t.cursor 16) _ h₁ in
      let (e₃, h₃) = guard-eq-ok (ltb (u16 (drop 8 f)) n_folders) _ h₂ in
      let (folders, e₄, h₄) = >>=-eq-ok (place t.folders _ _ _) _ h₃ in
      let (named, e₅, h₅) = >>=-eq-ok (read_name file 256 (t.cursor + 16)) _ h₄ in
      let (e₆, h₆) = guard-eq-ok (safe_name named.0 && not (has_name named.0 t.members)) _ h₅ in
      let a = place-All file t.folders _ _ _ k.folders e₄ in
      subst (IsNext t) (ok-injective h₆)
        (added-IsTable t _ folders named.1 k a e₆, length-append t.members _ ∙ omega arith)

  pub read_members-IsTable :
      (n_folders n : ℕ) (workspace : Text) (t : Table) {t' : Table}
      → IsTable file count t
      → read_members file n_folders n workspace t ≡ ok t'
      → IsTable file count t' × (length t'.members ≡ length t.members + n)
  unfolding read_members
  read_members-IsTable n_folders zero workspace t k h =
      subst (λ u. IsTable file count u × (length u.members ≡ length t.members + 0)) (ok-injective h)
        (k, omega arith)
  read_members-IsTable n_folders (suc n) workspace t k h =
      let (t₁, e, h₁) = >>=-eq-ok (read_member file n_folders workspace t) _ h in
      let (k₁, l₁) = read_member-IsNext n_folders workspace t k e in
      let (k₂, l₂) = read_members-IsTable n_folders n workspace t₁ k₁ h₁ in
      (k₂, omega (arith, l₁, l₂))
