-- ===== src/Msi/Workspace.antt =====
-- Where `rewrite_msi_payload` of src/msi_recursive.cpp puts what it extracts.
use aas_sign.Base.{
  ℕ, zero, suc, ◌+◌, ◌≡◌, ◌≢◌, refl, ap, ◌∙◌, subst, not, ◌&&◌, ◌||◌, ltb, List, [], ◌∷◌, ◌++◌, ◌-◌,
  All, All-append, append_assoc, drop, length, map, Result, some, ok, ok-injective, guard-eq-ok,
  >>=-eq-ok, Text, codes,
}
use aas_sign.Files.{Files, file_at, Action, ◌>>=◌, lift, return, inside, Outside}
use aas_sign.Files.Laws.{Keeps, >>=-Keeps, lift-Keeps, >>=-returned}
use aas_sign.Pe.{read_at}
use aas_sign.Der.Integers.{ℤ}
use aas_sign.Msi.{u16, safe_name, integer, to_string, expansion_limit, member_limit, CabinetMember}
use aas_sign.Msi.Media.{Cabinet, contains_name, embedded_name, read_media, less}
use aas_sign.Msi.Folders.{read_header, read_folders}
use aas_sign.Msi.Ranges.{check_ranges, sort_ranges}
use aas_sign.Msi.Cabinet.{
  Table, Layout, Inspection, folder_range, place, has_name, read_name, read_member, read_members,
  read_layout, check_folders, inspect_cabinet,
}

-- A path in the directory.
abbrev pub Within : Text → Text → Type 0
Within dir path = (name : Text) × (path ≡ inside dir name)

pub Outside-ne : (dir path q : Text) → Outside dir path → Within dir q → path ≢ q
Outside-ne dir path q out (name, e) h = out name (h ∙ e)

pub Within-append : (dir path extension : Text) → Within dir path → Within dir (path ++ extension)
Within-append dir path extension (name, e) =
    (name ++ extension, ap (λ q. q ++ extension) e ∙ append_assoc dir _ extension)

abbrev pub MembersWithin : Text → List CabinetMember → Type 0
MembersWithin dir members = All (λ m. Within dir m.path) members

abbrev pub CabinetWithin : Text → Cabinet → Type 0
CabinetWithin dir cab = Within dir cab.path × MembersWithin dir cab.members

pub read_media-Within :
    (dir : Text) (i : ℕ) (previous : ℤ) (names : List Text) (rows : List (List Text))
    (cabinets : List Cabinet)
    → read_media dir i previous names rows ≡ ok cabinets
    → All (CabinetWithin dir) cabinets
unfolding read_media
read_media-Within dir i previous names [] cabinets h = subst (All _) (ok-injective h) tt
read_media-Within dir i previous names ((disk ∷ sequence ∷ cabinet ∷ _) ∷ rows) cabinets h =
    let (last, e₁, h₁) = >>=-eq-ok (integer sequence) _ h in
    let (e₂, h₂) = guard-eq-ok (not (less last previous)) _ h₁ in
    let (name, e₃, h₃) = >>=-eq-ok (embedded_name cabinet) _ h₂ in
    let (e₄, h₄) = guard-eq-ok (not (contains_name name names)) _ h₃ in
    let (rest, e₅, h₅) = >>=-eq-ok (read_media dir (suc i) last (name ∷ names) rows) _ h₄ in
    subst (All _) (ok-injective h₅)
      (((codes "cab-" ++ to_string i, refl), tt), read_media-Within dir (suc i) last _ rows rest e₅)
read_media-Within dir i previous names ([] ∷ rows) cabinets h = cc
read_media-Within dir i previous names ((disk ∷ []) ∷ rows) cabinets h = cc
read_media-Within dir i previous names ((disk ∷ sequence ∷ []) ∷ rows) cabinets h = cc

module _ (file : List ℕ) (dir : Text) where
  read_member-Within :
      (n_folders : ℕ) (t : Table) {t' : Table}
      → MembersWithin dir t.members
      → read_member file n_folders dir t ≡ ok t'
      → MembersWithin dir t'.members
  unfolding read_member
  read_member-Within n_folders t k h =
      let (e₁, h₁) = guard-eq-ok (not (ltb (length file - t.cursor) 17)) _ h in
      let (f, e₂, h₂) = >>=-eq-ok (read_at file t.cursor 16) _ h₁ in
      let (e₃, h₃) = guard-eq-ok (ltb (u16 (drop 8 f)) n_folders) _ h₂ in
      let (folders, e₄, h₄) = >>=-eq-ok (place t.folders _ _ _) _ h₃ in
      let (named, e₅, h₅) = >>=-eq-ok (read_name file 256 (t.cursor + 16)) _ h₄ in
      let (e₆, h₆) = guard-eq-ok (safe_name named.0 && not (has_name named.0 t.members)) _ h₅ in
      subst (λ u. MembersWithin dir u.members) (ok-injective h₆)
        (All-append _ t.members _ k ((codes "payload-" ++ to_string t.count, refl), tt))

  read_members-Within :
      (n_folders n : ℕ) (t : Table) {t' : Table}
      → MembersWithin dir t.members
      → read_members file n_folders n dir t ≡ ok t'
      → MembersWithin dir t'.members
  unfolding read_members
  read_members-Within n_folders zero t k h =
      subst (λ u. MembersWithin dir u.members) (ok-injective h) k
  read_members-Within n_folders (suc n) t k h =
      let (t₁, e, h₁) = >>=-eq-ok (read_member file n_folders dir t) _ h in
      read_members-Within n_folders n t₁ (read_member-Within n_folders t k e) h₁

  read_layout-Within :
      (count : ℕ) {layout : Layout}
      → read_layout file dir count ≡ ok layout
      → MembersWithin dir layout.table.members
  unfolding read_layout
  read_layout-Within count h =
      let (header, e₁, h₁) = >>=-eq-ok (read_header file) _ h in
      let (read, e₂, h₂) =
        >>=-eq-ok (read_folders file header header.folders header.first_folder 0) _ h₁ in
      let (e₃, h₃) =
        guard-eq-ok (not (ltb header.file_table read.1.0 || ltb (length file) header.file_table)) _
          h₂ in
      let (e₄, h₄) = guard-eq-ok (not (ltb (member_limit - count) header.files)) _ h₃ in
      let start : Table = record {
        folders = read.0;
        members = [];
        cursor = header.file_table;
        count = count;
      } in
      let (table, e₅, h₅) =
        >>=-eq-ok (read_members file header.folders header.files dir start) _ h₄ in
      subst (λ y. MembersWithin dir y.table.members) (ok-injective h₅)
        (read_members-Within header.folders header.files start tt e₅)

  pub inspect_cabinet-Within :
      (total count : ℕ) (r : Inspection)
      → inspect_cabinet file dir total count ≡ ok r
      → MembersWithin dir r.members
  unfolding inspect_cabinet
  inspect_cabinet-Within total count r h =
      let (layout, e₁, h₁) = >>=-eq-ok (read_layout file dir count) _ h in
      let table = layout.table in
      let (e₂, h₂) = guard-eq-ok (not (ltb (expansion_limit - total) layout.expanded)) _ h₁ in
      let (u, e₃, h₃) = >>=-eq-ok (check_folders table.cursor table.folders) _ h₂ in
      let (v, e₄, h₄) =
        >>=-eq-ok
          (check_ranges "overlapping cabinet folders" table.cursor
            (sort_ranges (map folder_range table.folders)))
          _ h₃ in
      subst (λ u. MembersWithin dir u.members) (ok-injective h₄) (read_layout-Within count e₁)

-- An action keeps a file, and what it returns is as described.
pub record KeepsThen {A : Type 0} (path : Text) (b : List ℕ) (m : Action A) (P : A → Type 0)
    : Type 0 where
  pub kept : Keeps path b m
  pub answer : (s : Files) (a : A) → file_at s path ≡ some b → (m s).0 ≡ ok a → P a

module _ {path : Text} {b : List ℕ} where
  pub >>=-KeepsThen :
      {A B : Type 0} (m : Action A) (f : A → Action B) {P : A → Type 0} {Q : B → Type 0}
      → KeepsThen path b m P
      → ((a : A) → P a → KeepsThen path b (f a) Q)
      → KeepsThen path b (m >>= f) Q
  >>=-KeepsThen m f h k = record {
    kept = >>=-Keeps m f h.kept (λ a s e q. (k a (h.answer s a e q)).kept);
    answer = λ s c e q.
        let (a, e₁, h₁, q₁) = >>=-returned m f s q in
        (k a (h.answer s a e e₁)).answer (m s).1 c (h.kept.kept s e) h₁;
  }

  pub lift-KeepsThen :
      {A : Type 0} (r : Result A) {P : A → Type 0}
      → ((a : A) → r ≡ ok a → P a)
      → KeepsThen path b (lift r) P
  lift-KeepsThen r h = record { kept = lift-Keeps r; answer = λ s a e q. h a q }

  pub return-KeepsThen : {A : Type 0} (x : A) {P : A → Type 0} → P x → KeepsThen path b (return x) P
  return-KeepsThen x {P} h = lift-KeepsThen (ok x) (λ y e. subst P (ok-injective e) h)

  pub >>=-KeepsThen_all :
      {A B : Type 0} (m : Action A) (f : A → Action B) {Q : B → Type 0}
      → Keeps path b m
      → ((a : A) → KeepsThen path b (f a) Q)
      → KeepsThen path b (m >>= f) Q
  >>=-KeepsThen_all m f h k =
      >>=-KeepsThen m f {P = λ _. Unit} (record { kept = h; answer = λ s a e q. tt }) (λ a _. k a)
