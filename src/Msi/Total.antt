-- ===== src/Msi/Total.antt =====
-- `inspect_cabinet` ends, and no index of it leaves its vector of folders.
use aas_sign.Base.{
  ℕ, zero, suc, ◌+◌, ◌-◌, ◌<◌, ltb, ◌≡◌, ◌≢◌, sym, ap, ◌∙◌, not, ◌&&◌, List, [], ◌∷◌, length, drop,
  arith, String, ok, ok-injective, stuck, guard, guard-eq-ok, >>=-eq-ok, >>=-ne-stuck, total_rules,
  Text,
}
use aas_sign.Pe.{read_at}
use aas_sign.Msi.{expansion_limit, u16, safe_name}
use aas_sign.Msi.Ranges.{Range, check_ranges}
use aas_sign.Msi.Folders.{
  Header, Folder, read_reserve, read_header, read_blocks, read_folder, read_folders,
}
use aas_sign.Msi.Cabinet.{
  place, has_name, Table, read_name, read_member, read_members, read_layout, check_folders,
  inspect_cabinet,
}

place-length :
    (folders : List Folder) (i offset size : ℕ) {placed : List Folder}
    → place folders i offset size ≡ ok placed
    → length placed ≡ length folders
unfolding place
place-length [] i offset size h = cc
place-length (f ∷ folders) zero offset size h =
    let (e, h₁) = guard-eq-ok _ _ h in ap length (sym (ok-injective h₁))
place-length (f ∷ folders) (suc i) offset size h =
    let (rest, e, h₁) = >>=-eq-ok (place folders i offset size) _ h in
    ap length (sym (ok-injective h₁)) ∙ ap suc (place-length folders i offset size e)

place-ne-stuck :
    (folders : List Folder) (i offset size : ℕ)
    → i < length folders
    → place folders i offset size ≢ stuck
unfolding place
place-ne-stuck [] i offset size h = absurd (omega arith)
place-ne-stuck (f ∷ folders) zero offset size h = search total_rules
place-ne-stuck (f ∷ folders) (suc i) offset size h =
    search (total_rules, place-ne-stuck folders i offset size (omega arith))

-- The index has been tested.
placed_in :
    (folders : List Folder) (n : ℕ)
    → length folders ≡ n
    → (i offset size : ℕ) (v : Unit {0})
    → guard (ltb i n) "spanning or invalid cabinet member" ≡ ok v
    → place folders i offset size ≢ stuck
placed_in folders n q i offset size v h = place-ne-stuck folders i offset size (ground arith)

check_ranges-ne-stuck :
    (why : String) (end : ℕ) (ranges : List Range) → check_ranges why end ranges ≢ stuck
unfolding check_ranges
check_ranges-ne-stuck why end [] = search total_rules
check_ranges-ne-stuck why end (r ∷ ranges) =
    search (total_rules, check_ranges-ne-stuck why r.1 ranges)

check_folders-ne-stuck : (cursor : ℕ) (folders : List Folder) → check_folders cursor folders ≢ stuck
unfolding check_folders
check_folders-ne-stuck cursor [] = search total_rules
check_folders-ne-stuck cursor (f ∷ folders) =
    search (total_rules, check_ranges-ne-stuck, check_folders-ne-stuck cursor folders)

read_folders-length :
    (file : List ℕ) (header : Header) (n position expanded : ℕ) {r : List Folder × (ℕ × ℕ)}
    → read_folders file header n position expanded ≡ ok r
    → length r.0 ≡ n
unfolding read_folders
read_folders-length file header zero position expanded h =
    ap (λ r. length r.0) (sym (ok-injective h))
read_folders-length file header (suc n) position expanded h =
    let (folder, e₁, h₁) = >>=-eq-ok (read_folder file header position) _ h in
    let (e₂, h₂) = guard-eq-ok (not (ltb (expansion_limit - expanded) folder.expanded)) _ h₁ in
    let (rest, e₃, h₃) = >>=-eq-ok (read_folders file header n _ _) _ h₂ in
    ap (λ r. length r.0) (sym (ok-injective h₃)) ∙ ap suc (read_folders-length file header n _ _ e₃)

module _ (file : List ℕ) where
  read_at-ne-stuck : (offset n : ℕ) → read_at file offset n ≢ stuck
  unfolding read_at
  read_at-ne-stuck offset n = search total_rules

  read_header-ne-stuck : read_header file ≢ stuck
  unfolding read_header read_reserve
  read_header-ne-stuck = search (total_rules, read_at-ne-stuck) depth 30

  read_blocks-ne-stuck :
      (reserve n : ℕ) (folder : Folder) → read_blocks file reserve n folder ≢ stuck
  unfolding read_blocks
  read_blocks-ne-stuck reserve zero folder = search total_rules
  read_blocks-ne-stuck reserve (suc n) folder =
      search (total_rules, read_at-ne-stuck, read_blocks-ne-stuck reserve n)

  read_folders-ne-stuck :
      (header : Header) (n position expanded : ℕ)
      → read_folders file header n position expanded ≢ stuck
  unfolding read_folders read_folder
  read_folders-ne-stuck header zero position expanded = search total_rules
  read_folders-ne-stuck header (suc n) position expanded =
      search (total_rules, read_at-ne-stuck, read_blocks-ne-stuck, read_folders-ne-stuck header n)

  read_name-ne-stuck : (allowance cursor : ℕ) → read_name file allowance cursor ≢ stuck
  unfolding read_name
  read_name-ne-stuck zero cursor = search total_rules
  read_name-ne-stuck (suc allowance) cursor =
      search (total_rules, read_at-ne-stuck, read_name-ne-stuck allowance)

  read_member-ne-stuck :
      (n_folders : ℕ) (workspace : Text) (t : Table)
      → length t.folders ≡ n_folders
      → read_member file n_folders workspace t ≢ stuck
  unfolding read_member
  read_member-ne-stuck n_folders workspace t q =
      search (total_rules, read_at-ne-stuck, read_name-ne-stuck, placed_in t.folders n_folders q)
        depth 30

  read_member-length :
      (n_folders : ℕ) (workspace : Text) (t : Table) {t' : Table}
      → read_member file n_folders workspace t ≡ ok t'
      → length t'.folders ≡ length t.folders
  unfolding read_member
  read_member-length n_folders workspace t h =
      let (e₁, h₁) = guard-eq-ok (not (ltb (length file - t.cursor) 17)) _ h in
      let (f, e₂, h₂) = >>=-eq-ok (read_at file t.cursor 16) _ h₁ in
      let (e₃, h₃) = guard-eq-ok (ltb (u16 (drop 8 f)) n_folders) _ h₂ in
      let (folders, e₄, h₄) = >>=-eq-ok (place t.folders _ _ _) _ h₃ in
      let (named, e₅, h₅) = >>=-eq-ok (read_name file 256 (t.cursor + 16)) _ h₄ in
      let (e₆, h₆) = guard-eq-ok (safe_name named.0 && not (has_name named.0 t.members)) _ h₅ in
      ap (λ u. length u.folders) (sym (ok-injective h₆)) ∙ place-length t.folders _ _ _ e₄

  read_members-ne-stuck :
      (n_folders n : ℕ) (workspace : Text) (t : Table)
      → length t.folders ≡ n_folders
      → read_members file n_folders n workspace t ≢ stuck
  unfolding read_members
  read_members-ne-stuck n_folders zero workspace t q = search total_rules
  read_members-ne-stuck n_folders (suc n) workspace t q =
      >>=-ne-stuck _ _ (read_member-ne-stuck n_folders workspace t q) (λ t' e.
        read_members-ne-stuck n_folders n workspace t'
          (read_member-length n_folders workspace t e ∙ q))

  read_layout-ne-stuck : (workspace : Text) (count : ℕ) → read_layout file workspace count ≢ stuck
  unfolding read_layout
  read_layout-ne-stuck workspace count = >>=-ne-stuck _ _ read_header-ne-stuck (λ header e.
      >>=-ne-stuck _ _ (read_folders-ne-stuck header header.folders header.first_folder 0)
        (λ read e'.
          let members =
            read_members-ne-stuck header.folders header.files workspace
              (record { folders = read.0; members = []; cursor = header.file_table; count = count })
              (read_folders-length file header _ _ _ e') in
          search (total_rules, members)))

-- The inspection of a cabinet returns or throws, whatever its bytes, and never takes a folder that is
-- not there.
pub inspect_cabinet-ne-stuck :
    (file : List ℕ) (workspace : Text) (total count : ℕ)
    → inspect_cabinet file workspace total count ≢ stuck
unfolding inspect_cabinet
inspect_cabinet-ne-stuck file workspace total count =
    search (total_rules, read_layout-ne-stuck file, check_folders-ne-stuck, check_ranges-ne-stuck)
