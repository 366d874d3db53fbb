-- ===== src/Msi/Sound.antt =====
-- What `inspect_cabinet` lets through.
use aas_sign.Base.{
  ℕ, ◌+◌, ◌-◌, ◌≤◌, ltb, ◌≡◌, refl, subst, not, ◌||◌, List, [], ◌∷◌, map, length, All, arith, ok,
  ok-injective, guard-eq-ok, >>=-eq-ok, Text,
}
use aas_sign.Msi.{expansion_limit, member_limit}
use aas_sign.Msi.Ranges.{
  Range, IsRange, Disjoint, Pairwise, check_ranges, sort_ranges, check_sorted,
}
use aas_sign.Msi.Spread.{Spread}
use aas_sign.Msi.Placed.{Span, Walk, Laid, read_layout-IsPlaced}
use aas_sign.Msi.Folders.{Header, Folder, read_header, read_folders}
use aas_sign.Msi.Cabinet.{
  Table, Layout, Inspection, folder_range, read_members, read_layout, check_folders,
  inspect_cabinet,
}
use aas_sign.Msi.Bounds.{IsFolder}
use aas_sign.Msi.Bounds.{read_folders-All}
use aas_sign.Msi.Tables.{AreNamed, IsTable, read_members-IsTable}

-- The expanded data and the members are counted into what other cabinets of the installer have used
-- of the limits; the folders are those of the entries behind the header, with the data blocks that
-- follow one another there; the members are those of the records of the file table, from its position
-- in the header on, and the ranges of each folder are the spans of its records; no two folders, no two
-- members of a folder, and no folder and the tables of the cabinet have a byte in common.
pub record IsSound (file : List ℕ) (total count : ℕ) (layout : Layout) (r : Inspection)
    : Type 0 where
  pub members : r.members ≡ layout.table.members
  pub header : Header
  pub read : read_header file ≡ ok header
  pub spread :
      Spread file header header.first_folder header.folders layout.table.folders layout.expanded
  pub spans : List Span
  pub walked : Walk file header.file_table layout.table.cursor r.members spans
  pub laid : Laid 0 layout.table.folders spans
  pub inside : All (IsFolder file) layout.table.folders
  pub members_disjoint : All (λ f. Pairwise Disjoint f.files) layout.table.folders
  pub behind_tables : All (λ f. layout.table.cursor ≤ f.start) layout.table.folders
  pub folders_disjoint : Pairwise Disjoint (map folder_range layout.table.folders)
  pub named : AreNamed r.members
  pub counted : r.count ≡ count + length r.members
  pub count_limit : r.count ≤ member_limit
  pub expanded : r.total ≡ total + layout.expanded
  pub total_limit : r.total ≤ expansion_limit

ranges_in :
    (e : ℕ) (files : List Range) → All (λ r. (r.0 ≤ r.1) × (r.1 ≤ e)) files → All IsRange files
ranges_in e [] a = tt
ranges_in e (r ∷ files) (h, a) = (h.0, ranges_in e files a)

folder_ranges :
    (file : List ℕ) (folders : List Folder)
    → All (IsFolder file) folders
    → All IsRange (map folder_range folders)
folder_ranges file [] a = tt
folder_ranges file (f ∷ folders) (h, a) = (h.ordered, folder_ranges file folders a)

check_folders-All :
    (file : List ℕ) (cursor : ℕ) (folders : List Folder)
    → All (IsFolder file) folders
    → check_folders cursor folders ≡ ok tt
    → All (λ f. cursor ≤ f.start) folders × All (λ f. Pairwise Disjoint f.files) folders
unfolding check_folders
check_folders-All file cursor [] a h = (tt, tt)
check_folders-All file cursor (f ∷ folders) (k, a) h =
    let (e₁, h₁) = guard-eq-ok (not (ltb f.start cursor)) _ h in
    let (u, e₂, h₂) =
      >>=-eq-ok (check_ranges "overlapping cabinet members" 0 (sort_ranges f.files)) _ h₁ in
    let (l, m) = check_folders-All file cursor folders a h₂ in
    let behind : cursor ≤ f.start = ground arith in
    ((behind, l), ((check_sorted _ 0 f.files (ranges_in f.expanded f.files k.in_data) e₂).1, m))

module _ (file : List ℕ) (workspace : Text) (count : ℕ) where
  read_layout-IsTable :
      {layout : Layout}
      → count ≤ member_limit
      → read_layout file workspace count ≡ ok layout
      → IsTable file count layout.table × (layout.table.count ≤ member_limit)
  unfolding read_layout
  read_layout-IsTable le h =
      let (header, e₁, h₁) = >>=-eq-ok (read_header file) _ h in
      let (read, e₂, h₂) =
        >>=-eq-ok (read_folders file header header.folders header.first_folder 0) _ h₁ in
      let (e₃, h₃) =
        guard-eq-ok (not (ltb header.file_table read.1.0 || ltb (length file) header.file_table)) _
          h₂ in
      let (e₄, h₄) = guard-eq-ok (not (ltb (member_limit - count) header.files)) _ h₃ in
      let start : Table = record {
        folders = read.0;
        members = [];
        cursor = header.file_table;
        count = count;
      } in
      let (table, e₅, h₅) =
        >>=-eq-ok (read_members file header.folders header.files workspace start) _ h₄ in
      let first : IsTable file count start = record {
        folders = read_folders-All file header _ _ _ e₂;
        named = record { safe = tt; distinct = tt };
        counted = omega arith;
      } in
      let (k, l) =
        read_members-IsTable file count header.folders header.files workspace start first e₅ in
      let bound : header.files ≤ member_limit - count = ground arith in
      let within : table.count ≤ member_limit = omega (arith, k.counted, l) in
      subst (λ y. IsTable file count y.table × (y.table.count ≤ member_limit)) (ok-injective h₅)
        (k, within)

-- A cabinet that is let through has the data blocks of all its folders inside the file and behind its
-- own tables, its folders do not overlap, nor do the spans that the records of its file table take for
-- the members of a folder, which lie in its data; the names are safe and no two are the same; and what
-- its data blocks say they expand to and its members stay within the limits, together with those of the
-- cabinets before it when these are within the limits.
pub inspect_cabinet-IsSound :
    (file : List ℕ) (workspace : Text) (total count : ℕ) (r : Inspection)
    → total ≤ expansion_limit
    → count ≤ member_limit
    → inspect_cabinet file workspace total count ≡ ok r
    → (layout : Layout) × (read_layout file workspace count ≡ ok layout)
      × IsSound file total count layout r
unfolding inspect_cabinet
inspect_cabinet-IsSound file workspace total count r le lc h =
    let (layout, e₁, h₁) = >>=-eq-ok (read_layout file workspace count) _ h in
    let table = layout.table in
    let (e₂, h₂) = guard-eq-ok (not (ltb (expansion_limit - total) layout.expanded)) _ h₁ in
    let (u, e₃, h₃) = >>=-eq-ok (check_folders table.cursor table.folders) _ h₂ in
    let (v, e₄, h₄) =
      >>=-eq-ok
        (check_ranges "overlapping cabinet folders" table.cursor
          (sort_ranges (map folder_range table.folders)))
        _ h₃ in
    let (k, l) = read_layout-IsTable file workspace count lc e₁ in
    let (header, read, placed) = read_layout-IsPlaced file workspace count e₁ in
    let (behind, disjoint) = check_folders-All file table.cursor table.folders k.folders e₃ in
    let (m, n) =
      check_sorted _ table.cursor (map folder_range table.folders)
        (folder_ranges file table.folders k.folders) e₄ in
    let fits : total + layout.expanded ≤ expansion_limit = ground arith in
    (
      layout,
      e₁,
      subst (IsSound file total count layout) (ok-injective h₄) (record {
        members = refl;
        header = header;
        read = read;
        spread = placed.spread;
        spans = placed.spans;
        walked = placed.walked;
        laid = placed.laid;
        inside = k.folders;
        members_disjoint = disjoint;
        behind_tables = behind;
        folders_disjoint = n;
        named = k.named;
        counted = k.counted;
        count_limit = l;
        expanded = refl;
        total_limit = fits;
      }),
    )
