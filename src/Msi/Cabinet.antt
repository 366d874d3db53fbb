-- ===== src/Msi/Cabinet.antt =====
-- `inspect_cabinet` of src/msi_recursive.cpp. `stuck` is an access outside of a vector.
use aas_sign.Base.{
  ℕ, zero, suc, ◌+◌, ◌-◌, ltb, ◌==◌, Bool, false, not, ◌&&◌, ◌||◌, List, [], ◌∷◌, ◌++◌, map, length,
  drop, Result, ok, err, stuck, ◌>>=◌, ◌>>◌, guard, Text, codes, bytes_eq, if◌then◌else◌,
}
use aas_sign.Pe.{read_at}
use aas_sign.Files.{inside}
use aas_sign.Msi.{expansion_limit, member_limit, u16, u32, safe_name, to_string, CabinetMember}
use aas_sign.Msi.Ranges.{Range, sort_ranges, check_ranges}
use aas_sign.Msi.Folders.{Folder, at, read_header, read_folders}

-- A member at an offset of the data of folder i.
unfoldable pub place : List Folder → ℕ → ℕ → ℕ → Result (List Folder)
place [] i offset size = stuck
place (f ∷ folders) zero offset size = do
  guard (not (ltb f.expanded offset || ltb (f.expanded - offset) size))
      "cabinet member exceeds folder data"
  ok (record f { files = f.files ++ (offset, offset + size) ∷ [] } ∷ folders)
place (f ∷ folders) (suc i) offset size = do rest ← place folders i offset size; ok (f ∷ rest)

unfoldable pub has_name : Text → List CabinetMember → Bool
has_name name [] = false
has_name name (m ∷ members) = bytes_eq m.name name || has_name name members

-- What has been read of the file table.
pub record Table : Type 0 where
  pub folders : List Folder
  pub members : List CabinetMember
  pub cursor : ℕ
  pub count : ℕ

-- What a cabinet holds.
pub record Layout : Type 0 where
  pub table : Table
  pub expanded : ℕ

pub record Inspection : Type 0 where
  pub members : List CabinetMember
  pub total : ℕ
  pub count : ℕ

abbrev pub folder_range : Folder → Range
folder_range f = (f.start, f.end)

module _ (file : List ℕ) where
  -- A name and the position behind its final zero, after at most `allowance` characters.
  unfoldable pub read_name : ℕ → ℕ → Result (Text × ℕ)
  read_name zero cursor = err "invalid cabinet member name"
  read_name (suc allowance) cursor = do
    guard (ltb cursor (length file)) "invalid cabinet member name"
    ch ← read_at file cursor 1
    (if at ch 0 == 0
        then ok ([], cursor + 1)
        else (do rest ← read_name allowance (cursor + 1); ok (at ch 0 ∷ rest.0, rest.1)))

  unfoldable pub read_member : ℕ → Text → Table → Result Table
  unfolding place read_name has_name u32
  read_member n_folders workspace t = do
    guard (not (ltb (length file - t.cursor) 17)) "truncated cabinet file record"
    f ← read_at file t.cursor 16
    guard (ltb (u16 (drop 8 f)) n_folders) "spanning or invalid cabinet member"
    folders ← place t.folders (u16 (drop 8 f)) (u32 (drop 4 f)) (u32 f)
    named ← read_name 256 (t.cursor + 16)
    guard (safe_name named.0 && not (has_name named.0 t.members))
        "unsafe or duplicate cabinet member name"
    let member : CabinetMember = record {
      name = named.0;
      path = inside workspace (codes "payload-" ++ to_string t.count);
      size = u32 f;
      date = u16 (drop 10 f);
      time = u16 (drop 12 f);
      attributes = u16 (drop 14 f);
    }
    ok (record {
      folders = folders;
      members = t.members ++ member ∷ [];
      cursor = named.1;
      count = t.count + 1;
    })

  unfoldable pub read_members : ℕ → ℕ → Text → Table → Result Table
  unfolding read_member
  read_members n_folders zero workspace t = ok t
  read_members n_folders (suc n) workspace t = do
    t' ← read_member n_folders workspace t
    read_members n_folders n workspace t'

  unfoldable pub read_layout : Text → ℕ → Result Layout
  unfolding read_header read_folders read_members
  read_layout workspace count = do
    header ← read_header file
    read ← read_folders file header header.folders header.first_folder 0
    let cursor = header.file_table
    guard (not (ltb cursor read.1.0 || ltb (length file) cursor)) "invalid cabinet file table"
    guard (not (ltb (member_limit - count) header.files)) "more than 65535 payload members"
    table ←
        read_members header.folders header.files workspace
          (record { folders = read.0; members = []; cursor = cursor; count = count })
    ok (record { table = table; expanded = read.1.1 })

-- The members of a folder do not overlap, nor does its data the tables of the cabinet.
unfoldable pub check_folders : ℕ → List Folder → Result (Unit {0})
unfolding check_ranges sort_ranges
check_folders cursor [] = ok tt
check_folders cursor (f ∷ folders) = do
  guard (not (ltb f.start cursor)) "cabinet data overlaps metadata"
  check_ranges "overlapping cabinet members" 0 (sort_ranges f.files)
  check_folders cursor folders

unfoldable pub inspect_cabinet : List ℕ → Text → ℕ → ℕ → Result Inspection
unfolding read_layout check_folders
inspect_cabinet file workspace total count = do
  layout ← read_layout file workspace count
  guard (not (ltb (expansion_limit - total) layout.expanded)) "expanded payload exceeds 1 GiB"
  let table = layout.table
  check_folders table.cursor table.folders
  check_ranges "overlapping cabinet folders" table.cursor
      (sort_ranges (map folder_range table.folders))
  ok (record { members = table.members; total = total + layout.expanded; count = table.count })
