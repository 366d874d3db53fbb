-- ===== src/Msi/Unpack.antt =====
-- The payloads of an installer are extracted into the workspace: the first half of
-- `rewrite_msi_payload` of src/msi_recursive.cpp.
use aas_sign.Base.{
  ℕ, ◌+◌, ◌-◌, ltb, bit_and, ◌==◌, Bool, true, false, not, List, [], ◌∷◌, ◌++◌, length, String,
  Text, codes, bytes_eq, if◌then◌else◌,
}
use aas_sign.Pe.{read_at}
use aas_sign.Files.{Action, ◌>>=◌, ◌>>◌, lift, return, require, Platform, inside}
use aas_sign.Der.Integers.{pos}
use aas_sign.Msi.{expansion_limit, member_limit, to_string, CabinetMember}
use aas_sign.Msi.Cabinet.{inspect_cabinet}
use aas_sign.Msi.Database.{Database, Packages}
use aas_sign.Msi.Media.{
  Cabinet, FileRow, contains_name, first_column, read_media, read_files, read_hash_rows, word,
  find_members, all_found,
}

-- What has been extracted, and what it uses of the limits.
pub record Unpacked : Type 0 where
  pub cabinets : List Cabinet
  pub files : List (Text × FileRow)
  pub expanded : ℕ
  pub count : ℕ

-- A row of Binary, and where its data is.
pub record Binaries : Type 0 where
  pub binaries : List (Text × Text)
  pub expanded : ℕ
  pub count : ℕ

-- What is known of an installer before the first payload is signed.
pub record Payloads : Type 0 where
  pub cabinets : List Cabinet
  pub files : List (Text × FileRow)
  pub binaries : List (Text × Text)
  pub hash_rows : List Text
  pub expanded : ℕ

abbrev no_rows : List (List Text) → Bool
no_rows [] = true
no_rows (row ∷ rows) = false

module _ (p : Platform) where
  -- platform::File(path).size()
  unfoldable pub file_size : Text → Action ℕ
  file_size path = do file ← p.read_file path; return (length file)

  unfoldable pub pe_candidate : Text → Action Bool
  pe_candidate path = do
    file ← p.read_file path
    (if ltb (length file) 2
        then return false
        else (do magic ← lift (read_at file 0 2); return (bytes_eq magic (codes "MZ"))))

  unfoldable pub check_sizes : List CabinetMember → Action (Unit {0})
  unfolding file_size
  check_sizes [] = return tt
  check_sizes (m ∷ members) = do
    size ← file_size m.path
    require (size == m.size) "extracted cabinet member size mismatch"
    check_sizes members

module _ (p : Platform) (a : Packages) (db : Database) (workspace : Text) where
  unfoldable pub unpack_cabinet : Cabinet → Unpacked → Action Unpacked
  unfolding check_sizes
  unpack_cabinet cab u = do
    n ←
        db.extract_stream "SELECT `Data` FROM `_Streams` WHERE `Name` = ?" cab.name cab.path
          expansion_limit
    file ← p.read_file cab.path
    inspected ← lift (inspect_cabinet file workspace u.expanded u.count)
    files ← lift (find_members cab inspected.members u.files)
    a.extract_cabinet cab.path inspected.members
    check_sizes p inspected.members
    return (record {
      cabinets = u.cabinets ++ record cab { members = inspected.members } ∷ [];
      files = files;
      expanded = inspected.total;
      count = inspected.count;
    })

  unfoldable pub unpack_cabinets : List Cabinet → Unpacked → Action Unpacked
  unfolding unpack_cabinet
  unpack_cabinets [] u = return u
  unpack_cabinets (cab ∷ cabinets) u = do u' ← unpack_cabinet cab u; unpack_cabinets cabinets u'

  unfoldable pub unpack_binaries : List Text → Binaries → Action Binaries
  unpack_binaries [] u = return u
  unpack_binaries (name ∷ names) u = do
    require (ltb u.count member_limit) "more than 65535 payload members"
    let path = inside workspace (codes "payload-" ++ to_string u.count)
    n ←
        db.extract_stream "SELECT `Data` FROM `Binary` WHERE `Name` = ?" name path
          (expansion_limit - u.expanded)
    unpack_binaries names (record {
      binaries = u.binaries ++ (name, path) ∷ [];
      expanded = u.expanded + n;
      count = u.count + 1;
    })

  -- The rows of a table, none where there is no such table.
  unfoldable pub rows_of : List Text → Text → String → Action (List (List Text))
  rows_of tables table statement =
      if contains_name table tables then db.query statement else return []

  -- What follows the cabinets.
  unfoldable pub unpack_others : List Text → Unpacked → Action Payloads
  unfolding rows_of unpack_binaries
  unpack_others tables u = do
    binary_rows ← rows_of tables (codes "Binary") "SELECT `Name` FROM `Binary`"
    names ← lift (first_column binary_rows)
    b ← unpack_binaries names (record { binaries = []; expanded = u.expanded; count = u.count })
    hashes ← rows_of tables (codes "MsiFileHash") "SELECT `File_`, `Options` FROM `MsiFileHash`"
    hash_rows ← lift (read_hash_rows hashes)
    return (record {
      cabinets = u.cabinets;
      files = u.files;
      binaries = b.binaries;
      hash_rows = hash_rows;
      expanded = b.expanded;
    })

  unfoldable pub unpack : Action Payloads
  unfolding unpack_cabinets unpack_others rows_of
  unpack = do
    storages ← db.query "SELECT `Name` FROM `_Storages`"
    require (no_rows storages) "embedded transforms or nested database storages are unsupported"
    table_rows ← db.query "SELECT `Name` FROM `_Tables`"
    tables ← lift (first_column table_rows)
    words ← db.word_count
    media ←
        rows_of tables (codes "Media")
          "SELECT `DiskId`, `LastSequence`, `Cabinet` FROM `Media` ORDER BY `DiskId`"
    cabinets ← lift (read_media workspace 0 (pos 0) [] media)
    file_rows ←
        rows_of tables (codes "File")
          "SELECT `File`, `FileSize`, `Version`, `Attributes`, `Sequence` FROM `File`"
    files ← lift (read_files (not (bit_and (word words) 2 == 0)) [] file_rows)
    u ← unpack_cabinets cabinets (record { cabinets = []; files = files; expanded = 0; count = 0 })
    require (all_found u.files) "File row has no embedded cabinet member"
    unpack_others tables u
