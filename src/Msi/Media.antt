-- ===== src/Msi/Media.antt =====
-- The tables of an installer, as `rewrite_msi_payload` of src/msi_recursive.cpp reads them. A row is
-- the list of its columns, and `stuck` is a column outside of it.
use aas_sign.Base.{
  ℕ, zero, suc, ◌+◌, ◌-◌, ◌^◌, ltb, bit_and, ◌==◌, Bool, true, false, not, ◌&&◌, ◌||◌, List, [],
  ◌∷◌, ◌++◌, Option, none, some, Result, ok, err, stuck, ◌>>=◌, ◌>>◌, guard, Text, codes, is_nil,
  bytes_eq, if◌then◌else◌,
}
use aas_sign.Files.{inside}
use aas_sign.Der.Integers.{ℤ, pos, negsuc}
use aas_sign.Msi.{integer, to_string, CabinetMember}

-- a < b on int32_t
unfoldable pub less : ℤ → ℤ → Bool
less (pos a) (pos b) = ltb a b
less (pos a) (negsuc b) = false
less (negsuc a) (pos b) = true
less (negsuc a) (negsuc b) = ltb b a

-- uint32_t(x)
unfoldable pub word : ℤ → ℕ
word (pos a) = a
word (negsuc a) = 2 ^ 32 - suc a

unfoldable pub following : ℤ → ℤ
following (pos a) = pos (a + 1)
following (negsuc zero) = pos 0
following (negsuc (suc a)) = negsuc a

-- The names in the first column.
unfoldable pub first_column : List (List Text) → Result (List Text)
first_column [] = ok []
first_column ((name ∷ _) ∷ rows) = do names ← first_column rows; ok (name ∷ names)
first_column ([] ∷ rows) = stuck

pub record Cabinet : Type 0 where
  pub name : Text
  pub path : Text
  pub first : ℤ
  pub last : ℤ
  pub members : List CabinetMember

unfoldable pub contains_name : Text → List Text → Bool
contains_name name [] = false
contains_name name (n ∷ names) = bytes_eq n name || contains_name name names

-- An embedded cabinet is named behind a '#'.
unfoldable pub embedded_name : Text → Result Text
embedded_name [] = err "external cabinets and loose source media are unsupported"
embedded_name (c ∷ name) = do
  guard (c == b'#' && not (is_nil name)) "external cabinets and loose source media are unsupported"
  ok name

-- The rows of Media, after i of them with these names.
unfoldable pub read_media : Text → ℕ → ℤ → List Text → List (List Text) → Result (List Cabinet)
unfolding integer less following contains_name embedded_name to_string
read_media workspace i previous names [] = ok []
read_media workspace i previous names ((disk ∷ sequence ∷ cabinet ∷ _) ∷ rows) = do
  last ← integer sequence
  guard (not (less last previous)) "Media sequence ranges are not ordered"
  name ← embedded_name cabinet
  guard (not (contains_name name names)) "duplicate Media cabinet reference"
  rest ← read_media workspace (suc i) last (name ∷ names) rows
  ok (
      record {
        name = name;
        path = inside workspace (codes "cab-" ++ to_string i);
        first = following previous;
        last = last;
        members = [];
      }
      ∷ rest)
read_media workspace i previous names (row ∷ rows) = stuck

pub record FileRow : Type 0 where
  pub size : ℤ
  pub sequence : ℤ
  pub version : Text
  pub found : Bool

unfoldable pub row_of : Text → List (Text × FileRow) → Option FileRow
row_of name [] = none
row_of name ((n, row) ∷ files) = if bytes_eq n name then some row else row_of name files

abbrev pub has_row : Text → List (Text × FileRow) → Bool
has_row name [] = false
has_row name ((n, row) ∷ files) = bytes_eq n name || has_row name files

unfoldable pub is_taken : ℤ → List (Text × FileRow) → Bool
unfolding less
is_taken sequence [] = false
is_taken sequence ((n, row) ∷ files) =
    not (less row.sequence sequence || less sequence row.sequence) || is_taken sequence files

-- A file is compressed by its own attribute, or by the word count of the installer.
unfoldable pub is_loose : Bool → ℤ → Bool
unfolding word
is_loose compressed attr =
    not (bit_and (word attr) 0x2000 == 0) || (bit_and (word attr) 0x4000 == 0 && not compressed)

-- The rows of File, after those already read. The sequences seen are those of the rows.
unfoldable pub read_files :
    Bool → List (Text × FileRow) → List (List Text) → Result (List (Text × FileRow))
unfolding integer less is_taken is_loose
read_files compressed files [] = ok files
read_files compressed files ((name ∷ file_size ∷ version ∷ attributes ∷ sequence ∷ _) ∷ rows) = do
  attr ← integer attributes
  guard (not (is_loose compressed attr)) "loose source file is unsupported"
  seq ← integer sequence
  size ← integer file_size
  guard (not (less seq (pos 1) || (less size (pos 0) || is_taken seq files)))
      "invalid or duplicate File sequence/size"
  guard (not (has_row name files)) "duplicate File identifier"
  read_files compressed
      ((name, record { size = size; sequence = seq; version = version; found = false }) ∷ files)
      rows
read_files compressed files (row ∷ rows) = stuck

-- The rows of MsiFileHash.
unfoldable pub read_hash_rows : List (List Text) → Result (List Text)
unfolding integer
read_hash_rows [] = ok []
read_hash_rows ((name ∷ options ∷ _) ∷ rows) = do
  n ← integer options
  guard (word n == 0) "unsupported MsiFileHash options"
  names ← read_hash_rows rows
  ok (name ∷ names)
read_hash_rows (row ∷ rows) = stuck

-- A member of a cabinet has a row that no other member has, in the cabinet's range of sequences and
-- with the member's size.
unfoldable pub is_matching : Cabinet → CabinetMember → FileRow → Bool
unfolding less word
is_matching cab member row = not (
    row.found
    || (less row.sequence cab.first
        || (less cab.last row.sequence || not (word row.size == member.size))))

unfoldable pub find_member :
    Cabinet → CabinetMember → List (Text × FileRow) → Result (List (Text × FileRow))
unfolding is_matching
find_member cab member [] = err "CAB/File table mapping mismatch"
find_member cab member ((name, row) ∷ files) =
    if bytes_eq name member.name
    then (do
      guard (is_matching cab member row) "CAB/File table mapping mismatch"
      ok ((name, record row { found = true }) ∷ files))
    else (do rest ← find_member cab member files; ok ((name, row) ∷ rest))

unfoldable pub find_members :
    Cabinet → List CabinetMember → List (Text × FileRow) → Result (List (Text × FileRow))
unfolding find_member
find_members cab [] files = ok files
find_members cab (m ∷ members) files = do
  files' ← find_member cab m files
  find_members cab members files'

unfoldable pub all_found : List (Text × FileRow) → Bool
all_found [] = true
all_found ((name, row) ∷ files) = row.found && all_found files
