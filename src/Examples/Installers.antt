-- ===== src/Examples/Installers.antt =====
-- An installer with a cabinet of one member and a Binary row, in a database of its own kind.
use aas_sign.Base.{
  ℕ, ◌≡◌, ◌≢◌, refl, arith, subst, Bool, true, false, List, [], ◌∷◌, length, Result, ok,
  ok-injective, some, All, Text, codes, is, bytes_eq, drop, if◌then◌else◌,
}
use aas_sign.Pe.{read_at}
use aas_sign.Der.Integers.{pos}
use aas_sign.Files.{Files, file_at, Action, ◌>>◌, return, Platform}
use aas_sign.Files.Laws.{Keeps, >>=-Keeps_all, lift-Keeps, write_whole_file-Keeps}
use aas_sign.Signing.Atomic.{IsRewriter}
use aas_sign.Msi.{u32, safe_name, CabinetMember}
use aas_sign.Msi.Cabinet.{inspect_cabinet}
use aas_sign.Msi.Database.{Database, Packages, IsDatabase, IsPackages}
use aas_sign.Msi.Media.{
  Cabinet, FileRow, first_column, read_media, read_files, read_hash_rows, all_found, find_members,
}
use aas_sign.Msi.Matched.{Matches, find_members-Matches}
use aas_sign.Msi.Preserved.{ShowsAll, restore_metadata-ShowsAll}
use aas_sign.Msi.Restore.{restore_metadata}
use aas_sign.Msi.Rewrite.{MsiRewriteResult, rewrite_msi_payload}
use aas_sign.Msi.Rewritten.{rewriting, rewriting-IsRewriter, rewrite_msi_payload-unsigned}
use aas_sign.Examples.Cabinets.{cabinet}
use aas_sign.Examples.Toy.{toy, toy-IsPlatform, companion}

abbrev p : Platform
p = toy companion

abbrev rows : Text → List (List Text)
rows statement =
    if is statement "SELECT `Name` FROM `_Tables`"
    then (codes "Media" ∷ []) ∷ (codes "File" ∷ []) ∷ (codes "Binary" ∷ []) ∷ []
    else if is statement "SELECT `DiskId`, `LastSequence`, `Cabinet` FROM `Media` ORDER BY `DiskId`"
    then (codes "1" ∷ codes "1" ∷ codes "#c" ∷ []) ∷ []
    else if is statement
        "SELECT `File`, `FileSize`, `Version`, `Attributes`, `Sequence` FROM `File`"
    then (codes "a" ∷ codes "1" ∷ [] ∷ codes "16384" ∷ codes "1" ∷ []) ∷ []
    else if is statement "SELECT `Name` FROM `Binary`"
    then (codes "b" ∷ []) ∷ []
    else []

abbrev stream : Text → List ℕ
stream name = if is name "c" then cabinet else codes "MZ"

abbrev database : Text → Database
database staged = record {
  query = λ statement. return (rows (codes statement));
  word_count = return (pos 0);
  extract_stream = λ statement name to limit.
      p.write_whole_file to (stream name) >> return (length (stream name));
  execute = λ commands c. return tt;
  commit = λ commands. p.write_whole_file staged [];
}

extract_members : List CabinetMember → Action (Unit {0})
extract_members [] = return tt
extract_members (m ∷ members) = p.write_whole_file m.path (0 ∷ []) >> extract_members members

abbrev packages : Packages
packages = record {
  open_database = λ staged. return (database staged);
  extract_cabinet = λ path members. extract_members members;
  create_cabinet = λ to members. p.write_whole_file to cabinet;
  msi_file_hash = λ path. return [];
}

extract_members-Keeps :
    (path : Text) (b : List ℕ) (members : List CabinetMember)
    → All (λ (m : CabinetMember). path ≢ m.path) members
    → Keeps path b (extract_members members)
unfolding extract_members
extract_members-Keeps path b [] h = lift-Keeps _
extract_members-Keeps path b (m ∷ members) (h, hs) =
    >>=-Keeps_all _ _ (write_whole_file-Keeps p (toy-IsPlatform companion) m.path _ h)
      λ _. extract_members-Keeps path b members hs

database-IsDatabase : (staged : Text) → IsDatabase staged (database staged)
database-IsDatabase staged = record {
  query-Keeps = λ path b statement. lift-Keeps _;
  word_count-Keeps = λ path b. lift-Keeps _;
  extract_stream-Keeps = λ path b statement name to limit n.
      >>=-Keeps_all _ _ (write_whole_file-Keeps p (toy-IsPlatform companion) to _ n)
        λ _. lift-Keeps _;
  execute-Keeps = λ path b commands c. lift-Keeps _;
  commit-Keeps =
      λ path b commands n. write_whole_file-Keeps p (toy-IsPlatform companion) staged _ n;
}

packages-IsPackages : IsPackages packages
packages-IsPackages = record {
  open_database-Keeps = λ path b staged. lift-Keeps _;
  open_database-IsDatabase =
      λ staged s db e. subst (IsDatabase staged) (ok-injective e) (database-IsDatabase staged);
  extract_cabinet-Keeps = λ path b c members h. extract_members-Keeps path b members h;
  create_cabinet-Keeps =
      λ path b to members n. write_whole_file-Keeps p (toy-IsPlatform companion) to _ n;
  msi_file_hash-Keeps = λ path b payload. lift-Keeps _;
}

rewriting-IsRewriter_example : IsRewriter (rewriting p packages)
rewriting-IsRewriter_example =
    rewriting-IsRewriter p packages (toy-IsPlatform companion) packages-IsPackages

abbrev disk : Files
disk = (codes "x.msi", 1 ∷ 2 ∷ []) ∷ []

-- Every payload has a signature.
abbrev no_signing : Text → Text → Action Bool
no_signing payload name = return false

abbrev preserved : MsiRewriteResult
preserved = record { signed_files = 0; preserved_files = 1 }

rewritten : (rewrite_msi_payload p packages (codes "x.msi") no_signing disk).0 ≡ ok preserved
unfolding rewrite_msi_payload toy bytes_eq first_column read_media read_files file_at
    inspect_cabinet read_at safe_name find_members extract_members all_found read_hash_rows
rewritten = refl

rewrite_msi_payload-unsigned_example :
    file_at (rewrite_msi_payload p packages (codes "x.msi") no_signing disk).1 (codes "x.msi")
    ≡ some (1 ∷ 2 ∷ [])
unfolding file_at bytes_eq
rewrite_msi_payload-unsigned_example =
    rewrite_msi_payload-unsigned p packages (1 ∷ 2 ∷ []) (codes "x.msi") no_signing disk preserved
      (toy-IsPlatform companion) packages-IsPackages (λ payload name n. lift-Keeps _) refl rewritten
      refl

abbrev member : CabinetMember
member = record {
  name = codes "a";
  path = codes "w/payload-0";
  size = 1;
  date = 23073;
  time = 7;
  attributes = 32;
}

abbrev cab : Cabinet
cab = record { name = codes "c"; path = codes "w/cab-0"; first = pos 1; last = pos 1; members = [] }

abbrev files : Bool → List (Text × FileRow)
files found =
    (codes "b", record { size = pos 9; sequence = pos 2; version = []; found = false })
    ∷ (codes "a", record { size = pos 1; sequence = pos 1; version = []; found = found })
    ∷ []

matched : find_members cab (member ∷ []) (files false) ≡ ok (files true)
unfolding find_members bytes_eq
matched = refl

find_members-Matches_example : Matches cab (member ∷ []) (files false) (files true)
find_members-Matches_example =
    find_members-Matches cab (member ∷ []) (files false) (files true) matched

-- The cabinet as a compressor gives it back, without the date and the time.
abbrev normalized : List ℕ
normalized =
    0x4d ∷ 0x53 ∷ 0x43 ∷ 0x46 ∷ 0 ∷ 0 ∷ 0 ∷ 0 ∷ 71 ∷ 0 ∷ 0 ∷ 0 ∷ 0 ∷ 0 ∷ 0 ∷ 0 ∷ 44 ∷ 0 ∷ 0 ∷ 0 ∷ 0
    ∷ 0 ∷ 0 ∷ 0 ∷ 3 ∷ 1 ∷ 1 ∷ 0 ∷ 1 ∷ 0 ∷ 0 ∷ 0 ∷ 0 ∷ 0 ∷ 0 ∷ 0 ∷ 62 ∷ 0 ∷ 0 ∷ 0 ∷ 1 ∷ 0 ∷ 0 ∷ 0 ∷ 1
    ∷ 0 ∷ 0 ∷ 0 ∷ 0 ∷ 0 ∷ 0 ∷ 0 ∷ 0 ∷ 0 ∷ 0 ∷ 0 ∷ 0 ∷ 0 ∷ 32 ∷ 0 ∷ 97 ∷ 0 ∷ 0 ∷ 0 ∷ 0 ∷ 0 ∷ 1 ∷ 0
    ∷ 1 ∷ 0 ∷ 42 ∷ []

abbrev one_byte : Text → Result ℕ
one_byte path = ok 1

restored : restore_metadata one_byte (member ∷ []) normalized ≡ ok cabinet
unfolding restore_metadata read_at bytes_eq
restored = refl

restore_metadata-ShowsAll_example :
    (length normalized ≡ length cabinet)
    × ((h : List ℕ) × (read_at normalized 0 36 ≡ ok h)
        × ShowsAll one_byte cabinet (u32 (drop 16 h)) (member ∷ []))
restore_metadata-ShowsAll_example =
    restore_metadata-ShowsAll one_byte (member ∷ []) normalized cabinet
      (record { date = omega arith; time = omega arith; attributes = omega arith }, tt) restored
