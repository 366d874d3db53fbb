-- ===== src/Msi/Contained.antt =====
-- What `rewrite_msi_payload` of src/msi_recursive.cpp writes.
use aas_sign.Base.{ℕ, ◌==◌, ◌≢◌, refl, List, [], ◌∷◌, ◌++◌, All, All-append, String, Text, codes}
use aas_sign.Files.{require, Platform, IsPlatform, inside, Outside}
use aas_sign.Files.Laws.{Keeps, >>=-Keeps_all, if-Keeps, lift-Keeps, require-Keeps, read_file-Keeps}
use aas_sign.Der.Integers.{pos}
use aas_sign.Msi.{to_string, CabinetMember}
use aas_sign.Msi.Cabinet.{inspect_cabinet}
use aas_sign.Msi.Database.{Database, Packages, IsDatabase, IsPackages}
use aas_sign.Msi.Media.{Cabinet, read_media, read_hash_rows, first_column, all_found}
use aas_sign.Msi.Unpack.{
  Unpacked, Binaries, Payloads, file_size, pe_candidate, check_sizes, unpack_cabinet,
  unpack_cabinets, unpack_binaries, rows_of, unpack_others, unpack,
}
use aas_sign.Msi.Workspace.{
  Within, Outside-ne, MembersWithin, CabinetWithin, read_media-Within, inspect_cabinet-Within,
  KeepsThen, >>=-KeepsThen, >>=-KeepsThen_all, lift-KeepsThen, return-KeepsThen,
}

abbrev pub BinariesWithin : Text → List (Text × Text) → Type 0
BinariesWithin dir binaries = All (λ b. Within dir b.1) binaries

-- Where the payloads of an installer are.
pub record PayloadsWithin (dir : Text) (payloads : Payloads) : Type 0 where
  pub cabinets : All (CabinetWithin dir) payloads.cabinets
  pub binaries : BinariesWithin dir payloads.binaries

members-ne :
    (dir path : Text)
    → Outside dir path
    → (members : List CabinetMember) → MembersWithin dir members
    → All (λ (m : CabinetMember). path ≢ m.path) members
members-ne dir path out [] h = tt
members-ne dir path out (m ∷ members) (h, hs) =
    (Outside-ne dir path m.path out h, members-ne dir path out members hs)

module _ {path : Text} {b : List ℕ} (p : Platform) (laws : IsPlatform p) where
  pub file_size-Keeps : (q : Text) → Keeps path b (file_size p q)
  unfolding file_size
  file_size-Keeps q = search (>>=-Keeps_all, lift-Keeps, read_file-Keeps p laws)

  pub pe_candidate-Keeps : (q : Text) → Keeps path b (pe_candidate p q)
  unfolding pe_candidate
  pe_candidate-Keeps q = search (>>=-Keeps_all, if-Keeps, lift-Keeps, read_file-Keeps p laws)

  check_sizes-Keeps : (members : List CabinetMember) → Keeps path b (check_sizes p members)
  unfolding check_sizes
  check_sizes-Keeps [] = lift-Keeps _
  check_sizes-Keeps (m ∷ members) = >>=-Keeps_all _ _ (file_size-Keeps m.path) λ size.
      >>=-Keeps_all (require (size == m.size) _) _ (require-Keeps _ _)
        λ _. check_sizes-Keeps members

module _ {path : Text} {b : List ℕ} (p : Platform) (laws : IsPlatform p) (a : Packages)
    (packages : IsPackages a) (staged : Text) (db : Database) (database : IsDatabase staged db)
    (dir : Text) (out : Outside dir path) where
  unpack_cabinet-KeepsThen :
      (cab : Cabinet) (u : Unpacked)
      → Within dir cab.path
      → All (CabinetWithin dir) u.cabinets
      → KeepsThen path b
          (unpack_cabinet p a db dir cab u)
          (λ u'. All (CabinetWithin dir) u'.cabinets)
  unfolding unpack_cabinet
  unpack_cabinet-KeepsThen cab u w h =
      >>=-KeepsThen_all _ _
        (database.extract_stream-Keeps path b _ cab.name cab.path _
          (Outside-ne dir path cab.path out w))
        λ n. >>=-KeepsThen_all _ _ (read_file-Keeps p laws cab.path) λ file.
          >>=-KeepsThen _ _
            (lift-KeepsThen (inspect_cabinet file dir u.expanded u.count)
              (inspect_cabinet-Within file dir u.expanded u.count))
            λ r within. >>=-KeepsThen_all _ _ (lift-Keeps _) λ files.
              >>=-KeepsThen_all _ _
                (packages.extract_cabinet-Keeps path b cab.path r.members
                  (members-ne dir path out r.members within))
                λ _.
                  >>=-KeepsThen_all _ _ (check_sizes-Keeps p laws r.members)
                    λ _. return-KeepsThen _ (All-append _ u.cabinets _ h ((w, within), tt))

  unpack_cabinets-KeepsThen :
      (cabinets : List Cabinet) (u : Unpacked)
      → All (CabinetWithin dir) cabinets
      → All (CabinetWithin dir) u.cabinets
      → KeepsThen path b
          (unpack_cabinets p a db dir cabinets u)
          (λ u'. All (CabinetWithin dir) u'.cabinets)
  unfolding unpack_cabinets
  unpack_cabinets-KeepsThen [] u w h = return-KeepsThen u h
  unpack_cabinets-KeepsThen (cab ∷ cabinets) u ((w, _), ws) h =
      >>=-KeepsThen _ _ (unpack_cabinet-KeepsThen cab u w h)
        (λ u' h'. unpack_cabinets-KeepsThen cabinets u' ws h')

  unpack_binaries-KeepsThen :
      (names : List Text) (u : Binaries)
      → BinariesWithin dir u.binaries
      → KeepsThen path b (unpack_binaries p a db dir names u) (λ u'. BinariesWithin dir u'.binaries)
  unfolding unpack_binaries
  unpack_binaries-KeepsThen [] u h = return-KeepsThen u h
  unpack_binaries-KeepsThen (name ∷ names) u h =
      let place : Within dir (inside dir (codes "payload-" ++ to_string u.count)) =
        (codes "payload-" ++ to_string u.count, refl) in
      >>=-KeepsThen_all _ _ (require-Keeps _ _) λ _.
        >>=-KeepsThen_all _ _
          (database.extract_stream-Keeps path b _ name _ _ (Outside-ne dir path _ out place))
          λ n. unpack_binaries-KeepsThen names _ (All-append _ u.binaries _ h (place, tt))

  rows_of-Keeps :
      (tables : List Text) (table : Text) (statement : String)
      → Keeps path b (rows_of p a db dir tables table statement)
  unfolding rows_of
  rows_of-Keeps tables table statement = search (if-Keeps, lift-Keeps, database.query-Keeps path b)

  unpack_others-KeepsThen :
      (tables : List Text) (u : Unpacked)
      → All (CabinetWithin dir) u.cabinets
      → KeepsThen path b (unpack_others p a db dir tables u) (PayloadsWithin dir)
  unfolding unpack_others
  unpack_others-KeepsThen tables u h = >>=-KeepsThen_all _ _ (rows_of-Keeps tables _ _) λ rows.
      >>=-KeepsThen_all _ _ (lift-Keeps (first_column rows)) λ names.
        >>=-KeepsThen _ _
          (unpack_binaries-KeepsThen names
            (record { binaries = []; expanded = u.expanded; count = u.count }) tt)
          λ bs placed. >>=-KeepsThen_all _ _ (rows_of-Keeps tables _ _) λ hashes.
            >>=-KeepsThen_all _ _ (lift-Keeps (read_hash_rows hashes))
              λ hash_rows. return-KeepsThen _ (record { cabinets = h; binaries = placed })

  pub unpack-KeepsThen : KeepsThen path b (unpack p a db dir) (PayloadsWithin dir)
  unfolding unpack
  unpack-KeepsThen = >>=-KeepsThen_all _ _ (database.query-Keeps path b _) λ storages.
      >>=-KeepsThen_all _ _ (require-Keeps _ _) λ _.
        >>=-KeepsThen_all _ _ (database.query-Keeps path b _) λ table_rows.
          >>=-KeepsThen_all _ _ (lift-Keeps _) λ tables.
            >>=-KeepsThen_all _ _ (database.word_count-Keeps path b) λ words.
              >>=-KeepsThen_all _ _ (rows_of-Keeps tables _ _) λ media.
                >>=-KeepsThen _ _
                  (lift-KeepsThen (read_media dir 0 (pos 0) [] media)
                    (read_media-Within dir 0 (pos 0) [] media))
                  λ cabinets w. >>=-KeepsThen_all _ _ (rows_of-Keeps tables _ _) λ file_rows.
                    >>=-KeepsThen_all _ _ (lift-Keeps _) λ files.
                      >>=-KeepsThen _ _ (unpack_cabinets-KeepsThen cabinets _ w tt) λ u within.
                        >>=-KeepsThen_all (require (all_found u.files) _) _ (require-Keeps _ _)
                          λ _. unpack_others-KeepsThen tables u within
