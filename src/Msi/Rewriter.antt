-- ===== src/Msi/Rewriter.antt =====
-- What the second half of `rewrite_msi_payload` of src/msi_recursive.cpp writes, and the whole of it.
use aas_sign.Base.{ℕ, ◌==◌, ◌≢◌, Bool, true, false, not, List, [], ◌∷◌, All, Text, codes}
use aas_sign.Files.{Platform, IsPlatform, Outside}
use aas_sign.Files.Laws.{
  Keeps, >>=-Keeps_all, if-Keeps, lift-Keeps, require-Keeps, read_file-Keeps,
  write_whole_file-Keeps,
}
use aas_sign.Msi.{CabinetMember}
use aas_sign.Msi.Database.{Statement, Database, Packages, IsDatabase, IsPackages}
use aas_sign.Msi.Media.{Cabinet}
use aas_sign.Msi.Unpack.{Payloads}
use aas_sign.Msi.Rewrite.{
  Signer, Progress, sign_payload, preserve_cabinet_metadata, execute_statement, update_row,
  sign_members, rebuild, sign_cabinets, sign_binaries, sign_payloads, finish,
}
use aas_sign.Msi.Workspace.{Outside-ne, Within-append, MembersWithin, CabinetWithin}
use aas_sign.Msi.Contained.{BinariesWithin, PayloadsWithin, file_size-Keeps, pe_candidate-Keeps}

-- What the caller does for a payload does not touch a file that is not the payload.
abbrev pub Spares : Text → List ℕ → Signer → Type 0
Spares path b sign = (payload name : Text) → path ≢ payload → Keeps path b (sign payload name)

module _ {path : Text} {b : List ℕ} (p : Platform) (laws : IsPlatform p) where
  sign_payload-Keeps :
      (sign : Signer) (payload name : Text) (pr : Progress)
      → Keeps path b (sign payload name)
      → Keeps path b (sign_payload p sign payload name pr)
  unfolding sign_payload
  sign_payload-Keeps sign payload name pr k =
      search
        (
          >>=-Keeps_all,
          if-Keeps,
          require-Keeps,
          lift-Keeps,
          pe_candidate-Keeps p laws,
          file_size-Keeps p laws,
        )
        depth 30

  preserve-Keeps :
      (to : Text) (members : List CabinetMember)
      → path ≢ to
      → Keeps path b (preserve_cabinet_metadata p to members)
  unfolding preserve_cabinet_metadata
  preserve-Keeps to members n = >>=-Keeps_all _ _ (read_file-Keeps p laws to) λ file.
      >>=-Keeps_all _ _ (record { kept = λ s e. e })
        λ restored. write_whole_file-Keeps p laws to restored n

module _ {path : Text} {b : List ℕ} (p : Platform) (laws : IsPlatform p) (a : Packages)
    (packages : IsPackages a) (staged : Text) (db : Database)
    (database : IsDatabase staged db) where
  execute_statement-Keeps :
      (c : Statement) (pr : Progress) → Keeps path b (execute_statement db c pr)
  unfolding execute_statement
  execute_statement-Keeps c pr =
      >>=-Keeps_all _ _ (database.execute-Keeps path b pr.commands c) λ _. lift-Keeps _

  pub finish-Keeps : (pr : Progress) → path ≢ staged → Keeps path b (finish db pr)
  unfolding finish
  finish-Keeps pr n = if-Keeps (pr.result.signed_files == 0) (lift-Keeps _) (
      >>=-Keeps_all _ _ (execute_statement-Keeps _ pr) λ renewed.
        >>=-Keeps_all _ _ (database.commit-Keeps path b renewed.commands n) λ _. lift-Keeps _)

  module _ (payloads : Payloads) (sign : Signer) (spares : Spares path b sign) (dir : Text)
      (out : Outside dir path) where
    update_row-Keeps :
        (m : CabinetMember) (pr : Progress) → Keeps path b (update_row p a db payloads sign m pr)
    unfolding update_row
    update_row-Keeps m pr =
        search
          (
            >>=-Keeps_all,
            if-Keeps,
            require-Keeps,
            lift-Keeps,
            file_size-Keeps p laws,
            execute_statement-Keeps,
            packages.msi_file_hash-Keeps path b,
          )
          depth 30

    sign_members-Keeps :
        (cabinet : Text) (members : List CabinetMember) (changed : Bool) (pr : Progress)
        → MembersWithin dir members
        → Keeps path b (sign_members p a db payloads sign cabinet members changed pr)
    unfolding sign_members
    sign_members-Keeps cabinet [] changed pr h = lift-Keeps _
    sign_members-Keeps cabinet (m ∷ members) changed pr (h, hs) =
        >>=-Keeps_all _ _
          (sign_payload-Keeps p laws sign m.path _ pr
            (spares m.path _ (Outside-ne dir path m.path out h)))
          λ signed.
            if-Keeps (not signed.0) (sign_members-Keeps cabinet members changed signed.1 hs) (
              >>=-Keeps_all _ _ (update_row-Keeps m signed.1)
                λ updated. sign_members-Keeps cabinet members true updated hs)

    rebuild-Keeps :
        (cab : Cabinet) (pr : Progress)
        → CabinetWithin dir cab
        → Keeps path b (rebuild p a db payloads sign cab pr)
    unfolding rebuild
    rebuild-Keeps cab pr (h, hs) =
        let n = Outside-ne dir path _ out (Within-append dir cab.path (codes ".rebuilt") h) in
        >>=-Keeps_all _ _ (packages.create_cabinet-Keeps path b _ cab.members n) λ _.
          >>=-Keeps_all _ _ (preserve-Keeps p laws _ cab.members n)
            λ _. execute_statement-Keeps _ pr

    sign_cabinets-Keeps :
        (cabinets : List Cabinet) (pr : Progress)
        → All (CabinetWithin dir) cabinets
        → Keeps path b (sign_cabinets p a db payloads sign cabinets pr)
    unfolding sign_cabinets
    sign_cabinets-Keeps [] pr h = lift-Keeps _
    sign_cabinets-Keeps (cab ∷ cabinets) pr (h, hs) =
        >>=-Keeps_all _ _ (sign_members-Keeps cab.name cab.members false pr h.1) λ done.
          >>=-Keeps_all _ _ (if-Keeps done.0 (rebuild-Keeps cab done.1 h) (lift-Keeps _))
            λ rebuilt. sign_cabinets-Keeps cabinets rebuilt hs

    sign_binaries-Keeps :
        (binaries : List (Text × Text)) (pr : Progress)
        → BinariesWithin dir binaries
        → Keeps path b (sign_binaries p a db payloads sign binaries pr)
    unfolding sign_binaries
    sign_binaries-Keeps [] pr h = lift-Keeps _
    sign_binaries-Keeps ((name, q) ∷ binaries) pr (h, hs) =
        >>=-Keeps_all _ _
          (sign_payload-Keeps p laws sign q _ pr (spares q _ (Outside-ne dir path q out h)))
          λ signed.
            >>=-Keeps_all _ _
              (if-Keeps signed.0 (execute_statement-Keeps _ signed.1) (lift-Keeps _))
              λ set. sign_binaries-Keeps binaries set hs

    pub sign_payloads-Keeps :
        PayloadsWithin dir payloads → Keeps path b (sign_payloads p a db payloads sign)
    unfolding sign_payloads
    sign_payloads-Keeps h =
        >>=-Keeps_all _ _ (sign_cabinets-Keeps payloads.cabinets _ h.cabinets)
          λ pr. sign_binaries-Keeps payloads.binaries pr h.binaries
