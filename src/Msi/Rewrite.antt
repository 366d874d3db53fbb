-- ===== src/Msi/Rewrite.antt =====
-- The payloads of an installer are signed and put back: the second half of `rewrite_msi_payload` of
-- src/msi_recursive.cpp, and the whole of it. `sign` is what the caller gives for a payload: whether
-- it has been signed now.
use aas_sign.Base.{
  ℕ, ◌+◌, ◌-◌, ◌%◌, ◌^◌, ltb, ◌==◌, Bool, true, false, not, ◌&&◌, List, [], ◌∷◌, ◌++◌, length,
  Option, none, some, Result, ok, err, Text, codes, is_nil, if◌then◌else◌,
}
use aas_sign.Files.{Action, ◌>>=◌, ◌>>◌, lift, return, require, Platform, with_temp_dir}
use aas_sign.Msi.{expansion_limit, CabinetMember}
use aas_sign.Msi.Database.{
  Statement, set_file_size, set_file_hash, set_stream, set_binary, renew_package_code, Database,
  Packages,
}
use aas_sign.Msi.Media.{Cabinet, FileRow, contains_name, row_of}
use aas_sign.Msi.Restore.{restore_metadata}
use aas_sign.Msi.Unpack.{Payloads, file_size, pe_candidate, unpack}

pub record MsiRewriteResult : Type 0 where
  pub signed_files : ℕ
  pub preserved_files : ℕ

-- What the signing has counted, and what it has executed on the database.
pub record Progress : Type 0 where
  pub expanded : ℕ
  pub result : MsiRewriteResult
  pub commands : List Statement

abbrev pub Signer : Type 0
Signer = Text → Text → Action Bool

-- uint64_t
abbrev pub minus64 : ℕ → ℕ → ℕ
minus64 a b = (a + 2 ^ 64 - b) % 2 ^ 64

module _ (p : Platform) where
  unfoldable pub sign_payload : Signer → Text → Text → Progress → Action (Bool × Progress)
  unfolding pe_candidate file_size
  sign_payload sign path name pr = do
    candidate ← pe_candidate p path
    (if not candidate then return (false, pr) else (do
      before ← file_size p path
      signed ← sign path name
      (if not signed
          then return (
            false,
            record pr {
              result = record pr.result { preserved_files = pr.result.preserved_files + 1 };
            },
          )
          else (do
            after ← file_size p path
            require (not (ltb (minus64 expansion_limit (minus64 pr.expanded before)) after))
                "signed payload exceeds 1 GiB expansion limit"
            return (
              true,
              record pr {
                expanded = (minus64 pr.expanded before + after) % 2 ^ 64;
                result = record pr.result { signed_files = pr.result.signed_files + 1 };
              },
            )))))

  unfoldable pub preserve_cabinet_metadata : Text → List CabinetMember → Action (Unit {0})
  unfolding restore_metadata file_size
  preserve_cabinet_metadata path members = do
    file ← p.read_file path
    restored ← (λ files. (restore_metadata (λ q. (file_size p q files).0) members file, files))
    p.write_whole_file path restored

unfoldable pub execute_statement : Database → Statement → Progress → Action Progress
execute_statement db c pr = do
  db.execute pr.commands c
  return (record pr { commands = pr.commands ++ c ∷ [] })

-- files.at(name).version
unfoldable pub version_of : Option FileRow → Result Text
version_of none = err "map::at"
version_of (some row) = ok row.version

module _ (p : Platform) (a : Packages) (db : Database) (payloads : Payloads) (sign : Signer) where
  -- A hash is kept for a file without a version.
  unfoldable pub is_hashed : Text → Result Bool
  unfolding contains_name version_of row_of
  is_hashed name =
      if contains_name name payloads.hash_rows
      then aas_sign.Base.◌>>=◌ (version_of (row_of name payloads.files)) (λ v. ok (is_nil v))
      else ok false

  unfoldable pub update_row : CabinetMember → Progress → Action Progress
  unfolding is_hashed execute_statement
  update_row m pr = do
    size ← file_size p m.path
    require (not (ltb (2 ^ 31 - 1) size)) "signed payload exceeds MSI FileSize range"
    sized ← execute_statement db (set_file_size size m.name) pr
    hashed ← lift (is_hashed m.name)
    (if hashed
        then (do
          hash ← a.msi_file_hash m.path
          execute_statement db (set_file_hash hash m.name) sized)
        else return sized)

  -- Whether a member of the cabinet has been signed, before these members or among them.
  unfoldable pub sign_members :
      Text → List CabinetMember → Bool → Progress → Action (Bool × Progress)
  unfolding sign_payload update_row
  sign_members cabinet [] changed pr = return (changed, pr)
  sign_members cabinet (m ∷ members) changed pr = do
    signed ← sign_payload p sign m.path (codes "CAB " ++ cabinet ++ codes "/" ++ m.name) pr
    (if not signed.0
        then sign_members cabinet members changed signed.1
        else (do updated ← update_row m signed.1; sign_members cabinet members true updated))

  unfoldable pub rebuild : Cabinet → Progress → Action Progress
  unfolding preserve_cabinet_metadata execute_statement
  rebuild cab pr = do
    let output = cab.path ++ codes ".rebuilt"
    a.create_cabinet output cab.members
    preserve_cabinet_metadata p output cab.members
    execute_statement db (set_stream output cab.name) pr

  unfoldable pub sign_cabinets : List Cabinet → Progress → Action Progress
  unfolding sign_members rebuild
  sign_cabinets [] pr = return pr
  sign_cabinets (cab ∷ cabinets) pr = do
    done ← sign_members cab.name cab.members false pr
    rebuilt ← (if done.0 then rebuild cab done.1 else return done.1)
    sign_cabinets cabinets rebuilt

  unfoldable pub sign_binaries : List (Text × Text) → Progress → Action Progress
  unfolding sign_payload execute_statement
  sign_binaries [] pr = return pr
  sign_binaries ((name, path) ∷ binaries) pr = do
    signed ← sign_payload p sign path (codes "Binary/" ++ name) pr
    put ←
        (if signed.0 then execute_statement db (set_binary path name) signed.1 else return signed.1)
    sign_binaries binaries put

  unfoldable pub sign_payloads : Action Progress
  unfolding sign_cabinets sign_binaries
  sign_payloads = do
    pr ← sign_cabinets payloads.cabinets (record {
      expanded = payloads.expanded;
      result = record { signed_files = 0; preserved_files = 0 };
      commands = [];
    })
    sign_binaries payloads.binaries pr

-- The database is committed when something has been signed.
unfoldable pub finish : Database → Progress → Action MsiRewriteResult
unfolding execute_statement
finish db pr = if pr.result.signed_files == 0 then return pr.result else (do
  renewed ← execute_statement db renew_package_code pr
  db.commit renewed.commands
  return pr.result)

module _ (p : Platform) (a : Packages) (staged_msi : Text) (sign : Signer) where
  unfoldable pub rewrite_in : Text → Action MsiRewriteResult
  unfolding unpack sign_payloads finish
  rewrite_in workspace = do
    db ← a.open_database staged_msi
    payloads ← unpack p a db workspace
    pr ← sign_payloads p a db payloads sign
    finish db pr

  unfoldable pub rewrite_msi_payload : Action MsiRewriteResult
  unfolding rewrite_in
  rewrite_msi_payload = with_temp_dir p [] rewrite_in
