-- ===== src/Msi/Database.antt =====
-- What `rewrite_msi_payload` of src/msi_recursive.cpp uses of src/msi_package.hpp and of the database
-- of src/platform.hpp. These stand on native libraries and are an interface here; a database keeps
-- what is executed until it is committed, so an operation takes what has been executed before it.
use aas_sign.Base.{ℕ, ◌≡◌, ◌≢◌, List, All, String, ok, Text}
use aas_sign.Der.Integers.{ℤ}
use aas_sign.Files.{Files, Action}
use aas_sign.Files.Laws.{Keeps}
use aas_sign.Msi.{CabinetMember}

-- The statements that change a database, with their parameters. A stream is given by a path.
pub data Statement : Type 0 where
  set_file_size : ℕ → Text → Statement
  set_file_hash : List ℤ → Text → Statement
  set_stream : Text → Text → Statement
  set_binary : Text → Text → Statement
  renew_package_code : Statement

pub record Database : Type 0 where
  pub query : String → Action (List (List Text))
  pub word_count : Action ℤ
  pub extract_stream : String → Text → Text → ℕ → Action ℕ
  pub execute : List Statement → Statement → Action (Unit {0})
  pub commit : List Statement → Action (Unit {0})

pub record Packages : Type 0 where
  pub open_database : Text → Action Database
  pub extract_cabinet : Text → List CabinetMember → Action (Unit {0})
  pub create_cabinet : Text → List CabinetMember → Action (Unit {0})
  pub msi_file_hash : Text → Action (List ℤ)

-- Only a commit writes the database's file, and a stream is extracted to the path that is given.
pub record IsDatabase (staged : Text) (db : Database) : Type 0 where
  pub query-Keeps :
      (path : Text) (b : List ℕ) (statement : String) → Keeps path b (db.query statement)
  pub word_count-Keeps : (path : Text) (b : List ℕ) → Keeps path b db.word_count
  pub extract_stream-Keeps :
      (path : Text) (b : List ℕ) (statement : String) (name to : Text) (limit : ℕ)
      → path ≢ to
      → Keeps path b (db.extract_stream statement name to limit)
  pub execute-Keeps :
      (path : Text) (b : List ℕ) (commands : List Statement) (c : Statement)
      → Keeps path b (db.execute commands c)
  pub commit-Keeps :
      (path : Text) (b : List ℕ) (commands : List Statement)
      → path ≢ staged
      → Keeps path b (db.commit commands)

-- Members are extracted to their paths, and a new cabinet is written to its own.
pub record IsPackages (a : Packages) : Type 0 where
  pub open_database-Keeps :
      (path : Text) (b : List ℕ) (staged : Text) → Keeps path b (a.open_database staged)
  pub open_database-IsDatabase :
      (staged : Text) (s : Files) (db : Database)
      → (a.open_database staged s).0 ≡ ok db
      → IsDatabase staged db
  pub extract_cabinet-Keeps :
      (path : Text) (b : List ℕ) (cabinet : Text) (members : List CabinetMember)
      → All (λ (m : CabinetMember). path ≢ m.path) members
      → Keeps path b (a.extract_cabinet cabinet members)
  pub create_cabinet-Keeps :
      (path : Text) (b : List ℕ) (to : Text) (members : List CabinetMember)
      → path ≢ to
      → Keeps path b (a.create_cabinet to members)
  pub msi_file_hash-Keeps :
      (path : Text) (b : List ℕ) (payload : Text) → Keeps path b (a.msi_file_hash payload)
