-- ===== src/Files.antt =====
-- Files by their paths, and what src/platform.hpp promises of the operations on them. An action
-- returns or throws, and what it wrote stays written.
pub mod Laws
use aas_sign.Base.{
  ℕ, ◌≡◌, ◌≢◌, Bool, true, false, List, [], ◌∷◌, ◌++◌, Option, none, some, String, Result, ok, err,
  stuck, Text, bytes_eq, if◌then◌else◌,
}

-- The files there are; of two entries for a path the first counts.
abbrev pub Files : Type 0
Files = List (Text × List ℕ)

unfoldable pub file_at : Files → Text → Option (List ℕ)
file_at [] path = none
file_at ((q, b) ∷ files) path = if bytes_eq q path then some b else file_at files path

abbrev pub Action : Type 0 → Type 0
Action A = Files → Result A × Files

module _ {A B : Type 0} where
  -- What follows a call that returned.
  abbrev pub continue_with : (A → Action B) → Result A × Files → Result B × Files
  continue_with f (ok a, files) = f a files
  continue_with f (err why, files) = (err why, files)
  continue_with f (stuck, files) = (stuck, files)

  infixl 5 ◌>>=◌ ◌>>◌
  abbrev pub ◌>>=◌ : Action A → (A → Action B) → Action B
  ◌>>=◌ m f files = continue_with f (m files)

  abbrev pub ◌>>◌ : Action A → Action B → Action B
  m >> next = m >>= λ _. next

module _ {A : Type 0} where
  -- A computation that touches no file.
  abbrev pub lift : Result A → Action A
  lift r files = (r, files)

  abbrev pub return : A → Action A
  return a = lift (ok a)

  abbrev pub throw : String → Action A
  throw why = lift (err why)

-- `if (!test) throw std::runtime_error(why)`
abbrev pub require : Bool → String → Action (Unit {0})
require true why = return tt
require false why = throw why

pub record ProcessResult : Type 0 where
  pub exit_code : ℕ
  pub output : Text

-- dir + "/" + name
abbrev pub inside : Text → Text → Text
inside dir name = dir ++ b'/' ∷ name

-- The platform's operations.
pub record Platform : Type 0 where
  pub read_file : Text → Action (List ℕ)
  pub write_whole_file : Text → List ℕ → Action (Unit {0})
  pub copy_file : Text → Text → Action (Unit {0})
  pub atomic_replace_file : Text → Text → Action (Unit {0})
  pub same_file : Text → Text → Action Bool
  pub make_temp_dir : Text → Action Text
  pub remove_all : Text → Files → Files
  pub run_process : Text → List Text → Action ProcessResult

-- A path that is not in a directory.
abbrev pub Outside : Text → Text → Type 0
Outside dir path = (name : Text) → path ≢ inside dir name

-- What the header says of them. A call changes no other file than the one it is to write; an atomic
-- replacement that fails leaves its destination; a new directory is empty; a file is the same as
-- itself.
pub record IsPlatform (p : Platform) : Type 0 where
  pub read_file_same : (q : Text) (s : Files) → (p.read_file q s).1 ≡ s
  pub read_file_ok :
      (q : Text) (s : Files) (b : List ℕ) → (p.read_file q s).0 ≡ ok b → file_at s q ≡ some b
  pub write_whole_file_other :
      (q : Text) (b : List ℕ) (s : Files) (r : Text)
      → r ≢ q
      → file_at (p.write_whole_file q b s).1 r ≡ file_at s r
  pub write_whole_file_ok :
      (q : Text) (b : List ℕ) (s : Files)
      → (p.write_whole_file q b s).0 ≡ ok tt
      → file_at (p.write_whole_file q b s).1 q ≡ some b
  pub copy_file_other :
      (from to : Text) (s : Files) (r : Text)
      → r ≢ to
      → file_at (p.copy_file from to s).1 r ≡ file_at s r
  pub copy_file_ok :
      (from to : Text) (s : Files)
      → (p.copy_file from to s).0 ≡ ok tt
      → file_at (p.copy_file from to s).1 to ≡ file_at s from
  pub replace_other :
      (from to : Text) (s : Files) (r : Text)
      → r ≢ from
      → r ≢ to
      → file_at (p.atomic_replace_file from to s).1 r ≡ file_at s r
  pub replace_ok :
      (from to : Text) (s : Files)
      → (p.atomic_replace_file from to s).0 ≡ ok tt
      → file_at (p.atomic_replace_file from to s).1 to ≡ file_at s from
  pub replace_failed :
      (from to : Text) (s : Files)
      → (p.atomic_replace_file from to s).0 ≢ ok tt
      → file_at (p.atomic_replace_file from to s).1 to ≡ file_at s to
  pub same_file_same : (q r : Text) (s : Files) → (p.same_file q r s).1 ≡ s
  pub same_file_self :
      (q : Text) (s : Files) (b : List ℕ) → file_at s q ≡ some b → (p.same_file q q s).0 ≢ ok false
  pub make_temp_dir_same : (parent : Text) (s : Files) → (p.make_temp_dir parent s).1 ≡ s
  pub make_temp_dir_new :
      (parent : Text) (s : Files) (dir name : Text)
      → (p.make_temp_dir parent s).0 ≡ ok dir
      → file_at s (inside dir name) ≡ none
  pub remove_all_other :
      (dir : Text) (s : Files) (r : Text)
      → Outside dir r
      → file_at (p.remove_all dir s) r ≡ file_at s r

-- platform::TempDir work(parent), with its destructor at the end of the scope.
abbrev pub with_temp_dir : {A : Type 0} → Platform → Text → (Text → Action A) → Action A
with_temp_dir p parent body = p.make_temp_dir parent >>= λ dir files.
    let (r, files') = body dir files in (r, p.remove_all dir files')
