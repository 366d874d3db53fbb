-- ===== src/Process.antt =====
-- How src/posix.cpp and src/win32.cpp start the companion: the executable, its arguments and its
-- environment. What the system says of a file or of a path is a parameter.
pub mod Windows
pub mod Quoting
pub mod Withheld
pub mod Started
use aas_sign.Base.{
  ℕ, zero, suc, ◌==◌, Bool, true, false, not, ◌&&◌, ◌||◌, List, [], ◌∷◌, ◌++◌, map, take, Option,
  none, some, Result, ok, err, ◌>>=◌, ◌>>◌, guard, String, Text, codes, is, is_nil, bytes_eq,
  if◌then◌else◌,
}
use aas_sign.Web.{before}

-- name.starts_with(prefix)
unfoldable pub starts_with : Text → Text → Bool
starts_with name [] = true
starts_with [] (c ∷ prefix) = false
starts_with (d ∷ name) (c ∷ prefix) = d == c && starts_with name prefix

-- arg.find(c) != std::string::npos
unfoldable pub has_char : ℕ → Text → Bool
has_char c [] = false
has_char c (d ∷ text) = d == c || has_char c text

-- The tokens and the settings of a signing.
unfoldable pub private_environment : Text → Bool
unfolding starts_with
private_environment name =
    starts_with name (codes "AZURE_")
    || (starts_with name (codes "ACTIONS_ID_TOKEN_")
        || (is name "GH_TOKEN"
            || (is name "GITHUB_TOKEN"
                || (is name "INPUT_TOKEN"
                    || (is name "GH_ENTERPRISE_TOKEN" || is name "GITHUB_ENTERPRISE_TOKEN")))))

-- The entries that a child gets, as NAME=value.
unfoldable pub posix_environment : List Text → List Text
unfolding private_environment before
posix_environment [] = []
posix_environment (entry ∷ entries) =
    if private_environment (before b'=' entry)
    then posix_environment entries
    else entry ∷ posix_environment entries

unfoldable pub check_args : List Text → Result (Unit {0})
unfolding has_char
check_args [] = ok tt
check_args (arg ∷ args) = do
  guard (not (has_char 0 arg)) "execute: argument contains NUL"
  check_args args

abbrev onto : ℕ → List Text → List Text
onto c [] = []
onto c (first ∷ rest) = (c ∷ first) ∷ rest

-- The directories of a path.
unfoldable pub split_path : ℕ → Text → List Text
split_path sep [] = [] ∷ []
split_path sep (c ∷ text) =
    if c == sep then [] ∷ split_path sep text else onto c (split_path sep text)

abbrev pub in_directory : Text → Text → Text
in_directory [] name = codes "./" ++ name
in_directory (c ∷ dir) name = c ∷ dir ++ (b'/' ∷ name)

abbrev pub path_or_default : Option Text → Text
path_or_default none = codes "/usr/bin:/bin"
path_or_default (some path) = path

-- What `run_process` hands to posix_spawn.
pub record Spawn : Type 0 where
  pub resolved : Text
  pub argv : List Text
  pub environment : List Text

module _ (is_executable : Text → Bool) (absolute_path : Text → Result Text) where
  -- The first candidate that can be executed.
  unfoldable pub first_executable : List Text → Result Text
  first_executable [] = err "find executable: not found on PATH"
  first_executable (candidate ∷ candidates) =
      if is_executable candidate then absolute_path candidate else first_executable candidates

  -- `env` is the variable PATH.
  unfoldable pub find_executable : Option Text → Text → Result Text
  unfolding has_char first_executable split_path
  find_executable env name = do
    guard (not (is_nil name || has_char 0 name)) "find executable: empty or invalid name"
    (if has_char b'/' name
        then (if is_executable name
            then absolute_path name
            else err "find executable: not an executable file")
        else first_executable
            (map (λ dir. in_directory dir name) (split_path b':' (path_or_default env))))

  unfoldable pub spawn_request : Option Text → List Text → Text → List Text → Result Spawn
  unfolding find_executable check_args posix_environment
  spawn_request env environ executable args = do
    resolved ← find_executable env executable
    check_args args
    ok (record {
      resolved = resolved;
      argv = resolved ∷ args;
      environment = posix_environment environ;
    })
