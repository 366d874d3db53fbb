-- ===== src/Process/Windows.antt =====
-- The starting of the companion in src/win32.cpp. A wide text is the list of its UTF-16 code units.
use aas_sign.Base.{
  ℕ, zero, suc, ◌+◌, ◌*◌, ltb, ◌==◌, Bool, not, ◌||◌, List, [], ◌∷◌, ◌++◌, map, length, take, drop,
  ◌-◌, ◌&&◌, Option, none, some, Result, ok, err, bytes_eq, is_nil, ◌>>=◌, ◌>>◌, guard, Text, codes,
  if◌then◌else◌,
}
use aas_sign.Web.{before}
use aas_sign.Process.{has_char, private_environment, first_executable, split_path}

-- result.append(n, L'\\')
unfoldable pub slashes : ℕ → Text
slashes zero = []
slashes (suc n) = b'\\' ∷ slashes n

-- What follows this many backslashes in a quoted argument.
unfoldable pub quote_rest : ℕ → Text → Text
unfolding slashes
quote_rest n [] = slashes (n * 2) ++ b'"' ∷ []
quote_rest n (c ∷ input) =
    if c == b'\\'
    then quote_rest (suc n) input
    else slashes (if c == b'"' then n * 2 + 1 else n) ++ c ∷ quote_rest 0 input

unfoldable pub quote : Text → Text
unfolding quote_rest
quote input = b'"' ∷ quote_rest 0 input

module _ (utf8_to_wide : Text → Result Text) where
  unfoldable pub quote_argument : Text → Result Text
  unfolding has_char quote
  quote_argument arg = do
    guard (not (has_char 0 arg)) "execute: argument contains NUL"
    input ← utf8_to_wide arg
    ok (quote input)

  -- What is behind the first argument.
  unfoldable pub quote_arguments : List Text → Result Text
  unfolding quote_argument
  quote_arguments [] = ok []
  quote_arguments (arg ∷ args) = do
    quoted ← quote_argument arg
    rest ← quote_arguments args
    ok (b' ' ∷ quoted ++ rest)

  -- The command line of `run_process`.
  unfoldable pub command_line : Text → List Text → Result Text
  unfolding quote_arguments
  command_line resolved args = do
    first ← quote_argument resolved
    rest ← quote_arguments args
    guard (ltb (length (first ++ rest)) 32767) "execute: command line exceeds Windows limit"
    ok (first ++ rest)

-- The name of an entry; one that begins with '=' has a second '=' behind its name.
unfoldable pub entry_name : Text → Text
entry_name [] = []
entry_name (c ∷ entry) = if c == b'=' then c ∷ before b'=' entry else before b'=' (c ∷ entry)

-- The block has one more NUL at its end.
abbrev pub finished : Text → Text
finished [] = 0 ∷ 0 ∷ []
finished (c ∷ filtered) = c ∷ filtered ++ 0 ∷ []

module _ (towupper : ℕ → ℕ) where
  -- The entries that a child gets, each with a NUL behind it.
  unfoldable pub child_entries : List Text → Text
  unfolding entry_name private_environment
  child_entries [] = []
  child_entries (entry ∷ entries) =
      if private_environment (map towupper (entry_name entry))
      then child_entries entries
      else entry ++ 0 ∷ child_entries entries

  unfoldable pub child_environment : List Text → Text
  unfolding child_entries
  child_environment entries = finished (child_entries entries)

-- A directory of the path without the quotes around it.
unfoldable pub unquoted : Text → Text
unquoted dir =
    if not (ltb (length dir) 2)
      && (bytes_eq (take 1 dir) (codes "\"") && bytes_eq (drop (length dir - 1) dir) (codes "\""))
    then take (length dir - 2) (drop 1 dir)
    else dir

abbrev pub add_candidate : Text → Text → List Text → List Text
add_candidate filename [] candidates = candidates
add_candidate filename (c ∷ dir) candidates = (c ∷ dir ++ b'\\' ∷ filename) ∷ candidates

unfoldable pub windows_candidates : Text → List Text → List Text
unfolding unquoted
windows_candidates filename [] = []
windows_candidates filename (dir ∷ dirs) =
    add_candidate filename (unquoted dir) (windows_candidates filename dirs)

abbrev pub with_extension : Text → Text → Text
with_extension [] filename = filename ++ codes ".exe"
with_extension (c ∷ extension) filename = filename

abbrev pub path_or_error : Option Text → Result Text
path_or_error none = err "find executable: PATH is empty"
path_or_error (some path) = ok path

module _ (is_executable : Text → Bool) (absolute_wpath : Text → Result Text)
    (utf8_to_wide from_wide : Text → Result Text) (fs_extension : Text → Text) where
  unfoldable pub find_windows_executable : Option Text → Text → Result Text
  unfolding first_executable windows_candidates split_path has_char
  find_windows_executable env name = do
    guard (not (is_nil name || has_char 0 name)) "find executable: empty or invalid name"
    wide ← utf8_to_wide name
    let filename = with_extension (fs_extension wide) wide
    found ←
        (if has_char b'/' name || (has_char b'\\' name || has_char b':' name)
          then (if is_executable filename
              then absolute_wpath filename
              else err "find executable: not an executable file")
          else (do
            path ← path_or_error env
            first_executable is_executable absolute_wpath
                (windows_candidates filename (split_path b';' path))))
    from_wide found
