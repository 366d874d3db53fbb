-- ===== src/Signing/Resolve.antt =====
-- `resolve_osslsigncode` of src/signing.cpp. `find_executable`, `executable_path` and `run_process` are
-- the platform's; `fs_extension`, `fs_parent` and `fs_join` are std::filesystem's.
use aas_sign.Base.{
  ◌==◌, List, [], ◌∷◌, ◌++◌, Result, ok, err, stuck, ◌>>=◌, ◌>>◌, guard, Text, codes, is,
  if◌then◌else◌,
}
use aas_sign.Files.{ProcessResult}
use aas_sign.Signing.Tool.{contains}

-- try { r } catch (const std::exception &) { other }
abbrev pub otherwise : {A : Type 0} → Result A → Result A → Result A
otherwise (ok a) other = ok a
otherwise (err why) other = other
otherwise stuck other = stuck

-- What the help text is searched for; the command add, which takes -ts, is not among it.
abbrev pub needed : List Text
needed =
    codes "extract-data"
    ∷ codes "attach-signature"
    ∷ codes "extract-signature"
    ∷ codes "remove-signature"
    ∷ codes "-ts"
    ∷ []

unfoldable pub check_commands : List Text → Text → Result (Unit {0})
check_commands [] help = ok tt
check_commands (command ∷ commands) help = do
  guard (contains command help) "incompatible osslsigncode"
  check_commands commands help

module _ (find_executable : Text → Result Text) (executable_path : Result Text)
    (fs_extension fs_parent : Text → Text) (fs_join : Text → Text → Text)
    (run_process : Text → List Text → Result ProcessResult) where
  abbrev pub companion_name : Text → Text
  companion_name self =
      codes "osslsigncode" ++ (if is (fs_extension self) ".exe" then codes ".exe" else [])

  -- The path of the command line, or the sibling of the program, or PATH.
  unfoldable pub locate : Text → Result Text
  locate [] = do
    self ← executable_path
    let name = companion_name self
    otherwise (find_executable (fs_join (fs_parent self) name)) (find_executable name)
  locate (c ∷ path) = find_executable (c ∷ path)

  unfoldable pub resolve_osslsigncode : Text → Result Text
  unfolding locate check_commands
  resolve_osslsigncode explicit_path = do
    resolved ← locate explicit_path
    help ← run_process resolved (codes "--help" ∷ [])
    guard (help.exit_code == 0) "cannot query osslsigncode"
    check_commands needed help.output
    ok resolved
