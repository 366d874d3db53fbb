-- ===== src/Cli/Run.antt =====
-- `sign_one_file` and the end of `sign_main` in src/main.cpp. The log is left out.
use Prim.Native.Nat.{min}
use aas_sign.Base.{
  ℕ, zero, suc, ltb, Bool, true, false, not, ◌&&◌, List, [], ◌∷◌, ◌++◌, length, Option, none, some,
  Result, ok, err, stuck, Text, codes, is_nil, if◌then◌else◌,
}
use aas_sign.Cli.{Options}
use aas_sign.Files.{Files, Action}
use aas_sign.Msi.{to_string}
use aas_sign.Signing.{SigningOptions}

pub record SignResult : Type 0 where
  pub file : Text
  pub succeeded : Bool
  pub error : Text

abbrev pub signing_options : Options → SigningOptions
signing_options cfg = record {
  osslsigncode = cfg.osslsigncode;
  timestamp_url = cfg.timestamp_url;
  dump_cms = cfg.dump_cms;
  ca_bundle = cfg.ca_bundle;
  no_timestamp = cfg.no_timestamp;
  msi_dse = cfg.msi_dse;
  recursive = cfg.recursive;
  insecure = cfg.insecure;
}

-- try, catch (const std::exception &e)
unfoldable pub caught : Text → Result (Unit {0}) × Files → Result SignResult × Files
caught file (ok u, files) = (ok (record { file = file; succeeded = true; error = [] }), files)
caught file (err why, files) =
    (ok (record { file = file; succeeded = false; error = codes why }), files)
caught file (stuck, files) = (stuck, files)

-- `sign_file` is that of src/signing.cpp, with the signer for these options.
unfoldable pub sign_one_file :
    (Text → SigningOptions → Action (Unit {0})) → Options → Text → Action SignResult
unfolding caught
sign_one_file sign_file cfg file files = caught file (sign_file file (signing_options cfg) files)

-- How `sign_main` goes on with its files.
pub data Plan : Type 0 where
  refused : Plan
  one : Text → Plan
  many : ℕ → List Text → Plan

abbrev pub only : ℕ → List Text → Plan
only max_parallel (file ∷ []) = one file
only max_parallel files = many (min max_parallel (length files)) files

unfoldable pub plan : Options → Plan
plan cfg =
    if ltb 1 (length cfg.files) && not (is_nil cfg.dump_cms)
    then refused
    else only cfg.max_parallel cfg.files

-- What stands in the vector of the results from an index on, with a default for what is missing.
abbrev pub or_default : Option SignResult → SignResult
or_default none = record { file = []; succeeded = false; error = [] }
or_default (some r) = r

unfoldable pub collect : ℕ → ℕ → (ℕ → Option SignResult) → List SignResult
collect i zero results = []
collect i (suc n) results = or_default (results i) ∷ collect (suc i) n results

unfoldable pub ok_count : List SignResult → ℕ
ok_count [] = 0
ok_count (r ∷ results) = if r.succeeded then suc (ok_count results) else ok_count results

unfoldable pub failures : List SignResult → List SignResult
failures [] = []
failures (r ∷ results) = if r.succeeded then failures results else r ∷ failures results

abbrev pub failure_lines : List SignResult → Text
failure_lines [] = []
failure_lines (f ∷ results) =
    codes "  " ++ f.file ++ codes ": " ++ f.error ++ codes "\n" ++ failure_lines results

abbrev pub end_of : Text → List SignResult → ℕ × Text
end_of counted [] = (0, counted ++ codes " successfully.\n")
end_of counted (f ∷ failed) = (1, counted ++ codes ". Failures:\n" ++ failure_lines (f ∷ failed))

abbrev pub counted_text : List SignResult → Text
counted_text results =
    codes "Signed "
    ++ to_string (ok_count results)
    ++ codes "/"
    ++ to_string (length results)
    ++ codes " files"

-- The exit status, and what is written.
unfoldable pub summary : List SignResult → ℕ × Text
unfolding ok_count failures to_string
summary results = end_of (counted_text results) (failures results)

-- return r.ok ? 0 : 1
abbrev pub exit_status : SignResult → ℕ
exit_status r = if r.succeeded then 0 else 1
