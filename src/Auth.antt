-- ===== src/Auth.antt =====
-- src/auth_laptop.cpp: the settings, the token cache and the cached refresh. The JSON library is a
-- parameter, with what the program relies on; so are the files that the settings are kept in.
pub mod Options
pub mod Refresh
pub mod Login
pub mod Merge
pub mod Configured
pub mod Cached
pub mod Rotation
pub mod Refused
pub mod Granted
pub mod SignedIn
use aas_sign.Base.{
  ℕ, ◌≡◌, ◌≢◌, Bool, true, false, not, ◌&&◌, ◌||◌, ◌==◌, List, [], ◌∷◌, ◌++◌, Option, none, some,
  String, Result, ok, err, stuck, Text, codes, is, is_nil, bytes_eq, if◌then◌else◌,
}
use aas_sign.Web.{form_encode}
use aas_sign.Azure.{HttpResponse}
use aas_sign.Files.{Files, file_at, Action, ◌>>=◌, ◌>>◌, lift, return, throw, require}

-- nlohmann::json: `value j key` is `j.value(key, "")`, which throws where there is another type; `set j
-- key v` is `j[key] = v` on an object or null, the program uses no other; `read_json` is `stream >> j`,
-- which leaves what stands behind the value, where `parse` refuses it; `dump` throws where a text is
-- not UTF-8.
pub record Json (J : Type 0) : Type 0 where
  pub null : J
  pub object : J
  pub text : Text → J
  pub number : ℕ → J
  pub is_object : J → Bool
  pub value : J → Text → Result Text
  pub set : J → Text → J → J
  pub parse : Text → Result J
  pub read_json : Text → Result J
  pub dump : J → Result Text

-- What the library documents: objects keep their other members, and what is printed is read again.
pub record IsJson {J : Type 0} (json : Json J) : Type 0 where
  pub is_object-object : json.is_object json.object ≡ true
  pub null-is_object : json.is_object json.null ≡ false
  pub is_object-set :
      (j : J) (key : Text) (v : J)
      → json.is_object j ≡ true
      → json.is_object (json.set j key v) ≡ true
  pub is_object-null : (key : Text) (v : J) → json.is_object (json.set json.null key v) ≡ true
  pub value-set :
      (j : J) (key : Text) (v : Text)
      → json.is_object j ≡ true
      → json.value (json.set j key (json.text v)) key ≡ ok v
  pub value-set_other :
      (j : J) (key other : Text) (v : J)
      → json.is_object j ≡ true
      → other ≢ key
      → json.value (json.set j key v) other ≡ json.value j other
  pub read_json-dump : (j : J) (t : Text) → json.dump j ≡ ok t → json.read_json t ≡ ok j

-- The operations of src/platform.hpp on private files; a std::ifstream that does not open has no
-- content.
pub record Disk : Type 0 where
  pub config_dir : Result Text
  pub open_file : Text → Files → Option Text
  pub atomic_write_private_file : Text → Text → Action (Unit {0})
  pub remove_file : Text → Action (Unit {0})

-- A stream has the content of its file; a write replaces the file, or leaves it, and touches no other
-- but the temporary file beside it; a removed file is gone.
pub record IsDisk (disk : Disk) : Type 0 where
  pub opened : (q : Text) (s : Files) → disk.open_file q s ≡ file_at s q
  pub written :
      (q b : Text) (s : Files)
      → (disk.atomic_write_private_file q b s).0 ≡ ok tt
      → file_at (disk.atomic_write_private_file q b s).1 q ≡ some b
  pub written_other :
      (q b : Text) (s : Files) (r : Text)
      → r ≢ q
      → r ≢ q ++ codes ".tmp"
      → file_at (disk.atomic_write_private_file q b s).1 r ≡ file_at s r
  pub unwritten :
      (q b : Text) (s : Files)
      → (disk.atomic_write_private_file q b s).0 ≢ ok tt
      → file_at (disk.atomic_write_private_file q b s).1 q ≡ file_at s q
  pub removed :
      (q : Text) (s : Files)
      → (disk.remove_file q s).0 ≡ ok tt
      → file_at (disk.remove_file q s).1 q ≡ none

unfoldable pub token_url : Text → Text
token_url tenant =
    codes "https://login.microsoftonline.com/" ++ (tenant ++ codes "/oauth2/v2.0/token")

abbrev pub scope_sign : Text
scope_sign = codes "https://codesigning.azure.net/.default"

abbrev pub default_tenant : Text
default_tenant = codes "fd996ec3-65fc-49a8-a18b-2f8fd65d7b2d"

abbrev pub default_client_id : Text
default_client_id = codes "04b07795-8ddb-461a-bbee-02f9e1bf7b46"

abbrev pub form_type : Text
form_type = codes "application/x-www-form-urlencoded"

module _ {J : Type 0} (json : Json J) where
  -- The value in a cache file that was opened.
  abbrev pub cache_of : Option Text → Result J
  cache_of none = ok json.null
  cache_of (some b) = elim (json.read_json b) [
    | ok j ↦ ok j
    | err _ ↦ err "cache file is corrupted"
    | stuck ↦ stuck
  ]

  -- The settings of a config.json that was opened; without an object there, an empty one.
  abbrev pub object_or_empty : J → J
  object_or_empty j = if json.is_object j then j else json.object

  unfoldable pub settings_of : Option Text → J
  settings_of none = object_or_empty json.null
  settings_of (some b) = elim (json.read_json b) [
    | ok j ↦ object_or_empty j
    | err _ ↦ object_or_empty json.object
    | stuck ↦ object_or_empty json.object
  ]

  -- A field that the caller gave.
  unfoldable pub merge_field : Text → Text → J → J
  merge_field key v j = if is_nil v then j else json.set j key (json.text v)

  unfoldable pub merge_defaults : Text → Text → Text → J → J
  unfolding merge_field
  merge_defaults endpoint account profile j =
      merge_field (codes "profile") profile
        (merge_field (codes "account") account (merge_field (codes "endpoint") endpoint j))

module _ {J : Type 0} (json : Json J) (disk : Disk) where
  abbrev pub cache_path : Result Text
  cache_path = elim disk.config_dir [
    | ok dir ↦ ok (dir ++ codes "/token-cache.json")
    | err why ↦ err why
    | stuck ↦ stuck
  ]

  unfoldable pub read_cache : Action J
  read_cache = do path ← lift cache_path; λ s. (cache_of json (disk.open_file path s), s)

  unfoldable pub atomic_write_json : Text → J → Action (Unit {0})
  atomic_write_json path j = do body ← lift (json.dump j); disk.atomic_write_private_file path body

  unfoldable pub write_cache : J → Action (Unit {0})
  unfolding atomic_write_json
  write_cache j = do path ← lift cache_path; atomic_write_json path j

  unfoldable pub delete_cache : Action (Unit {0})
  delete_cache = do path ← lift cache_path; disk.remove_file path

  -- The settings in a directory, with those that the caller gave.
  unfoldable pub save_in : Text → Text → Text → Text → Action (Unit {0})
  unfolding settings_of merge_defaults atomic_write_json
  save_in endpoint account profile dir s =
      let path = dir ++ codes "/config.json" in
      let cfg = settings_of json (disk.open_file path s) in
      atomic_write_json path (merge_defaults json endpoint account profile cfg) s

  unfoldable pub save_signing_defaults : Text → Text → Text → Action (Unit {0})
  unfolding save_in
  save_signing_defaults endpoint account profile =
      if is_nil endpoint && (is_nil account && is_nil profile)
      then return tt
      else (lift disk.config_dir >>= save_in endpoint account profile)
