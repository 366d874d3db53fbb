-- ===== src/Signing.antt =====
-- src/signing.cpp: a file is copied, signed in a private directory, checked and put in the place of
-- the input. The log is left out. `fs_extension` and `fs_parent` are std::filesystem's
-- `extension` and `parent_path`; `sha256` is the platform's.
pub mod Tool
pub mod Staged
pub mod Kept
pub mod Atomic
pub mod Certified
pub mod Made
pub mod Finished
pub mod Correct
pub mod Resolve
use aas_sign.Base.{
  ℕ, ltb, leb, ◌+◌, ◌*◌, ◌==◌, Bool, true, false, not, ◌&&◌, ◌||◌, List, [], ◌∷◌, ◌++◌, map, length,
  take, String, Result, ok, err, Text, codes, is, is_nil, bytes_eq, if◌then◌else◌,
}
use aas_sign.Files.{Action, ◌>>=◌, ◌>>◌, lift, return, throw, require, Platform}
use aas_sign.Pe.{read_at, max_cms}

pub data Kind : Type 0 where
  pe msi msix : Kind

pub record SigningOptions : Type 0 where
  pub osslsigncode : Text
  pub timestamp_url : Text
  pub dump_cms : Text
  pub ca_bundle : Text
  pub no_timestamp : Bool
  pub msi_dse : Bool
  pub recursive : Bool
  pub insecure : Bool

-- std::tolower of the C locale
to_lower : ℕ → ℕ
to_lower c = if leb b'A' c && leb c b'Z' then c + 32 else c

abbrev pub cfb_magic : List ℕ
cfb_magic = 0xd0 ∷ 0xcf ∷ 0x11 ∷ 0xe0 ∷ 0xa1 ∷ 0xb1 ∷ 0x1a ∷ 0xe1 ∷ []

-- The kind of a file, from its first bytes and its extension.
unfoldable pub kind_of : List ℕ → Text → Result Kind
kind_of magic ext =
    if bytes_eq magic cfb_magic
    then if is ext ".msi" then ok msi else err "compound file is not a supported .msi package"
    else if is ext ".msi"
    then err "not an MSI compound file"
    else if bytes_eq (take 2 magic) (codes "MZ")
    then ok pe
    else if bytes_eq (take 4 magic) (80 ∷ 75 ∷ 3 ∷ 4 ∷ [])
        && (is ext ".msix" || (is ext ".msixbundle" || (is ext ".appx" || is ext ".appxbundle")))
    then ok msix
    else err "unsupported file format; expected PE, MSI, MSIX or MSIX bundle"

module _ (fs_extension : Text → Text) where
  unfoldable pub extension : Text → Text
  unfolding to_lower
  extension path = map to_lower (fs_extension path)

module _ (p : Platform) where
  unfoldable pub read_blob : Text → Action (List ℕ)
  read_blob path = do
    bytes ← p.read_file path
    require (not (ltb max_cms (length bytes))) "signature data exceeds 16 MiB"
    return bytes

  module _ (fs_extension : Text → Text) where
    unfoldable pub identify : Text → Action Kind
    unfolding kind_of extension
    identify path = do
      file ← p.read_file path
      magic ← lift (read_at file 0 8)
      lift (kind_of magic (extension fs_extension path))
