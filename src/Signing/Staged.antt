-- ===== src/Signing/Staged.antt =====
-- `sign_staged` and `sign_file` of src/signing.cpp. `sign_digest` is the signer of the caller, and
-- `rewrite_msi_payload` that of src/msi_recursive.cpp, with what it calls for each payload.
use aas_sign.Base.{
  ℕ, Bool, true, false, not, ◌&&◌, List, [], ◌++◌, Result, Text, codes, is_nil, bytes_eq,
  if◌then◌else◌,
}
use aas_sign.Azure.Sign.{AzureSignResult}
use aas_sign.Cms.Build.{cms_build_authenticode, cms_auth_attrs_hash}
use aas_sign.Cms.Extract.{cms_extract_indirect_data}
use aas_sign.Cms.Signers.{cms_has_signer}
use aas_sign.Pe.{pe_has_signature}
use aas_sign.Files.{Action, ◌>>=◌, ◌>>◌, lift, return, require, Platform, inside, with_temp_dir}
use aas_sign.Signing.{Kind, pe, msi, msix, SigningOptions, extension, read_blob, identify}
use aas_sign.Signing.Tool.{
  extract_signature, remove_signature, extract_data, attach_signature, add_timestamp, checked,
  extract_existing,
}

abbrev pub is_msi : Kind → Bool
is_msi msi = true
is_msi pe = false
is_msi msix = false

abbrev pub is_pe : Kind → Bool
is_pe pe = true
is_pe msi = false
is_pe msix = false

module _ (p : Platform) where
  unfoldable pub check_dump : Text → SigningOptions → Action (Unit {0})
  check_dump path o = if is_nil o.dump_cms then return tt else (do
    same ← p.same_file path o.dump_cms
    require (not same) "--dump-cms must not refer to the input file")

  -- A malformed certificate table is rejected.
  unfoldable pub check_table_of : Kind → Text → Action (Unit {0})
  check_table_of kind path =
      if is_pe kind
      then (do file ← p.read_file path; signed ← lift (pe_has_signature file); return tt)
      else return tt

module _ (p : Platform) (o : SigningOptions) where
  -- The input without its signature, where it has one.
  unfoldable pub strip_signature : Bool → Text → Text → Action Text
  strip_signature false path unsigned_path = return path
  strip_signature true path unsigned_path = do
    checked p o (remove_signature path unsigned_path)
    return unsigned_path

  unfoldable pub stamp : Bool → Bool → Text → Text → Action Text
  stamp true enhanced output timestamped = return output
  stamp false enhanced output timestamped = do
    checked p o (add_timestamp enhanced o output timestamped)
    return timestamped

  -- The signature in the output is extracted again, and the file is compared with it.
  unfoldable pub check_output : Bool → List ℕ → Text → Text → Text → Action (List ℕ)
  check_output enhanced indirect_data output final_cms_path rechecked = do
    checked p o (extract_signature output final_cms_path)
    final_cms ← read_blob p final_cms_path
    signer ← lift (cms_has_signer final_cms)
    require signer "completed signature contains no signer"
    final_data ← lift (cms_extract_indirect_data final_cms)
    require (bytes_eq final_data indirect_data) "completed signature changed the indirect data"
    checked p o (extract_data enhanced output rechecked)
    recheck ← read_blob p rechecked
    file_data ← lift (cms_extract_indirect_data recheck)
    require (bytes_eq file_data indirect_data) "completed file no longer matches its signature"
    return final_cms

  unfoldable pub dump : List ℕ → Action (Unit {0})
  dump final_cms = if is_nil o.dump_cms then return tt else p.write_whole_file o.dump_cms final_cms

module _ (p : Platform) (fs_extension fs_parent : Text → Text) (sha256 : List ℕ → List ℕ)
    (sign_digest : List ℕ → Result AzureSignResult) where
  -- The signed file, before its timestamp, from the content of the source.
  unfoldable pub attach : SigningOptions → Bool → Text → Text → Text → Text → Action (List ℕ)
  attach o enhanced source extracted signature_path output = do
    checked p o (extract_data enhanced source extracted)
    blob ← read_blob p extracted
    indirect_data ← lift (cms_extract_indirect_data blob)
    digest ← lift (cms_auth_attrs_hash sha256 indirect_data)
    result ← lift (sign_digest digest)
    cms ← lift (cms_build_authenticode sha256 indirect_data result.signature result.cert_chain_der)
    p.write_whole_file signature_path cms
    checked p o (attach_signature enhanced signature_path source output)
    return indirect_data

  -- What is done in the directory `work`.
  unfoldable pub sign_in : Text → Kind → SigningOptions → Text → Action (Unit {0})
  unfolding strip_signature attach stamp check_output dump extension
  sign_in path kind o work = do
    let ext = extension fs_extension path
    signed_input ← extract_existing p o path (inside work (codes "existing.der")) kind
    source ← strip_signature p o signed_input path (inside work (codes "unsigned" ++ ext))
    let enhanced = is_msi kind && o.msi_dse
    let signed = inside work (codes "signed" ++ ext)
    indirect_data ←
        attach o enhanced source (inside work (codes "content.der"))
          (inside work (codes "signature.der")) signed
    output ← stamp p o o.no_timestamp enhanced signed (inside work (codes "timestamped" ++ ext))
    final_cms ←
        check_output p o enhanced indirect_data output (inside work (codes "final.der"))
          (inside work (codes "rechecked.der"))
    dump p o final_cms
    p.atomic_replace_file output path

  unfoldable pub sign_staged : Text → Kind → SigningOptions → Action (Unit {0})
  unfolding sign_in
  sign_staged path kind o = with_temp_dir p (fs_parent path) (sign_in path kind o)

  -- What the rewriting of an installer calls for a payload: whether it has been signed now.
  unfoldable pub sign_if_unsigned : SigningOptions → Text → Text → Action Bool
  unfolding sign_staged
  sign_if_unsigned o payload display_name = do
    file ← p.read_file payload
    signed ← lift (pe_has_signature file)
    (if signed
        then return false
        else (sign_staged payload pe (record o { dump_cms = []; recursive = false })
            >> return true))

  module _ (rewrite_msi_payload : Text → (Text → Text → Action Bool) → Action (Unit {0})) where
    unfoldable pub rewrite_payload : Kind → SigningOptions → Text → Action (Unit {0})
    unfolding sign_if_unsigned
    rewrite_payload kind o staged =
        if is_msi kind && o.recursive
        then rewrite_msi_payload staged (sign_if_unsigned o)
        else return tt

    unfoldable pub sign_in_place : Text → Kind → SigningOptions → Text → Action (Unit {0})
    unfolding rewrite_payload sign_staged extension
    sign_in_place path kind o work = do
      let staged = inside work (codes "input" ++ extension fs_extension path)
      p.copy_file path staged
      rewrite_payload kind o staged
      sign_staged staged kind o
      p.atomic_replace_file staged path

    unfoldable pub sign_file : Text → SigningOptions → Action (Unit {0})
    unfolding check_dump check_table_of sign_in_place
    sign_file path o = do
      check_dump p path o
      kind ← identify p fs_extension path
      check_table_of p kind path
      let parent = fs_parent path
      with_temp_dir p (if is_nil parent then codes "." else parent) (sign_in_place path kind o)
