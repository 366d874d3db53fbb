-- ===== src/Examples/Signed.antt =====
-- A signing on the toy platform.
use aas_sign.Base.{
  ℕ, ◌≡◌, ◌≢◌, refl, true, false, List, [], ◌∷◌, some, Result, ok, err, Text, codes, bytes_eq,
}
use aas_sign.Files.{Files, file_at, inside}
use aas_sign.Azure.Sign.{AzureSignResult}
use aas_sign.Der.{
  der_cat, der_wrap, write_length, der_sequence, der_octet_string, der_explicit, der_implicit,
  der_null,
}
use aas_sign.Der.Sets.{der_set}
use aas_sign.Der.Integers.{der_integer}
use aas_sign.Der.Oid.{der_oid}
use aas_sign.Cms.Oids.{
  oid_signed_data, oid_spc_indirect_data, oid_sha256, oid_rsa_encryption, oid_content_type,
  oid_message_digest, oid_spc_statement_type, oid_spc_individual, sha256_alg_id,
}
use aas_sign.Cms.Fields.{take_field, require_oid, skip_optional}
use aas_sign.X509.{der_read_tlv, x509_cert_id}
use aas_sign.X509.Split.{x509_split_certs}
use aas_sign.Cms.Build.{
  build_auth_attrs, signer_info, cms_signed_data, cms_build_authenticode, cms_auth_attrs_hash,
}
use aas_sign.Cms.Extract.{
  cms_extract_indirect_data, signed_data, skip_signed_data_header, signed_data_tail,
}
use aas_sign.Cms.Signers.{cms_has_signer}
use aas_sign.Pe.{read_at}
use aas_sign.Signing.{SigningOptions, identify, kind_of, read_blob, extension}
use aas_sign.Signing.Tool.{args_of, checked, invoke, judge, contains, extract_existing}
use aas_sign.Signing.Staged.{
  sign_file, sign_in_place, sign_staged, sign_in, check_dump, check_table_of, strip_signature,
  stamp, attach, check_output, dump, rewrite_payload,
}
use aas_sign.Signing.Atomic.{sign_file_atomic}
use aas_sign.Examples.Certificates.{zeros, cert}
use aas_sign.Examples.Toy.{
  toy, put_file, read, fresh, args_after, companion, rewrite, toy-IsPlatform, companion-IsTool,
  rewrite-IsRewriter, companion-IsExtractor, companion-IsAttacher, signature_of, content_of,
}
use aas_sign.Signing.Correct.{sign_file-Certified}
use aas_sign.Signing.Finished.{Holds, NeverIn}

abbrev pub options : SigningOptions
options = record {
  osslsigncode = codes "osslsigncode";
  timestamp_url = [];
  dump_cms = [];
  ca_bundle = [];
  no_timestamp = true;
  msi_dse = false;
  recursive = false;
  insecure = false;
}

abbrev pub path : Text
path = codes "a.msix"

abbrev pub msix_bytes : List ℕ
msix_bytes = 80 ∷ 75 ∷ 3 ∷ 4 ∷ 0 ∷ 0 ∷ 0 ∷ 0 ∷ []

abbrev pub files : Files
files = (path, msix_bytes) ∷ []

abbrev pub fs_extension : Text → Text
fs_extension p = codes ".msix"

abbrev pub fs_parent : Text → Text
fs_parent p = []

abbrev refuse : List ℕ → Result AzureSignResult
refuse digest = err "Azure signing failed"

abbrev pub sign : List ℕ → Result AzureSignResult
sign digest = ok (record { signature = 1 ∷ 2 ∷ []; cert_chain_der = cert })

refused :
    (sign_file (toy companion) fs_extension fs_parent zeros refuse rewrite path options files).0
    ≡ err "Azure signing failed"
unfolding sign_file sign_in_place sign_staged sign_in check_dump check_table_of identify kind_of
    read_blob extension read_at file_at toy put_file read fresh companion args_after args_of checked
    invoke judge contains extract_existing strip_signature attach rewrite_payload bytes_eq
    build_auth_attrs cms_auth_attrs_hash cms_extract_indirect_data der_read_tlv der_oid
    oid_signed_data oid_spc_indirect_data oid_sha256 oid_rsa_encryption oid_content_type
    oid_message_digest oid_spc_statement_type oid_spc_individual sha256_alg_id der_sequence der_cat
    der_set der_octet_string der_explicit der_implicit der_integer der_wrap write_length der_null
    take_field require_oid skip_optional
refused = refl

nil-ne-inside : (dir name : Text) → [] ≢ inside dir name
nil-ne-inside [] name e = cc
nil-ne-inside (c ∷ dir) name e = cc

pub never : NeverIn (toy companion) options.dump_cms
never parent s dir h name e = nil-ne-inside dir name e

sign_file_atomic_example :
    file_at
      (sign_file (toy companion) fs_extension fs_parent zeros refuse rewrite path options files).1
      path
    ≡ some msix_bytes
unfolding sign_file sign_in_place sign_staged sign_in check_dump check_table_of identify kind_of
    read_blob extension read_at file_at toy put_file read fresh companion args_after args_of checked
    invoke judge contains extract_existing strip_signature attach rewrite_payload bytes_eq
    build_auth_attrs cms_auth_attrs_hash cms_extract_indirect_data der_read_tlv der_oid
    oid_signed_data oid_spc_indirect_data oid_sha256 oid_rsa_encryption oid_content_type
    oid_message_digest oid_spc_statement_type oid_spc_individual sha256_alg_id der_sequence der_cat
    der_set der_octet_string der_explicit der_implicit der_integer der_wrap write_length der_null
    take_field require_oid skip_optional
sign_file_atomic_example =
    sign_file_atomic (toy companion) fs_extension fs_parent zeros refuse rewrite path options files
      msix_bytes (toy-IsPlatform companion) companion-IsTool rewrite-IsRewriter refl (λ e. cc)

pub signed :
    (sign_file (toy companion) fs_extension fs_parent zeros sign rewrite path options files).0
    ≡ ok tt
unfolding sign_file sign_in_place sign_staged sign_in check_dump check_table_of identify kind_of
    read_blob extension read_at file_at toy put_file read fresh companion args_after args_of checked
    invoke judge contains extract_existing strip_signature attach rewrite_payload bytes_eq
    build_auth_attrs cms_auth_attrs_hash cms_extract_indirect_data der_read_tlv der_oid
    oid_signed_data oid_spc_indirect_data oid_sha256 oid_rsa_encryption oid_content_type
    oid_message_digest oid_spc_statement_type oid_spc_individual sha256_alg_id der_sequence der_cat
    der_set der_octet_string der_explicit der_implicit der_integer der_wrap write_length der_null
    take_field require_oid skip_optional cms_build_authenticode signer_info cms_signed_data
    x509_split_certs x509_cert_id cms_has_signer stamp check_output dump signed_data
    skip_signed_data_header signed_data_tail
signed = refl

sign_file-Certified_example :
    Holds zeros sign signature_of content_of
      (λ own cms. ⊥)
      (sign_file (toy companion) fs_extension fs_parent zeros sign rewrite path options files).1
      path
unfolding file_at bytes_eq
sign_file-Certified_example =
    sign_file-Certified (toy companion) fs_extension fs_parent zeros sign signature_of content_of
      (λ own cms. ⊥) rewrite path options files msix_bytes (toy-IsPlatform companion)
      companion-IsTool companion-IsExtractor companion-IsAttacher refl never refl signed
