-- ===== src/Examples/Certificates.antt =====
-- The reader, the split and the CMS on a small certificate.
use aas_sign.Base.{ℕ, ◌≡◌, ◌≢◌, refl, arith, List, [], ◌∷◌, ◌++◌, Result, ok, stuck, All}
use aas_sign.Der.{
  der_cat, der_wrap, write_length, der_sequence, der_octet_string, der_explicit, der_implicit,
  der_null,
}
use aas_sign.Der.Sets.{der_set}
use aas_sign.Der.Integers.{der_integer}
use aas_sign.Der.Oid.{der_oid}
use aas_sign.Cms.Oids.{
  oid_signed_data, oid_spc_indirect_data, oid_sha256, oid_rsa_encryption, oid_content_type,
  oid_message_digest, oid_spc_statement_type, oid_spc_individual, sha256_alg_id,
}
use aas_sign.Cms.Assembled.{content_info, signed_fields}
use aas_sign.X509.{TlvView, der_read_tlv, x509_cert_id}
use aas_sign.X509.Reader.{IsField, IsTlv}
use aas_sign.X509.Split.{try_extract_cms_certs, x509_split_certs}
use aas_sign.X509.Split.Laws.{x509_split_certs-der_cat, x509_split_certs_partition}
use aas_sign.Cms.Fields.{take_field, require_oid, skip_optional}
use aas_sign.Cms.Build.{cms_build_authenticode}
use aas_sign.Cms.Extract.{cms_extract_indirect_data}
use aas_sign.Cms.Signers.{cms_has_signer}
use aas_sign.Cms.Total.{cms_readers_end}
use aas_sign.Cms.RoundTrip.{extract-build-extract}

abbrev tbs_fields : List ℕ
tbs_fields = 0x02 ∷ 1 ∷ 5 ∷ 0x30 ∷ 0 ∷ 0x30 ∷ 2 ∷ 0x31 ∷ 0 ∷ []

abbrev pub cert : List ℕ
cert = 0x30 ∷ 11 ∷ 0x30 ∷ 9 ∷ tbs_fields

abbrev cert_view : TlvView
cert_view = record { tag = 0x30; content = 0x30 ∷ 9 ∷ tbs_fields; content_len = 11; total_len = 13 }

abbrev tbs_view : TlvView
tbs_view = record { tag = 0x30; content = tbs_fields; content_len = 9; total_len = 11 }

read_cert : der_read_tlv cert ≡ ok cert_view
unfolding der_read_tlv
read_cert = refl

cert-IsField : IsField cert cert_view
cert-IsField = record { read = read_cert; whole = refl }

x509_split_certs-der_cat_example :
    x509_split_certs (der_cat (cert ∷ cert ∷ [])) ≡ ok (cert ∷ cert ∷ [])
unfolding der_read_tlv
x509_split_certs-der_cat_example =
    x509_split_certs-der_cat cert (cert ∷ []) cert_view tbs_view cert-IsField refl (omega arith)
      ((cert_view, cert-IsField), tt)

x509_split_certs_partition_example :
    (der_cat (cert ∷ cert ∷ []) ≡ cert ++ cert) × All IsTlv (cert ∷ cert ∷ [])
unfolding try_extract_cms_certs x509_split_certs der_read_tlv
x509_split_certs_partition_example =
    x509_split_certs_partition (cert ++ cert) (cert ∷ cert ∷ []) refl refl

cms_readers_end_example : (cms_extract_indirect_data cert ≢ stuck) × (cms_has_signer cert ≢ stuck)
cms_readers_end_example = cms_readers_end cert

-- An SpcIndirectDataContent with an empty payload and a digest of one byte.
abbrev indirect : List ℕ
indirect =
    0x30 ∷ 20 ∷ 0x30 ∷ 0 ∷ 0x30 ∷ 16 ∷ 0x30 ∷ 11 ∷ 0x06 ∷ 9 ∷ 0x60 ∷ 0x86 ∷ 0x48 ∷ 0x01 ∷ 0x65
    ∷ 0x03 ∷ 0x04 ∷ 0x02 ∷ 0x01 ∷ 0x04 ∷ 1 ∷ 0xaa ∷ []

abbrev pkcs7 : List ℕ
pkcs7 = content_info (signed_fields indirect cert [])

extract_pkcs7 : cms_extract_indirect_data pkcs7 ≡ ok indirect
unfolding cms_extract_indirect_data der_read_tlv der_wrap write_length der_oid oid_signed_data
    oid_spc_indirect_data oid_sha256 take_field require_oid skip_optional
extract_pkcs7 = refl

abbrev bytes_of : Result (List ℕ) → List ℕ
bytes_of (ok bytes) = bytes
bytes_of _ = []

-- A hash of the right length.
abbrev pub zeros : List ℕ → List ℕ
zeros _ =
    0 ∷ 0 ∷ 0 ∷ 0 ∷ 0 ∷ 0 ∷ 0 ∷ 0 ∷ 0 ∷ 0 ∷ 0 ∷ 0 ∷ 0 ∷ 0 ∷ 0 ∷ 0 ∷ 0 ∷ 0 ∷ 0 ∷ 0 ∷ 0 ∷ 0 ∷ 0 ∷ 0
    ∷ 0 ∷ 0 ∷ 0 ∷ 0 ∷ 0 ∷ 0 ∷ 0 ∷ 0 ∷ []

abbrev cms : List ℕ
cms = bytes_of (cms_build_authenticode zeros indirect (1 ∷ 2 ∷ []) cert)

build_cms : cms_build_authenticode zeros indirect (1 ∷ 2 ∷ []) cert ≡ ok cms
unfolding cms_build_authenticode x509_split_certs x509_cert_id der_read_tlv der_oid oid_signed_data
    oid_spc_indirect_data oid_sha256 oid_rsa_encryption oid_content_type oid_message_digest
    oid_spc_statement_type oid_spc_individual sha256_alg_id der_sequence der_cat der_set
    der_octet_string der_explicit der_implicit der_integer der_wrap write_length der_null
build_cms = refl

extract-build-extract_example : cms_extract_indirect_data cms ≡ ok indirect
unfolding cms_build_authenticode x509_split_certs x509_cert_id der_read_tlv der_oid oid_signed_data
    oid_spc_indirect_data oid_sha256 oid_rsa_encryption oid_content_type oid_message_digest
    oid_spc_statement_type oid_spc_individual sha256_alg_id der_sequence der_cat der_set
    der_octet_string der_explicit der_implicit der_integer der_wrap write_length der_null
extract-build-extract_example =
    extract-build-extract zeros pkcs7 indirect (1 ∷ 2 ∷ []) cert cms extract_pkcs7 build_cms
      (omega arith)
