-- ===== src/Cms/Build.antt =====
-- Assembly of the CMS in src/cms.cpp.
use aas_sign.Base.{ℕ, List, [], ◌∷◌, true, ◌&&◌, Result, ok, err, ◌>>=◌, ◌>>◌, guard, ◌==◌, length}
use aas_sign.Der.{
  der_wrap, der_cat, der_sequence, der_sequence_tag, der_octet_string, der_null, der_explicit,
  der_implicit,
}
use aas_sign.Der.Sets.{der_set}
use aas_sign.Der.Integers.{pos, der_integer}
use aas_sign.X509.{CertId, der_read_tlv, x509_cert_id}
use aas_sign.X509.Split.{x509_split_certs}
use aas_sign.Cms.Oids.{
  oid_signed_data, oid_spc_indirect_data, oid_spc_statement_type, oid_spc_individual,
  oid_rsa_encryption, oid_content_type, oid_message_digest, sha256_alg_id,
}

-- `certs[0]`, where there is one
pub first_cert : List (List ℕ) → Result (List ℕ)
first_cert [] = err "no certificates in chain"
first_cert (c ∷ _) = ok c

-- SignerInfo, from the issuer and serial of the signing certificate.
unfoldable pub signer_info : CertId → List ℕ → List ℕ → Result (List ℕ)
signer_info cert_id auth_attrs_set signature = do
  si_version ← der_integer (pos 1)
  let sid = der_sequence (cert_id.issuer_raw ∷ cert_id.serial_raw ∷ [])
  si_digest_alg ← sha256_alg_id
  si_auth_attrs ← der_implicit 0 true auth_attrs_set
  rsa_oid ← oid_rsa_encryption
  let si_sig_alg = der_sequence (rsa_oid ∷ der_null ∷ [])
  let si_signature = der_octet_string signature
  ok (
      der_sequence
        (si_version ∷ sid ∷ si_digest_alg ∷ si_auth_attrs ∷ si_sig_alg ∷ si_signature ∷ []))

unfoldable pub cms_signed_data : List ℕ → List (List ℕ) → List ℕ → Result (List ℕ)
cms_signed_data spc_idc certs signer = do
  sd_version ← der_integer (pos 1)
  sd_digest_alg ← sha256_alg_id
  let sd_digest_algs = der_set (sd_digest_alg ∷ [])
  eci_oid ← oid_spc_indirect_data
  let eci_content = der_explicit 0 spc_idc
  let encap_content = der_sequence (eci_oid ∷ eci_content ∷ [])
  let certs_wrapped = der_wrap 0xa0 (der_cat certs)
  let signer_infos = der_set (signer ∷ [])
  ok (
      der_sequence
        (sd_version ∷ sd_digest_algs ∷ encap_content ∷ certs_wrapped ∷ signer_infos ∷ []))

-- The SET of the three attributes, from the hash of the content.
unfoldable pub auth_attrs : List ℕ → Result (List ℕ)
auth_attrs content_hash = do
  ct_oid ← oid_content_type
  ct_val_oid ← oid_spc_indirect_data
  let ct_val = der_set (ct_val_oid ∷ [])
  let attr_content_type = der_sequence (ct_oid ∷ ct_val ∷ [])
  md_oid ← oid_message_digest
  let md_val_octets = der_octet_string content_hash
  let md_val = der_set (md_val_octets ∷ [])
  let attr_msg_digest = der_sequence (md_oid ∷ md_val ∷ [])
  st_oid ← oid_spc_statement_type
  st_ind_oid ← oid_spc_individual
  let st_ind_seq = der_sequence (st_ind_oid ∷ [])
  let st_val = der_set (st_ind_seq ∷ [])
  let attr_statement = der_sequence (st_oid ∷ st_val ∷ [])
  ok (der_set (attr_content_type ∷ attr_msg_digest ∷ attr_statement ∷ []))

module _ (sha256 : List ℕ → List ℕ) where
  -- The hash is over the content of the SEQUENCE, without its tag and length.
  unfoldable pub build_auth_attrs : List ℕ → Result (List ℕ)
  unfolding auth_attrs
  build_auth_attrs spc_indirect_data = do
    content ← der_read_tlv spc_indirect_data
    guard (content.tag == der_sequence_tag && content.total_len == length spc_indirect_data)
        "invalid SpcIndirectDataContent"
    auth_attrs (sha256 content.content)

  unfoldable pub cms_build_authenticode : List ℕ → List ℕ → List ℕ → Result (List ℕ)
  unfolding build_auth_attrs first_cert signer_info cms_signed_data
  cms_build_authenticode spc_idc signature certs_der = do
    certs ← x509_split_certs certs_der
    signing_cert ← first_cert certs
    cert_id ← x509_cert_id signing_cert
    auth_attrs_set ← build_auth_attrs spc_idc
    signer ← signer_info cert_id auth_attrs_set signature
    signed_data ← cms_signed_data spc_idc certs signer
    ci_oid ← oid_signed_data
    let ci_content = der_explicit 0 signed_data
    ok (der_sequence (ci_oid ∷ ci_content ∷ []))

  unfoldable pub cms_auth_attrs_hash : List ℕ → Result (List ℕ)
  cms_auth_attrs_hash indirect_data = do attrs ← build_auth_attrs indirect_data; ok (sha256 attrs)
