-- ===== src/Cms/Returns.antt =====
-- `cms_build_authenticode` returns a CMS where its inputs are in order.
use aas_sign.Base.{ℕ, ◌≡◌, refl, ==_refl, List, ◌∷◌, ok, Returns, length}
use aas_sign.Der.{der_wrap, der_implicit}
use aas_sign.Der.Oid.{der_oid}
use aas_sign.Der.Sets.{der_set}
use aas_sign.Der.Integers.{der_integer}
use aas_sign.X509.{CertId}
use aas_sign.Cms.Oids.{
  oid_content_type, oid_spc_indirect_data, oid_message_digest, oid_spc_statement_type,
  oid_spc_individual, sha256_alg_id, oid_sha256, oid_rsa_encryption,
}
use aas_sign.Cms.Build.{auth_attrs, build_auth_attrs, signer_info}
use aas_sign.Cms.RoundTrip.{IsIndirectData}

-- The authenticated attributes are a SET, so they are not empty.
auth_attrs_returns : (hash : List ℕ) → (rest : List ℕ) × (auth_attrs hash ≡ ok (0x31 ∷ rest))
unfolding auth_attrs oid_content_type oid_spc_indirect_data oid_message_digest
    oid_spc_statement_type oid_spc_individual der_oid der_set der_wrap
auth_attrs_returns hash = (_, refl)

pub build_auth_attrs_returns :
    (sha256 : List ℕ → List ℕ) (idc : List ℕ)
    → IsIndirectData idc
    → (rest : List ℕ) × (build_auth_attrs sha256 idc ≡ ok (0x31 ∷ rest))
unfolding build_auth_attrs
build_auth_attrs_returns sha256 idc d =
    let (rest, e) = auth_attrs_returns (sha256 d.view.content) in
    (rest, rw (d.field.read, d.is_sequence, d.field.whole, ==_refl (length idc)) e)

pub signer_info-Returns :
    (cert_id : CertId) (b : ℕ) (rest signature : List ℕ)
    → Returns (signer_info cert_id (b ∷ rest) signature)
unfolding signer_info der_integer sha256_alg_id oid_sha256 der_oid der_implicit oid_rsa_encryption
signer_info-Returns cert_id b rest signature = (_, refl)
