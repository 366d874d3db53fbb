-- ===== src/Cms/Oids.antt =====
-- The well-known OIDs of src/cms.cpp, and the SHA-256 AlgorithmIdentifier.
use aas_sign.Base.{ℕ, List, [], ◌∷◌, Result, ok, ◌>>=◌, codes, ◌≡◌, refl}
use aas_sign.Der.{der_sequence, der_null, der_wrap}
use aas_sign.Der.Oid.{der_oid}

unfoldable pub oid_signed_data : Result (List ℕ)
oid_signed_data = der_oid (codes "1.2.840.113549.1.7.2")

unfoldable pub oid_spc_indirect_data : Result (List ℕ)
oid_spc_indirect_data = der_oid (codes "1.3.6.1.4.1.311.2.1.4")

unfoldable pub oid_spc_statement_type : Result (List ℕ)
oid_spc_statement_type = der_oid (codes "1.3.6.1.4.1.311.2.1.11")

unfoldable pub oid_spc_individual : Result (List ℕ)
oid_spc_individual = der_oid (codes "1.3.6.1.4.1.311.2.1.21")

unfoldable pub oid_sha256 : Result (List ℕ)
oid_sha256 = der_oid (codes "2.16.840.1.101.3.4.2.1")

unfoldable pub oid_rsa_encryption : Result (List ℕ)
oid_rsa_encryption = der_oid (codes "1.2.840.113549.1.1.1")

unfoldable pub oid_content_type : Result (List ℕ)
oid_content_type = der_oid (codes "1.2.840.113549.1.9.3")

unfoldable pub oid_message_digest : Result (List ℕ)
oid_message_digest = der_oid (codes "1.2.840.113549.1.9.4")

unfoldable pub sha256_alg_id : Result (List ℕ)
sha256_alg_id = do oid ← oid_sha256; ok (der_sequence (oid ∷ der_null ∷ []))

-- The bodies of the OIDs that a reader meets again.
abbrev pub signed_data_body : List ℕ
signed_data_body = 0x2a ∷ 0x86 ∷ 0x48 ∷ 0x86 ∷ 0xf7 ∷ 0x0d ∷ 0x01 ∷ 0x07 ∷ 0x02 ∷ []

abbrev pub indirect_data_body : List ℕ
indirect_data_body = 0x2b ∷ 0x06 ∷ 0x01 ∷ 0x04 ∷ 0x01 ∷ 0x82 ∷ 0x37 ∷ 0x02 ∷ 0x01 ∷ 0x04 ∷ []

pub oid_signed_data_lem : oid_signed_data ≡ ok (der_wrap 0x06 signed_data_body)
unfolding oid_signed_data der_oid
oid_signed_data_lem = refl

pub oid_spc_indirect_data_lem : oid_spc_indirect_data ≡ ok (der_wrap 0x06 indirect_data_body)
unfolding oid_spc_indirect_data der_oid
oid_spc_indirect_data_lem = refl
