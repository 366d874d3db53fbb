-- ===== src/Cms/Extract.antt =====
-- `cms_extract_indirect_data` of src/cms.cpp, with the helpers it shares with `cms_has_signer`.
use aas_sign.Base.{
  ℕ, List, [], ◌∷◌, Bool, false, not, ◌&&◌, Result, ok, ◌>>=◌, ◌>>◌, guard, ◌==◌, length, take,
  if◌then◌else◌,
}
use aas_sign.Der.{der_sequence_tag, der_set_tag}
use aas_sign.X509.{TlvView, der_read_tlv}
use aas_sign.Cms.Fields.{take_field, is_empty, end_fields, skip_optional, require_oid}
use aas_sign.Cms.Oids.{oid_signed_data, oid_spc_indirect_data, oid_sha256}

unfoldable pub signed_data : List ℕ → Result TlvView
signed_data pkcs7 = do
  outer ← der_read_tlv pkcs7
  guard (outer.tag == der_sequence_tag && outer.total_len == length pkcs7)
      "invalid PKCS#7 ContentInfo"
  (oid, ci) ← take_field 0x06 outer.content
  expected ← oid_signed_data
  require_oid oid expected
  (explicit, ci_end) ← take_field 0xa0 ci
  (sd, wrapper_end) ← take_field der_sequence_tag explicit.content
  end_fields wrapper_end
  end_fields ci_end
  ok sd

-- content[0] == 1 of a content of one byte
unfoldable pub is_one : List ℕ → Bool
is_one (b ∷ []) = b == 1
is_one _ = false

-- The encapsulated content, with the fields behind it.
unfoldable pub skip_signed_data_header : List ℕ → Result (TlvView × List ℕ)
unfolding is_one
skip_signed_data_header sd = do
  (version, after_version) ← take_field 0x02 sd
  guard (version.content_len == 1 && is_one version.content)
      "Authenticode requires SignedData version 1"
  (_, after_algs) ← take_field der_set_tag after_version
  take_field der_sequence_tag after_algs

-- The SHA-256 AlgorithmIdentifier, with no parameters or with NULL.
unfoldable pub check_parameters : List ℕ → Result (List ℕ)
check_parameters algorithm = if is_empty algorithm then ok algorithm else do
  (parameters, rest) ← take_field 0x05 algorithm
  guard (parameters.content_len == 0) "invalid SHA-256 parameters"
  ok rest

-- The checks on the SpcIndirectDataContent itself.
unfoldable pub check_indirect_data : TlvView → Result (Unit {0})
unfolding check_parameters
check_indirect_data idc = do
  (_, after_payload) ← take_field der_sequence_tag idc.content
  (digest, data_end) ← take_field der_sequence_tag after_payload
  (algorithm, after_algorithm) ← take_field der_sequence_tag digest.content
  (oid, parameters) ← take_field 0x06 algorithm.content
  expected ← oid_sha256
  require_oid oid expected
  algorithm_end ← check_parameters parameters
  end_fields algorithm_end
  (octets, digest_end) ← take_field 0x04 after_algorithm
  guard (not (octets.content_len == 0)) "empty Authenticode digest"
  end_fields digest_end
  end_fields data_end

-- The optional certificates and CRLs, the SET of signers, and nothing more.
unfoldable pub signed_data_tail : List ℕ → Result TlvView
signed_data_tail fields = do
  after_certs ← skip_optional 0xa0 fields
  after_crls ← skip_optional 0xa1 after_certs
  (signers, rest) ← take_field der_set_tag after_crls
  end_fields rest
  ok signers

unfoldable pub cms_extract_indirect_data : List ℕ → Result (List ℕ)
unfolding signed_data skip_signed_data_header check_indirect_data signed_data_tail
cms_extract_indirect_data pkcs7 = do
  sd ← signed_data pkcs7
  (eci, after_eci) ← skip_signed_data_header sd.content
  (oid, eci_content) ← take_field 0x06 eci.content
  expected ← oid_spc_indirect_data
  require_oid oid expected
  (content, eci_end) ← take_field 0xa0 eci_content
  (idc, content_end) ← take_field der_sequence_tag content.content
  end_fields content_end
  end_fields eci_end
  check_indirect_data idc
  signed_data_tail after_eci
  ok (take idc.total_len content.content)
