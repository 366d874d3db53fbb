-- ===== src/Cms/Signers.antt =====
-- `cms_has_signer` of src/cms.cpp: the check of every SignerInfo of a CMS blob.
use aas_sign.Base.{
  ℕ, zero, suc, List, [], ◌∷◌, Bool, true, false, not, ◌&&◌, Result, ok, stuck, ◌>>=◌, ◌>>◌, guard,
  ◌==◌, length, if◌then◌else◌,
}
use aas_sign.Der.{der_sequence_tag, der_set_tag}
use aas_sign.Cms.Fields.{take_field, is_empty, next_tag, end_fields}
use aas_sign.Cms.Extract.{signed_data, skip_signed_data_header, is_one, signed_data_tail}

-- while (!values.empty()) values.take(values.next());
unfoldable pub take_values : ℕ → List ℕ → Result (Unit {0})
take_values fuel [] = ok tt
take_values zero (b ∷ bs) = stuck
take_values (suc fuel) (b ∷ bs) = do (_, rest) ← take_field b (b ∷ bs); take_values fuel rest

unfoldable pub check_attribute : List ℕ → Result (Unit {0})
unfolding take_values
check_attribute attr = do
  (oid, after_oid) ← take_field 0x06 attr
  guard (not (oid.content_len == 0)) "empty attribute OID"
  (values, attr_end) ← take_field der_set_tag after_oid
  guard (not (is_empty values.content)) "empty attribute values"
  take_values (length values.content) values.content
  end_fields attr_end

unfoldable pub take_attributes : ℕ → List ℕ → Result (Unit {0})
unfolding check_attribute
take_attributes fuel [] = ok tt
take_attributes zero (b ∷ bs) = stuck
take_attributes (suc fuel) (b ∷ bs) = do
  (attr, rest) ← take_field der_sequence_tag (b ∷ bs)
  check_attribute attr.content
  take_attributes fuel rest

-- The lambda `attributes`, where the field is there.
unfoldable pub optional_attributes : ℕ → List ℕ → Result (List ℕ)
unfolding take_attributes
optional_attributes tag signer =
    if next_tag signer == tag
    then (do
      (attrs, rest) ← take_field tag signer
      guard (not (is_empty attrs.content)) "empty signer attributes"
      take_attributes (length attrs.content) attrs.content
      ok rest)
    else ok signer

-- The lambda `algorithm`.
unfoldable pub signature_algorithm : List ℕ → Result (List ℕ)
signature_algorithm signer = do
  (fields, rest) ← take_field der_sequence_tag signer
  (oid, parameters) ← take_field 0x06 fields.content
  guard (not (oid.content_len == 0)) "empty signature algorithm OID"
  if is_empty parameters then ok rest else (do
    (_, parameters_end) ← take_field (next_tag parameters) parameters
    end_fields parameters_end
    ok rest)

-- IssuerAndSerialNumber
unfoldable pub check_sid : List ℕ → Result (Unit {0})
check_sid sid = do
  (issuer, after_issuer) ← take_field der_sequence_tag sid
  guard (not (issuer.content_len == 0)) "empty signer issuer"
  (serial, sid_end) ← take_field 0x02 after_issuer
  guard (not (serial.content_len == 0)) "empty signer serial"
  end_fields sid_end

-- One round of the loop over the signers.
unfoldable pub check_signer : List ℕ → Result (Unit {0})
unfolding check_sid signature_algorithm optional_attributes
check_signer signer = do
  (version, after_version) ← take_field 0x02 signer
  guard (version.content_len == 1 && is_one version.content)
      "invalid Authenticode SignerInfo version"
  (sid, after_sid) ← take_field der_sequence_tag after_version
  check_sid sid.content
  after_digest_alg ← signature_algorithm after_sid
  after_auth ← optional_attributes 0xa0 after_digest_alg
  after_sig_alg ← signature_algorithm after_auth
  (signature, after_signature) ← take_field 0x04 after_sig_alg
  guard (not (signature.content_len == 0)) "empty CMS signature"
  signer_end ← optional_attributes 0xa1 after_signature
  end_fields signer_end

unfoldable pub check_signers : ℕ → Bool → List ℕ → Result Bool
unfolding check_signer
check_signers fuel found [] = ok found
check_signers zero found (b ∷ bs) = stuck
check_signers (suc fuel) found (b ∷ bs) = do
  (signer, rest) ← take_field der_sequence_tag (b ∷ bs)
  check_signer signer.content
  check_signers fuel true rest

unfoldable pub cms_has_signer : List ℕ → Result Bool
unfolding check_signers
cms_has_signer pkcs7 = do
  sd ← signed_data pkcs7
  (_, after_eci) ← skip_signed_data_header sd.content
  signers ← signed_data_tail after_eci
  check_signers (length signers.content) false signers.content
