-- ===== src/Cms/Total.antt =====
-- The readers of src/cms.cpp end on every input: no loop of theirs runs out of fuel.
use aas_sign.Base.{
  ℕ, zero, suc, ◌≤◌, ◌<◌, ◌≡◌, ◌≢◌, arith, List, [], ◌∷◌, Bool, true, false, ok, stuck, length,
  length-drop, total_rules, >>=-ne-stuck, ok-ne-stuck, >>=-eq-ok,
}
use aas_sign.Der.Oid.{der_oid}
use aas_sign.X509.{TlvView, der_read_tlv}
use aas_sign.X509.Reader.{der_read_tlv-ne-stuck, der_read_tlv-IsWithin}
use aas_sign.Cms.Fields.{take_field, take_field-ne-stuck, skip_optional, require_oid}
use aas_sign.Cms.Oids.{oid_signed_data, oid_spc_indirect_data, oid_sha256}
use aas_sign.Cms.Extract.{
  signed_data, skip_signed_data_header, check_parameters, check_indirect_data, signed_data_tail,
  cms_extract_indirect_data,
}
use aas_sign.Cms.Signers.{
  take_values, check_attribute, take_attributes, optional_attributes, signature_algorithm,
  check_sid, check_signer, check_signers, cms_has_signer,
}

-- What is left behind a field is shorter.
take_field-shorter :
    (tag : ℕ) (fields : List ℕ) (v : TlvView) (rest : List ℕ)
    → take_field tag fields ≡ ok (v, rest)
    → length rest < length fields
unfolding take_field
take_field-shorter tag fields v rest h =
    let (v', e, h') = >>=-eq-ok (der_read_tlv fields) _ h in
    let within = der_read_tlv-IsWithin fields v' e in
    ground (arith, length-drop v'.total_len fields, within.header, within.fits)

oid_sha256-ne-stuck : oid_sha256 ≢ stuck
unfolding oid_sha256 der_oid
oid_sha256-ne-stuck = λ e. cc

ruleset reader_rules = (total_rules, take_field-ne-stuck, der_read_tlv-ne-stuck)

require_oid-ne-stuck : (v : TlvView) (oid : List ℕ) → require_oid v oid ≢ stuck
unfolding require_oid
require_oid-ne-stuck v oid = search reader_rules

skip_optional-ne-stuck : (tag : ℕ) (fields : List ℕ) → skip_optional tag fields ≢ stuck
unfolding skip_optional
skip_optional-ne-stuck tag fields = search reader_rules depth 20

oid_signed_data-ne-stuck : oid_signed_data ≢ stuck
unfolding oid_signed_data der_oid
oid_signed_data-ne-stuck = λ e. cc

oid_spc_indirect_data-ne-stuck : oid_spc_indirect_data ≢ stuck
unfolding oid_spc_indirect_data der_oid
oid_spc_indirect_data-ne-stuck = λ e. cc

ruleset field_rules = (
  reader_rules, require_oid-ne-stuck, skip_optional-ne-stuck, oid_sha256-ne-stuck,
  oid_signed_data-ne-stuck, oid_spc_indirect_data-ne-stuck,
)

signed_data-ne-stuck : (pkcs7 : List ℕ) → signed_data pkcs7 ≢ stuck
unfolding signed_data
signed_data-ne-stuck pkcs7 = search field_rules depth 30

skip_signed_data_header-ne-stuck : (sd : List ℕ) → skip_signed_data_header sd ≢ stuck
unfolding skip_signed_data_header
skip_signed_data_header-ne-stuck sd = search field_rules depth 30

check_parameters-ne-stuck : (fields : List ℕ) → check_parameters fields ≢ stuck
unfolding check_parameters
check_parameters-ne-stuck fields = search field_rules depth 30

check_indirect_data-ne-stuck : (idc : TlvView) → check_indirect_data idc ≢ stuck
unfolding check_indirect_data
check_indirect_data-ne-stuck idc = search (field_rules, check_parameters-ne-stuck) depth 40

signed_data_tail-ne-stuck : (fields : List ℕ) → signed_data_tail fields ≢ stuck
unfolding signed_data_tail
signed_data_tail-ne-stuck fields = search field_rules depth 30

ruleset part_rules = (
  field_rules, signed_data-ne-stuck, skip_signed_data_header-ne-stuck, check_indirect_data-ne-stuck,
  signed_data_tail-ne-stuck,
)

cms_extract_indirect_data-ne-stuck : (pkcs7 : List ℕ) → cms_extract_indirect_data pkcs7 ≢ stuck
unfolding cms_extract_indirect_data
cms_extract_indirect_data-ne-stuck pkcs7 = search part_rules depth 40

take_values-ne-stuck :
    (fuel : ℕ) (values : List ℕ) → length values ≤ fuel → take_values fuel values ≢ stuck
unfolding take_values
take_values-ne-stuck fuel [] h = ok-ne-stuck tt
take_values-ne-stuck zero (b ∷ bs) h = absurd (omega arith)
take_values-ne-stuck (suc fuel) (b ∷ bs) h =
    >>=-ne-stuck (take_field b (b ∷ bs)) _ (take_field-ne-stuck b (b ∷ bs))
      λ r e. take_values-ne-stuck fuel r.1 (omega (arith, take_field-shorter b (b ∷ bs) r.0 r.1 e))

all_values-ne-stuck : (values : List ℕ) → take_values (length values) values ≢ stuck
all_values-ne-stuck values = take_values-ne-stuck (length values) values (omega arith)

check_attribute-ne-stuck : (attr : List ℕ) → check_attribute attr ≢ stuck
unfolding check_attribute
check_attribute-ne-stuck attr = search (reader_rules, all_values-ne-stuck) depth 30

take_attributes-ne-stuck :
    (fuel : ℕ) (attrs : List ℕ) → length attrs ≤ fuel → take_attributes fuel attrs ≢ stuck
unfolding take_attributes
take_attributes-ne-stuck fuel [] h = ok-ne-stuck tt
take_attributes-ne-stuck zero (b ∷ bs) h = absurd (omega arith)
take_attributes-ne-stuck (suc fuel) (b ∷ bs) h =
    >>=-ne-stuck (take_field 0x30 (b ∷ bs)) _ (take_field-ne-stuck 0x30 (b ∷ bs)) λ r e.
      >>=-ne-stuck (check_attribute r.0.content) _ (check_attribute-ne-stuck r.0.content) λ _ _.
        take_attributes-ne-stuck fuel r.1
          (omega (arith, take_field-shorter 0x30 (b ∷ bs) r.0 r.1 e))

all_attributes-ne-stuck : (attrs : List ℕ) → take_attributes (length attrs) attrs ≢ stuck
all_attributes-ne-stuck attrs = take_attributes-ne-stuck (length attrs) attrs (omega arith)

optional_attributes-ne-stuck : (tag : ℕ) (signer : List ℕ) → optional_attributes tag signer ≢ stuck
unfolding optional_attributes
optional_attributes-ne-stuck tag signer = search (reader_rules, all_attributes-ne-stuck) depth 30

signature_algorithm-ne-stuck : (signer : List ℕ) → signature_algorithm signer ≢ stuck
unfolding signature_algorithm
signature_algorithm-ne-stuck signer = search reader_rules depth 30

check_sid-ne-stuck : (sid : List ℕ) → check_sid sid ≢ stuck
unfolding check_sid
check_sid-ne-stuck sid = search reader_rules depth 30

check_signer-ne-stuck : (signer : List ℕ) → check_signer signer ≢ stuck
unfolding check_signer
check_signer-ne-stuck signer =
    search
      (reader_rules, optional_attributes-ne-stuck, signature_algorithm-ne-stuck, check_sid-ne-stuck)
      depth 40

check_signers-ne-stuck :
    (fuel : ℕ) (found : Bool) (signers : List ℕ)
    → length signers ≤ fuel
    → check_signers fuel found signers ≢ stuck
unfolding check_signers
check_signers-ne-stuck fuel found [] h = ok-ne-stuck found
check_signers-ne-stuck zero found (b ∷ bs) h = absurd (omega arith)
check_signers-ne-stuck (suc fuel) found (b ∷ bs) h =
    >>=-ne-stuck (take_field 0x30 (b ∷ bs)) _ (take_field-ne-stuck 0x30 (b ∷ bs)) λ r e.
      >>=-ne-stuck (check_signer r.0.content) _ (check_signer-ne-stuck r.0.content) λ _ _.
        check_signers-ne-stuck fuel true r.1
          (omega (arith, take_field-shorter 0x30 (b ∷ bs) r.0 r.1 e))

all_signers-ne-stuck : (signers : List ℕ) → check_signers (length signers) false signers ≢ stuck
all_signers-ne-stuck signers = check_signers-ne-stuck (length signers) false signers (omega arith)

cms_has_signer-ne-stuck : (pkcs7 : List ℕ) → cms_has_signer pkcs7 ≢ stuck
unfolding cms_has_signer
cms_has_signer-ne-stuck pkcs7 = search (part_rules, all_signers-ne-stuck) depth 40

-- On every input, well formed or not, `cms_extract_indirect_data` and `cms_has_signer` return or
-- throw: no loop of theirs runs out of fuel.
pub cms_readers_end :
    (pkcs7 : List ℕ) → (cms_extract_indirect_data pkcs7 ≢ stuck) × (cms_has_signer pkcs7 ≢ stuck)
cms_readers_end pkcs7 = (cms_extract_indirect_data-ne-stuck pkcs7, cms_has_signer-ne-stuck pkcs7)
