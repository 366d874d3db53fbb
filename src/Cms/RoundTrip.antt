-- ===== src/Cms/RoundTrip.antt =====
-- What `cms_build_authenticode` assembles passes `cms_extract_indirect_data`, which gives the same
-- SpcIndirectDataContent back.
use aas_sign.Base.{
  ℕ, subst, ◌<◌, ◌^◌, ◌≡◌, arith, List, [], ◌∷◌, ◌++◌, ok, ◌>>=◌, length, >>=-eq-ok, ok-injective,
  take, take-length,
}
use aas_sign.Der.{der_wrap, der_cat, der_sequence, der_explicit}
use aas_sign.X509.{TlvView, CertId, x509_cert_id}
use aas_sign.X509.Split.{x509_split_certs}
use aas_sign.X509.Reader.{IsField, take-IsField}
use aas_sign.Cms.Oids.{
  signed_data_body, indirect_data_body, oid_spc_indirect_data_lem, oid_signed_data_lem,
  oid_signed_data, oid_spc_indirect_data,
}
use aas_sign.Cms.Fields.{
  take_field, take_field-der_wrap, take_field-whole, require_oid-der_wrap, within_wrap,
  within_front, within_back, take_field-inv, require_oid, end_fields,
}
use aas_sign.Cms.Build.{
  first_cert, build_auth_attrs, signer_info, cms_signed_data, cms_build_authenticode,
}
use aas_sign.Cms.Extract.{
  signed_data, skip_signed_data_header, signed_data_tail, check_indirect_data,
  cms_extract_indirect_data,
}
use aas_sign.Cms.Assembled.{
  content_info, encapsulated, signed_fields, sha256_algorithm, cms_signed_data_lem,
  signed_data-content_info, skip_signed_data_header_lem, signed_data_tail_lem,
}

-- An SpcIndirectDataContent that the extraction accepts: one SEQUENCE whose digest is checked.
pub record IsIndirectData (idc : List ℕ) : Type 0 where
  pub view : TlvView
  pub field : IsField idc view
  pub is_sequence : view.tag ≡ 0x30
  pub checked : check_indirect_data view ≡ ok tt

-- The parts that a CMS was assembled from.
pub record Parts (sha256 : List ℕ → List ℕ) (idc signature certs_der cms : List ℕ) : Type 0 where
  pub certs : List (List ℕ)
  pub signing_cert : List ℕ
  pub cert_id : CertId
  pub attrs : List ℕ
  pub signer : List ℕ
  pub split : x509_split_certs certs_der ≡ ok certs
  pub first : first_cert certs ≡ ok signing_cert
  pub identified : x509_cert_id signing_cert ≡ ok cert_id
  pub hashed : build_auth_attrs sha256 idc ≡ ok attrs
  pub signed : signer_info cert_id attrs signature ≡ ok signer
  pub assembled : cms ≡ content_info (signed_fields idc (der_cat certs) signer)

assembled_lem :
    (idc signer : List ℕ) (certs : List (List ℕ)) (cms : List ℕ)
    → (do
      sd ← cms_signed_data idc certs signer
      ci_oid ← oid_signed_data
      ok (der_sequence (ci_oid ∷ der_explicit 0 sd ∷ [])))
      ≡ ok cms
    → cms ≡ content_info (signed_fields idc (der_cat certs) signer)
unfolding der_sequence der_cat der_explicit
assembled_lem idc signer certs cms h =
    let e = rw (cms_signed_data_lem idc signer certs, oid_signed_data_lem) at h in cc e

module _ (sha256 : List ℕ → List ℕ) (idc signature certs_der cms : List ℕ) where
  pub build-Parts :
      cms_build_authenticode sha256 idc signature certs_der ≡ ok cms
      → Parts sha256 idc signature certs_der cms
  unfolding cms_build_authenticode der_sequence der_cat der_explicit
  build-Parts h =
      let (certs, split, h₁) = >>=-eq-ok (x509_split_certs certs_der) _ h in
      let (signing_cert, first, h₂) = >>=-eq-ok (first_cert certs) _ h₁ in
      let (cert_id, identified, h₃) = >>=-eq-ok (x509_cert_id signing_cert) _ h₂ in
      let (attrs, hashed, h₄) = >>=-eq-ok (build_auth_attrs sha256 idc) _ h₃ in
      let (signer, signed, h₅) = >>=-eq-ok (signer_info cert_id attrs signature) _ h₄ in
      record {
        certs = certs;
        signing_cert = signing_cert;
        cert_id = cert_id;
        attrs = attrs;
        signer = signer;
        split = split;
        first = first;
        identified = identified;
        hashed = hashed;
        signed = signed;
        assembled = assembled_lem idc signer certs cms h₅;
      }

-- The lengths inside an assembled CMS that fits four bytes.
pub record Fits (idc certs signer : List ℕ) : Type 0 where
  pub fields : length (signed_fields idc certs signer) < 2 ^ 32
  pub encap : length (encapsulated idc) < 2 ^ 32
  pub content : length idc < 2 ^ 32
  pub chain : length certs < 2 ^ 32
  pub signers : length (signer ++ []) < 2 ^ 32

pub fields_fit :
    (idc certs signer : List ℕ)
    → length (content_info (signed_fields idc certs signer)) < 2 ^ 32
    → Fits idc certs signer
fields_fit idc certs signer small =
    let f = signed_fields idc certs signer in
    let last = der_wrap 0x31 (signer ++ []) ++ [] in
    let tail = der_wrap 0xa0 certs ++ last in
    let from_encap = der_wrap 0x30 (encapsulated idc) ++ tail in
    let from_algs = der_wrap 0x31 (sha256_algorithm ++ []) ++ from_encap in
    let inner = der_wrap 0xa0 (der_wrap 0x30 f) ++ [] in
    let h : length f < 2 ^ 32 = within_wrap 0x30 f (
      within_wrap 0xa0 (der_wrap 0x30 f) (
        within_front (der_wrap 0xa0 (der_wrap 0x30 f)) [] (
          within_back (der_wrap 0x06 signed_data_body) inner
            (within_wrap 0x30 (der_wrap 0x06 signed_data_body ++ inner) small)))) in
    let h₁ : length from_encap < 2 ^ 32 =
      within_back (der_wrap 0x31 (sha256_algorithm ++ [])) from_encap
        (within_back (der_wrap 0x02 (1 ∷ [])) from_algs h) in
    let h₂ : length tail < 2 ^ 32 = within_back (der_wrap 0x30 (encapsulated idc)) tail h₁ in
    let h₃ : length (encapsulated idc) < 2 ^ 32 =
      within_wrap 0x30 (encapsulated idc)
        (within_front (der_wrap 0x30 (encapsulated idc)) tail h₁) in
    record {
      fields = h;
      encap = h₃;
      content = within_wrap 0xa0 idc (
          within_front (der_wrap 0xa0 idc) []
            (within_back (der_wrap 0x06 indirect_data_body) (der_wrap 0xa0 idc ++ []) h₃));
      chain = within_wrap 0xa0 certs (within_front (der_wrap 0xa0 certs) last h₂);
      signers = within_wrap 0x31 (signer ++ []) (
          within_front (der_wrap 0x31 (signer ++ [])) []
            (within_back (der_wrap 0xa0 certs) last h₂));
    }

pub extract-assembled :
    (idc certs signer : List ℕ)
    → length (content_info (signed_fields idc certs signer)) < 2 ^ 32
    → IsIndirectData idc
    → cms_extract_indirect_data (content_info (signed_fields idc certs signer)) ≡ ok idc
unfolding cms_extract_indirect_data
extract-assembled idc certs signer small data_ok =
    let fit = fields_fit idc certs signer small in
    rw (
      signed_data-content_info (signed_fields idc certs signer) small,
      skip_signed_data_header_lem (sha256_algorithm ++ []) (encapsulated idc)
          (der_wrap 0xa0 certs ++ (der_wrap 0x31 (signer ++ []) ++ [])) (omega arith) fit.encap,
      take_field-der_wrap 0x06 indirect_data_body (der_wrap 0xa0 idc ++ []) (omega arith),
      oid_spc_indirect_data_lem,
      require_oid-der_wrap 0x06 indirect_data_body (omega arith),
      take_field-der_wrap 0xa0 idc [] fit.content,
      take_field-whole 0x30 idc data_ok.view data_ok.field data_ok.is_sequence,
      data_ok.checked,
      signed_data_tail_lem certs (signer ++ []) fit.chain fit.signers,
      data_ok.field.whole,
      take-length idc,
    )

-- What the extraction returns is an SpcIndirectDataContent that it accepts.
pub extract-IsIndirectData :
    (pkcs7 idc : List ℕ) → cms_extract_indirect_data pkcs7 ≡ ok idc → IsIndirectData idc
unfolding cms_extract_indirect_data
extract-IsIndirectData pkcs7 idc h =
    let (sd, e₁, h₁) = >>=-eq-ok (signed_data pkcs7) _ h in
    let (eci, e₂, h₂) = >>=-eq-ok (skip_signed_data_header sd.content) _ h₁ in
    let (oid, e₃, h₃) = >>=-eq-ok (take_field 0x06 eci.0.content) _ h₂ in
    let (expected, e₄, h₄) = >>=-eq-ok oid_spc_indirect_data _ h₃ in
    let (_, e₅, h₅) = >>=-eq-ok (require_oid oid.0 expected) _ h₄ in
    let (content, e₆, h₆) = >>=-eq-ok (take_field 0xa0 oid.1) _ h₅ in
    let (idc', e₇, h₇) = >>=-eq-ok (take_field 0x30 content.0.content) _ h₆ in
    let (_, e₈, h₈) = >>=-eq-ok (end_fields idc'.1) _ h₇ in
    let (_, e₉, h₉) = >>=-eq-ok (end_fields content.1) _ h₈ in
    let (_, checked, h₁₀) = >>=-eq-ok (check_indirect_data idc'.0) _ h₉ in
    let (_, _, h₁₁) = >>=-eq-ok (signed_data_tail eci.1) _ h₁₀ in
    let (read, tagged) = take_field-inv 0x30 content.0.content idc'.0 idc'.1 e₇ in
    let same : take idc'.0.total_len content.0.content ≡ idc = ok-injective h₁₁ in
    record {
      view = idc'.0;
      field = subst (λ t. IsField t idc'.0) same (take-IsField content.0.content idc'.0 read);
      is_sequence = tagged;
      checked = checked;
    }

-- The CMS that is assembled around an extracted SpcIndirectDataContent, of less than 4 GiB, passes
-- the extraction again and gives back the same bytes.
pub extract-build-extract :
    (sha256 : List ℕ → List ℕ) (pkcs7 idc signature certs_der cms : List ℕ)
    → cms_extract_indirect_data pkcs7 ≡ ok idc
    → cms_build_authenticode sha256 idc signature certs_der ≡ ok cms
    → length cms < 2 ^ 32
    → cms_extract_indirect_data cms ≡ ok idc
extract-build-extract sha256 pkcs7 idc signature certs_der cms extracted built small =
    let p = build-Parts sha256 idc signature certs_der cms built in
    rw p.assembled (
      extract-assembled idc (der_cat p.certs) p.signer
        (subst (λ t. length t < 2 ^ 32) p.assembled small)
        (extract-IsIndirectData pkcs7 idc extracted))
