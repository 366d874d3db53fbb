-- ===== src/Cms/Assembled.antt =====
-- The assembled CMS, read back field by field.
use aas_sign.Base.{
  ℕ, ◌<◌, ◌^◌, ◌≡◌, refl, arith, List, [], ◌∷◌, ◌++◌, ok, length, ==_refl, ◌==◌, false,
}
use aas_sign.Der.{write_length, der_null, der_wrap, der_cat, der_sequence, der_explicit}
use aas_sign.Der.Sets.{der_set}
use aas_sign.Der.Oid.{der_oid}
use aas_sign.Der.Integers.{der_integer}
use aas_sign.X509.Tlv.{view_of}
use aas_sign.Cms.Oids.{
  signed_data_body, indirect_data_body, oid_signed_data_lem, oid_spc_indirect_data, sha256_alg_id,
  oid_sha256,
}
use aas_sign.Cms.Fields.{
  take_field-der_wrap, take_field-whole, der_wrap-IsField, require_oid-der_wrap, within_wrap,
  within_front, within_back, skip_optional,
}
use aas_sign.Cms.Build.{cms_signed_data}
use aas_sign.Cms.Extract.{signed_data, skip_signed_data_header, signed_data_tail}

-- The ContentInfo around the content of a SignedData.
abbrev pub content_info : List ℕ → List ℕ
content_info sd =
    der_wrap 0x30 (der_wrap 0x06 signed_data_body ++ (der_wrap 0xa0 (der_wrap 0x30 sd) ++ []))

abbrev pub sha256_algorithm : List ℕ
sha256_algorithm =
    0x30 ∷ 13 ∷ 0x06 ∷ 9 ∷ 0x60 ∷ 0x86 ∷ 0x48 ∷ 0x01 ∷ 0x65 ∷ 0x03 ∷ 0x04 ∷ 0x02 ∷ 0x01 ∷ 0x05 ∷ 0
    ∷ []

abbrev pub encapsulated : List ℕ → List ℕ
encapsulated idc = der_wrap 0x06 indirect_data_body ++ (der_wrap 0xa0 idc ++ [])

-- The content of the SignedData that is assembled.
abbrev pub signed_fields : List ℕ → List ℕ → List ℕ → List ℕ
signed_fields idc certs signer =
    der_wrap 0x02 (1 ∷ [])
    ++ (der_wrap 0x31 (sha256_algorithm ++ [])
        ++ (der_wrap 0x30 (encapsulated idc)
            ++ (der_wrap 0xa0 certs ++ (der_wrap 0x31 (signer ++ []) ++ []))))

pub cms_signed_data_lem :
    (idc signer : List ℕ) (certs : List (List ℕ))
    → cms_signed_data idc certs signer
      ≡ ok (der_wrap 0x30 (signed_fields idc (der_cat certs) signer))
unfolding cms_signed_data der_integer sha256_alg_id oid_sha256 oid_spc_indirect_data der_oid der_set
    der_explicit der_sequence der_cat der_wrap write_length der_null
cms_signed_data_lem idc signer certs = refl

pub signed_data-content_info :
    (sd : List ℕ)
    → length (content_info sd) < 2 ^ 32
    → signed_data (content_info sd) ≡ ok (view_of 0x30 sd)
unfolding signed_data
signed_data-content_info sd h =
    let inner = der_wrap 0xa0 (der_wrap 0x30 sd) ++ [] in
    let all_fits : length (der_wrap 0x06 signed_data_body ++ inner) < 2 ^ 32 =
      within_wrap 0x30 (der_wrap 0x06 signed_data_body ++ inner) h in
    let inner_fits : length (der_wrap 0x30 sd) < 2 ^ 32 = within_wrap 0xa0 (der_wrap 0x30 sd) (
      within_front (der_wrap 0xa0 (der_wrap 0x30 sd)) []
        (within_back (der_wrap 0x06 signed_data_body) inner all_fits)) in
    rw (
      (der_wrap-IsField 0x30 (der_wrap 0x06 signed_data_body ++ inner) all_fits).read,
      ==_refl (length (content_info sd)),
      take_field-der_wrap 0x06 signed_data_body inner (omega arith),
      oid_signed_data_lem,
      require_oid-der_wrap 0x06 signed_data_body (omega arith),
      take_field-der_wrap 0xa0 (der_wrap 0x30 sd) [] inner_fits,
      take_field-whole 0x30 (der_wrap 0x30 sd) (view_of 0x30 sd)
          (der_wrap-IsField 0x30 sd (within_wrap 0x30 sd inner_fits)) refl,
    )

pub skip_signed_data_header_lem :
    (a e rest : List ℕ)
    → length a < 2 ^ 32
    → length e < 2 ^ 32
    → skip_signed_data_header
        (der_wrap 0x02 (1 ∷ []) ++ (der_wrap 0x31 a ++ (der_wrap 0x30 e ++ rest)))
      ≡ ok (view_of 0x30 e, rest)
unfolding skip_signed_data_header
skip_signed_data_header_lem a e rest ha he = rw (
  take_field-der_wrap 0x02 (1 ∷ []) (der_wrap 0x31 a ++ (der_wrap 0x30 e ++ rest)) (omega arith),
  take_field-der_wrap 0x31 a (der_wrap 0x30 e ++ rest) ha,
  take_field-der_wrap 0x30 e rest he,
)

skip_optional_there :
    (tag : ℕ) (content rest : List ℕ)
    → length content < 2 ^ 32
    → skip_optional tag (der_wrap tag content ++ rest) ≡ ok rest
unfolding skip_optional
skip_optional_there tag content rest h =
    rw (take_field-der_wrap tag content rest h) (unfold der_wrap in rw (==_refl tag))

skip_optional_absent :
    (tag other : ℕ) (content rest : List ℕ)
    → (other == tag) ≡ false
    → skip_optional tag (der_wrap other content ++ rest) ≡ ok (der_wrap other content ++ rest)
unfolding skip_optional der_wrap
skip_optional_absent tag other content rest h = rw h

pub signed_data_tail_lem :
    (certs signers : List ℕ)
    → length certs < 2 ^ 32
    → length signers < 2 ^ 32
    → signed_data_tail (der_wrap 0xa0 certs ++ (der_wrap 0x31 signers ++ []))
      ≡ ok (view_of 0x31 signers)
unfolding signed_data_tail
signed_data_tail_lem certs signers hc hs = rw (
  skip_optional_there 0xa0 certs (der_wrap 0x31 signers ++ []) hc,
  skip_optional_absent 0xa1 0x31 signers [] refl,
  take_field-der_wrap 0x31 signers [] hs,
)
