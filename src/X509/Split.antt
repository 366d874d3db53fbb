-- ===== src/X509/Split.antt =====
-- `x509_split_certs` of src/x509.cpp: the certificates in a CMS blob, or one after the other.
pub mod Laws
use aas_sign.Base.{
  bytes_eq, ℕ, zero, suc, List, [], ◌∷◌, Bool, true, false, not, ◌&&◌, ◌||◌, Option, none, some,
  Result, ok, err, stuck, ◌>>=◌, ltb, ◌==◌, if◌then◌else◌, length, take, drop,
}
use aas_sign.X509.{TlvView, der_read_tlv}

abbrev pub oid_signed_data : List ℕ
oid_signed_data = 0x2a ∷ 0x86 ∷ 0x48 ∷ 0x86 ∷ 0xf7 ∷ 0x0d ∷ 0x01 ∷ 0x07 ∷ 0x02 ∷ []

-- The loop that both formats share: a TLV at a time, until no byte is left.
pub split_tlvs : ℕ → List ℕ → Result (List (List ℕ))
split_tlvs fuel [] = ok []
split_tlvs zero (b ∷ bs) = stuck
split_tlvs (suc fuel) (b ∷ bs) = do
  cert ← der_read_tlv (b ∷ bs)
  certs ← split_tlvs fuel (drop cert.total_len (b ∷ bs))
  ok (take cert.total_len (b ∷ bs) ∷ certs)

-- The walk over the fields of SignedData, up to certificates [0].
pub find_certificates : ℕ → List ℕ → Result (Option (List (List ℕ)))
unfolding split_tlvs
find_certificates fuel [] = ok none
find_certificates zero (b ∷ bs) = stuck
find_certificates (suc fuel) (b ∷ bs) = do
  field ← der_read_tlv (b ∷ bs)
  let next = find_certificates fuel (drop field.total_len (b ∷ bs))
  if field.tag == 0xa0
      then (do certs ← split_tlvs (length field.content) field.content; ok (some certs))
      else next

-- `none` is `return false`; each round of the loops takes a byte, so the lengths are fuel enough.
unfoldable pub try_extract_cms_certs : List ℕ → Result (Option (List (List ℕ)))
unfolding find_certificates bytes_eq
try_extract_cms_certs bytes = if ltb (length bytes) 20 then ok none else do
  ci ← der_read_tlv bytes
  if not (ci.tag == 0x30) then ok none else do
    oid ← der_read_tlv ci.content
    if not (oid.tag == 0x06) || not (oid.content_len == 9)
        then ok none
        else if not (bytes_eq oid.content oid_signed_data)
        then ok none
        else do
          explicit0 ← der_read_tlv (drop oid.total_len ci.content)
          if not (explicit0.tag == 0xa0) then ok none else do
            sd ← der_read_tlv explicit0.content
            if not (sd.tag == 0x30)
                then ok none
                else find_certificates (length sd.content) sd.content

or_split : List ℕ → Option (List (List ℕ)) → Result (List (List ℕ))
unfolding split_tlvs
or_split bytes (some certs) = ok certs
or_split bytes none = split_tlvs (length bytes) bytes

unfoldable pub x509_split_certs : List ℕ → Result (List (List ℕ))
unfolding or_split try_extract_cms_certs
x509_split_certs bytes = do found ← try_extract_cms_certs bytes; or_split bytes found
