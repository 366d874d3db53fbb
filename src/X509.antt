-- ===== src/X509.antt =====
-- src/x509.cpp: the DER reader, the fields of a certificate, and the split of a buffer of
-- certificates. A pointer with the number of bytes left is the list of those bytes.
pub mod Tlv
pub mod Reader
pub mod Split
use aas_sign.Base.{
  ℕ, zero, suc, ◌+◌, ◌<◌, List, [], ◌∷◌, ◌++◌, Bool, true, false, not, ◌&&◌, ◌||◌, Result, ok, err,
  stuck, ◌>>=◌, ◌>>◌, guard, bit_and, bit_or, ltb, ◌==◌, if◌then◌else◌, length, take, drop,
}
use aas_sign.Base.Bits.{shl}

pub record TlvView : Type 0 where
  pub tag : ℕ
  pub content : List ℕ
  pub content_len : ℕ
  pub total_len : ℕ

-- `content_len = (content_len << 8) | data[pos++]` over the length bytes
unfoldable pub read_length : ℕ → List ℕ → ℕ
read_length acc [] = acc
read_length acc (b ∷ bs) = read_length (bit_or (shl acc 8) b) bs

-- The end of `der_read_tlv`: `rest` are the bytes of the buffer from `pos` on.
unfoldable pub finish_tlv : ℕ → ℕ → ℕ → ℕ → List ℕ → Result TlvView
finish_tlv len tag pos content_len rest =
    if ltb len (pos + content_len)
    then err "DER content exceeds buffer"
    else ok (record {
      tag = tag;
      content = take content_len rest;
      content_len = content_len;
      total_len = pos + content_len;
    })

unfoldable pub der_read_tlv : List ℕ → Result TlvView
unfolding read_length finish_tlv
der_read_tlv [] = err "truncated DER TLV"
der_read_tlv (_ ∷ []) = err "truncated DER TLV"
der_read_tlv (tag ∷ b ∷ rest) =
    let len = length (tag ∷ b ∷ rest) in
    if ltb b 0x80
    then finish_tlv len tag 2 b rest
    else (let nbytes = bit_and b 0x7f in
        if nbytes == 0 || ltb 4 nbytes || ltb len (2 + nbytes)
        then err "invalid DER length"
        else finish_tlv len tag (2 + nbytes) (read_length 0 (take nbytes rest)) (drop nbytes rest))

pub record CertId : Type 0 where
  pub issuer_raw : List ℕ
  pub serial_raw : List ℕ

-- The field that follows an optional version [0], with the bytes from it on.
skip_version : List ℕ → Result (TlvView × List ℕ)
skip_version p = do
  elem ← der_read_tlv p
  if elem.tag == 0xa0
      then (do next ← der_read_tlv (drop elem.total_len p); ok (next, drop elem.total_len p))
      else ok (elem, p)

unfoldable pub x509_cert_id : List ℕ → Result CertId
unfolding skip_version
x509_cert_id cert_der = do
  cert ← der_read_tlv cert_der
  guard (bit_and cert.tag 0x1f == 0x10) "expected SEQUENCE for Certificate"
  tbs ← der_read_tlv cert.content
  guard (bit_and tbs.tag 0x1f == 0x10) "expected SEQUENCE for TBSCertificate"
  (serial, p) ← skip_version tbs.content
  guard (serial.tag == 0x02) "expected INTEGER for serialNumber"
  let after_serial = drop serial.total_len p
  sig_alg ← der_read_tlv after_serial
  let after_alg = drop sig_alg.total_len after_serial
  issuer ← der_read_tlv after_alg
  guard (bit_and issuer.tag 0x1f == 0x10) "expected SEQUENCE for issuer"
  ok (record { issuer_raw = take issuer.total_len after_alg; serial_raw = take serial.total_len p })
