-- ===== src/X509/Split/Laws.antt =====
-- The split of a buffer ends, loses no byte, and finds the certificates that were put together.
use aas_sign.Base.{
  ℕ, zero, suc, ◌≤◌, ◌≡◌, ◌≢◌, refl, arith, List, [], ◌∷◌, Option, none, some, ok, stuck, ◌==◌,
  length, take, drop, All, take-append-drop, length-drop, length-append, >>=-eq-ok, >>=-ne-stuck,
  ok-ne-stuck, if-ne-stuck, total_rules, if-ne-stuck, total_rules,
}
use aas_sign.Der.{der_cat}
use aas_sign.X509.{TlvView, der_read_tlv}
use aas_sign.X509.Reader.{
  IsField, IsTlv, take-IsField, IsField-append, IsField-take, IsField-drop, der_read_tlv-IsWithin,
  der_read_tlv-ne-stuck,
}
use aas_sign.X509.Split.{
  split_tlvs, find_certificates, try_extract_cms_certs, or_split, x509_split_certs,
}

split_tlvs-ne-stuck :
    (fuel : ℕ) (bytes : List ℕ) → length bytes ≤ fuel → split_tlvs fuel bytes ≢ stuck
unfolding split_tlvs
split_tlvs-ne-stuck fuel [] h = λ e. cc
split_tlvs-ne-stuck zero (b ∷ bs) h = absurd (omega arith)
split_tlvs-ne-stuck (suc fuel) (b ∷ bs) h =
    >>=-ne-stuck (der_read_tlv (b ∷ bs)) _ (der_read_tlv-ne-stuck (b ∷ bs)) λ v e.
      >>=-ne-stuck (split_tlvs fuel (drop v.total_len (b ∷ bs))) _
        (split_tlvs-ne-stuck fuel (drop v.total_len (b ∷ bs)) (shorter v e))
        (λ certs _. ok-ne-stuck _)
  where
    shorter :
        (v : TlvView) → der_read_tlv (b ∷ bs) ≡ ok v → length (drop v.total_len (b ∷ bs)) ≤ fuel
    shorter v e =
        omega (arith, (der_read_tlv-IsWithin (b ∷ bs) v e).header, length-drop v.total_len (b ∷ bs))

split_tlvs-partition :
    (fuel : ℕ) (bytes : List ℕ) (certs : List (List ℕ))
    → split_tlvs fuel bytes ≡ ok certs
    → (der_cat certs ≡ bytes) × All IsTlv certs
unfolding split_tlvs der_cat
split_tlvs-partition fuel [] certs h = ground arith
split_tlvs-partition zero (b ∷ bs) certs h = cc
split_tlvs-partition (suc fuel) (b ∷ bs) certs h =
    let (v, e, h') = >>=-eq-ok (der_read_tlv (b ∷ bs)) _ h in
    let (rest, e', h'') = >>=-eq-ok (split_tlvs fuel (drop v.total_len (b ∷ bs))) _ h' in
    let (joined, whole) = split_tlvs-partition fuel (drop v.total_len (b ∷ bs)) rest e' in
    let same : (take v.total_len (b ∷ bs) ∷ rest) ≡ certs = cc in
    rw (← same, joined)
      (take-append-drop v.total_len (b ∷ bs), ((v, take-IsField (b ∷ bs) v e), whole))

split_tlvs-der_cat :
    (certs : List (List ℕ)) (fuel : ℕ)
    → All IsTlv certs
    → length (der_cat certs) ≤ fuel
    → split_tlvs fuel (der_cat certs) ≡ ok certs
unfolding split_tlvs der_cat
split_tlvs-der_cat [] fuel h k = refl
split_tlvs-der_cat ([] ∷ certs) fuel ((v, f), h) k = absurd (
    omega
      (arith, (der_read_tlv-IsWithin [] v f.read).header, (der_read_tlv-IsWithin [] v f.read).fits))
split_tlvs-der_cat ((b ∷ bs) ∷ certs) zero h k = absurd (omega arith)
split_tlvs-der_cat ((b ∷ bs) ∷ certs) (suc fuel) ((v, f), h) k = rw (
  IsField-append (b ∷ bs) (der_cat certs) v f,
  IsField-drop (b ∷ bs) (der_cat certs) v f,
  IsField-take (b ∷ bs) (der_cat certs) v f,
  split_tlvs-der_cat certs fuel h (omega (arith, length-append bs (der_cat certs))),
)

find_certificates-ne-stuck :
    (fuel : ℕ) (bytes : List ℕ) → length bytes ≤ fuel → find_certificates fuel bytes ≢ stuck
unfolding find_certificates
find_certificates-ne-stuck fuel [] h = λ e. cc
find_certificates-ne-stuck zero (b ∷ bs) h = absurd (omega arith)
find_certificates-ne-stuck (suc fuel) (b ∷ bs) h =
    >>=-ne-stuck (der_read_tlv (b ∷ bs)) _ (der_read_tlv-ne-stuck (b ∷ bs)) λ v e.
      if-ne-stuck (v.tag == 0xa0) _ _
        (>>=-ne-stuck (split_tlvs (length v.content) v.content) _
          (split_tlvs-ne-stuck (length v.content) v.content (omega arith))
          (λ certs _. ok-ne-stuck _))
        (find_certificates-ne-stuck fuel (drop v.total_len (b ∷ bs)) (
          omega
            (arith, (der_read_tlv-IsWithin (b ∷ bs) v e).header, length-drop v.total_len (b ∷ bs))))

try_extract_cms_certs-ne-stuck : (bytes : List ℕ) → try_extract_cms_certs bytes ≢ stuck
unfolding try_extract_cms_certs
try_extract_cms_certs-ne-stuck bytes =
    search (total_rules, der_read_tlv-ne-stuck, find_whole) depth 20
  where
    find_whole : (p : List ℕ) → find_certificates (length p) p ≢ stuck
    find_whole p = find_certificates-ne-stuck (length p) p (omega arith)

or_split-ne-stuck : (bytes : List ℕ) (found : Option (List (List ℕ))) → or_split bytes found ≢ stuck
unfolding or_split
or_split-ne-stuck bytes (some certs) = ok-ne-stuck certs
or_split-ne-stuck bytes none = split_tlvs-ne-stuck (length bytes) bytes (omega arith)

-- `x509_split_certs` ends on every buffer: its loops never run out of fuel.
pub x509_split_certs-ne-stuck : (bytes : List ℕ) → x509_split_certs bytes ≢ stuck
unfolding x509_split_certs
x509_split_certs-ne-stuck bytes =
    search (total_rules, try_extract_cms_certs-ne-stuck, or_split-ne-stuck)

-- A buffer that begins with a TLV whose first element is no OID is not taken for a CMS blob.
not_cms :
    (bytes : List ℕ) (v w : TlvView)
    → der_read_tlv bytes ≡ ok v
    → der_read_tlv v.content ≡ ok w
    → w.tag ≢ 0x06
    → try_extract_cms_certs bytes ≡ ok none
unfolding try_extract_cms_certs
not_cms bytes v w e f h = rw (e, f) (ground arith)

-- Certificates that are put one after the other, each one whole TLV and the first of them with
-- no OID for its first element, are split into exactly those certificates.
pub x509_split_certs-der_cat :
    (first : List ℕ) (certs : List (List ℕ)) (v w : TlvView)
    → IsField first v
    → der_read_tlv v.content ≡ ok w
    → w.tag ≢ 0x06
    → All IsTlv certs
    → x509_split_certs (der_cat (first ∷ certs)) ≡ ok (first ∷ certs)
unfolding x509_split_certs
x509_split_certs-der_cat first certs v w f e h k =
    rw
      (
        not_cms (der_cat (first ∷ certs)) v w
            (unfold der_cat in IsField-append first (der_cat certs) v f) e h,
        or_split,
      )
      (split_tlvs-der_cat (first ∷ certs) (length (der_cat (first ∷ certs))) ((v, f), k)
        (omega arith))

-- Outside the CMS format a successful split loses no byte and adds none: the certificates, each
-- one whole TLV, are the buffer again when they are put one after the other.
pub x509_split_certs_partition :
    (bytes : List ℕ) (certs : List (List ℕ))
    → try_extract_cms_certs bytes ≡ ok none
    → x509_split_certs bytes ≡ ok certs
    → (der_cat certs ≡ bytes) × All IsTlv certs
unfolding x509_split_certs
x509_split_certs_partition bytes certs e h =
    split_tlvs-partition (length bytes) bytes certs (rw (e, or_split) at h)
