-- ===== src/Cms/Fields.antt =====
-- `DerFields` of src/cms.cpp: a walk over the fields of a constructed TLV. The object is the list
-- of the bytes that are left.
use aas_sign.Base.{
  bytes_eq, bytes_eq_refl, >>=-eq-ok, arith, ◌+◌, ◌≤◌, length-append, ℕ, List, [], ◌∷◌, ◌++◌, ◌≡◌,
  refl, ◌≢◌, ◌<◌, ◌^◌, Bool, true, false, Result, ok, err, stuck, ◌>>=◌, guard, ◌==◌, ==_refl, ◌&&◌,
  if◌then◌else◌, append-nil, length, drop, total_rules,
}
use aas_sign.Der.{write_length, der_wrap}
use aas_sign.X509.{TlvView, der_read_tlv}
use aas_sign.X509.Tlv.{view_of, der_read_tlv-der_wrap}
use aas_sign.X509.Reader.{IsField, IsField-append, IsField-drop, der_read_tlv-ne-stuck}

unfoldable pub take_field : ℕ → List ℕ → Result (TlvView × List ℕ)
take_field tag fields = do
  v ← der_read_tlv fields
  if v.tag == tag then ok (v, drop v.total_len fields) else err "unexpected CMS DER field"

abbrev pub is_empty : List ℕ → Bool
is_empty [] = true
is_empty (_ ∷ _) = false

abbrev pub next_tag : List ℕ → ℕ
next_tag [] = 0
next_tag (b ∷ _) = b

abbrev pub end_fields : List ℕ → Result (Unit {0})
end_fields fields = guard (is_empty fields) "trailing CMS DER fields"

-- if (fields.next() == tag) fields.take(tag);
unfoldable pub skip_optional : ℕ → List ℕ → Result (List ℕ)
unfolding take_field
skip_optional tag fields =
    if next_tag fields == tag then (do (_, rest) ← take_field tag fields; ok rest) else ok fields

unfoldable pub require_oid : TlvView → List ℕ → Result (Unit {0})
unfolding bytes_eq
require_oid value oid = do
  expected ← der_read_tlv oid
  guard (value.content_len == expected.content_len && bytes_eq value.content expected.content)
      "unexpected CMS content or digest algorithm (SHA-256 required)"

-- A field at the front is taken, and the walk goes on behind it.
pub take_field-IsField :
    (raw rest : List ℕ) (v : TlvView)
    → IsField raw v
    → take_field v.tag (raw ++ rest) ≡ ok (v, rest)
unfolding take_field
take_field-IsField raw rest v f =
    rw (IsField-append raw rest v f, ==_refl v.tag, IsField-drop raw rest v f)

pub der_wrap-IsField :
    (tag : ℕ) (content : List ℕ)
    → length content < 2 ^ 32
    → IsField (der_wrap tag content) (view_of tag content)
der_wrap-IsField tag content h = record {
  read = rw append-nil at (der_read_tlv-der_wrap tag content [] h);
  whole = refl;
}

pub take_field-der_wrap :
    (tag : ℕ) (content rest : List ℕ)
    → length content < 2 ^ 32
    → take_field tag (der_wrap tag content ++ rest) ≡ ok (view_of tag content, rest)
take_field-der_wrap tag content rest h =
    take_field-IsField (der_wrap tag content) rest (view_of tag content)
      (der_wrap-IsField tag content h)

pub take_field-ne-stuck : (tag : ℕ) (fields : List ℕ) → take_field tag fields ≢ stuck
unfolding take_field
take_field-ne-stuck tag fields = search (total_rules, der_read_tlv-ne-stuck)

-- A field that is all there is.
pub take_field-whole :
    (tag : ℕ) (raw : List ℕ) (v : TlvView)
    → IsField raw v
    → v.tag ≡ tag
    → take_field tag raw ≡ ok (v, [])
take_field-whole tag raw v f e = rw (← e) (rw append-nil at (take_field-IsField raw [] v f))

pub require_oid-der_wrap :
    (tag : ℕ) (content : List ℕ)
    → length content < 2 ^ 32
    → require_oid (view_of tag content) (der_wrap tag content) ≡ ok tt
unfolding require_oid
require_oid-der_wrap tag content h =
    rw ((der_wrap-IsField tag content h).read, ==_refl (length content), bytes_eq_refl content)

-- A content is shorter than its TLV.
pub length-der_wrap :
    (tag : ℕ) (content : List ℕ) → length content + 2 ≤ length (der_wrap tag content)
unfolding der_wrap write_length
length-der_wrap tag content = ground (arith, length-append (write_length (length content)) content)

-- Lengths that fit four bytes, inside a TLV and on either side of a join.
pub within_wrap :
    (tag : ℕ) (content : List ℕ) → length (der_wrap tag content) < 2 ^ 32 → length content < 2 ^ 32
within_wrap tag content h = omega (arith, length-der_wrap tag content)

pub within_front : (xs ys : List ℕ) → length (xs ++ ys) < 2 ^ 32 → length xs < 2 ^ 32
within_front xs ys h = omega (arith, length-append xs ys)

pub within_back : (xs ys : List ℕ) → length (xs ++ ys) < 2 ^ 32 → length ys < 2 ^ 32
within_back xs ys h = omega (arith, length-append xs ys)

-- A field that was taken has the tag, and is the TLV at the front.
pub take_field-inv :
    (tag : ℕ) (fields : List ℕ) (v : TlvView) (rest : List ℕ)
    → take_field tag fields ≡ ok (v, rest)
    → (der_read_tlv fields ≡ ok v) × (v.tag ≡ tag)
unfolding take_field
take_field-inv tag fields v rest h =
    let (v', e, h') = >>=-eq-ok (der_read_tlv fields) _ h in ground (arith, e, h')
