-- ===== src/Examples/Encodings.antt =====
-- Base64, query strings and DER encodings at concrete inputs.
use aas_sign.Base.{ℕ, ◌≡◌, refl, arith, List, [], ◌∷◌, ◌++◌, ok, codes}
use aas_sign.Base64.{base64_encode, base64_decode}
use aas_sign.Base64.RoundTrip.{keep, base64_decode-base64_encode}
use aas_sign.Web.{parse_query, form_encode}
use aas_sign.Web.RoundTrip.{put_all, parse_query-form_encode}
use aas_sign.Der.{der_wrap}
use aas_sign.X509.{der_read_tlv}
use aas_sign.X509.Tlv.{view_of, der_read_tlv-der_wrap}

abbrev hello : List ℕ
hello = codes "hello"

encode_hello : base64_encode hello ≡ codes "aGVsbG8="
unfolding base64_encode
encode_hello = refl

-- A line break inside, and no padding.
abbrev broken : List ℕ
broken = codes "aGVs" ++ 13 ∷ 10 ∷ codes "bG8"

base64_decode-base64_encode_example : base64_decode broken ≡ hello
unfolding base64_encode keep base64_decode
base64_decode-base64_encode_example = base64_decode-base64_encode hello broken (omega arith) refl

abbrev callback : List (List ℕ × List ℕ)
callback = (codes "code", codes "a&b=c") ∷ (codes "state", codes "0f 1e") ∷ []

parse_callback : parse_query (codes "/?code=a%26b%3dc&state=0f+1e&") ≡ callback
unfolding parse_query
parse_callback = refl

parse_query-form_encode_example :
    parse_query (codes "/" ++ 63 ∷ form_encode callback) ≡ put_all callback []
parse_query-form_encode_example =
    parse_query-form_encode (codes "/") callback (omega arith) (omega arith)

der_read_tlv-der_wrap_example :
    der_read_tlv (der_wrap 0x04 hello ++ 0 ∷ []) ≡ ok (view_of 0x04 hello)
der_read_tlv-der_wrap_example = der_read_tlv-der_wrap 0x04 hello (0 ∷ []) (omega arith)
