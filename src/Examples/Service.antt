-- ===== src/Examples/Service.antt =====
-- The signer tuple, the signing service and the tokens at concrete inputs.
use aas_sign.Base.{
  ℕ, zero, suc, ◌+◌, ◌*◌, ◌^◌, ◌≤◌, ◌≡◌, ◌≢◌, refl, arith, List, [], ◌∷◌, ◌++◌, false, Result, ok,
  err, stuck, length, String, Text, codes, is_nil, All, IsByte, subst, ok-injective,
}
use aas_sign.Base64.{base64_encode}
use aas_sign.Web.RoundTrip.{Free}
use aas_sign.Signer.{SignerTuple, parse_signer_tuple}
use aas_sign.Signer.Laws.{IsPart}
use aas_sign.Azure.{HttpResponse, endpoint_host}
use aas_sign.Azure.Sign.{SignBody, Round, poll_loop, delay}
use aas_sign.Azure.Polls.{Counts, Answers, poll_loop-ne-stuck}
use aas_sign.Azure.Oidc.{
  OidcRuntime, oidc_fetch_azure_token, oidc_fetch_azure_token-inv, Answered, mint_url, az_url,
  oidc_form, IsExchange,
}

host :
    endpoint_host (codes "https://eus.codesigning.azure.net/") ≡ codes "eus.codesigning.azure.net"
unfolding endpoint_host
host = refl

part : (s : Text) → is_nil s ≡ false → Free b':' s → IsPart s
part s h k = record { some_text = h; free = k }

abbrev tuple : SignerTuple
tuple = record {
  endpoint = codes "eus.codesigning.azure.net";
  account = codes "acct";
  profile = codes "prof";
}

parsed : parse_signer_tuple (codes "eus:acct:prof") ≡ ok tuple
unfolding parse_signer_tuple
parsed = refl

-- A service that never finishes, polled on a clock that shows the sleeps alone.
abbrev in_progress : SignBody
in_progress = record {
  operation_id = codes "1";
  status = codes "InProgress";
  signature = err "no signature";
  signing_certificate = err "no certificate";
}

abbrev parse_body : Text → Result SignBody
parse_body t = ok in_progress

ticks : ℕ → ℕ → ℕ → List Round
ticks zero i slept = []
ticks (suc k) i slept =
    record { elapsed = slept * 10 ^ 6; answer = ok (record { status = 200; body = [] }) }
    ∷ ticks k (i + 1) (slept + delay i)

ticks-Counts : (k i slept : ℕ) → Counts i slept (ticks k i slept)
unfolding ticks
ticks-Counts zero i slept = tt
ticks-Counts (suc k) i slept = (omega arith, ticks-Counts k (i + 1) (slept + delay i))

ticks-Answers : (k i slept : ℕ) → Answers (ticks k i slept)
unfolding ticks
ticks-Answers zero i slept = tt
ticks-Answers (suc k) i slept = ((λ p. cc), ticks-Answers k (i + 1) (slept + delay i))

length-ticks : (k i slept : ℕ) → k ≤ length (ticks k i slept)
unfolding ticks
length-ticks zero i slept = omega arith
length-ticks (suc k) i slept = omega (arith, length-ticks k (i + 1) (slept + delay i))

poll_loop-ne-stuck_example : poll_loop parse_body 0 in_progress (ticks 1202 0 0) ≢ stuck
poll_loop-ne-stuck_example =
    poll_loop-ne-stuck parse_body (λ t p. cc) in_progress (ticks 1202 0 0) (length-ticks 1202 0 0)
      (ticks-Counts 1202 0 0) (ticks-Answers 1202 0 0)

abbrev chain : List ℕ
chain = 48 ∷ 3 ∷ 2 ∷ 1 ∷ 7 ∷ []

-- The service sends its chain with line breaks.
abbrev pem : List ℕ
pem = codes "MAMC" ++ 10 ∷ codes "AQc=" ++ 10 ∷ []

abbrev succeeded : SignBody
succeeded = record {
  operation_id = codes "1";
  status = codes "Succeeded";
  signature = ok (base64_encode (1 ∷ 2 ∷ []));
  signing_certificate = ok (base64_encode pem);
}

-- A runner whose GitHub and Azure answer.
abbrev runner : OidcRuntime
runner = record { request_url = codes "https://h/t?v=1"; request_token = codes "rt" }

abbrev get : Text → Text → Result HttpResponse
get url token = ok (record { status = 200; body = codes "g" })

abbrev post : Text → Text → Text → Result HttpResponse
post url kind form = ok (record { status = 200; body = codes "a" })

abbrev bytes_value : Text → String → Result Text
bytes_value body key = ok (codes "aa")

minted :
    mint_url runner.request_url ≡ codes "https://h/t?v=1&audience=api%3A%2F%2FAzureADTokenExchange"
unfolding mint_url
minted = refl

fetched :
    oidc_fetch_azure_token get post bytes_value runner (codes "id") (codes "tn") ≡ ok (codes "aa")
unfolding oidc_fetch_azure_token mint_url oidc_form
fetched = refl

bytes_only : (body : Text) (key : String) (t : Text) → bytes_value body key ≡ ok t → All IsByte t
bytes_only body key t h = subst (All IsByte) (ok-injective h) (omega arith)

oidc_fetch_azure_token-inv_example :
    (is_nil runner.request_url ≡ false)
    × (is_nil runner.request_token ≡ false)
    × ((jwt : Text) × (form : Text) × Answered get post bytes_value
          (get (mint_url runner.request_url) runner.request_token)
          "value"
          jwt
        × IsExchange get post bytes_value (codes "id") jwt form
        × Answered get post bytes_value
            (post (az_url (codes "tn")) (codes "application/x-www-form-urlencoded") form)
            "access_token"
            (codes "aa"))
oidc_fetch_azure_token-inv_example =
    oidc_fetch_azure_token-inv get post bytes_value runner (codes "id") (codes "tn") (codes "aa")
      (omega arith) bytes_only fetched
