-- ===== src/Azure/Sign.antt =====
-- `azure_sign` of src/azure.cpp.
use Prim.Native.Nat.{min}
use aas_sign.Base.{
  ℕ, ◌+◌, ◌*◌, ◌^◌, List, [], ◌∷◌, ◌++◌, not, ◌||◌, Result, ok, err, stuck, ◌>>=◌, ◌>>◌, guard,
  Text, codes, is, ltb, ◌==◌, if◌then◌else◌,
}
use aas_sign.Base64.{base64_encode, base64_decode, base64_mime_decode}
use aas_sign.Azure.{HttpResponse, endpoint_host}

-- What the program reads from the body of an answer: `value(key, "")` of the first two, and
-- `body[key].get<std::string>()` of the others, which throws where there is no such text.
pub record SignBody : Type 0 where
  pub operation_id : Text
  pub status : Text
  pub signature : Result Text
  pub signing_certificate : Result Text

pub record AzureSignResult : Type 0 where
  pub signature : List ℕ
  pub cert_chain_der : List ℕ

-- A round of the polling loop: the nanoseconds since its start when the round begins, and what the
-- poll of that round answers.
pub record Round : Type 0 where
  pub elapsed : ℕ
  pub answer : Result HttpResponse

abbrev pub time_limit : ℕ
time_limit = 60 * 10 ^ 9

-- milliseconds before the poll of round i
abbrev pub delay : ℕ → ℕ
delay i = min 1000 (50 + 10 * i)

-- The certificate is the base64 of a PEM text, which is base64 again.
unfoldable pub sign_result : SignBody → Result AzureSignResult
sign_result body = do
  guard (is body.status "Succeeded") "Azure signing failed"
  signature ← body.signature
  certificate ← body.signing_certificate
  let pem_text = base64_decode certificate
  ok (record { signature = base64_decode signature; cert_chain_der = base64_mime_decode pem_text })

module _ (parse : Text → Result SignBody) where
  -- while (status == "InProgress"); `stuck` is a loop that outlives the rounds it is given.
  unfoldable pub poll_loop : ℕ → SignBody → List Round → Result SignBody
  poll_loop i body [] = if is body.status "InProgress" then stuck else ok body
  poll_loop i body (r ∷ rounds) =
      let next = (do
        poll ← r.answer
        guard (poll.status == 200) "Azure sign poll failed"
        body' ← parse poll.body
        poll_loop (i + 1) body' rounds) in
      if not (is body.status "InProgress")
      then ok body
      else if ltb time_limit r.elapsed
      then err "Azure signing operation timed out"
      else next

  -- The rounds of a loop that polls, from the times of the clock; the poll of round i is the i-th.
  abbrev pub rounds_of : (ℕ → Result HttpResponse) → ℕ → List ℕ → List Round
  rounds_of poll i [] = []
  rounds_of poll i (elapsed ∷ clock) =
      record { elapsed = elapsed; answer = poll i } ∷ rounds_of poll (i + 1) clock

  abbrev pub profile_path : Text → Text → Text
  profile_path account profile =
      codes "/codesigningaccounts/" ++ (account ++ (codes "/certificateprofiles/" ++ profile))

  abbrev pub poll_path : Text → Text → Text → Text
  poll_path account profile operation_id =
      profile_path account profile
      ++ (codes "/sign/" ++ (operation_id ++ codes "?api-version=2022-06-15-preview"))

  -- `https_get` is told which of its calls it is, and `clock` is what the loop sees on the clock.
  module _ (https_post : Text → Text → Text → Text → Result HttpResponse)
      (https_get : Text → Text → Text → ℕ → Result HttpResponse) (dump : Text → Text → Text) where
    unfoldable pub azure_sign : Text → Text → Text → Text → List ℕ → List ℕ → Result AzureSignResult
    unfolding poll_loop sign_result
    azure_sign endpoint account profile token digest clock = do
      let host = endpoint_host endpoint
      resp ←
          https_post host
            (profile_path account profile ++ codes "/sign?api-version=2022-06-15-preview") token
            (dump (codes "RS256") (base64_encode digest))
      guard (resp.status == 200 || resp.status == 202) "Azure sign POST failed"
      body ← parse resp.body
      let poll = https_get host (poll_path account profile body.operation_id) token
      final ← poll_loop 0 body (rounds_of poll 0 clock)
      sign_result final
