-- ===== src/Azure/Polls.antt =====
-- About the polling loop of `azure_sign` of src/azure.cpp, and the result read from the final body.
use Prim.Native.Nat.{min}
use aas_sign.Base.{
  ℕ, ◌+◌, ◌*◌, ◌^◌, ◌≤◌, ◌≡◌, ◌≢◌, refl, arith, List, [], ◌∷◌, true, false, not, Result, ok, stuck,
  ◌>>=◌, ◌>>◌, guard, Text, is, ltb, ◌==◌, length, All, IsByte, >>=-ne-stuck, if-ne-stuck,
  ok-ne-stuck, err-ne-stuck, guard-ne-stuck, Bool-cases, inl, inr,
}
use aas_sign.Base64.{base64_encode, base64_mime_decode, decode_char}
use aas_sign.Base64.RoundTrip.{keep, base64_decode-base64_encode}
use aas_sign.Azure.{HttpResponse}
use aas_sign.Azure.Sign.{SignBody, Round, time_limit, delay, poll_loop, sign_result}

-- A clock that counts the sleeps: a round begins no earlier than the milliseconds slept so far.
abbrev pub Counts : ℕ → ℕ → List Round → Type 0
Counts i slept [] = Unit
Counts i slept (r ∷ rounds) = (slept * 10 ^ 6 ≤ r.elapsed) × Counts (i + 1) (slept + delay i) rounds

min_ge : (a b : ℕ) → 50 ≤ a → 50 ≤ b → 50 ≤ min a b
min_ge a b h k = omega arith

in_delay : (i slept : ℕ) → 50 * i ≤ slept → 50 * (i + 1) ≤ slept + delay i
in_delay i slept h = let d = min_ge 1000 (50 + 10 * i) (omega arith) (omega arith) in omega arith

in_time :
    (i slept elapsed : ℕ)
    → 50 * i ≤ slept
    → slept * 10 ^ 6 ≤ elapsed
    → ltb time_limit elapsed ≡ false
    → i + 1 ≤ 1201
in_time i slept elapsed h k e = ground arith

-- Polls that answer or throw.
abbrev pub Answers : List Round → Type 0
Answers rounds = All (λ r. r.answer ≢ stuck) rounds

module _ (parse : Text → Result SignBody) (parses : (t : Text) → parse t ≢ stuck) where
  round_ends :
      (answer : Result HttpResponse) (k : SignBody → Result SignBody)
      → answer ≢ stuck
      → ((b : SignBody) → k b ≢ stuck)
      → (do
        poll ← answer
        guard (poll.status == 200) "Azure sign poll failed"
        body' ← parse poll.body
        k body')
        ≢ stuck
  round_ends answer k a e = >>=-ne-stuck answer _ a (λ poll _.
      >>=-ne-stuck (guard (poll.status == 200) "Azure sign poll failed") _ (guard-ne-stuck _ _)
        (λ _ _. >>=-ne-stuck (parse poll.body) k (parses poll.body) (λ b _. e b)))

  poll_loop_ends :
      (i slept : ℕ) (body : SignBody) (rounds : List Round)
      → 50 * i ≤ slept
      → i ≤ 1201
      → 1202 ≤ i + length rounds
      → Counts i slept rounds
      → Answers rounds
      → poll_loop parse i body rounds ≢ stuck
  unfolding poll_loop
  poll_loop_ends i slept body [] h hi n c a = absurd (omega arith)
  poll_loop_ends i slept body (r ∷ rounds) h hi n c a =
      if-ne-stuck (not (is body.status "InProgress")) (ok body) _ (ok-ne-stuck body)
        (elim (Bool-cases (ltb time_limit r.elapsed)) [
          | inl late ↦ rw late (err-ne-stuck "Azure signing operation timed out")
          | inr early ↦ rw early (
              round_ends r.answer (λ body'. poll_loop parse (i + 1) body' rounds) a.0
                (λ body'.
                  poll_loop_ends (i + 1) (slept + delay i) body' rounds (in_delay i slept h)
                    (in_time i slept r.elapsed h c.0 early) (omega arith) c.1 a.1))
        ])

  -- With a clock that counts the sleeps the loop needs 1202 rounds at most: then it has returned,
  -- or thrown, at the latest because the 60 seconds are over.
  pub poll_loop-ne-stuck :
      (body : SignBody) (rounds : List Round)
      → 1202 ≤ length rounds
      → Counts 0 0 rounds
      → Answers rounds
      → poll_loop parse 0 body rounds ≢ stuck
  poll_loop-ne-stuck body rounds n c a =
      poll_loop_ends 0 0 body rounds (omega arith) (omega arith) (omega arith) c a

-- A final body with status Succeeded, whose signature is the base64 of the signature's bytes and whose
-- certificate is the base64 of a text with the base64 characters of the chain, gives back both.
pub sign_result_lem :
    (body : SignBody) (signature chain pem : List ℕ)
    → is body.status "Succeeded" ≡ true
    → body.signature ≡ ok (base64_encode signature)
    → body.signing_certificate ≡ ok (base64_encode pem)
    → keep decode_char pem ≡ keep decode_char (base64_encode chain)
    → All IsByte signature
    → All IsByte chain
    → All IsByte pem
    → sign_result body ≡ ok (record { signature = signature; cert_chain_der = chain })
unfolding sign_result base64_mime_decode
sign_result_lem body signature chain pem st sg ct k hs hc hp = rw (
  st,
  sg,
  ct,
  base64_decode-base64_encode signature (base64_encode signature) hs refl,
  base64_decode-base64_encode pem (base64_encode pem) hp refl,
  base64_decode-base64_encode chain pem hc k,
)
