-- ===== src/Http/Endless.antt =====
-- When the loop of `parse_http_response` of src/posix.cpp over the chunks of a body does not end.
use aas_sign.Base.{
  ℕ, zero, suc, ◌+◌, ◌-◌, ◌%◌, ◌^◌, ◌<◌, ◌≤◌, ltb, ◌==◌, ◌≡◌, ◌≢◌, refl, true, false, Bool-cases,
  Option-cases, inl, inr, arith, [], ◌∷◌, ◌++◌, length, take, drop, Option, some, Result, ok, err,
  stuck, ◌>>=◌, total_rules, ok-ne-stuck, err-ne-stuck, Text, if◌then◌else◌,
}
use aas_sign.Http.{
  find_text, crlf, hex_digit_value, digits_from, number_of, skip_spaces, sign_of, without_prefix,
  stoul_16, behind_chunk, decode_chunks,
}
use aas_sign.Http.Chunks.{Wraps}

sum_mod : (n : ℕ) → ltb n (2 ^ 64) ≡ true → n % 2 ^ 64 ≡ n
sum_mod n h = ground arith

sum_large : (n : ℕ) → ltb n (2 ^ 64) ≡ false → 2 ^ 64 ≤ n
sum_large n h = ground arith

inside_lt : (at total : ℕ) → ltb at total ≡ true → at < total
inside_lt at total h = ground arith

number_of-ne-stuck : (value : ℕ → Option ℕ) (base : ℕ) (s : Text) → number_of value base s ≢ stuck
unfolding number_of
number_of-ne-stuck value base [] h = cc
number_of-ne-stuck value base (c ∷ s) h = elim (Option-cases (value c)) [
  | inl e ↦ err-ne-stuck "no conversion" (rw (number_of, e) at h)
  | inr (d, e) ↦ ok-ne-stuck (digits_from value base d s) (rw (number_of, e) at h)
]

stoul_16-ne-stuck : (s : Text) → stoul_16 s ≢ stuck
unfolding stoul_16
stoul_16-ne-stuck s =
    search
      (
        total_rules,
        number_of-ne-stuck hex_digit_value 16 (without_prefix (sign_of (skip_spaces s)).1),
      )
      depth 30

-- A round that does not end the loop.
module _ (fuel : ℕ) (src : Text) (at : ℕ) (decoded : Text)
    (others : (at' : ℕ) (t : Text)
      → length src - at' < fuel
      → decode_chunks fuel src at' t ≡ stuck
      → Wraps src)
    (l : length src - at < suc fuel) (i : at < length src) where
  sized :
      (k : ℕ) (r : Result ℕ)
      → find_text crlf (drop at src) ≡ some k
      → stoul_16 (take k (drop at src)) ≡ r
      → (r >>= λ n.
          if n == 0
          then ok decoded
          else decode_chunks fuel src
              (behind_chunk at k n)
              (decoded ++ take n (drop (at + k + 2) src)))
        ≡ stuck
      → Wraps src
  sized k stuck f e h = absurd (stoul_16-ne-stuck _ e)
  sized k (err why) f e h = cc
  sized k (ok n) f e h = elim (Bool-cases (n == 0)) [
    | inl z ↦ absurd (ok-ne-stuck decoded (rw z at h))
    | inr z ↦ elim (Bool-cases (ltb (at + k + 2 + (n + 2)) (2 ^ 64))) [
      | inr w ↦ (at, k, n, i, f, e, sum_large _ w)
      | inl w ↦
          let same = sum_mod _ w in others (behind_chunk at k n) _ (omega (arith, same)) (rw z at h)
    ]
  ]

decode_chunks-Wraps :
    (fuel : ℕ) (src : Text) (at : ℕ) (decoded : Text)
    → length src - at < fuel
    → decode_chunks fuel src at decoded ≡ stuck
    → Wraps src
unfolding decode_chunks
decode_chunks-Wraps zero src at decoded l h = absurd (omega arith)
decode_chunks-Wraps (suc fuel) src at decoded l h = elim (Bool-cases (ltb at (length src))) [
  | inr e ↦ absurd (ok-ne-stuck decoded (rw e at h))
  | inl e ↦ elim (Option-cases (find_text crlf (drop at src))) [
    | inl f ↦ absurd (ok-ne-stuck decoded (rw (e, f) at h))
    | inr (k, f) ↦
        sized fuel src at decoded (λ at' t. decode_chunks-Wraps fuel src at' t) l
          (inside_lt at (length src) e) k (stoul_16 (take k (drop at src))) f refl (rw (e, f) at h)
  ]
]

-- The loop over the chunks of a body ends within as many rounds as the body has characters, and one
-- more, unless a line in the body is read as a size so large that the position behind its chunk wraps
-- around: where these rounds are not enough there is such a line, which ends inside the body.
pub decode_chunks-stuck-Wraps :
    (src : Text) → decode_chunks (length src + 1) src 0 [] ≡ stuck → Wraps src
decode_chunks-stuck-Wraps src h = decode_chunks-Wraps (length src + 1) src 0 [] (omega arith) h
