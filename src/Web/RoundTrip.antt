-- ===== src/Web/RoundTrip.antt =====
-- What is encoded is decoded again.
use aas_sign.Base.{
  ℕ, zero, suc, ◌+◌, ◌%◌, ◌<◌, ◌≤◌, ◌≡◌, ◌≢◌, ◌∙◌, refl, ap, sym, arith, List, [], ◌∷◌, ◌++◌, true,
  some, bit_and, bit_or, All, IsByte, length, drop, Bool-cases, inl, inr, append_assoc, append-nil,
  length-append, All-append,
}
use mathlib.Core.Path.{ap₂}
use aas_sign.Base.Bits.{shr, shl, byte, bit_or_disjoint, bit_and_15, agree_below, agree_below→eq}
use aas_sign.Web.{
  is_unreserved, hex_digit, hex_value, url_encode, url_decode, before, after, Query, put, add_pair,
  query_loop, parse_query, form_loop, form_encode,
}

hex_back : (k : ℕ) → k < 16 → hex_value (hex_digit b'A' k) ≡ k
unfolding agree_below hex_value hex_digit
hex_back = agree_below→eq (λ k. hex_value (hex_digit b'A' k)) (λ k. k) 16 refl

unreserved_plain : (c : ℕ) → is_unreserved c ≡ true → (c ≢ b'+') × (c ≢ b'%')
unfolding is_unreserved
unreserved_plain c h = ground arith

byte_back :
    (c : ℕ)
    → IsByte c
    → byte (
        bit_or
          (shl (hex_value (hex_digit b'A' (bit_and (shr c 4) 0xf))) 4)
          (hex_value (hex_digit b'A' (bit_and c 0xf))))
      ≡ c
byte_back c h =
    rw
      (
        bit_and_15 (shr c 4),
        bit_and_15 c,
        hex_back (shr c 4 % 16) (omega arith),
        hex_back (c % 16) (omega arith),
      )
      (omega (arith, bit_or_disjoint 4 (shr c 4 % 16) (c % 16) (omega arith)))

decode_plain : (c : ℕ) (s : List ℕ) → c ≢ b'+' → c ≢ b'%' → url_decode (c ∷ s) ≡ c ∷ url_decode s
unfolding url_decode
decode_plain c [] p q = ground arith
decode_plain c (h ∷ []) p q = ground arith
decode_plain c (h ∷ l ∷ rest) p q = ground arith

decode_escaped :
    (h l : ℕ) (rest : List ℕ)
    → url_decode (b'%' ∷ h ∷ l ∷ rest)
      ≡ byte (bit_or (shl (hex_value h) 4) (hex_value l)) ∷ url_decode rest
unfolding url_decode
decode_escaped h l rest = refl

-- `url_decode` undoes `url_encode` on every byte string.
pub url_decode-url_encode : (s : List ℕ) → All IsByte s → url_decode (url_encode s) ≡ s
unfolding url_encode
url_decode-url_encode [] h = unfold url_decode in refl
url_decode-url_encode (c ∷ s) h = elim (Bool-cases (is_unreserved c)) [
  | inl e ↦ rw e (
      decode_plain c (url_encode s) (unreserved_plain c e).0 (unreserved_plain c e).1
      ∙ ap (λ t. c ∷ t) (url_decode-url_encode s h.1))
  | inr e ↦ rw e (
      decode_escaped (hex_digit b'A' (bit_and (shr c 4) 0xf)) (hex_digit b'A' (bit_and c 0xf))
        (url_encode s)
      ∙ ap₂ ◌∷◌ (byte_back c h.0) (url_decode-url_encode s h.1))
]

-- No character of the text is `c`.
abbrev pub Free : ℕ → List ℕ → Type 0
Free c s = All (λ x. x ≢ c) s

pub before-Free : (c : ℕ) (s rest : List ℕ) → Free c s → before c (s ++ c ∷ rest) ≡ s
unfolding before
before-Free c [] rest h = ground arith
before-Free c (x ∷ s) rest h = ground (arith, before-Free c s rest)

pub before-Free_all : (c : ℕ) (s : List ℕ) → Free c s → before c s ≡ s
unfolding before
before-Free_all c [] h = refl
before-Free_all c (x ∷ s) h = ground (arith, before-Free_all c s)

pub after-Free : (c : ℕ) (s rest : List ℕ) → Free c s → after c (s ++ c ∷ rest) ≡ some rest
unfolding after
after-Free c [] rest h = ground arith
after-Free c (x ∷ s) rest h = ground (arith, after-Free c s rest)

hex_digit-ne : (k : ℕ) → k < 16 → hex_digit b'A' k ≢ b'&'
unfolding hex_digit
hex_digit-ne k h = ground arith

url_encode-Free : (s : List ℕ) → Free b'&' (url_encode s)
unfolding url_encode is_unreserved
url_encode-Free [] = tt
url_encode-Free (c ∷ s) =
    let rest = url_encode-Free s in
    ground (
      arith,
      hex_digit-ne (bit_and (shr c 4) 0xf),
      hex_digit-ne (bit_and c 0xf),
      bit_and_15 c,
      bit_and_15 (shr c 4),
      rest,
    )

abbrev pub Pairs : Type 0
Pairs = List (List ℕ × List ℕ)

-- A key that a query string can carry as it is, and a value of bytes.
abbrev pub IsPair : List ℕ × List ℕ → Type 0
IsPair p = Free b'&' p.0 × Free b'=' p.0 × All IsByte p.1

pair_text : List ℕ × List ℕ → List ℕ
pair_text (k, v) = k ++ b'=' ∷ url_encode v

-- The pairs put into a map in their order.
abbrev pub put_all : Pairs → Query → Query
put_all [] q = q
put_all ((k, v) ∷ pairs) q = put_all pairs (put k v q)

abbrev more_pairs : Pairs → List ℕ
more_pairs [] = []
more_pairs (p ∷ pairs) = b'&' ∷ (pair_text p ++ more_pairs pairs)

form_loop-more :
    (c : ℕ) (out : List ℕ) (pairs : Pairs)
    → form_loop (c ∷ out) pairs ≡ (c ∷ out) ++ more_pairs pairs
unfolding form_loop pair_text
form_loop-more c out [] = sym (append-nil (c ∷ out))
form_loop-more c out ((k, v) ∷ pairs) =
    form_loop-more c (out ++ b'&' ∷ pair_text (k, v)) pairs
    ∙ ap (λ t. c ∷ t) (append_assoc out (b'&' ∷ pair_text (k, v)) (more_pairs pairs))

add_pair_lem :
    (k v : List ℕ) (q : Query) → IsPair (k, v) → add_pair (k ++ b'=' ∷ url_encode v) q ≡ put k v q
unfolding add_pair
add_pair_lem k v q (_, eq, bytes) = rw (
  before-Free b'=' k (url_encode v) eq,
  after-Free b'=' k (url_encode v) eq,
  url_decode-url_encode v bytes,
)

drop-past : (t rest : List ℕ) (c : ℕ) → drop (length t + 1) (t ++ c ∷ rest) ≡ rest
drop-past [] rest c = refl
drop-past (x ∷ t) rest c =
    let e : suc (length t) + 1 ≡ suc (length t + 1) = omega arith in rw e (drop-past t rest c)

drop-past_all : (t : List ℕ) → drop (length t + 1) t ≡ []
drop-past_all [] = refl
drop-past_all (x ∷ t) =
    let e : suc (length t) + 1 ≡ suc (length t + 1) = omega arith in rw e (drop-past_all t)

query_loop_round :
    (fuel c : ℕ) (qs : List ℕ) (q : Query)
    → query_loop (suc fuel) (c ∷ qs) q
      ≡ query_loop fuel
          (drop (length (before b'&' (c ∷ qs)) + 1) (c ∷ qs))
          (add_pair (before b'&' (c ∷ qs)) q)
unfolding query_loop
query_loop_round fuel c qs q = refl

query_loop-last :
    (fuel x : ℕ) (t : List ℕ) (q : Query)
    → Free b'&' (x ∷ t)
    → query_loop (suc fuel) (x ∷ t) q ≡ query_loop fuel [] (add_pair (x ∷ t) q)
query_loop-last fuel x t q h =
    rw (query_loop_round fuel x t q, before-Free_all b'&' (x ∷ t) h, drop-past_all (x ∷ t))

query_loop-next :
    (fuel x : ℕ) (t rest : List ℕ) (q : Query)
    → Free b'&' (x ∷ t)
    → query_loop (suc fuel) ((x ∷ t) ++ b'&' ∷ rest) q ≡ query_loop fuel rest (add_pair (x ∷ t) q)
query_loop-next fuel x t rest q h = rw (
  query_loop_round fuel x (t ++ b'&' ∷ rest) q,
  before-Free b'&' (x ∷ t) rest h,
  drop-past (x ∷ t) rest b'&',
)

-- A pair is written with a character at least, and without `&`.
pair_text-cons : (p : List ℕ × List ℕ) → (x : ℕ) × (t : List ℕ) × (pair_text p ≡ x ∷ t)
unfolding pair_text
pair_text-cons ([], v) = (b'=', url_encode v, refl)
pair_text-cons (x ∷ k, v) = (x, k ++ b'=' ∷ url_encode v, refl)

pair_text-Free : (p : List ℕ × List ℕ) → IsPair p → Free b'&' (pair_text p)
unfolding pair_text
pair_text-Free (k, v) h =
    All-append (λ x. x ≢ b'&') k (b'=' ∷ url_encode v) h.0 (omega arith, url_encode-Free v)

pair_text_add :
    (p : List ℕ × List ℕ) (q : Query) → IsPair p → add_pair (pair_text p) q ≡ put p.0 p.1 q
unfolding pair_text
pair_text_add (k, v) q h = add_pair_lem k v q h

query_loop-nil : (fuel : ℕ) (q : Query) → query_loop fuel [] q ≡ q
unfolding query_loop
query_loop-nil zero q = refl
query_loop-nil (suc fuel) q = refl

query_loop-more :
    (pairs : Pairs) (fuel : ℕ) (p : List ℕ × List ℕ) (q : Query)
    → All IsPair (p ∷ pairs)
    → length (pair_text p ++ more_pairs pairs) ≤ fuel
    → query_loop fuel (pair_text p ++ more_pairs pairs) q ≡ put_all (p ∷ pairs) q
query_loop-more pairs zero p q h k =
    let (x, t, e) = pair_text-cons p in
    absurd (omega (arith, length-append (pair_text p) (more_pairs pairs), ap length e))
query_loop-more [] (suc fuel) p q h k =
    let (x, t, e) = pair_text-cons p in
    rw (append-nil, e)
      (query_loop-last fuel x t q (rw e at (pair_text-Free p h.0))
        ∙ query_loop-nil fuel (add_pair (x ∷ t) q)
        ∙ ap (λ s. add_pair s q) (sym e)
        ∙ pair_text_add p q h.0)
query_loop-more (p' ∷ pairs) (suc fuel) p q h k =
    let (x, t, e) = pair_text-cons p in
    let rest = pair_text p' ++ more_pairs pairs in
    let size : length rest ≤ fuel = omega (arith, length-append (pair_text p) (b'&' ∷ rest), k) in
    rw e (
      query_loop-next fuel x t rest q (rw e at (pair_text-Free p h.0))
      ∙ ap (λ s. query_loop fuel rest (add_pair s q)) (sym e)
      ∙ ap (query_loop fuel rest) (pair_text_add p q h.0)
      ∙ query_loop-more pairs fuel p' (put p.0 p.1 q) h.1 size)

form_encode-more :
    (p : List ℕ × List ℕ) (pairs : Pairs)
    → form_encode (p ∷ pairs) ≡ pair_text p ++ more_pairs pairs
unfolding form_encode pair_text
form_encode-more ([], v) pairs = form_loop-more b'=' (url_encode v) pairs
form_encode-more (c ∷ k, v) pairs = form_loop-more c (k ++ b'=' ∷ url_encode v) pairs

-- A form in the query of a target whose path has no `?` is parsed into its pairs, in their order
-- and with a later value in the place of an earlier one of the same key. The keys hold no `&` and
-- no `=`; the values are any bytes.
pub parse_query-form_encode :
    (path : List ℕ) (pairs : Pairs)
    → Free b'?' path
    → All IsPair pairs
    → parse_query (path ++ b'?' ∷ form_encode pairs) ≡ put_all pairs []
unfolding parse_query
parse_query-form_encode path [] free h =
    rw (after-Free b'?' path (form_encode []) free) (unfold form_encode query_loop in refl)
parse_query-form_encode path (p ∷ pairs) free h =
    rw (after-Free b'?' path (form_encode (p ∷ pairs)) free, form_encode-more p pairs)
      (query_loop-more pairs (length (pair_text p ++ more_pairs pairs)) p [] h (omega arith))
