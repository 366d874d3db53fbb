-- ===== src/Signer/Laws.antt =====
-- Which texts are signer tuples, and what they stand for.
use aas_sign.Base.{
  ℕ, ◌≡◌, ◌∙◌, refl, ap, arith, [], ◌∷◌, ◌++◌, false, Option, none, some, ok, Text, is_nil,
}
use aas_sign.Web.{before, after}
use aas_sign.Web.RoundTrip.{Free, before-Free, after-Free}
use aas_sign.Signer.{
  SignerTuple, expand_region, check_parts, last_part, second_part, first_part, parse_signer_tuple,
}

-- A part of the tuple: not empty, and with no separator in it.
pub record IsPart (s : Text) : Type 0 where
  pub some_text : is_nil s ≡ false
  pub free : Free b':' s

after-Free_all : (c : ℕ) (s : Text) → Free c s → after c s ≡ none
unfolding after
after-Free_all c [] h = refl
after-Free_all c (x ∷ s) h = ground (arith, after-Free_all c s)

after-none : (c : ℕ) (s : Text) → after c s ≡ none → Free c s
unfolding after
after-none c [] h = tt
after-none c (x ∷ s) h = ground (arith, after-none c s)

after-some :
    (c : ℕ) (s rest : Text)
    → after c s ≡ some rest
    → (s ≡ before c s ++ c ∷ rest) × Free c (before c s)
unfolding after before
after-some c [] rest h = cc
after-some c (x ∷ s) rest h = ground (arith, after-some c s rest)

-- The tuple of three parts.
abbrev pub tuple_text : Text → Text → Text → Text
tuple_text region account profile = region ++ b':' ∷ (account ++ b':' ∷ profile)

-- Three parts that are not empty and hold no `:`, joined by `:`, are parsed into themselves, with
-- the region expanded to an endpoint.
pub parse_signer_tuple-tuple_text :
    (region account profile : Text)
    → IsPart region
    → IsPart account
    → IsPart profile
    → parse_signer_tuple (tuple_text region account profile)
      ≡ ok (record { endpoint = expand_region region; account = account; profile = profile })
unfolding parse_signer_tuple check_parts
parse_signer_tuple-tuple_text region account profile r a p = rw (
  after-Free b':' region (account ++ b':' ∷ profile) r.free,
  before-Free b':' region (account ++ b':' ∷ profile) r.free,
  after-Free b':' account profile a.free,
  before-Free b':' account profile a.free,
  after-Free_all b':' profile p.free,
  r.some_text,
  a.some_text,
  p.some_text,
)

check_parts-inv :
    (region account profile : Text) (t : SignerTuple)
    → check_parts region account profile ≡ ok t
    → (is_nil region ≡ false)
      × (is_nil account ≡ false)
      × (is_nil profile ≡ false)
      × (t ≡ record { endpoint = expand_region region; account = account; profile = profile })
unfolding check_parts
check_parts-inv region account profile t h =
    (ground arith, ground arith, ground arith, ground arith)

last_part-inv :
    (region account profile : Text) (o : Option Text) (t : SignerTuple)
    → last_part region account profile o ≡ ok t
    → (o ≡ none) × (check_parts region account profile ≡ ok t)
unfolding last_part
last_part-inv region account profile none t h = (refl, h)
last_part-inv region account profile (some x) t h = cc

second_part-inv :
    (region rest : Text) (o : Option Text) (t : SignerTuple)
    → second_part region rest o ≡ ok t
    → (profile : Text) × (o ≡ some profile)
      × (last_part region (before b':' rest) profile (after b':' profile) ≡ ok t)
unfolding second_part
second_part-inv region rest none t h = cc
second_part-inv region rest (some profile) t h = (profile, refl, h)

first_part-inv :
    (s : Text) (o : Option Text) (t : SignerTuple)
    → first_part s o ≡ ok t
    → (rest : Text) × (o ≡ some rest) × (second_part (before b':' s) rest (after b':' rest) ≡ ok t)
unfolding first_part
first_part-inv s none t h = cc
first_part-inv s (some rest) t h = (rest, refl, h)

-- Only such a join is accepted: a text that is parsed is three parts, not empty and without `:`,
-- joined by `:`, and the result holds them with the first expanded.
pub parse_signer_tuple-inv :
    (s : Text) (t : SignerTuple)
    → parse_signer_tuple s ≡ ok t
    → (region : Text) × (s ≡ tuple_text region t.account t.profile)
      × (t.endpoint ≡ expand_region region)
      × IsPart region
      × IsPart t.account
      × IsPart t.profile
parse_signer_tuple-inv s t h =
    let (rest, e₁, h₁) = first_part-inv s (after b':' s) t (unfold parse_signer_tuple in h) in
    let (profile, e₂, h₂) = second_part-inv (before b':' s) rest (after b':' rest) t h₁ in
    let (e₃, h₃) =
      last_part-inv (before b':' s) (before b':' rest) profile (after b':' profile) t h₂ in
    let (r, a, p, e) = check_parts-inv (before b':' s) (before b':' rest) profile t h₃ in
    let (s_eq, s_free) = after-some b':' s rest e₁ in
    let (rest_eq, rest_free) = after-some b':' rest profile e₂ in
    rw e (
      before b':' s,
      s_eq ∙ ap (λ u. before b':' s ++ b':' ∷ u) rest_eq,
      refl,
      record { some_text = r; free = s_free },
      record { some_text = a; free = rest_free },
      record { some_text = p; free = after-none b':' profile e₃ },
    )
