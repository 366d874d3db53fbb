-- ===== src/Der/Sets.antt =====
-- `der_set` of src/der.cpp: the parts in lexicographic order.
use aas_sign.Base.{ℕ, List, [], ◌∷◌, Bool, true, false, ltb, if◌then◌else◌}
use aas_sign.Der.{der_wrap, der_cat, der_set_tag}

-- std::lexicographical_compare on bytes
pub lexicographical_compare : List ℕ → List ℕ → Bool
lexicographical_compare [] [] = false
lexicographical_compare [] (y ∷ ys) = true
lexicographical_compare (x ∷ xs) [] = false
lexicographical_compare (x ∷ xs) (y ∷ ys) =
    if ltb x y then true else if ltb y x then false else lexicographical_compare xs ys

insert : List ℕ → List (List ℕ) → List (List ℕ)
insert a [] = a ∷ []
insert a (b ∷ l) = if lexicographical_compare b a then b ∷ insert a l else a ∷ b ∷ l

-- std::sort; elements that compare equal are equal, so every sort gives this list.
pub sort : List (List ℕ) → List (List ℕ)
sort [] = []
sort (a ∷ l) = insert a (sort l)

unfoldable pub der_set : List (List ℕ) → List ℕ
unfolding sort insert lexicographical_compare
der_set parts = der_wrap der_set_tag (der_cat (sort parts))
