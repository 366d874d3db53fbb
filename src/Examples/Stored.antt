-- ===== src/Examples/Stored.antt =====
-- JSON values that are texts or flat objects, and files that can always be written.
use aas_sign.Base.{
  ℕ, zero, suc, ◌≡◌, ◌≢◌, refl, sym, ap, ◌∙◌, Bool, true, false, Bool-cases, inl, inr, List, [],
  ◌∷◌, none, Result, ok, ok-injective, err, Text, codes, bytes_eq, bytes_eq_refl, bytes_eq→eq,
  if◌then◌else◌,
}
use aas_sign.Files.{Files, file_at}
use aas_sign.Auth.{Json, IsJson, Disk, IsDisk}
use aas_sign.Examples.Toy.{file_at_here, file_at_other}

pub data Value : Type 0 where
  nothing : Value
  words : Text → Value
  members : List (Text × Text) → Value

-- A text that ends with a zero.
unfoldable pub ended : Text → Text → Text
ended [] rest = 0 ∷ rest
ended (c ∷ t) rest = suc c ∷ ended t rest

unfoldable pub print_members : List (Text × Text) → Text
unfolding ended
print_members [] = []
print_members ((k, v) ∷ kvs) = ended k (ended v (print_members kvs))

abbrev pub longer : ℕ → List Text → List Text
longer c [] = []
longer c (t ∷ ts) = (c ∷ t) ∷ ts

unfoldable pub split : Text → List Text
split [] = []
split (zero ∷ s) = [] ∷ split s
split (suc c ∷ s) = longer c (split s)

unfoldable pub paired : List Text → List (Text × Text)
paired [] = []
paired (k ∷ []) = []
paired (k ∷ v ∷ ts) = (k, v) ∷ paired ts

split-ended : (t rest : Text) → split (ended t rest) ≡ t ∷ split rest
unfolding split ended
split-ended [] rest = refl
split-ended (c ∷ t) rest = ap (longer c) (split-ended t rest)

read_back : (kvs : List (Text × Text)) → paired (split (print_members kvs)) ≡ kvs
unfolding print_members paired split
read_back [] = refl
read_back ((k, v) ∷ kvs) =
    ap paired (
      split-ended k (ended v (print_members kvs))
      ∙ ap (λ ts. k ∷ ts) (split-ended v (print_members kvs)))
    ∙ ap (λ r. (k, v) ∷ r) (read_back kvs)

unfoldable pub print : Value → Text
unfolding print_members
print nothing = []
print (words t) = 0 ∷ t
print (members kvs) = 1 ∷ print_members kvs

unfoldable pub read_value : Text → Result Value
unfolding paired split
read_value [] = ok nothing
read_value (zero ∷ t) = ok (words t)
read_value (suc c ∷ s) = ok (members (paired (split s)))

unfoldable pub look_up : Text → List (Text × Text) → Text
look_up key [] = []
look_up key ((k, v) ∷ kvs) = if bytes_eq k key then v else look_up key kvs

unfoldable pub value_of : Value → Text → Result Text
unfolding look_up
value_of (members kvs) key = ok (look_up key kvs)
value_of nothing key = err "type_error"
value_of (words t) key = err "type_error"

abbrev pub members_of : Value → List (Text × Text)
members_of (members kvs) = kvs
members_of nothing = []
members_of (words t) = []

abbrev pub words_of : Value → Text
words_of (words t) = t
words_of nothing = []
words_of (members kvs) = []

abbrev pub is_members : Value → Bool
is_members (members kvs) = true
is_members nothing = false
is_members (words t) = false

unfoldable pub toy_json : Json Value
unfolding value_of print read_value
toy_json = record {
  null = nothing;
  object = members [];
  text = words;
  number = λ n. words (n ∷ []);
  is_object = is_members;
  value = value_of;
  set = λ j key v. members ((key, words_of v) ∷ members_of j);
  parse = read_value;
  read_json = read_value;
  dump = λ j. ok (print j);
}

look_up_here : (key v : Text) (kvs : List (Text × Text)) → look_up key ((key, v) ∷ kvs) ≡ v
unfolding look_up
look_up_here key v kvs = rw (bytes_eq_refl key) refl

look_up_other :
    (key other v : Text) (kvs : List (Text × Text))
    → other ≢ key
    → look_up other ((key, v) ∷ kvs) ≡ look_up other kvs
unfolding look_up
look_up_other key other v kvs n = elim (Bool-cases (bytes_eq key other)) [
  | inl e ↦ absurd (n (sym (bytes_eq→eq key other e)))
  | inr e ↦ rw e refl
]

pub toy_json-IsJson : IsJson toy_json
unfolding toy_json value_of print read_value
toy_json-IsJson = record {
  is_object-object = refl;
  null-is_object = refl;
  is_object-set = λ j key v h. refl;
  is_object-null = λ key v. refl;
  value-set = λ j key v h. ap ok (look_up_here key v (members_of j));
  value-set_other = λ j key other v h n. other_value j key other v h n;
  read_json-dump = λ j t e. ap read_value (sym (ok-injective e)) ∙ read_print j;
}
  where
    other_value :
        (j : Value) (key other : Text) (v : Value)
        → is_members j ≡ true
        → other ≢ key
        → value_of (members ((key, words_of v) ∷ members_of j)) other ≡ value_of j other
    other_value (members kvs) key other v h n = ap ok (look_up_other key other (words_of v) kvs n)
    other_value nothing key other v h n = cc
    other_value (words t) key other v h n = cc

    read_print : (j : Value) → read_value (print j) ≡ ok j
    read_print nothing = refl
    read_print (words t) = refl
    read_print (members kvs) = ap (λ r. ok (members r)) (read_back kvs)

abbrev pub without : Text → Files → Files
without q [] = []
without q ((r, b) ∷ s) = if bytes_eq r q then without q s else (r, b) ∷ without q s

unfoldable pub toy_disk : Disk
toy_disk = record {
  config_dir = ok (codes "c");
  open_file = λ q s. file_at s q;
  atomic_write_private_file = λ q b s. (ok tt, (q, b) ∷ s);
  remove_file = λ q s. (ok tt, without q s);
}

without_gone : (q : Text) (s : Files) → file_at (without q s) q ≡ none
unfolding file_at
without_gone q [] = refl
without_gone q ((r, b) ∷ s) = elim (Bool-cases (bytes_eq r q)) [
  | inl e ↦ rw e (without_gone q s)
  | inr e ↦ rw (e, e) (without_gone q s)
]

pub toy_disk-IsDisk : IsDisk toy_disk
unfolding toy_disk
toy_disk-IsDisk = record {
  opened = λ q s. refl;
  written = λ q b s h. file_at_here q b s;
  written_other = λ q b s r n m. file_at_other q r b s n;
  unwritten = λ q b s h. absurd (h refl);
  removed = λ q s h. without_gone q s;
}
