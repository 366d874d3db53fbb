-- ===== src/Process/Withheld.antt =====
-- The environment that the companion gets from src/posix.cpp and from src/win32.cpp.
use aas_sign.Base.{
  ℕ, arith, if◌then◌else◌, ◌≡◌, ◌≢◌, ◌↔◌, ◌⊎◌, refl, sym, ap, ◌∙◌, true, false, Bool-cases, inl,
  inr, List, [], ◌∷◌, ◌++◌, map, Text, codes, is, subst, ==_refl, bytes_eq, bytes_eq→eq,
}
use aas_sign.Web.{before}
use aas_sign.Process.{private_environment, starts_with, posix_environment}
use aas_sign.Process.Windows.{entry_name, child_entries, child_environment, finished}

abbrev pub In : Text → List Text → Type 0
In e [] = ⊥
In e (x ∷ xs) = (e ≡ x) ⊎ In e xs

true-ne-false : true ≢ false
true-ne-false h = cc

abbrev pub Begins : Text → Text → Type 0
Begins name prefix = (rest : Text) × (name ≡ prefix ++ rest)

-- The names of the tokens and the settings of Azure, of a run's tokens, and of the tokens of GitHub.
pub data IsSecret (name : Text) : Type 0 where
  azure : Begins name (codes "AZURE_") → IsSecret name
  id_token : Begins name (codes "ACTIONS_ID_TOKEN_") → IsSecret name
  gh_token : name ≡ codes "GH_TOKEN" → IsSecret name
  github_token : name ≡ codes "GITHUB_TOKEN" → IsSecret name
  input_token : name ≡ codes "INPUT_TOKEN" → IsSecret name
  gh_enterprise : name ≡ codes "GH_ENTERPRISE_TOKEN" → IsSecret name
  github_enterprise : name ≡ codes "GITHUB_ENTERPRISE_TOKEN" → IsSecret name

starts_with-Begins : (name prefix : Text) → starts_with name prefix ≡ true → Begins name prefix
unfolding starts_with
starts_with-Begins name [] h = (name, refl)
starts_with-Begins [] (c ∷ prefix) h = cc
starts_with-Begins (d ∷ name) (c ∷ prefix) h =
    let same : d ≡ c = ground arith in
    let more : starts_with name prefix ≡ true = ground arith in
    let (rest, e) = starts_with-Begins name prefix more in (rest, cc)

starts_with-append : (prefix rest : Text) → starts_with (prefix ++ rest) prefix ≡ true
unfolding starts_with
starts_with-append [] rest = refl
starts_with-append (c ∷ prefix) rest = rw (==_refl c) (starts_with-append prefix rest)

private-IsSecret : (name : Text) → private_environment name ≡ true → IsSecret name
unfolding private_environment
private-IsSecret name h = elim (Bool-cases (starts_with name (codes "AZURE_"))) [
  | inl e ↦ azure (starts_with-Begins name (codes "AZURE_") e)
  | inr e₁ ↦ elim (Bool-cases (starts_with name (codes "ACTIONS_ID_TOKEN_"))) [
    | inl e ↦ id_token (starts_with-Begins name (codes "ACTIONS_ID_TOKEN_") e)
    | inr e₂ ↦ elim (Bool-cases (is name "GH_TOKEN")) [
      | inl e ↦ gh_token (bytes_eq→eq name _ e)
      | inr e₃ ↦ elim (Bool-cases (is name "GITHUB_TOKEN")) [
        | inl e ↦ github_token (bytes_eq→eq name _ e)
        | inr e₄ ↦ elim (Bool-cases (is name "INPUT_TOKEN")) [
          | inl e ↦ input_token (bytes_eq→eq name _ e)
          | inr e₅ ↦ elim (Bool-cases (is name "GH_ENTERPRISE_TOKEN")) [
            | inl e ↦ gh_enterprise (bytes_eq→eq name _ e)
            | inr e₆ ↦ github_enterprise (bytes_eq→eq name _ (rw (e₁, e₂, e₃, e₄, e₅, e₆) at h))
          ]
        ]
      ]
    ]
  ]
]

IsSecret-private : {name : Text} → IsSecret name → private_environment name ≡ true
unfolding private_environment starts_with bytes_eq
IsSecret-private (azure (rest, e)) = rw e refl
IsSecret-private (id_token (rest, e)) = rw e refl
IsSecret-private (gh_token e) = rw e refl
IsSecret-private (github_token e) = rw e refl
IsSecret-private (input_token e) = rw e refl
IsSecret-private (gh_enterprise e) = rw e refl
IsSecret-private (github_enterprise e) = rw e refl

public_iff : (name : Text) → (private_environment name ≡ false) ↔ (IsSecret name → ⊥)
public_iff name = (
  λ h k. true-ne-false (sym (IsSecret-private k) ∙ h),
  λ n. elim (Bool-cases (private_environment name)) [
    | inl e ↦ absurd (n (private-IsSecret name e))
    | inr e ↦ e
  ],
)

-- An entry whose name is none of these.
abbrev pub Public : Text → Type 0
Public entry = IsSecret (before b'=' entry) → ⊥

-- The entries that are left are the public ones.
pub posix_environment_iff :
    (e : Text) (entries : List Text) → In e (posix_environment entries) ↔ (In e entries × Public e)
unfolding posix_environment
posix_environment_iff e [] = (λ h. elim h [ ], λ h. elim h.0 [ ])
posix_environment_iff e (x ∷ entries) =
    let (there, back) = posix_environment_iff e entries in
    elim (Bool-cases (private_environment (before b'=' x))) [
      | inl w ↦ (
        λ h. let k = there (rw w at h) in (inr k.0, k.1),
        λ h. rw w (elim h.0 [
          | inl same ↦
              absurd (h.1 (subst (λ y. IsSecret (before b'=' y)) (sym same) (private-IsSecret _ w)))
          | inr k ↦ back (k, h.1)
        ]),
      )
      | inr w ↦ (
        λ h.
            let h' : (e ≡ x) ⊎ In e (posix_environment entries) = rw w at h in
            elim h' [
              | inl same ↦ (inl same, subst Public (sym same) ((public_iff (before b'=' x)).0 w))
              | inr k ↦ (inr (there k).0, (there k).1)
            ],
        λ h. rw w (elim h.0 [ inl same ↦ inl same | inr k ↦ inr (back (k, h.1)) ]),
      )
    ]

-- The entries one behind another, each with a NUL.
abbrev pub block : List Text → Text
block [] = []
block (entry ∷ entries) = entry ++ 0 ∷ block entries

-- An entry of Windows whose name, in capitals, is none of the secret ones.
abbrev pub PublicUpper : (ℕ → ℕ) → Text → Type 0
PublicUpper towupper entry = IsSecret (map towupper (entry_name entry)) → ⊥

kept : (ℕ → ℕ) → List Text → List Text
unfolding private_environment entry_name
kept towupper [] = []
kept towupper (entry ∷ entries) =
    if private_environment (map towupper (entry_name entry))
    then kept towupper entries
    else entry ∷ kept towupper entries

child_entries-kept :
    (towupper : ℕ → ℕ) (entries : List Text)
    → child_entries towupper entries ≡ block (kept towupper entries)
unfolding child_entries kept
child_entries-kept towupper [] = refl
child_entries-kept towupper (entry ∷ entries) =
    let k = child_entries-kept towupper entries in
    elim (Bool-cases (private_environment (map towupper (entry_name entry)))) [
      | inl e ↦ rw e k
      | inr e ↦ rw e (ap (λ t. entry ++ 0 ∷ t) k)
    ]

kept_iff :
    (towupper : ℕ → ℕ) (e : Text) (entries : List Text)
    → In e (kept towupper entries) ↔ (In e entries × PublicUpper towupper e)
unfolding kept
kept_iff towupper e [] = (λ h. elim h [ ], λ h. elim h.0 [ ])
kept_iff towupper e (x ∷ entries) =
    let (there, back) = kept_iff towupper e entries in
    elim (Bool-cases (private_environment (map towupper (entry_name x)))) [
      | inl w ↦ (
        λ h. let k = there (rw w at h) in (inr k.0, k.1),
        λ h. rw w (elim h.0 [
          | inl same ↦ absurd (
              h.1 (
                subst (λ y. IsSecret (map towupper (entry_name y))) (sym same)
                  (private-IsSecret _ w)))
          | inr k ↦ back (k, h.1)
        ]),
      )
      | inr w ↦ (
        λ h.
            let h' : (e ≡ x) ⊎ In e (kept towupper entries) = rw w at h in
            elim h' [
              | inl same ↦ (
                inl same,
                subst (PublicUpper towupper) (sym same)
                    ((public_iff (map towupper (entry_name x))).0 w),
              )
              | inr k ↦ (inr (there k).0, (there k).1)
            ],
        λ h. rw w (elim h.0 [ inl same ↦ inl same | inr k ↦ inr (back (k, h.1)) ]),
      )
    ]

-- What src/win32.cpp hands to a child is a block of entries, each with a NUL behind it and one more at
-- the end: exactly the entries whose name in capitals does not begin with AZURE_ or
-- ACTIONS_ID_TOKEN_ and is none of GH_TOKEN, GITHUB_TOKEN, INPUT_TOKEN, GH_ENTERPRISE_TOKEN and
-- GITHUB_ENTERPRISE_TOKEN, in whatever letters it is written.
pub child_environment-Public :
    (towupper : ℕ → ℕ) (entries : List Text)
    → (left : List Text) × (child_environment towupper entries ≡ finished (block left))
      × ((e : Text) → In e left ↔ (In e entries × PublicUpper towupper e))
unfolding child_environment
child_environment-Public towupper entries = (
  kept towupper entries,
  ap finished (child_entries-kept towupper entries),
  λ e. kept_iff towupper e entries,
)
