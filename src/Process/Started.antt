-- ===== src/Process/Started.antt =====
-- What src/posix.cpp starts the companion with.
use aas_sign.Base.{
  ◌≡◌, ◌≢◌, ◌↔◌, ◌⊎◌, refl, ap, Bool, true, false, not, Bool-cases, inl, inr, List, [], ◌∷◌, ◌++◌,
  map, All, subst, is_nil, ◌||◌, Result, ok, err, ok-injective, guard-eq-ok, >>=-eq-ok, Option,
  String, Text, if◌then◌else◌,
}
use aas_sign.Process.{
  has_char, check_args, first_executable, find_executable, in_directory, path_or_default,
  split_path, Spawn, spawn_request,
}
use aas_sign.Process.Withheld.{In, Public, posix_environment_iff}

err-ne-ok : {A : Type 0} {why : String} {a : A} → err why ≢ ok a
err-ne-ok h = cc

check_args-All : (args : List Text) → check_args args ≡ ok tt → All (λ a. has_char 0 a ≡ false) args
unfolding check_args
check_args-All [] h = tt
check_args-All (arg ∷ args) h =
    let (e, h₁) = guard-eq-ok (not (has_char 0 arg)) _ h in (not_true e, check_args-All args h₁)
  where
    not_true : {b : Bool} → not b ≡ true → b ≡ false
    not_true {b = true} e = cc
    not_true {b = false} e = refl

-- A candidate before which none can be executed.
abbrev pub IsFirst : (Text → Bool) → List Text → Text → Type 0
IsFirst is_executable candidates c =
    (is_executable c ≡ true)
    × ((passed : List Text) × (others : List Text) × (candidates ≡ passed ++ c ∷ others)
        × All (λ d. is_executable d ≡ false) passed)

module _ (is_executable : Text → Bool) (absolute_path : Text → Result Text) where
  -- A result is that of the first candidate that can be executed.
  pub first_executable-IsFirst :
      (candidates : List Text) {r : Text}
      → first_executable is_executable absolute_path candidates ≡ ok r
      → (c : Text) × IsFirst is_executable candidates c × (absolute_path c ≡ ok r)
  unfolding first_executable
  first_executable-IsFirst [] h = cc
  first_executable-IsFirst (d ∷ candidates) h = elim (Bool-cases (is_executable d)) [
    | inl e ↦ (d, (e, ([], candidates, refl, tt)), rw e at h)
    | inr e ↦
        let (c, (k, (passed, others, same, all)), there) =
          first_executable-IsFirst candidates (rw e at h) in
        (c, (k, (d ∷ passed, others, ap (λ t. d ∷ t) same, (e, all))), there)
  ]

  -- Where the executable of a child comes from.
  abbrev pub IsFound : Option Text → Text → Text → Type 0
  IsFound env name c =
      ((has_char b'/' name ≡ true) × (c ≡ name) × (is_executable c ≡ true))
      ⊎ ((has_char b'/' name ≡ false)
          × IsFirst is_executable
              (map (λ dir. in_directory dir name) (split_path b':' (path_or_default env))) c)

  find_executable-IsFound :
      (env : Option Text) (name : Text) {r : Text}
      → find_executable is_executable absolute_path env name ≡ ok r
      → (c : Text) × IsFound env name c × (absolute_path c ≡ ok r)
  unfolding find_executable
  find_executable-IsFound env name h =
      let (e, h₁) = guard-eq-ok (not (is_nil name || has_char 0 name)) _ h in
      elim (Bool-cases (has_char b'/' name)) [
        | inl k ↦
            let h₂ : (if is_executable name
                  then absolute_path name
                  else err "find executable: not an executable file")
                ≡ ok _ =
              rw k at h₁ in
            elim (Bool-cases (is_executable name)) [
              | inl l ↦ (name, inl (k, refl, l), rw l at h₂)
              | inr l ↦ absurd (err-ne-ok (rw l at h₂))
            ]
        | inr k ↦
            let (c, first, there) = first_executable-IsFirst _ (rw k at h₁) in
            (c, inr (k, first), there)
      ]

  -- What a child is started with on POSIX: an executable file, which is the one that was named or the
  -- first in the directories of the path; its own path and the arguments, none of which has a NUL;
  -- and of the environment exactly the entries whose name does not begin with AZURE_ or
  -- ACTIONS_ID_TOKEN_ and is none of GH_TOKEN, GITHUB_TOKEN, INPUT_TOKEN, GH_ENTERPRISE_TOKEN and
  -- GITHUB_ENTERPRISE_TOKEN.
  pub spawn_request-IsSpawn :
      (env : Option Text) (environ : List Text) (executable : Text) (args : List Text) (r : Spawn)
      → spawn_request is_executable absolute_path env environ executable args ≡ ok r
      → ((c : Text) × IsFound env executable c × (absolute_path c ≡ ok r.resolved))
        × (r.argv ≡ r.resolved ∷ args)
        × All (λ a. has_char 0 a ≡ false) args
        × ((e : Text) → In e r.environment ↔ (In e environ × Public e))
  unfolding spawn_request
  spawn_request-IsSpawn env environ executable args r h =
      let (resolved, e₁, h₁) =
        >>=-eq-ok (find_executable is_executable absolute_path env executable) _ h in
      let (u, e₂, h₂) = >>=-eq-ok (check_args args) _ h₁ in
      subst
        (λ (r : Spawn).
          ((c : Text) × IsFound env executable c × (absolute_path c ≡ ok r.resolved))
          × (r.argv ≡ r.resolved ∷ args)
          × All (λ a. has_char 0 a ≡ false) args
          × ((e : Text) → In e r.environment ↔ (In e environ × Public e)))
        (ok-injective h₂)
        (
          find_executable-IsFound env executable e₁,
          refl,
          check_args-All args e₂,
          λ e. posix_environment_iff e environ,
        )
