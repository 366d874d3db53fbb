-- ===== src/Auth/Cached.antt =====
-- The cache file of src/auth_laptop.cpp, and what an answer to a refresh leaves in it.
use aas_sign.Base.{
  ◌==◌, ◌≡◌, ◌≢◌, refl, sym, ap, ◌∙◌, ◌⊎◌, inl, inr, Bool, true, false, not, ◌&&◌, ◌||◌, Bool-cases,
  some, Result, ok, err, stuck, String, subst, Text, codes, is_nil, bytes_eq, if◌then◌else◌,
}
use aas_sign.Azure.{HttpResponse}
use aas_sign.Files.{Files, file_at, Action, ◌>>=◌, lift}
use aas_sign.Files.Laws.{>>=-returned}
use aas_sign.Auth.{
  Json, Disk, IsDisk, cache_path, cache_of, read_cache, atomic_write_json, write_cache, token_url,
  form_type, default_tenant,
}
use aas_sign.Auth.Refresh.{refresh_form, attempt, keep_rotated}

-- What a cache file with a login holds.
pub record Cached {J : Type 0} (json : Json J) (disk : Disk) (s : Files) (path : Text) (cache : J)
    (refresh_token client_id tenant : Text) : Type 0 where
  pub at_path : cache_path json disk ≡ ok path
  pub read : cache_of json (file_at s path) ≡ ok cache
  pub is_object : json.is_object cache ≡ true
  pub refresh_value : json.value cache (codes "refresh_token") ≡ ok refresh_token
  pub client_value : json.value cache (codes "client_id") ≡ ok client_id
  pub usable : (is_nil refresh_token || is_nil client_id) ≡ false
  pub tenant_id : Text
  pub tenant_value : json.value cache (codes "tenant_id") ≡ ok tenant_id
  pub tenant_of : tenant ≡ (if is_nil tenant_id then default_tenant else tenant_id)

-- The new refresh token of an answer is not the old one.
abbrev pub is_rotated : Text → Text → Bool
is_rotated refresh_token new_refresh =
    not (is_nil new_refresh) && not (bytes_eq new_refresh refresh_token)

-- A value that was to be written: it is in the file, or it could not be printed, or the writing has
-- failed and the file is as it was.
pub data Persisted {J : Type 0} (json : Json J) (disk : Disk) (path : Text) (j : J) (s s' : Files)
    : Type 0 where
  stored :
      (text : Text)
      → json.dump j ≡ ok text
      → file_at s' path ≡ some text
      → Persisted json disk path j s s'
  unprinted : ((text : Text) → json.dump j ≢ ok text) → s' ≡ s → Persisted json disk path j s s'
  unwritten :
      (text : Text)
      → json.dump j ≡ ok text
      → (disk.atomic_write_private_file path text s).0 ≢ ok tt
      → file_at s' path ≡ file_at s path
      → Persisted json disk path j s s'

-- The cache file after an answer: untouched when the token is the same, else with the new token, or as
-- it was where it cannot be written.
abbrev pub Kept : {J : Type 0} → Json J → Disk → Text → J → Text → Text → Files → Files → Type 0
Kept json disk path cache refresh_token new_refresh s s' =
    ((is_rotated refresh_token new_refresh ≡ false) × (s' ≡ s))
    ⊎ ((is_rotated refresh_token new_refresh ≡ true)
        × Persisted json disk path (json.set cache (codes "refresh_token") (json.text new_refresh))
            s s')

-- An answer 200 that holds the token.
pub record Answer {J : Type 0} (json : Json J) (disk : Disk)
    (https_post_url : Text → Text → Text → Result HttpResponse) (path : Text) (cache : J)
    (refresh_token client_id tenant token : Text) (s s' : Files) : Type 0 where
  pub resp : HttpResponse
  pub posted :
      https_post_url (token_url tenant) form_type (refresh_form client_id refresh_token) ≡ ok resp
  pub accepted : (resp.status == 200) ≡ true
  pub body : J
  pub parsed : json.parse resp.body ≡ ok body
  pub access_token : json.value body (codes "access_token") ≡ ok token
  pub not_empty : is_nil token ≡ false
  pub new_refresh : Text
  pub rotated : json.value body (codes "refresh_token") ≡ ok new_refresh
  pub persisted : Kept json disk path cache refresh_token new_refresh s s'

err-ne : {A : Type 0} {why : String} {a : A} → err why ≢ ok a
err-ne h = cc

stuck-ne : {A : Type 0} {a : A} → stuck ≢ ok a
stuck-ne h = cc

module _ {J : Type 0} (json : Json J) (disk : Disk) (kept : IsDisk disk) where
  pub read_cache-returned :
      (s : Files) {cache : J}
      → (read_cache json disk s).0 ≡ ok cache
      → (path : Text) × (cache_path json disk ≡ ok path)
        × (cache_of json (file_at s path) ≡ ok cache)
        × ((read_cache json disk s).1 ≡ s)
  unfolding read_cache
  read_cache-returned s h =
      let (path, e, k, q) =
        >>=-returned (lift (cache_path json disk))
          (λ path s. (cache_of json (disk.open_file path s), s)) s h in
      (path, e, ap (cache_of json) (sym (kept.opened path s)) ∙ k, ap (λ r. r.1) q)

  attempt-same : (action : Action (Unit {0})) (s : Files) → (attempt action s).1 ≡ (action s).1
  attempt-same action s = settled (action s)
    where
      settled : (r : Result (Unit {0}) × Files) → (attempt (λ u. r) s).1 ≡ r.1
      settled (ok u, t) = refl
      settled (err why, t) = refl
      settled (stuck, t) = refl

  atomic_write_json-Persisted :
      (path : Text) (j : J) (s : Files)
      → Persisted json disk path j s (atomic_write_json json disk path j s).1
  unfolding atomic_write_json
  atomic_write_json-Persisted path j s = printed (json.dump j) refl
    where
      wrote :
          (text : Text) (r : Result (Unit {0}) × Files)
          → json.dump j ≡ ok text
          → disk.atomic_write_private_file path text s ≡ r
          → Persisted json disk path j s r.1
      wrote text (ok u, t) e q =
          stored text e
            (ap (λ x. file_at x.1 path) (sym q) ∙ kept.written path text s (ap (λ x. x.0) q))
      wrote text (err why, t) e q =
          let failed : (disk.atomic_write_private_file path text s).0 ≢ ok tt =
            λ k. err-ne (sym (ap (λ x. x.0) q) ∙ k) in
          unwritten text e failed
            (ap (λ x. file_at x.1 path) (sym q) ∙ kept.unwritten path text s failed)
      wrote text (stuck, t) e q =
          let failed : (disk.atomic_write_private_file path text s).0 ≢ ok tt =
            λ k. stuck-ne (sym (ap (λ x. x.0) q) ∙ k) in
          unwritten text e failed
            (ap (λ x. file_at x.1 path) (sym q) ∙ kept.unwritten path text s failed)

      printed :
          (r : Result Text)
          → json.dump j ≡ r
          → Persisted json disk path j s ((lift r >>= disk.atomic_write_private_file path) s).1
      printed (ok text) e = wrote text (disk.atomic_write_private_file path text s) e refl
      printed (err why) e = unprinted (λ text k. err-ne (sym e ∙ k)) refl
      printed stuck e = unprinted (λ text k. stuck-ne (sym e ∙ k)) refl

  write_cache-Kept :
      (path : Text) (j : J) (s : Files)
      → cache_path json disk ≡ ok path
      → Persisted json disk path j s (attempt (write_cache json disk j) s).1
  unfolding write_cache
  write_cache-Kept path j s e =
      let chosen : (write_cache json disk j s).1 ≡ (atomic_write_json json disk path j s).1 =
        rw e refl in
      subst (Persisted json disk path j s) (sym (attempt-same (write_cache json disk j) s ∙ chosen))
        (atomic_write_json-Persisted path j s)

  pub keep_rotated-Kept :
      (path : Text) (cache : J) (refresh_token new_refresh : Text) (s : Files)
      → cache_path json disk ≡ ok path
      → Kept json disk path cache refresh_token new_refresh s
          (keep_rotated json disk cache refresh_token new_refresh s).1
  unfolding keep_rotated
  keep_rotated-Kept path cache refresh_token new_refresh s e =
      elim (Bool-cases (is_rotated refresh_token new_refresh)) [
        | inl t ↦ rw t (inr (refl, write_cache-Kept path _ s e))
        | inr f ↦ rw f (inl (refl, refl))
      ]
