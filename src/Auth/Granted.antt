-- ===== src/Auth/Granted.antt =====
-- The parts of a login in src/auth_laptop.cpp: the redirect, the exchange and the new cache.
use aas_sign.Base.{
  ◌==◌, ◌≡◌, ◌≢◌, refl, ap, ◌∙◌, arith, subst, Bool, true, false, not, ◌&&◌, ◌||◌, Bool-cases, inl,
  inr, [], ◌∷◌, ◌++◌, append_assoc, Option, none, some, Result, ok, ok-injective, err, stuck,
  >>=-eq-ok, guard-eq-ok, Text, codes, is_nil, bytes_eq, bytes_eq→eq, if◌then◌else◌,
}
use aas_sign.Web.{Query, find}
use aas_sign.Azure.{HttpResponse}
use aas_sign.Files.{Files, file_at, ◌>>=◌, lift, return}
use aas_sign.Files.Laws.{>>=-returned}
use aas_sign.Auth.{
  Json, IsJson, Disk, IsDisk, cache_path, cache_of, atomic_write_json, write_cache, save_in,
  save_signing_defaults, default_tenant, token_url, form_type,
}
use aas_sign.Auth.Options.{Settings}
use aas_sign.Auth.Login.{
  granted, denied, check_state, redirect_of, Identity, identity_of, new_cache, exchange_code,
  finish_login,
}
use aas_sign.Auth.Cached.{Cached}

-- The redirect that gives a code has no error, and the state that was sent.
pub redirect_of-granted :
    (q : Query) (state code : Text)
    → redirect_of q state ≡ granted code
    → (find (codes "error") q ≡ none)
      × (find (codes "code") q ≡ some code)
      × (find (codes "state") q ≡ some state)
unfolding redirect_of check_state
redirect_of-granted q state code h =
    cases (find (codes "error") q) refl (find (codes "code") q) refl (find (codes "state") q) refl h
  where
    cases :
        (e : Option Text)
        → find (codes "error") q ≡ e
        → (c : Option Text) → find (codes "code") q ≡ c
        → (t : Option Text) → find (codes "state") q ≡ t
        → (elim e [ some e ↦ denied | none ↦ check_state state c t ]) ≡ granted code
        → (find (codes "error") q ≡ none)
          × (find (codes "code") q ≡ some code)
          × (find (codes "state") q ≡ some state)
    cases (some e) p c p' t p'' h = cc
    cases none p none p' t p'' h = cc
    cases none p (some c) p' none p'' h = cc
    cases none p (some c) p' (some t) p'' h = elim (Bool-cases (bytes_eq t state)) [
      | inl k ↦ (p, p' ∙ ap some (same (rw k at h)), p'' ∙ ap some (bytes_eq→eq t state k))
      | inr k ↦ absurd (never (rw k at h))
    ]
      where
        same : {a b : Text} → granted a ≡ granted b → a ≡ b
        same e = cc

        never : denied ≢ granted code
        never e = cc

pub exchange_code-not_nil :
    {J : Type 0} (json : Json J) (https_post_url : Text → Text → Text → Result HttpResponse)
    (tenant form refresh_token : Text) (who : Identity)
    → exchange_code json https_post_url tenant form ≡ ok (refresh_token, who)
    → is_nil refresh_token ≡ false
unfolding exchange_code
exchange_code-not_nil json post tenant form refresh_token who h =
    let (resp, e₁, h₁) = >>=-eq-ok (post (token_url tenant) form_type form) _ h in
    let (e₂, h₂) = guard-eq-ok (resp.status == 200) _ h₁ in
    let (body, e₃, h₃) = >>=-eq-ok (json.parse resp.body) _ h₂ in
    let (refresh, e₄, h₄) = >>=-eq-ok (json.value body (codes "refresh_token")) _ h₃ in
    let (id_token, e₅, h₅) = >>=-eq-ok (json.value body (codes "id_token")) _ h₄ in
    let (e₆, h₆) = guard-eq-ok (not (is_nil refresh)) _ h₅ in
    let (who', e₇, h₇) = >>=-eq-ok (identity_of json id_token) _ h₆ in
    subst (λ r. is_nil r ≡ false) (ap (λ p. p.0) (ok-injective h₇)) (not-true _ e₆)
  where
    not-true : (a : Bool) → not a ≡ true → a ≡ false
    not-true true h = cc
    not-true false h = refl

append-injective : (xs ys zs : Text) → xs ++ ys ≡ xs ++ zs → ys ≡ zs
append-injective [] ys zs h = h
append-injective (x ∷ xs) ys zs h = append-injective xs ys zs (cc)

module _ {J : Type 0} (json : Json J) (laws : IsJson json) where
  -- The values of a new cache.
  new_cache-values :
      (who : Identity) (client_id refresh_token : Text)
      → (json.is_object (new_cache json who client_id refresh_token) ≡ true)
        × (json.value (new_cache json who client_id refresh_token) (codes "refresh_token")
            ≡ ok refresh_token)
        × (json.value (new_cache json who client_id refresh_token) (codes "client_id")
            ≡ ok client_id)
        × (json.value (new_cache json who client_id refresh_token) (codes "tenant_id")
            ≡ ok who.tenant_id)
  unfolding new_cache
  new_cache-values who client_id refresh_token =
      let o₁ = laws.is_object-null (codes "version") (json.number 1) in
      let o₂ = laws.is_object-set _ (codes "tenant_id") (json.text who.tenant_id) o₁ in
      let o₃ = laws.is_object-set _ (codes "client_id") (json.text client_id) o₂ in
      let o₄ = laws.is_object-set _ (codes "home_account_id") (json.text _) o₃ in
      let o₅ = laws.is_object-set _ (codes "username") (json.text who.username) o₄ in
      (
        laws.is_object-set _ (codes "refresh_token") (json.text refresh_token) o₅,
        laws.value-set _ (codes "refresh_token") refresh_token o₅,
        laws.value-set_other _ (codes "refresh_token") (codes "client_id") _ o₅ (λ e. ground arith)
            ∙ (laws.value-set_other _ (codes "username") (codes "client_id") _ o₄
                  (λ e. ground arith)
                ∙ (laws.value-set_other _ (codes "home_account_id") (codes "client_id") _ o₃
                      (λ e. ground arith)
                    ∙ laws.value-set _ (codes "client_id") client_id o₂)),
        laws.value-set_other _ (codes "refresh_token") (codes "tenant_id") _ o₅ (λ e. ground arith)
            ∙ (laws.value-set_other _ (codes "username") (codes "tenant_id") _ o₄
                  (λ e. ground arith)
                ∙ (laws.value-set_other _ (codes "home_account_id") (codes "tenant_id") _ o₃
                      (λ e. ground arith)
                    ∙ (laws.value-set_other _ (codes "client_id") (codes "tenant_id") _ o₂
                          (λ e. ground arith)
                        ∙ laws.value-set _ (codes "tenant_id") who.tenant_id o₁))),
      )

  module _ (disk : Disk) (kept : IsDisk disk) where
    -- The settings are another file than the cache.
    save-same :
        (path endpoint account profile : Text) (s : Files)
        → cache_path json disk ≡ ok path
        → file_at (save_signing_defaults json disk endpoint account profile s).1 path
          ≡ file_at s path
    unfolding save_signing_defaults save_in atomic_write_json
    save-same path endpoint account profile s e =
        elim (Bool-cases (is_nil endpoint && (is_nil account && is_nil profile))) [
          | inl k ↦ rw k refl
          | inr k ↦ rw k (at_dir disk.config_dir e)
        ]
      where
        names-ne : codes "/token-cache.json" ≢ codes "/config.json"
        names-ne q = ground arith

        names-ne_tmp : codes "/token-cache.json" ≢ codes "/config.json" ++ codes ".tmp"
        names-ne_tmp q = ground arith

        other :
            (dir : Text) (r : Result Text)
            → ok (dir ++ codes "/token-cache.json") ≡ ok path
            → file_at
                ((lift r >>= disk.atomic_write_private_file (dir ++ codes "/config.json")) s).1
                path
              ≡ file_at s path
        other dir (err why) h = refl
        other dir stuck h = refl
        other dir (ok text) h =
            kept.written_other _ _ s path
              (λ q. names-ne (append-injective dir _ _ (ok-injective h ∙ q)))
              (λ q. names-ne_tmp (
                append-injective dir _ _
                  (ok-injective h ∙ (q ∙ append_assoc dir (codes "/config.json") (codes ".tmp")))))

        at_dir :
            (r : Result Text)
            → (elim r [
              | ok dir ↦ ok (dir ++ codes "/token-cache.json")
              | err why ↦ err why
              | stuck ↦ stuck
            ])
              ≡ ok path
            → file_at ((lift r >>= save_in json disk endpoint account profile) s).1 path
              ≡ file_at s path
        at_dir (err why) h = refl
        at_dir stuck h = refl
        at_dir (ok dir) h = other dir (json.dump _) h

    -- A cache that was written.
    write_cache-written :
        (j : J) (s : Files)
        → (write_cache json disk j s).0 ≡ ok tt
        → (path : Text) × (text : Text) × (cache_path json disk ≡ ok path)
          × (json.dump j ≡ ok text)
          × (file_at (write_cache json disk j s).1 path ≡ some text)
    unfolding write_cache atomic_write_json
    write_cache-written j s h =
        let (path, e, h₁, q) =
          >>=-returned (lift (cache_path json disk)) (λ path. atomic_write_json json disk path j) s
            h in
        let (text, e₂, h₂, q₂) =
          >>=-returned (lift (json.dump j)) (disk.atomic_write_private_file path) s h₁ in
        (path, text, e, e₂, ap (λ r. file_at r.1 path) (q ∙ q₂) ∙ kept.written path text s h₂)

    pub finish_login-Cached :
        (o : Settings) (refresh_token : Text) (who : Identity) (s : Files)
        → (is_nil refresh_token || is_nil o.client_id) ≡ false
        → (finish_login json disk o (refresh_token, who) s).0 ≡ ok 0
        → (path : Text) × (cache : J) × (tenant : Text) × Cached json disk
            (finish_login json disk o (refresh_token, who) s).1
            path
            cache
            refresh_token
            o.client_id
            tenant
    unfolding finish_login
    finish_login-Cached o refresh_token who s usable h =
        let cache = new_cache json who o.client_id refresh_token in
        let (u, e₁, h₁, q₁) =
          >>=-returned (write_cache json disk cache)
            (λ u. save_signing_defaults json disk o.endpoint o.account o.profile >>= λ v. return 0)
            s h in
        let s₁ = (write_cache json disk cache s).1 in
        let (v, e₂, h₂, q₂) =
          >>=-returned (save_signing_defaults json disk o.endpoint o.account o.profile)
            (λ v. return 0) s₁ h₁ in
        let (path, text, at_path, printed, written) = write_cache-written cache s e₁ in
        let (is, refresh, client, tenant) = new_cache-values who o.client_id refresh_token in
        let there =
          ap (λ r. file_at r.1 path) (q₁ ∙ q₂)
          ∙ (save-same path o.endpoint o.account o.profile s₁ at_path ∙ written) in
        (
          path,
          cache,
          (if is_nil who.tenant_id then default_tenant else who.tenant_id),
          record {
            at_path = at_path;
            read = ap (cache_of json) there ∙ parsed cache text printed;
            is_object = is;
            refresh_value = refresh;
            client_value = client;
            usable = usable;
            tenant_id = who.tenant_id;
            tenant_value = tenant;
            tenant_of = refl;
          },
        )
      where
        parsed : (j : J) (t : Text) → json.dump j ≡ ok t → cache_of json (some t) ≡ ok j
        parsed j t e = rw (cache_of, laws.read_json-dump j t e) refl
