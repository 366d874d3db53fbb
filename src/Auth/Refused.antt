-- ===== src/Auth/Refused.antt =====
-- A refused refresh in `try_cached_refresh` of src/auth_laptop.cpp.
use aas_sign.Base.{
  ◌==◌, ◌≡◌, refl, sym, ap, ◌∙◌, subst, true, false, [], none, Result, ok, err, stuck, Text, is,
}
use aas_sign.Azure.{HttpResponse}
use aas_sign.Files.{Files, file_at, ◌>>◌, throw}
use aas_sign.Auth.{Json, Disk, IsDisk, cache_path, read_cache, delete_cache, token_url, form_type}
use aas_sign.Auth.Refresh.{
  refresh_form, error_of, refuse, answered, ask, refresh_with, refresh_cached, refresh_object,
  try_cached_refresh,
}
use aas_sign.Auth.Cached.{Cached}

module _ {J : Type 0} (json : Json J) (disk : Disk) (kept : IsDisk disk)
    (https_post_url : Text → Text → Text → Result HttpResponse) where
  read_cache-Cached :
      {s : Files} {path : Text} {cache : J} {refresh_token client_id tenant : Text}
      → Cached json disk s path cache refresh_token client_id tenant
      → read_cache json disk s ≡ (ok cache, s)
  unfolding read_cache
  read_cache-Cached {s} {path} c = rw (c.at_path, kept.opened path s, c.read) refl

  nobody :
      (t : Files) (path : Text)
      → cache_path json disk ≡ ok path
      → file_at t path ≡ none
      → json.is_object json.null ≡ false
      → (try_cached_refresh json disk https_post_url t).0 ≡ ok []
  unfolding try_cached_refresh read_cache refresh_object
  nobody t path at_path gone null = rw (at_path, kept.opened path t, gone, null) refl

  refused :
      {s : Files} {path : Text} {cache : J} {refresh_token client_id tenant : Text}
      (resp : HttpResponse)
      → Cached json disk s path cache refresh_token client_id tenant
      → https_post_url (token_url tenant) form_type (refresh_form client_id refresh_token) ≡ ok resp
      → (resp.status == 200) ≡ false
      → try_cached_refresh json disk https_post_url s ≡ refuse json disk resp.body s
  unfolding try_cached_refresh refresh_object refresh_cached refresh_with ask answered
  refused {s} resp c posted status =
      rw
        (
          read_cache-Cached c,
          c.is_object,
          c.refresh_value,
          c.client_value,
          c.tenant_value,
          c.usable,
          sym c.tenant_of,
          posted,
          status,
        )
        refl

-- A refresh that is refused as an invalid grant throws, and once the removal of the cache file has
-- succeeded, nobody is logged in: the next refresh is the empty text.
pub try_cached_refresh_twice :
    {J : Type 0} (json : Json J) (disk : Disk)
    (https_post_url : Text → Text → Text → Result HttpResponse) (s : Files) (path : Text)
    (cache : J) (refresh_token client_id tenant : Text) (resp : HttpResponse)
    → IsDisk disk
    → Cached json disk s path cache refresh_token client_id tenant
    → https_post_url (token_url tenant) form_type (refresh_form client_id refresh_token) ≡ ok resp
    → (resp.status == 200) ≡ false
    → is (error_of json resp.body) "invalid_grant" ≡ true
    → (disk.remove_file path s).0 ≡ ok tt
    → json.is_object json.null ≡ false
    → ((try_cached_refresh json disk https_post_url s).0
        ≡ err "cached refresh token was rejected (revoked or expired)")
      × ((try_cached_refresh json disk https_post_url
            (try_cached_refresh json disk https_post_url s).1).0
          ≡ ok [])
unfolding refuse delete_cache
try_cached_refresh_twice json disk post s path cache refresh_token client_id tenant resp kept c
      posted status grant done null =
    let e : refuse json disk resp.body s ≡ (
      err "cached refresh token was rejected (revoked or expired)",
      (disk.remove_file path s).1,
    ) =
      rw (grant, c.at_path) (thrown (disk.remove_file path s) done) in
    let q = refused json disk kept post resp c posted status ∙ e in
    (
      ap (λ r. r.0) q,
      subst (λ t. (try_cached_refresh json disk post t).0 ≡ ok []) (sym (ap (λ r. r.1) q))
          (logged_out (disk.remove_file path s).1 (kept.removed path s done)),
    )
  where
    logged_out :
        (t : Files) → file_at t path ≡ none → (try_cached_refresh json disk post t).0 ≡ ok []
    logged_out t gone = nobody json disk kept post t path c.at_path gone null

    thrown :
        (r : Result (Unit {0}) × Files)
        → r.0 ≡ ok tt
        → ((λ u. r) >> throw {A = Text} "cached refresh token was rejected (revoked or expired)") s
          ≡ (err "cached refresh token was rejected (revoked or expired)", r.1)
    thrown (ok u, t) h = refl
    thrown (err why, t) h = cc
    thrown (stuck, t) h = cc

-- A refresh that is refused for another reason throws and leaves the cache.
pub try_cached_refresh-same :
    {J : Type 0} (json : Json J) (disk : Disk)
    (https_post_url : Text → Text → Text → Result HttpResponse) (s : Files) (path : Text)
    (cache : J) (refresh_token client_id tenant : Text) (resp : HttpResponse)
    → IsDisk disk
    → Cached json disk s path cache refresh_token client_id tenant
    → https_post_url (token_url tenant) form_type (refresh_form client_id refresh_token) ≡ ok resp
    → (resp.status == 200) ≡ false
    → is (error_of json resp.body) "invalid_grant" ≡ false
    → try_cached_refresh json disk https_post_url s ≡ (err "token refresh failed", s)
unfolding refuse
try_cached_refresh-same json disk post s path cache refresh_token client_id tenant resp kept c
      posted status grant =
    refused json disk kept post resp c posted status ∙ rw grant refl
