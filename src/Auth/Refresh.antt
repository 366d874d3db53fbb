-- ===== src/Auth/Refresh.antt =====
-- The cached refresh of src/auth_laptop.cpp.
use aas_sign.Base.{
  not, ◌&&◌, ◌||◌, ◌==◌, [], ◌∷◌, Result, ok, err, stuck, Text, codes, is, is_nil, bytes_eq,
  if◌then◌else◌,
}
use aas_sign.Web.{form_encode}
use aas_sign.Azure.{HttpResponse}
use aas_sign.Files.{Files, Action, ◌>>=◌, ◌>>◌, lift, return, throw, require}
use aas_sign.Auth.{
  Json, Disk, read_cache, write_cache, delete_cache, token_url, form_type, scope_sign,
  default_tenant,
}

-- try { action } catch (...) {}
abbrev pub attempt : Action (Unit {0}) → Action (Unit {0})
attempt action s = settled (action s)
  where
    settled : Result (Unit {0}) × Files → Result (Unit {0}) × Files
    settled (ok u, s') = (ok u, s')
    settled (err why, s') = (ok tt, s')
    settled (stuck, s') = (stuck, s')

abbrev pub refresh_form : Text → Text → Text
refresh_form client_id refresh_token = form_encode (
    (codes "client_id", client_id)
    ∷ (codes "grant_type", codes "refresh_token")
    ∷ (codes "refresh_token", refresh_token)
    ∷ (codes "scope", scope_sign)
    ∷ [])

module _ {J : Type 0} (json : Json J) where
  -- The error that an answer names, where it can be read.
  abbrev pub error_of : Text → Text
  error_of body = elim (json.parse body) [
    | ok j ↦ elim (json.value j (codes "error")) [ ok e ↦ e | err _ ↦ [] | stuck ↦ [] ]
    | err _ ↦ []
    | stuck ↦ []
  ]

module _ {J : Type 0} (json : Json J) (disk : Disk) where
  unfoldable pub refuse : Text → Action Text
  unfolding delete_cache
  refuse body =
      if is (error_of json body) "invalid_grant"
      then (delete_cache json disk
          >> throw "cached refresh token was rejected (revoked or expired)")
      else throw "token refresh failed"

  -- A rotated token is kept; that it could not be written is no error.
  unfoldable pub keep_rotated : J → Text → Text → Action (Unit {0})
  unfolding write_cache
  keep_rotated cache refresh_token new_refresh =
      if not (is_nil new_refresh) && not (bytes_eq new_refresh refresh_token)
      then attempt
          (write_cache json disk (json.set cache (codes "refresh_token") (json.text new_refresh)))
      else return tt

  unfoldable pub accept : J → Text → Text → Action Text
  unfolding keep_rotated
  accept cache refresh_token answer = do
    body ← lift (json.parse answer)
    access_token ← lift (json.value body (codes "access_token"))
    new_refresh ← lift (json.value body (codes "refresh_token"))
    require (not (is_nil access_token)) "no access_token in refresh response"
    keep_rotated cache refresh_token new_refresh
    return access_token

  unfoldable pub answered : J → Text → HttpResponse → Action Text
  unfolding refuse accept
  answered cache refresh_token resp =
      if resp.status == 200 then accept cache refresh_token resp.body else refuse resp.body

  module _ (https_post_url : Text → Text → Text → Result HttpResponse) where
    unfoldable pub ask : J → Text → Text → Text → Action Text
    unfolding answered token_url
    ask cache refresh_token client_id tenant = do
      resp ←
          lift (https_post_url (token_url tenant) form_type (refresh_form client_id refresh_token))
      answered cache refresh_token resp

    unfoldable pub refresh_with : J → Text → Text → Text → Action Text
    unfolding ask
    refresh_with cache refresh_token client_id tenant_id =
        if is_nil refresh_token || is_nil client_id
        then return []
        else ask cache refresh_token client_id
            (if is_nil tenant_id then default_tenant else tenant_id)

    -- The empty text where the cache has no login.
    unfoldable pub refresh_cached : J → Action Text
    unfolding refresh_with
    refresh_cached cache = do
      refresh_token ← lift (json.value cache (codes "refresh_token"))
      client_id ← lift (json.value cache (codes "client_id"))
      tenant_id ← lift (json.value cache (codes "tenant_id"))
      refresh_with cache refresh_token client_id tenant_id

    unfoldable pub refresh_object : J → Action Text
    unfolding refresh_cached
    refresh_object cache = if json.is_object cache then refresh_cached cache else return []

    unfoldable pub try_cached_refresh : Action Text
    unfolding read_cache refresh_object
    try_cached_refresh = read_cache json disk >>= refresh_object
