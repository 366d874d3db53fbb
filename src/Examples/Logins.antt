-- ===== src/Examples/Logins.antt =====
-- Logins, refreshes and settings on the stored values.
use aas_sign.Base.{◌≡◌, refl, [], ◌∷◌, Result, ok, err, Text, codes, bytes_eq}
use aas_sign.Azure.{HttpResponse}
use aas_sign.Files.{Files, file_at}
use aas_sign.Auth.{default_tenant}
use aas_sign.Auth.Refresh.{try_cached_refresh}
use aas_sign.Auth.Cached.{Cached}
use aas_sign.Auth.Refused.{try_cached_refresh_twice}
use aas_sign.Examples.Stored.{Value, members, toy_json, toy_disk, toy_disk-IsDisk, print}

abbrev tokens : Value
tokens = members ((codes "access_token", codes "A") ∷ (codes "refresh_token", codes "R2") ∷ [])

-- Every answer has the tokens.
abbrev grant : Text → Text → Text → Result HttpResponse
grant url type form = ok (record { status = 200; body = print tokens })

abbrev reject : Text → Text → Text → Result HttpResponse
reject url type form =
    ok (record {
      status = 400;
      body = print (members ((codes "error", codes "invalid_grant") ∷ []));
    })

abbrev browse : Text → Result Text
browse page = ok (codes "/?code=C&state=0a")

abbrev cached_value : Value
cached_value = members ((codes "client_id", codes "I") ∷ (codes "refresh_token", codes "R1") ∷ [])

abbrev cache_file : Text
cache_file = codes "c/token-cache.json"

abbrev stored : Files
stored = (cache_file, print cached_value) ∷ []

cached :
    Cached toy_json toy_disk stored cache_file cached_value (codes "R1") (codes "I") default_tenant
unfolding toy_json toy_disk file_at bytes_eq
cached = record {
  at_path = refl;
  read = refl;
  is_object = refl;
  refresh_value = refl;
  client_value = refl;
  usable = refl;
  tenant_id = [];
  tenant_value = refl;
  tenant_of = refl;
}

try_cached_refresh_twice_example :
    ((try_cached_refresh toy_json toy_disk reject stored).0
      ≡ err "cached refresh token was rejected (revoked or expired)")
    × ((try_cached_refresh toy_json toy_disk reject
          (try_cached_refresh toy_json toy_disk reject stored).1).0
        ≡ ok [])
unfolding toy_json toy_disk bytes_eq
try_cached_refresh_twice_example =
    try_cached_refresh_twice toy_json toy_disk reject stored cache_file cached_value (codes "R1")
      (codes "I") default_tenant
      (record {
        status = 400;
        body = print (members ((codes "error", codes "invalid_grant") ∷ []));
      })
      toy_disk-IsDisk cached refl refl refl refl refl

-- The settings of before, with a member of their own and an account.
abbrev old_value : Value
old_value = members ((codes "account", codes "old") ∷ (codes "theme", codes "dark") ∷ [])

abbrev old_settings : Files
old_settings = (codes "c/config.json", print old_value) ∷ []
