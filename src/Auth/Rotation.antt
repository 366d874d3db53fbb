-- ===== src/Auth/Rotation.antt =====
-- `try_cached_refresh` of src/auth_laptop.cpp.
use aas_sign.Files.{Files}
use aas_sign.Auth.Cached.{Cached}
