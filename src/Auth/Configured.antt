-- ===== src/Auth/Configured.antt =====
-- The subcommand config of src/auth_laptop.cpp.
use aas_sign.Base.{
  ◌≡◌, ◌≢◌, refl, arith, inl, inr, ◌&&◌, Bool-cases, List, ◌++◌, some, Result, ok, err, stuck, Text,
  codes, is_nil,
}
use aas_sign.Files.{Files, file_at}
use aas_sign.Auth.{Json, Disk, save_signing_defaults}
use aas_sign.Auth.Options.{
  Settings, initial_settings, Parsed, go, usage, unknown, config_valued, parse_settings,
  resolve_tuple, exit_0, config_with, config_go, config_parsed, config_main,
}
use aas_sign.Auth.Merge.{Old, IsMerged}

-- config.json has been read, merged with the three values, and written.
abbrev pub Saved : {J : Type 0} → Json J → Disk → Settings → Files → Files → Type 0
Saved {J} json disk o s s' =
    (dir : Text) × (disk.config_dir ≡ ok dir)
    × (old : J) × (new : J) × (text : Text) × Old json (file_at s (dir ++ codes "/config.json")) old
    × IsMerged json o.endpoint o.account o.profile old new
    × (json.dump new ≡ ok text)
    × (file_at s' (dir ++ codes "/config.json") ≡ some text)

exit_0-ne-1 : (r : Result (Unit {0}) × Files) → (exit_0 r).0 ≢ ok 1
exit_0-ne-1 (ok u, s) h = ground arith
exit_0-ne-1 (err why, s) h = cc
exit_0-ne-1 (stuck, s) h = cc

module _ {J : Type 0} (json : Json J) (disk : Disk) where
  config_with-same :
      (o : Settings) (s : Files)
      → (config_with json disk o s).0 ≡ ok 1
      → (config_with json disk o s).1 ≡ s
  unfolding config_with
  config_with-same o s h =
      elim (Bool-cases (is_nil o.endpoint && (is_nil o.account && is_nil o.profile))) [
        | inl e ↦ rw e refl
        | inr e ↦ absurd (
            exit_0-ne-1 (save_signing_defaults json disk o.endpoint o.account o.profile s)
              (rw e at h))
      ]

  config_go-same :
      (r : Result Settings) (s : Files)
      → (config_go json disk r s).0 ≡ ok 1
      → (config_go json disk r s).1 ≡ s
  unfolding config_go
  config_go-same (ok o) s h = config_with-same o s h
  config_go-same (err why) s h = refl
  config_go-same stuck s h = refl

  config_parsed-same :
      (p : Parsed) (s : Files)
      → (config_parsed json disk p s).0 ≡ ok 1
      → (config_parsed json disk p s).1 ≡ s
  unfolding config_parsed
  config_parsed-same usage s h = refl
  config_parsed-same (unknown arg) s h = refl
  config_parsed-same (go o) s h = config_go-same (resolve_tuple o) s h

-- The subcommand config changes no file when it exits with 1.
pub config_main-same :
    {J : Type 0} (json : Json J) (disk : Disk) (args : List Text) (s : Files)
    → (config_main json disk args s).0 ≡ ok 1
    → (config_main json disk args s).1 ≡ s
unfolding config_main
config_main-same json disk args s h =
    config_parsed-same json disk (parse_settings config_valued args initial_settings) s h
