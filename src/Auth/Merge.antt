-- ===== src/Auth/Merge.antt =====
-- `save_signing_defaults` of src/auth_laptop.cpp, and what a later signing reads of it.
use aas_sign.Base.{
  ◌≡◌, ◌≢◌, refl, sym, ap, ◌∙◌, arith, subst, true, false, ◌&&◌, Bool-cases, inl, inr, [], ◌∷◌,
  ◌++◌, Option, none, some, Result, ok, err, stuck, String, Text, codes, is_nil, if◌then◌else◌,
}
use aas_sign.Files.{Files, file_at, ◌>>=◌, lift}
use aas_sign.Files.Laws.{>>=-returned}
use aas_sign.Auth.{
  Json, IsJson, Disk, IsDisk, settings_of, merge_field, merge_defaults, atomic_write_json, save_in,
  save_signing_defaults,
}

endpoint-ne-account : codes "endpoint" ≢ codes "account"
endpoint-ne-account = λ e. ground arith

endpoint-ne-profile : codes "endpoint" ≢ codes "profile"
endpoint-ne-profile = λ e. ground arith

account-ne-profile : codes "account" ≢ codes "profile"
account-ne-profile = λ e. ground arith

-- A value that was given, or the one that was there.
abbrev pub given : Text → Result Text → Result Text
given v old = if is_nil v then old else ok v

-- The settings that were there: the object in the file, and an empty one where there is no file, or
-- where it cannot be read, or holds another value.
pub data Old {J : Type 0} (json : Json J) : Option Text → J → Type 0 where
  old_object :
      (b : Text) (j : J) → json.read_json b ≡ ok j → json.is_object j ≡ true → Old json (some b) j
  no_object :
      (b : Text) (j : J)
      → json.read_json b ≡ ok j
      → json.is_object j ≡ false
      → Old json (some b) json.object
  unread : (b : Text) → ((j : J) → json.read_json b ≢ ok j) → Old json (some b) json.object
  no_file : Old json none json.object

ok-ne : {J : Type 0} {j : J} {why : String} → ok j ≢ err why
ok-ne h = cc

ok-ne_stuck : {J : Type 0} {j : J} → ok j ≢ stuck
ok-ne_stuck h = cc

-- The three settings of an object, with those that were given.
pub record IsMerged {J : Type 0} (json : Json J) (endpoint account profile : Text) (old new : J)
    : Type 0 where
  pub is_object : json.is_object new ≡ true
  pub endpoint_value :
      json.value new (codes "endpoint") ≡ given endpoint (json.value old (codes "endpoint"))
  pub account_value :
      json.value new (codes "account") ≡ given account (json.value old (codes "account"))
  pub profile_value :
      json.value new (codes "profile") ≡ given profile (json.value old (codes "profile"))
  pub other_value :
      (key : Text)
      → key ≢ codes "endpoint"
      → key ≢ codes "account"
      → key ≢ codes "profile"
      → json.value new key ≡ json.value old key

module _ {J : Type 0} (json : Json J) (laws : IsJson json) where
  merge_field-IsObject :
      (key : Text) (v : Text) (j : J)
      → json.is_object j ≡ true
      → json.is_object (merge_field json key v j) ≡ true
  unfolding merge_field
  merge_field-IsObject key [] j h = h
  merge_field-IsObject key (c ∷ v) j h = laws.is_object-set j key _ h

  merge_field-value :
      (key : Text) (v : Text) (j : J)
      → json.is_object j ≡ true
      → json.value (merge_field json key v j) key ≡ given v (json.value j key)
  unfolding merge_field
  merge_field-value key [] j h = refl
  merge_field-value key (c ∷ v) j h = laws.value-set j key (c ∷ v) h

  merge_field-other :
      (key other : Text) (v : Text) (j : J)
      → json.is_object j ≡ true
      → other ≢ key
      → json.value (merge_field json key v j) other ≡ json.value j other
  unfolding merge_field
  merge_field-other key other [] j h n = refl
  merge_field-other key other (c ∷ v) j h n = laws.value-set_other j key other _ h n

  settings_of-Old : (o : Option Text) → Old json o (settings_of json o)
  unfolding settings_of
  settings_of-Old none = rw laws.null-is_object no_file
  settings_of-Old (some b) = read (json.read_json b) refl
    where
      read :
          (r : Result J)
          → json.read_json b ≡ r
          → Old json (some b) (elim r [
            | ok j ↦ (if json.is_object j then j else json.object)
            | err _ ↦ (if json.is_object json.object then json.object else json.object)
            | stuck ↦ (if json.is_object json.object then json.object else json.object)
          ])
      read (ok j) e = elim (Bool-cases (json.is_object j)) [
        | inl k ↦ rw k (old_object b j e k)
        | inr k ↦ rw k (no_object b j e k)
      ]
      read (err why) e = rw laws.is_object-object (unread b (λ j k. ok-ne (sym k ∙ e)))
      read stuck e = rw laws.is_object-object (unread b (λ j k. ok-ne_stuck (sym k ∙ e)))

  Old-IsObject : {o : Option Text} {j : J} → Old json o j → json.is_object j ≡ true
  Old-IsObject (old_object b j e k) = k
  Old-IsObject (no_object b j e k) = laws.is_object-object
  Old-IsObject (unread b n) = laws.is_object-object
  Old-IsObject no_file = laws.is_object-object

  merge_defaults-IsMerged :
      (endpoint account profile : Text) (j : J)
      → json.is_object j ≡ true
      → IsMerged json endpoint account profile j (merge_defaults json endpoint account profile j)
  unfolding merge_defaults
  merge_defaults-IsMerged endpoint account profile j h =
      let j₁ = merge_field json (codes "endpoint") endpoint j in
      let j₂ = merge_field json (codes "account") account j₁ in
      let h₁ = merge_field-IsObject (codes "endpoint") endpoint j h in
      let h₂ = merge_field-IsObject (codes "account") account j₁ h₁ in
      record {
        is_object = merge_field-IsObject (codes "profile") profile j₂ h₂;
        endpoint_value =
            merge_field-other (codes "profile") (codes "endpoint") profile j₂ h₂ endpoint-ne-profile
            ∙ (merge_field-other (codes "account") (codes "endpoint") account j₁ h₁
                  endpoint-ne-account
                ∙ merge_field-value (codes "endpoint") endpoint j h);
        account_value =
            merge_field-other (codes "profile") (codes "account") profile j₂ h₂ account-ne-profile
            ∙ (merge_field-value (codes "account") account j₁ h₁
                ∙ ap (given account) (
                    merge_field-other (codes "endpoint") (codes "account") endpoint j h
                      (λ e. endpoint-ne-account (sym e))));
        profile_value =
            merge_field-value (codes "profile") profile j₂ h₂
            ∙ ap (given profile) (
                merge_field-other (codes "account") (codes "profile") account j₁ h₁
                  (λ e. account-ne-profile (sym e))
                ∙ merge_field-other (codes "endpoint") (codes "profile") endpoint j h
                    (λ e. endpoint-ne-profile (sym e)));
        other_value = λ key n m k.
            merge_field-other (codes "profile") key profile j₂ h₂ k
            ∙ (merge_field-other (codes "account") key account j₁ h₁ m
                ∙ merge_field-other (codes "endpoint") key endpoint j h n);
      }

-- Settings that were saved, some of them given, are an object in config.json with the given values;
-- each other member of the object that was there keeps its value, and what was there is taken for an
-- empty object when it is none.
pub save_signing_defaults-IsMerged :
    {J : Type 0} (json : Json J) (disk : Disk) (endpoint account profile : Text) (s : Files)
    → IsJson json
    → IsDisk disk
    → (is_nil endpoint && (is_nil account && is_nil profile)) ≡ false
    → (save_signing_defaults json disk endpoint account profile s).0 ≡ ok tt
    → (dir : Text) × (disk.config_dir ≡ ok dir)
      × (old : J) × (new : J) × (text : Text) × Old json
          (file_at s (dir ++ codes "/config.json"))
          old
      × IsMerged json endpoint account profile old new
      × (json.dump new ≡ ok text)
      × (file_at
            (save_signing_defaults json disk endpoint account profile s).1
            (dir ++ codes "/config.json")
          ≡ some text)
unfolding save_signing_defaults save_in atomic_write_json
save_signing_defaults-IsMerged json disk endpoint account profile s laws kept n h =
    let chosen : save_signing_defaults json disk endpoint account profile s
        ≡ (lift disk.config_dir >>= save_in json disk endpoint account profile) s =
      rw n refl in
    let (dir, e, h₁, q) =
      >>=-returned (lift disk.config_dir) (save_in json disk endpoint account profile) s
        (ap (λ r. r.0) (sym chosen) ∙ h) in
    let path = dir ++ codes "/config.json" in
    let old = settings_of json (disk.open_file path s) in
    let new = merge_defaults json endpoint account profile old in
    let is_old = settings_of-Old json laws (disk.open_file path s) in
    let (text, e₂, h₂, q₂) =
      >>=-returned (lift (json.dump new)) (disk.atomic_write_private_file path) s h₁ in
    (
      dir,
      e,
      old,
      new,
      text,
      subst (λ o. Old json o old) (kept.opened path s) is_old,
      merge_defaults-IsMerged json laws endpoint account profile old
          (Old-IsObject json laws is_old),
      e₂,
      ap (λ r. file_at r.1 path) (chosen ∙ (q ∙ q₂)) ∙ kept.written path text s h₂,
    )
