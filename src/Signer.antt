-- ===== src/Signer.antt =====
-- src/signer.cpp: the tuple REGION:ACCOUNT:PROFILE. The messages keep their reason alone.
pub mod Laws
use aas_sign.Base.{
  ℕ, List, [], ◌∷◌, ◌++◌, not, Option, none, some, Result, ok, err, ◌>>=◌, ◌>>◌, guard, codes, Text,
  is_nil,
}
use aas_sign.Web.{before, after}

pub record SignerTuple : Type 0 where
  pub endpoint : Text
  pub account : Text
  pub profile : Text

abbrev pub trusted_signing_domain : Text
trusted_signing_domain = codes ".codesigning.azure.net"

-- A bare label is a region; a name with a dot is a host, taken as it is.
unfoldable pub expand_region : Text → Text
unfolding after
expand_region region = elim (after b'.' region) [
  | none ↦ region ++ trusted_signing_domain
  | some _ ↦ region
]

unfoldable pub check_parts : Text → Text → Text → Result SignerTuple
unfolding expand_region
check_parts region account profile = do
  guard (not (is_nil region)) "empty region"
  guard (not (is_nil account)) "empty account"
  guard (not (is_nil profile)) "empty profile"
  ok (record { endpoint = expand_region region; account = account; profile = profile })

-- The part behind the second separator holds no third one.
last_part : Text → Text → Text → Option Text → Result SignerTuple
unfolding check_parts
last_part region account profile none = check_parts region account profile
last_part region account profile (some _) = err "too many ':' separators"

second_part : Text → Text → Option Text → Result SignerTuple
unfolding last_part before after
second_part region rest none = err "missing second ':' separator"
second_part region rest (some profile) =
    last_part region (before b':' rest) profile (after b':' profile)

first_part : Text → Option Text → Result SignerTuple
unfolding second_part before after
first_part s none = err "missing ':' separator"
first_part s (some rest) = second_part (before b':' s) rest (after b':' rest)

unfoldable pub parse_signer_tuple : Text → Result SignerTuple
unfolding first_part after
parse_signer_tuple s = first_part s (after b':' s)
