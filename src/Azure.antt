-- ===== src/Azure.antt =====
-- src/azure.cpp and src/oidc.cpp: the calls of Azure and of GitHub. The HTTPS client, the JSON
-- library and the clock are parameters: a client call and a parse are functions that may throw, and
-- the clock is what the polls saw on it.
pub mod Sign
pub mod Polls
pub mod Oidc
pub mod Urls
use aas_sign.Base.{
  ℕ, List, [], ◌∷◌, ◌++◌, Bool, true, false, ◌&&◌, Option, none, some, Result, ok, err, Text, codes,
  ◌==◌, if◌then◌else◌, drop,
}
use aas_sign.Web.{before}

pub record HttpResponse : Type 0 where
  pub status : ℕ
  pub body : Text

-- "://" at the front of a text
starts_scheme : Text → Bool
starts_scheme (a ∷ b ∷ c ∷ _) = a == b':' && b == b'/' && c == b'/'
starts_scheme _ = false

-- s.erase(0, scheme + 3), if there is a scheme
unfoldable pub after_scheme : Text → Option Text
unfolding starts_scheme
after_scheme [] = none
after_scheme (c ∷ s) = if starts_scheme (c ∷ s) then some (drop 2 s) else after_scheme s

without_scheme : Text → Text
unfolding after_scheme
without_scheme s = elim (after_scheme s) [ none ↦ s | some rest ↦ rest ]

-- The host of a bare name or of a URL.
unfoldable pub endpoint_host : Text → Text
unfolding without_scheme before
endpoint_host s = before b'/' (without_scheme s)
