-- ===== src/Azure/Urls.antt =====
-- `parse_https_url` of src/posix.cpp, for the URLs of GitHub and Azure.
use aas_sign.Base.{
  ◌≡◌, refl, [], ◌∷◌, ◌++◌, Option, none, some, take, drop, Result, ok, ◌>>◌, guard, Text, codes,
  bytes_eq,
}
use aas_sign.Web.{before, after}
use aas_sign.Web.RoundTrip.{Free, before-Free, before-Free_all, after-Free}

pub record HttpsUrl : Type 0 where
  pub host : Text
  pub path_and_query : Text

-- A URL without a path asks for "/".
path_of : Option Text → Text
path_of none = b'/' ∷ []
path_of (some path) = b'/' ∷ path

-- The host loses its port.
unfoldable pub parse_https_url : Text → Result HttpsUrl
unfolding path_of before after
parse_https_url url = do
  guard (bytes_eq (take 8 url) (codes "https://")) "expected https:// URL"
  ok (record {
    host = before b':' (before b'/' (drop 8 url));
    path_and_query = path_of (after b'/' (drop 8 url));
  })

-- A URL of a host without `/` and `:` and of a path is taken apart into the two.
pub parse_https_url_lem :
    (host path : Text)
    → Free b'/' host
    → Free b':' host
    → parse_https_url (codes "https://" ++ (host ++ b'/' ∷ path))
      ≡ ok (record { host = host; path_and_query = b'/' ∷ path })
unfolding parse_https_url path_of bytes_eq
parse_https_url_lem host path h k =
    rw (before-Free b'/' host path h, after-Free b'/' host path h, before-Free_all b':' host k) refl

-- The port is dropped.
pub parse_https_url-port :
    (host port path : Text)
    → Free b'/' (host ++ b':' ∷ port)
    → Free b':' host
    → parse_https_url (codes "https://" ++ ((host ++ b':' ∷ port) ++ b'/' ∷ path))
      ≡ ok (record { host = host; path_and_query = b'/' ∷ path })
unfolding parse_https_url path_of bytes_eq
parse_https_url-port host port path h k =
    rw
      (
        before-Free b'/' (host ++ b':' ∷ port) path h,
        after-Free b'/' (host ++ b':' ∷ port) path h,
        before-Free b':' host port k,
      )
      refl
