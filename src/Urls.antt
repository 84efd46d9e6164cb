-- ===== src/Urls.antt =====
-- src/app/domain/urls.py: domains and URLs in the form in which they are compared. The functions of
-- `urllib.parse` are parameters; `netloc_of` is the text of a host with a port.
pub mod Paths
mod Tests
use edufurthersf_be.Prelude.{
  ℕ, String, Bool, true, false, not, ◌&&◌, ◌||◌, Option, none, some, List, [], ◌∷◌, ◌++◌, ◌==◌,
  if◌then◌else◌, truthy, keep, Result, ok, raise, value_error, ◌>>=◌, ◌>>◌, raise_if,
}
use edufurthersf_be.Prelude.Text.{Text, codes, strip, lower, text_eq, mem}
use edufurthersf_be.ReturnUrls.{SplitUrl, default_port, same_port, text_or, starts_with}

-- `s.lstrip(".")`.
unfoldable pub lstrip_dots : Text → Text
lstrip_dots [] = []
lstrip_dots (c ∷ s) = let rest = lstrip_dots s in if c == b'.' then rest else c ∷ s

unfoldable pub normalize_domain : Text → Result Text
unfolding lstrip_dots
normalize_domain value =
    let domain = lstrip_dots (lower (strip value)) in
    if not (truthy domain) then raise (value_error "Domain must not be blank") else ok domain

-- `s.rstrip("/")`.
unfoldable pub rstrip_slashes : Text → Text
rstrip_slashes [] = []
rstrip_slashes (c ∷ s) =
    let rest = rstrip_slashes s in if (c == b'/') && not (truthy rest) then [] else c ∷ rest

-- `path or "/"`, and without slashes at its end unless it is the root.
unfoldable pub canonical_path : Text → Text
unfolding rstrip_slashes
canonical_path [] = codes "/"
canonical_path (c ∷ s) = if text_eq (c ∷ s) (codes "/") then c ∷ s else rstrip_slashes (c ∷ s)

-- A parameter that a campaign adds to a link.
abbrev pub is_tracking : Text × Text → Bool
is_tracking (key, val) =
    starts_with (lower key) (codes "utm_") || mem (lower key) (codes "fbclid" ∷ codes "gclid" ∷ [])

abbrev pub canonical_query : List (Text × Text) → List (Text × Text)
canonical_query = keep (λ p. not (is_tracking p))

-- The port, where it is not the one of the scheme; 0 counts as none.
abbrev pub own_port : Text → Option ℕ → Option ℕ
own_port scheme none = none
own_port scheme (some port) =
    if not (port == 0) && not (same_port (some port) (default_port scheme)) then some port else none

pub record UrlLibrary : Type 0 where
  pub urlsplit : Text → Result SplitUrl
  pub parse_qsl : Text → List (Text × Text)
  pub urlencode : List (Text × Text) → Text
  pub urlunsplit : Text → Text → Text → Text → Text
  pub netloc_of : Text → ℕ → Text

module _ (urls : UrlLibrary) where
  abbrev pub canonical_netloc : Text → Option ℕ → Text
  canonical_netloc host none = host
  canonical_netloc host (some port) = urls.netloc_of host port

  unfoldable pub canonicalize_url : Text → Result Text
  unfolding canonical_path
  canonicalize_url value = do
    parts ← urls.urlsplit (strip value)
    raise_if
        (not (
            text_eq (lower parts.scheme) (codes "http")
            || text_eq (lower parts.scheme) (codes "https"))
          || not (truthy parts.netloc))
        (value_error "Only absolute HTTP(S) URLs are allowed")
    port ← parts.port
    let host = lower (text_or [] parts.hostname)
    let netloc = canonical_netloc host (own_port (lower parts.scheme) port)
    let query = canonical_query (urls.parse_qsl parts.query)
    ok (
        urls.urlunsplit (lower parts.scheme) netloc (canonical_path parts.path)
          (urls.urlencode query))
