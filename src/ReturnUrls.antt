-- ===== src/ReturnUrls.antt =====
-- src/app/domain/return_urls.py: whether a handoff may return to a URL. `urlsplit` is a parameter: it
-- raises for a malformed URL, and so does reading the port of its result.
pub mod Boundary
mod Tests
use edufurthersf_be.Prelude.{
  ℕ, Bool, true, false, not, ◌&&◌, ◌||◌, Option, none, some, List, [], ◌∷◌, ◌++◌, ◌==◌, map,
  if◌then◌else◌, truthy, Result, ok, ◌>>=◌,
}
use edufurthersf_be.Prelude.Text.{Text, codes, lower, text_eq}

pub record SplitUrl : Type 0 where
  pub scheme : Text
  pub netloc : Text
  pub username : Option Text
  pub password : Option Text
  pub hostname : Option Text
  pub port : Result (Option ℕ)
  pub path : Text
  pub query : Text

-- `_DEFAULT_PORTS.get(scheme)`.
unfoldable pub default_port : Text → Option ℕ
default_port scheme =
    if text_eq scheme (codes "http")
    then some 80
    else if text_eq scheme (codes "https")
    then some 443
    else none

abbrev pub port_of : Text → Option ℕ → Option ℕ
port_of scheme none = default_port scheme
port_of scheme (some n) = some n

abbrev pub same_port : Option ℕ → Option ℕ → Bool
same_port none none = true
same_port (some a) (some b) = a == b
same_port _ _ = false

abbrev pub text_or : Text → Option Text → Text
text_or default none = default
text_or default (some s) = s

-- `s.startswith(prefix)`.
unfoldable pub starts_with : Text → Text → Bool
starts_with s [] = true
starts_with [] (p ∷ ps) = false
starts_with (c ∷ s) (p ∷ ps) = (c == p) && starts_with s ps

-- `s.endswith("/")`.
unfoldable pub ends_with_slash : Text → Bool
ends_with_slash [] = false
ends_with_slash (c ∷ []) = c == b'/'
ends_with_slash (c ∷ d ∷ s) = ends_with_slash (d ∷ s)

-- `path or "/"`, with a slash at its end.
unfoldable pub closed_path : Text → Text
unfolding ends_with_slash
closed_path [] = codes "/"
closed_path (c ∷ s) = if ends_with_slash (c ∷ s) then c ∷ s else c ∷ s ++ codes "/"

is_known : Option ℕ → Bool
is_known none = false
is_known (some n) = true

pub has_credentials : SplitUrl → Bool
has_credentials url = truthy (text_or [] url.username) || truthy (text_or [] url.password)

-- The comparison of the two URLs, once they are split.
unfoldable pub compare_ports : SplitUrl → SplitUrl → Option ℕ → Option ℕ → Bool
unfolding starts_with
compare_ports allowed target target_port allowed_port =
    let scheme = lower allowed.scheme in
    if not (same_port (port_of scheme target_port) (port_of scheme allowed_port))
    then false
    else starts_with (closed_path target.path) (closed_path allowed.path)

unfoldable pub compare_urls : SplitUrl → SplitUrl → Result Bool
unfolding is_known has_credentials
compare_urls allowed target =
    let allowed_scheme = lower allowed.scheme in
    if not (is_known (default_port allowed_scheme))
      || not (text_eq (lower target.scheme) allowed_scheme)
    then ok false
    else if has_credentials target
    then ok false
    else if not (text_eq (lower (text_or [] target.hostname)) (lower (text_or [] allowed.hostname)))
    then ok false
    else if not (truthy (text_or [] target.hostname))
    then ok false
    else target.port >>= λ target_port.
        allowed.port >>= λ allowed_port. ok (compare_ports allowed target target_port allowed_port)

module _ (urlsplit : Text → Result SplitUrl) where
  unfoldable pub is_allowed_return_url : Text → Text → Result Bool
  unfolding compare_urls
  is_allowed_return_url candidate [] = ok false
  is_allowed_return_url candidate (p ∷ prefix) = do
    allowed ← urlsplit (p ∷ prefix)
    target ← urlsplit candidate
    compare_urls allowed target
