-- ===== src/Fetching.antt =====
-- src/app/infra/source_fetch.py: which hosts a page may be fetched from, and the fetch. The answers of
-- the resolver and of the HTTP client are arguments, and so are the classes of an address. The
-- result of a fetch carries the URLs that were requested, in order.
pub mod Guarded
mod Tests
use edufurthersf_be.Prelude.{
  ℕ, String, Bool, true, false, not, ◌&&◌, ◌||◌, Option, none, some, List, [], ◌∷◌, ◌++◌, map, any,
  all, leb, ltb, if◌then◌else◌, truthy, length, is_some, Result, ok, raise, value_error, ◌>>=◌,
  ◌>>◌, raise_if,
}
use mathlib.Core.List.{reverse}
use edufurthersf_be.Prelude.Text.{Text, codes, lower, text_eq}
use edufurthersf_be.ReturnUrls.{text_or, starts_with}
use edufurthersf_be.Urls.{UrlLibrary, canonicalize_url, lstrip_dots}

pub record FetchedSource : Type 0 where
  pub url : Text
  pub status_code : ℕ
  pub content : Text
  pub content_type : Text

-- What `ipaddress` says of an address.
pub record Address : Type 0 where
  pub is_version_4 : Bool
  pub in_carrier_grade_nat : Bool
  pub is_multicast : Bool
  pub is_unspecified : Bool
  pub is_global : Bool

pub record Response : Type 0 where
  pub status_code : ℕ
  pub location : Option Text
  pub content : Text
  pub content_type : Text

abbrev pub is_public_address : Address → Bool
is_public_address ip =
    if ip.is_version_4 && ip.in_carrier_grade_nat
    then false
    else if ip.is_multicast || ip.is_unspecified
    then false
    else ip.is_global

-- `hostname == domain or hostname.endswith(f".{domain}")`.
abbrev pub is_in_domain : Text → Text → Bool
is_in_domain hostname domain =
    text_eq hostname domain || starts_with (reverse hostname) (reverse (codes "." ++ domain))

abbrev pub is_approved : List Text → Text → Bool
is_approved approved_domains hostname =
    any (is_in_domain hostname) (map (λ d. lstrip_dots (lower d)) approved_domains)

-- `getaddrinfo` raises where there is no answer.
abbrev pub is_public_host : Option (List Address) → Result Bool
is_public_host none = raise (value_error "Source hostname could not be resolved")
is_public_host (some addresses) = ok (truthy addresses && all is_public_address addresses)

abbrev pub is_redirect : ℕ → Bool
is_redirect status_code = leb 300 status_code && ltb status_code 400

module _ (urls : UrlLibrary) (getaddrinfo : Text → Option (List Address)) where
  unfoldable pub validate_source_url : Text → List Text → Result Text
  validate_source_url url approved_domains = do
    normalized ← canonicalize_url urls url
    parts ← urls.urlsplit normalized
    let hostname = text_or [] parts.hostname
    raise_if (not (is_approved approved_domains hostname))
        (value_error "Source URL domain is not approved")
    is_public ← is_public_host (getaddrinfo hostname)
    raise_if (not is_public) (value_error "Private or reserved source host is not allowed")
    ok normalized

  module _ (client_get : Text → Result Response) (max_bytes : ℕ) where
    abbrev pub finish : Text → Response → Result FetchedSource
    finish normalized response =
        if ltb max_bytes (length response.content)
        then raise (value_error "Source response exceeds maximum size")
        else ok (record {
          url = normalized;
          status_code = response.status_code;
          content = response.content;
          content_type = response.content_type;
        })

    abbrev pub follow : Text → Result Text → List Text × Result FetchedSource
    follow normalized (raise e) = (normalized ∷ [], raise e)
    follow normalized (ok redirected) = (
      normalized ∷ redirected ∷ [],
      client_get redirected >>= λ response. finish redirected response,
    )

    abbrev pub redirect : Text → List Text → Option Text → List Text × Result FetchedSource
    redirect normalized approved_domains none =
        (normalized ∷ [], raise (value_error "Redirect has no destination"))
    redirect normalized approved_domains (some []) =
        (normalized ∷ [], raise (value_error "Redirect has no destination"))
    redirect normalized approved_domains (some (c ∷ location)) =
        follow normalized (validate_source_url (c ∷ location) approved_domains)

    abbrev pub answer : Text → List Text → Result Response → List Text × Result FetchedSource
    answer normalized approved_domains (raise e) = (normalized ∷ [], raise e)
    answer normalized approved_domains (ok response) =
        if is_redirect response.status_code
        then redirect normalized approved_domains response.location
        else (normalized ∷ [], finish normalized response)

    abbrev pub request : Result Text → List Text → List Text × Result FetchedSource
    request (raise e) approved_domains = ([], raise e)
    request (ok normalized) approved_domains =
        answer normalized approved_domains (client_get normalized)

    unfoldable pub fetch_source : Text → List Text → List Text × Result FetchedSource
    unfolding validate_source_url
    fetch_source url approved_domains =
        request (validate_source_url url approved_domains) approved_domains
