-- ===== src/Fetching/Tests.antt =====
-- A fetch that is redirected, at a concrete input.
use edufurthersf_be.Prelude.{
  ◌≤◌, All, length, ◌≡◌, refl, true, false, Option, none, some, List, [], ◌∷◌, ok, Result,
  if◌then◌else◌,
}
use edufurthersf_be.Prelude.Text.{Text, codes, text_eq, strip, lower}
use edufurthersf_be.ReturnUrls.{starts_with}
use edufurthersf_be.Urls.{UrlLibrary, canonicalize_url, lstrip_dots}
use edufurthersf_be.Fetching.{FetchedSource, Address, Response, validate_source_url, fetch_source}
use edufurthersf_be.Fetching.Guarded.{IsGuarded, IsAnswer, fetch-IsGuarded}

-- Every URL is on one host, and its path is its text.
abbrev urls : UrlLibrary
urls = record {
  urlsplit = λ url. ok (record {
    scheme = codes "https";
    netloc = codes "daad.de";
    username = none;
    password = none;
    hostname = some (codes "daad.de");
    port = ok none;
    path = url;
    query = [];
  });
  parse_qsl = λ query. [];
  urlencode = λ query. [];
  urlunsplit = λ scheme netloc path query. path;
  netloc_of = λ host port. host;
}

abbrev global_address : Address
global_address = record {
  is_version_4 = true;
  in_carrier_grade_nat = false;
  is_multicast = false;
  is_unspecified = false;
  is_global = true;
}

abbrev getaddrinfo : Text → Option (List Address)
getaddrinfo host = some (global_address ∷ [])

abbrev client_get : Text → Result Response
client_get url =
    if text_eq url (codes "/b")
    then ok (record {
      status_code = 200;
      location = none;
      content = codes "ok";
      content_type = codes "text/html";
    })
    else ok (record {
      status_code = 302;
      location = some (codes "/b");
      content = [];
      content_type = [];
    })

redirected_run :
    (fetch_source urls getaddrinfo client_get 100 (codes "/a") (codes "DE" ∷ [])).0
    ≡ codes "/a" ∷ codes "/b" ∷ []
unfolding fetch_source canonicalize_url validate_source_url text_eq strip lower lstrip_dots
    starts_with
redirected_run = refl

abbrev run : List Text × Result FetchedSource
run = fetch_source urls getaddrinfo client_get 100 (codes "/a") (codes "DE" ∷ [])

fetch-IsGuarded_example :
    All (IsGuarded urls getaddrinfo (codes "DE" ∷ [])) run.0
    × (length run.0 ≤ 2)
    × IsAnswer urls getaddrinfo client_get 100 run.0 run.1
fetch-IsGuarded_example =
    fetch-IsGuarded urls getaddrinfo client_get 100 (codes "/a") (codes "DE" ∷ [])
