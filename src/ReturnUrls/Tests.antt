-- ===== src/ReturnUrls/Tests.antt =====
-- A return URL at a concrete input.
use edufurthersf_be.Prelude.{◌≡◌, refl, true, [], Option, none, some, Result, ok, if◌then◌else◌}
use edufurthersf_be.Prelude.Text.{Text, codes, lower, text_eq}
use edufurthersf_be.ReturnUrls.{
  SplitUrl, default_port, starts_with, ends_with_slash, closed_path, is_allowed_return_url,
  compare_ports, compare_urls,
}
use edufurthersf_be.ReturnUrls.Boundary.{IsWithin, allowed_below}

abbrev at_path : Option Text → Text → SplitUrl
at_path user path = record {
  scheme = codes "https";
  netloc = codes "App.test";
  username = user;
  password = none;
  hostname = some (codes "App.test");
  port = ok none;
  path = path;
  query = [];
}

-- Two URLs of one host; any other text names a user.
abbrev urlsplit : Text → Result SplitUrl
urlsplit url =
    if text_eq url (codes "https://App.test/finder")
    then ok (at_path none (codes "/finder"))
    else if text_eq url (codes "https://App.test/finder/done")
    then ok (at_path none (codes "/finder/done"))
    else ok (at_path (some (codes "App.test")) (codes "/"))

allowed_run :
    is_allowed_return_url urlsplit
      (codes "https://App.test/finder/done")
      (codes "https://App.test/finder")
    ≡ ok true
unfolding is_allowed_return_url compare_urls compare_ports text_eq lower default_port starts_with
    closed_path ends_with_slash
allowed_run = refl

allowed_below_example :
    (allowed : SplitUrl) × (target : SplitUrl) × (urlsplit (codes "https://App.test/finder")
      ≡ ok allowed)
    × (urlsplit (codes "https://App.test/finder/done") ≡ ok target)
    × IsWithin allowed target
allowed_below_example =
    allowed_below urlsplit (codes "https://App.test/finder/done") (codes "https://App.test/finder")
      allowed_run
