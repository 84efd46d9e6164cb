-- ===== src/Samples.antt =====
-- Data that the tests of several modules share: the cadence of src/app/core/config.py, a published record
-- with one open cycle, and an outside that answers every request alike.
use edufurthersf_be.Prelude.{ℕ, inl, refl, arith, false, true, Option, none, some, [], ◌∷◌, ok}
use edufurthersf_be.Prelude.Text.{Text, codes}
use edufurthersf_be.Zones.{DateTime, ZoneLookup, not_found}
use edufurthersf_be.Json.{Json}
use edufurthersf_be.Status.{open_verified}
use edufurthersf_be.Freshness.{FreshnessConfig}
use edufurthersf_be.Urls.{UrlLibrary}
use edufurthersf_be.Catalogue.{published, Scholarship, ScholarshipCycle, Catalogue}
use edufurthersf_be.Pages.{Site, Clients}
use edufurthersf_be.Reverify.Sweep.{IsSite}

abbrev pub cadence : FreshnessConfig
cadence = record {
  near_deadline_days = 14;
  upcoming_near_months = 1;
  upcoming_far_months = 2;
  open_far_fetch_hours = 24;
  open_far_max_age_hours = 48;
  open_near_fetch_hours = 6;
  open_near_max_age_hours = 12;
  rolling_fetch_hours = 24;
  rolling_max_age_hours = 48;
  upcoming_near_fetch_hours = 24;
  upcoming_far_fetch_hours = 168;
  upcoming_max_age_hours = 336;
  unknown_fetch_hours = 720;
  unknown_max_age_hours = 1440;
  closed_fetch_hours = 2160;
  closed_max_age_hours = 4320;
}

abbrev pub no_zones : Text → ZoneLookup
no_zones name = not_found

abbrev pub no_text : Json → Text
no_text v = []

abbrev pub no_timestamps : Text → Option DateTime
no_timestamps s = none

abbrev pub id_text : ℕ → Text
id_text n = n ∷ []

-- An open cycle without a deadline, created at the instant 0.
abbrev pub cycle_of : ℕ → ℕ → ScholarshipCycle
cycle_of cycle_id id = record {
  cycle_id = cycle_id;
  scholarship_id = id;
  provider_cycle_key = codes "2026";
  applicant_segment = codes "default";
  official_cycle_url = codes "https://a.test/";
  public_status = open_verified;
  status_valid_until = none;
  last_verified_at = none;
  facts = [];
  source_page_id = none;
  auto_downgraded = false;
  is_auto_approved = false;
  created_at = 0;
}

abbrev pub award : Scholarship
award = record {
  scholarship_id = 1;
  provider_id = 1;
  slug = codes "chevening";
  name = codes "Chevening";
  official_home_url = codes "https://a.test/";
  award_type = codes "scholarship";
  lifecycle_state = published;
}

abbrev pub stored : Catalogue
stored = record { scholarships = award ∷ []; cycles = cycle_of 10 1 ∷ []; audits = []; events = [] }

abbrev pub site : Site
site = record {
  catalogue = stored;
  sources =
      record { source_id = 3; name = "Official Cycle Pages"; approved_domains = []; active = true }
      ∷ [];
  pages = [];
  snapshots = [];
  usage = [];
  tasks = [];
}

pub site-IsSite : IsSite site
site-IsSite = record {
  catalogue = record {
    ids = (tt, tt);
    cycle_ids = (tt, tt);
    identities = (tt, tt);
    quiet = (inl refl, tt);
  };
  tasks = λ id. omega arith;
}

-- Every URL is on one host, and its path is its text.
abbrev pub urls : UrlLibrary
urls = record {
  urlsplit = λ url. ok (record {
    scheme = codes "https";
    netloc = codes "a.test";
    username = none;
    password = none;
    hostname = some (codes "a.test");
    port = ok none;
    path = url;
    query = [];
  });
  parse_qsl = λ query. [];
  urlencode = λ query. [];
  urlunsplit = λ scheme netloc path query. path;
  netloc_of = λ host port. host;
}

-- Every page is found, with the same content.
abbrev pub clients : ℕ → Clients
clients id = record {
  fetch_source = λ url domains. ok (record {
    url = url;
    status_code = 200;
    content = codes "page";
    content_type = codes "text/html";
  });
  jina_api_key = none;
  jina_monthly_call_limit = 500;
  fetch_via_jina = λ url key. none;
  period_key = codes "2026-07";
  sha256 = λ content. content;
}
