-- ===== src/Pages.antt =====
-- src/app/infra/source_persistence.py: fetching a page of an approved source and storing a snapshot of
-- it, with a second way to fetch it. The site is what the re-verification of cycles reads and
-- writes. Fresh ids, the clock, the month, the hash and the answers of clients are arguments.
pub mod Persisted
use edufurthersf_be.Prelude.{
  ℕ, String, Bool, true, false, not, ◌&&◌, Option, none, some, List, [], ◌∷◌, ◌++◌, ◌==◌, leb, ltb,
  if◌then◌else◌, find, length, truthy, Error, Result, ok, raise, lookup_error, value_error,
  transport_error, integrity_error,
}
use edufurthersf_be.Prelude.Text.{Text, codes}
use edufurthersf_be.Prelude.Session.{Session, commit, write}
use edufurthersf_be.Time.{Instant}
use edufurthersf_be.Json.{int, pos, str, Dict}
use edufurthersf_be.Rows.{update_row}
use edufurthersf_be.Catalogue.{Catalogue}
use edufurthersf_be.Linking.{ReviewTask}
use edufurthersf_be.ResearchBudget.{ResearchProviderUsage, reserve_call}
use edufurthersf_be.Fetching.{FetchedSource}

pub record Source : Type 0 where
  pub source_id : ℕ
  pub name : String
  pub approved_domains : List Text
  pub active : Bool

pub record SourcePage : Type 0 where
  pub page_id : ℕ
  pub source_id : ℕ
  pub normalized_url : Text
  pub normalized_content_hash : Option Text
  pub last_attempted_at : Option Instant
  pub last_successful_fetch_at : Option Instant
  pub http_status : Option ℕ
  pub final_url : Option Text

pub record SourceSnapshot : Type 0 where
  pub snapshot_id : ℕ
  pub page_id : ℕ
  pub fetched_at : Instant
  pub content_hash : Text
  pub extractor_version : String
  pub relevant_content : Dict

pub record Site : Type 0 where
  pub catalogue : Catalogue
  pub sources : List Source
  pub pages : List SourcePage
  pub snapshots : List SourceSnapshot
  pub usage : List ResearchProviderUsage
  pub tasks : List ReviewTask

abbrev pub page_key : SourcePage → ℕ
page_key p = p.page_id

abbrev pub page_of : ℕ → List SourcePage → Option SourcePage
page_of page_id = find (λ p. p.page_id == page_id)

abbrev pub source_of : ℕ → List Source → Option Source
source_of source_id = find (λ s. s.source_id == source_id)

-- `source is None or not source.active`.
abbrev pub is_active : Option Source → Bool
is_active none = false
is_active (some s) = s.active

abbrev pub is_success : ℕ → Bool
is_success status_code = leb 200 status_code && ltb status_code 400

-- The settings and clients of a fetch. `fetch_source` raises `httpx.HTTPError` as `transport_error`,
-- and `fetch_via_jina` is `none` where it does.
pub record Clients : Type 0 where
  pub fetch_source : Text → List Text → Result FetchedSource
  pub jina_api_key : Option Text
  pub jina_monthly_call_limit : ℕ
  pub fetch_via_jina : Text → Text → Option Text
  pub period_key : Text
  pub sha256 : Text → Text

abbrev pub by_jina : Text → Option Text → Option FetchedSource
by_jina url none = none
by_jina url (some content) = some (record {
  url = url;
  status_code = 200;
  content = content;
  content_type = codes "text/markdown";
})

-- `reserve_call` commits.
abbrev pub reserve : Clients → Session Site → Session Site × Bool
reserve clients db =
    let (usage, allowed) =
      reserve_call "jina" clients.period_key clients.jina_monthly_call_limit db.current.usage in
    (commit (write (λ s. record s { usage = usage }) db), allowed)

abbrev pub try_with_key :
    Clients → Text → Option Text → Session Site → Session Site × Option FetchedSource
try_with_key clients url none db = (db, none)
try_with_key clients url (some []) db = (db, none)
try_with_key clients url (some (c ∷ key)) db =
    let (reserved, allowed) = reserve clients db in
    (reserved, if not allowed then none else by_jina url (clients.fetch_via_jina url (c ∷ key)))

abbrev pub try_jina_fallback : Clients → Text → Session Site → Session Site × Option FetchedSource
try_jina_fallback clients url db = try_with_key clients url clients.jina_api_key db

abbrev pub or_fallback :
    Result (FetchedSource × String) → Option FetchedSource → Result (FetchedSource × String)
or_fallback direct none = direct
or_fallback direct (some fallback) = ok (fallback, "jina-reader-v1")

-- Only a transport failure or an error response is tried again; a refusal of the URL is not.
abbrev pub with_fallback :
    Clients
    → Text
    → Result FetchedSource
    → Session Site
    → Session Site × Result (FetchedSource × String)
with_fallback clients url (raise (transport_error what)) db =
    let (tried, fallback) = try_jina_fallback clients url db in
    (tried, or_fallback (raise (transport_error what)) fallback)
with_fallback clients url (raise (value_error what)) db = (db, raise (value_error what))
with_fallback clients url (raise (lookup_error what)) db = (db, raise (lookup_error what))
with_fallback clients url (raise (integrity_error what)) db = (db, raise (integrity_error what))
with_fallback clients url (ok fetched) db =
    let (tried, fallback) = try_jina_fallback clients url db in
    if leb 400 fetched.status_code
    then (tried, or_fallback (ok (fetched, "raw-v1")) fallback)
    else (db, ok (fetched, "raw-v1"))

unfoldable pub fetch_with_jina_fallback :
    Clients → Text → List Text → Session Site → Session Site × Result (FetchedSource × String)
fetch_with_jina_fallback clients url approved_domains db =
    with_fallback clients url (clients.fetch_source url approved_domains) db

abbrev pub set_fetched : Clients → Instant → FetchedSource → SourcePage → SourcePage
set_fetched clients now fetched page = record page {
  last_attempted_at = some now;
  last_successful_fetch_at =
      if is_success fetched.status_code then some now else page.last_successful_fetch_at;
  http_status = some fetched.status_code;
  final_url = some fetched.url;
  normalized_content_hash = some (clients.sha256 fetched.content);
}

abbrev pub new_snapshot : Clients → ℕ → ℕ → Instant → FetchedSource → String → SourceSnapshot
new_snapshot clients snapshot_id page_id now fetched extractor_version = record {
  snapshot_id = snapshot_id;
  page_id = page_id;
  fetched_at = now;
  content_hash = clients.sha256 fetched.content;
  extractor_version = extractor_version;
  relevant_content =
      ("content_type", str fetched.content_type)
      ∷ ("byte_length", int (pos (length fetched.content)))
      ∷ [];
}

abbrev pub persist :
    Clients
    → ℕ
    → ℕ
    → Instant
    → Session Site × Result (FetchedSource × String)
    → Session Site × Result ℕ
persist clients page_id snapshot_id now (db, raise e) = (db, raise e)
persist clients page_id snapshot_id now (db, ok (fetched, extractor_version)) = (
  commit (
      write
        (λ s. record s {
          pages = update_row page_key page_id (set_fetched clients now fetched) s.pages;
          snapshots =
              s.snapshots
              ++ new_snapshot clients snapshot_id page_id now fetched extractor_version ∷ [];
        })
        db),
  ok snapshot_id,
)

-- `approved_domains_override`, or the domains of the source.
abbrev pub domains_of : Option (List Text) → Source → List Text
domains_of none source = source.approved_domains
domains_of (some domains) source = domains

abbrev pub fetch_from :
    Clients
    → ℕ
    → Instant
    → Option (List Text)
    → SourcePage
    → Option Source
    → Session Site
    → Session Site × Result ℕ
fetch_from clients snapshot_id now override page none db =
    (db, raise (value_error "Source is inactive or missing"))
fetch_from clients snapshot_id now override page (some source) db =
    if not source.active
    then (db, raise (value_error "Source is inactive or missing"))
    else persist clients page.page_id snapshot_id now
        (fetch_with_jina_fallback clients page.normalized_url (domains_of override source) db)

abbrev pub fetch_page :
    Clients
    → ℕ
    → Instant
    → Option (List Text)
    → Option SourcePage
    → Session Site
    → Session Site × Result ℕ
fetch_page clients snapshot_id now override none db =
    (db, raise (lookup_error "Source page not found"))
fetch_page clients snapshot_id now override (some page) db =
    fetch_from clients snapshot_id now override page (source_of page.source_id db.current.sources)
      db

unfoldable pub fetch_and_persist_page :
    Clients → ℕ → Instant → ℕ → Option (List Text) → Session Site → Session Site × Result ℕ
unfolding fetch_with_jina_fallback
fetch_and_persist_page clients snapshot_id now page_id override db =
    fetch_page clients snapshot_id now override (page_of page_id db.current.pages) db
