-- ===== src/Sessions.antt =====
-- src/app/infra/sessions.py: the visitors' sessions and the stored pages of their searches, with their tables in
-- src/app/domain/models.py. A fresh id, a fresh token and the clock at each reading are arguments. Each function
-- runs in one transaction, whose statements see no other session's new rows.
pub mod Resumed
pub mod Recorded
mod Tests
use edufurthersf_be.Prelude.{
  ℕ, ◌+◌, ◌*◌, Bool, true, false, not, ◌&&◌, ◌||◌, Option, none, some, List, [], ◌∷◌, ◌++◌, any,
  find, truthy, ltb, ◌==◌, if◌then◌else◌, Result, ok, raise, integrity_error,
}
use edufurthersf_be.Prelude.Text.{Text, codes, text_eq}
use edufurthersf_be.Time.{Instant, days}
use edufurthersf_be.Json.{Json}
use edufurthersf_be.Snapshots.{Snapshot}

abbrev pub session_cookie : Text
session_cookie = codes "finder_session"

abbrev pub session_ttl : ℕ
session_ttl = days 30

pub record AnonymousSession : Type 0 where
  pub session_id : ℕ
  pub pseudonymous_id : Text
  pub consent_state : Text
  pub expires_at : Instant

-- `response.set_cookie(...)`.
pub record Cookie : Type 0 where
  pub key : Text
  pub value : Text
  pub httponly : Bool
  pub secure : Bool
  pub samesite : Text
  pub max_age : ℕ

-- The row that a cookie's value and the clock select.
abbrev pub is_live : Text → Instant → AnonymousSession → Bool
is_live cookie now s = text_eq s.pseudonymous_id cookie && ltb now s.expires_at

unfoldable pub get_existing_session :
    List AnonymousSession → Instant → Option Text → Option AnonymousSession
get_existing_session rows now none = none
get_existing_session rows now (some cookie) =
    if not (truthy cookie) then none else find (is_live cookie now) rows

pub record Resolved : Type 0 where
  pub session : AnonymousSession
  pub set_cookie : Option Cookie
  pub rows : List AnonymousSession

abbrev pub created_session : ℕ → Text → Instant → AnonymousSession
created_session session_id token now = record {
  session_id = session_id;
  pseudonymous_id = token;
  consent_state = codes "unknown";
  expires_at = now + session_ttl;
}

abbrev pub cookie_for : AnonymousSession → Cookie
cookie_for s = record {
  key = session_cookie;
  value = s.pseudonymous_id;
  httponly = true;
  secure = true;
  samesite = codes "lax";
  max_age = 30 * 86400;
}

-- The database takes no second row with an id or a token that it has.
abbrev pub is_taken : ℕ → Text → List AnonymousSession → Bool
is_taken session_id token rows =
    any (λ s. (s.session_id == session_id) || text_eq s.pseudonymous_id token) rows

abbrev pub create_session : List AnonymousSession → ℕ → Text → Instant → Result Resolved
create_session rows session_id token now =
    let s = created_session session_id token now in
    if is_taken session_id token rows
    then raise (integrity_error "anonymous_sessions")
    else ok (record { session = s; set_cookie = some (cookie_for s); rows = rows ++ s ∷ [] })

unfoldable pub get_or_create_session :
    List AnonymousSession → Instant → Option Text → ℕ → Text → Instant → Result Resolved
unfolding get_existing_session
get_or_create_session rows now cookie session_id token later =
    elim (get_existing_session rows now cookie) [
      | some s ↦ ok (record { session = s; set_cookie = none; rows = rows })
      | none ↦ create_session rows session_id token later
    ]

abbrev pub search_retention : ℕ
search_retention = days 30

pub record Search : Type 0 where
  pub id : ℕ
  pub search_id : ℕ
  pub session_id : Option ℕ
  pub filter_digest : Text
  pub filters : Json
  pub result_snapshot : Snapshot
  pub snapshot_schema_version : Text
  pub match_policy_version : Text
  pub taxonomy_version : Text
  pub page_number : ℕ
  pub requested_limit : ℕ
  pub returned_count : ℕ
  pub total_match_count : ℕ
  pub duration_ms : ℕ
  pub expires_at : Instant
  pub evaluated_at : Instant

-- The arguments of `record_search_response`.
pub record SearchResponse : Type 0 where
  pub session : Option AnonymousSession
  pub search_id : ℕ
  pub filters : Json
  pub filter_digest : Text
  pub snapshot : Snapshot
  pub evaluated_at : Instant
  pub page_number : ℕ
  pub requested_limit : ℕ
  pub returned_count : ℕ
  pub total_match_count : ℕ
  pub duration_ms : ℕ

abbrev pub id_of : Option AnonymousSession → Option ℕ
id_of none = none
id_of (some s) = some s.session_id

-- The row with every attribute assigned.
abbrev pub assigned : ℕ → SearchResponse → Search
assigned id a = record {
  id = id;
  search_id = a.search_id;
  session_id = id_of a.session;
  filter_digest = a.filter_digest;
  filters = a.filters;
  result_snapshot = a.snapshot;
  snapshot_schema_version = a.snapshot.schema_version;
  match_policy_version = a.snapshot.meta.match_policy_version;
  taxonomy_version = a.snapshot.meta.taxonomy_version;
  page_number = a.page_number;
  requested_limit = a.requested_limit;
  returned_count = a.returned_count;
  total_match_count = a.total_match_count;
  duration_ms = a.duration_ms;
  expires_at = a.evaluated_at + search_retention;
  evaluated_at = a.evaluated_at;
}

abbrev pub is_page : ℕ → ℕ → Search → Bool
is_page search_id page_number r = (r.search_id == search_id) && (r.page_number == page_number)

abbrev pub page_of : ℕ → ℕ → List Search → Option Search
page_of search_id page_number rows = find (is_page search_id page_number) rows

-- The row that the query found is written in its place.
unfoldable pub written : Search → List Search → List Search
written row [] = []
written row (r ∷ rs) =
    let rest = written row rs in
    if is_page row.search_id row.page_number r then row ∷ rs else r ∷ rest

abbrev pub add_page : List Search → Search → Result (Search × List Search)
add_page rows row =
    if any (λ r. r.id == row.id) rows
    then raise (integrity_error "searches")
    else ok (row, rows ++ row ∷ [])

unfoldable pub record_search_response :
    List Search → ℕ → SearchResponse → Result (Search × List Search)
unfolding written
record_search_response rows id a = elim (page_of a.search_id a.page_number rows) [
  | some existing ↦ ok (assigned existing.id a, written (assigned existing.id a) rows)
  | none ↦ add_page rows (assigned id a)
]
