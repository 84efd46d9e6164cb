-- ===== src/Sessions/Tests.antt =====
-- Sessions and stored pages at concrete inputs.
use edufurthersf_be.Prelude.{ℕ, ◌≡◌, refl, false, none, some, List, [], ◌∷◌, ok}
use edufurthersf_be.Prelude.Text.{Text, codes, text_eq}
use edufurthersf_be.Json.{null}
use edufurthersf_be.Zones.{DateTime}
use edufurthersf_be.Snapshots.{Snapshot, build_result_snapshot}
use edufurthersf_be.Sessions.{
  AnonymousSession, Search, SearchResponse, Resolved, created_session, assigned,
  get_or_create_session, record_search_response,
}
use edufurthersf_be.Sessions.Resumed.{IsNamed, Resumes, session_returns}
use edufurthersf_be.Sessions.Recorded.{IsRecorded, response_stored}

abbrev visitor : AnonymousSession
visitor = created_session 1 (codes "t") 0

session_returns_example :
    (r : Resolved) × (get_or_create_session (visitor ∷ []) 5 (some (codes "t")) 2 (codes "u") 6
      ≡ ok r)
    × IsNamed r.rows
    × Resumes r.rows r.session
unfolding text_eq
session_returns_example =
    session_returns (visitor ∷ []) 5 (some (codes "t")) 2 (codes "u") 6 (refl, tt, tt) refl refl

abbrev isoformat : DateTime → Text
isoformat t = t.wall ∷ []

abbrev stored : Snapshot
stored =
    build_result_snapshot isoformat [] (record { wall = 7; offset = none }) (codes "match-v2")
      (codes "taxonomy-v3") 1 20 0 false [] none none

abbrev response : ℕ → SearchResponse
response evaluated_at = record {
  session = some visitor;
  search_id = 7;
  filters = null;
  filter_digest = codes "ab";
  snapshot = stored;
  evaluated_at = evaluated_at;
  page_number = 1;
  requested_limit = 20;
  returned_count = 0;
  total_match_count = 0;
  duration_ms = 3;
}

abbrev pages : List Search
pages = assigned 10 (response 100) ∷ []

response_stored_example :
    (row : Search) × (after : List Search) × (record_search_response pages 11 (response 200)
      ≡ ok (row, after))
    × IsRecorded pages (response 200) row after
response_stored_example = response_stored pages 11 (response 200) (tt, tt) refl
