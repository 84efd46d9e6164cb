-- ===== src/Reverify.antt =====
-- src/app/infra/freshness.py: the job that fetches the pages of published cycles again and compares their
-- hashes. Fresh ids are functions of the cycle; the answer to each fetch is one of `Clients`, and
-- what other sessions change between two cycles of a sweep is an argument. The check of one cycle is one step:
-- `fetch_and_persist_page` commits within it and so releases the lock of the cycle's row, and what another session
-- may write between that commit and the next is not modelled.
pub mod Due
pub mod Steps
pub mod Keeps
pub mod Restored
pub mod Sweep
mod Tests
use edufurthersf_be.Prelude.{
  ℕ, ◌+◌, String, str_eq, Bool, true, false, not, ◌&&◌, ◌||◌, Option, none, some, List, [], ◌∷◌,
  ◌++◌, ◌==◌, leb, ltb, if◌then◌else◌, find, is_some, length, map, Error, Result, ok, raise, ◌>>=◌,
}
use edufurthersf_be.Prelude.Text.{Text, codes, text_eq}
use edufurthersf_be.Prelude.Session.{Session, opened, commit, rollback, write}
use edufurthersf_be.Time.{Instant}
use edufurthersf_be.Zones.{DateTime, ZoneLookup}
use edufurthersf_be.Json.{Json, str, Dict}
use edufurthersf_be.Status.{PublicStatus, open_verified, status_unknown, deadline_cutoff}
use edufurthersf_be.Facts.{DerivedFacts}
use edufurthersf_be.Freshness.{
  FreshnessBucket, FreshnessConfig, is_reverify_due, is_unchanged_recheck,
}
use edufurthersf_be.Rows.{update_row}
use edufurthersf_be.ReturnUrls.{text_or}
use edufurthersf_be.Urls.{UrlLibrary, canonicalize_url}
use edufurthersf_be.Catalogue.{ScholarshipCycle, Catalogue, cycle_key, is_public}
use edufurthersf_be.Linking.{ReviewTask, is_for}
use edufurthersf_be.Refresh.{evidence_deadline, published_cycles, derived_facts, bucket_of}
use edufurthersf_be.Pages.{
  Source, SourcePage, Site, Clients, page_of, is_success, fetch_and_persist_page,
}

pub data Outcome : Type 0 where
  renewed flagged deferred : Outcome

-- `state = 'open' AND resolution IS NULL`, for one cycle.
abbrev pub is_live_for : ℕ → ReviewTask → Bool
is_live_for cycle_id task =
    is_for cycle_id task.cycle_id && (task.is_open && not (is_some task.resolution))

abbrev pub cycle_task : ℕ → ℕ → String → Dict → ReviewTask
cycle_task review_task_id cycle_id reason draft = record {
  review_task_id = review_task_id;
  discovery_id = none;
  cycle_id = some cycle_id;
  reason = reason;
  priority = 100;
  is_open = true;
  resolution = none;
  draft_recommendation = some draft;
}

abbrev pub insert_unless_live : Option ReviewTask → ReviewTask → List ReviewTask → List ReviewTask
insert_unless_live none task tasks = tasks ++ task ∷ []
insert_unless_live (some live) task tasks = tasks

-- The insert that the unique index on live tasks arbitrates.
unfoldable pub open_cycle_review_task : ℕ → ℕ → String → Dict → Session Site → Session Site
open_cycle_review_task task_id cycle_id reason draft = write (λ s. record s {
  tasks =
      insert_unless_live (find (is_live_for cycle_id) s.tasks)
        (cycle_task task_id cycle_id reason draft) s.tasks;
})

abbrev pub write_cycle : ℕ → (ScholarshipCycle → ScholarshipCycle) → Session Site → Session Site
write_cycle cycle_id f = write (λ s. record s {
  catalogue = record s.catalogue { cycles = update_row cycle_key cycle_id f s.catalogue.cycles };
})

-- `db.get(SourcePage, cycle.source_page_id)`.
abbrev pub linked_page : Option ℕ → List SourcePage → Option SourcePage
linked_page none pages = none
linked_page (some page_id) pages = page_of page_id pages

abbrev pub same_page : ℕ → Text → SourcePage → Bool
same_page source_id normalized_url p =
    p.source_id == source_id && text_eq p.normalized_url normalized_url

abbrev pub new_page : ℕ → ℕ → Text → SourcePage
new_page page_id source_id normalized_url = record {
  page_id = page_id;
  source_id = source_id;
  normalized_url = normalized_url;
  normalized_content_hash = none;
  last_attempted_at = none;
  last_successful_fetch_at = none;
  http_status = none;
  final_url = none;
}

abbrev pub link_page : ScholarshipCycle → SourcePage → Session Site → Session Site
link_page cycle page =
    write_cycle cycle.cycle_id (λ c. record c { source_page_id = some page.page_id })

abbrev pub page_or_new :
    Option SourcePage → SourcePage → ScholarshipCycle → Session Site → Session Site × SourcePage
page_or_new (some page) new cycle db = (link_page cycle page db, page)
page_or_new none new cycle db =
    (link_page cycle new (write (λ s. record s { pages = s.pages ++ new ∷ [] }) db), new)

-- The draft of a task: the cycle and its URL, and more for a change.
abbrev pub draft_of : Text → ScholarshipCycle → Dict
draft_of id_text cycle =
    ("cycle_id", str id_text) ∷ ("official_cycle_url", str cycle.official_cycle_url) ∷ []

abbrev pub change_draft : Text → ScholarshipCycle → Text → Text → Dict
change_draft id_text cycle previous_hash new_hash =
    draft_of id_text cycle
    ++ ("previous_content_hash", str previous_hash) ∷ ("new_content_hash", str new_hash) ∷ []

-- What a fetch left of a page: its hash, if it may be compared.
abbrev pub fetched_hash : Option SourcePage → Option (Text × ℕ)
fetched_hash none = none
fetched_hash (some page) = elim page.normalized_content_hash [
  | none ↦ none
  | some new_hash ↦ elim page.http_status [
    | none ↦ none
    | some http_status ↦ if is_success http_status then some (new_hash, http_status) else none
  ]
]

abbrev pub restores : ScholarshipCycle → Bool
restores cycle = elim cycle.public_status [ status_unknown ↦ cycle.auto_downgraded | _ ↦ false ]

-- `last_verified_at`, and the way back from a downgrade for staleness.
abbrev pub renew : Instant → ScholarshipCycle → ScholarshipCycle
renew now cycle =
    if restores cycle
    then record cycle {
      last_verified_at = some now;
      public_status = open_verified;
      auto_downgraded = false;
    }
    else record cycle { last_verified_at = some now }

module _ (zone_info : Text → ZoneLookup) where
  -- `deadline_still_valid`.
  unfoldable pub still_valid : DerivedFacts → Option DateTime → Instant → Result Bool
  still_valid derived none now = ok true
  still_valid derived (some deadline) now = do
    cutoff ← deadline_cutoff zone_info deadline derived.deadline_precision derived.deadline_timezone
    ok (ltb now cutoff)

module _ (zone_info : Text → ZoneLookup) (text_of : Json → Text)
    (fromisoformat : Text → Option DateTime) (urls : UrlLibrary) (id_text : ℕ → Text)
    (cfg : FreshnessConfig) (now : Instant) where
  abbrev pub defer_by :
      Result FreshnessBucket
      → ℕ
      → ScholarshipCycle
      → String
      → Session Site
      → Session Site × Result Outcome
  defer_by (raise e) task_id cycle reason db = (db, raise e)
  defer_by (ok bucket) task_id cycle reason db =
      if ltb now (evidence_deadline cycle bucket cfg) then (db, ok deferred) else (
        open_cycle_review_task task_id cycle.cycle_id reason
            (draft_of (id_text cycle.cycle_id) cycle) db,
        ok flagged,
      )

  -- A failed fetch, or a first one, is escalated only where the evidence went stale.
  unfoldable pub defer_or_flag :
      ℕ → ScholarshipCycle → String → Session Site → Session Site × Result Outcome
  unfolding open_cycle_review_task
  defer_or_flag task_id cycle reason db =
      defer_by (bucket_of zone_info text_of fromisoformat cycle now cfg) task_id cycle reason db

  abbrev pub page_at :
      Result Text → ℕ → ℕ → ScholarshipCycle → Session Site → Session Site × Result SourcePage
  page_at (raise e) page_id source_id cycle db = (db, raise e)
  page_at (ok normalized_url) page_id source_id cycle db =
      let (linked, page) =
        page_or_new (find (same_page source_id normalized_url) db.current.pages)
          (new_page page_id source_id normalized_url) cycle db in
      (linked, ok page)

  abbrev pub page_from :
      Option SourcePage → ℕ → ℕ → ScholarshipCycle → Session Site → Session Site × Result SourcePage
  page_from (some existing) page_id source_id cycle db = (db, ok existing)
  page_from none page_id source_id cycle db =
      page_at (canonicalize_url urls cycle.official_cycle_url) page_id source_id cycle db

  unfoldable pub get_or_create_source_page :
      ℕ → ℕ → ScholarshipCycle → Session Site → Session Site × Result SourcePage
  get_or_create_source_page page_id source_id cycle db =
      page_from (linked_page cycle.source_page_id db.current.pages) page_id source_id cycle db

  abbrev pub compare_hashes :
      ℕ
      → ScholarshipCycle
      → Text
      → Text
      → ℕ
      → Result Bool
      → Session Site
      → Session Site × Result Outcome
  compare_hashes task_id cycle previous_hash new_hash http_status (raise e) db = (db, raise e)
  compare_hashes task_id cycle previous_hash new_hash http_status (ok valid) db =
      if is_unchanged_recheck (some previous_hash) new_hash http_status valid
      then (write_cycle cycle.cycle_id (renew now) db, ok renewed)
      else if not (text_eq previous_hash new_hash)
      then (
        open_cycle_review_task task_id cycle.cycle_id "reverify_content_changed"
            (change_draft (id_text cycle.cycle_id) cycle previous_hash new_hash) db,
        ok flagged,
      )
      else (db, ok deferred)

  abbrev pub judge :
      ℕ
      → ScholarshipCycle
      → Option Text
      → Option (Text × ℕ)
      → Session Site
      → Session Site × Result Outcome
  judge task_id cycle previous_hash none db =
      defer_or_flag task_id cycle "reverify_link_unreachable" db
  judge task_id cycle none (some (new_hash, http_status)) db =
      defer_or_flag task_id cycle "reverify_first_observation" db
  judge task_id cycle (some previous_hash) (some (new_hash, http_status)) db =
      let derived = derived_facts zone_info text_of fromisoformat cycle in
      compare_hashes task_id cycle previous_hash new_hash http_status
        (still_valid zone_info derived derived.deadline_at now) db

  module _ (clients : Clients) (snapshot_id : ℕ) where
    abbrev pub after_fetch :
        ℕ → ScholarshipCycle → SourcePage → Session Site × Result ℕ → Session Site × Result Outcome
    after_fetch task_id cycle page (db, raise e) =
        defer_or_flag task_id cycle "reverify_fetch_failed" db
    after_fetch task_id cycle page (db, ok snapshot) =
        judge task_id cycle page.normalized_content_hash
          (fetched_hash (page_of page.page_id db.current.pages)) db

    abbrev pub fetch_of :
        ℕ
        → ScholarshipCycle
        → SourcePage
        → Result (Option Text)
        → Session Site
        → Session Site × Result Outcome
    fetch_of task_id cycle page (raise e) db =
        defer_or_flag task_id cycle "reverify_fetch_failed" db
    fetch_of task_id cycle page (ok hostname) db = after_fetch task_id cycle page (
        fetch_and_persist_page clients snapshot_id now page.page_id
          (some (text_or [] hostname ∷ [])) db)

    abbrev pub with_page :
        ℕ → ScholarshipCycle → Session Site × Result SourcePage → Session Site × Result Outcome
    with_page task_id cycle (db, raise e) = defer_or_flag task_id cycle "reverify_fetch_failed" db
    with_page task_id cycle (db, ok page) =
        fetch_of task_id cycle page
          (urls.urlsplit page.normalized_url >>= λ parts. ok parts.hostname) db

    unfoldable pub reverify_one_cycle :
        ℕ → ℕ → ℕ → ScholarshipCycle → Session Site → Session Site × Result Outcome
    unfolding get_or_create_source_page defer_or_flag still_valid
    reverify_one_cycle task_id page_id source_id cycle db =
        with_page task_id cycle (get_or_create_source_page page_id source_id cycle db)
