-- ===== src/Reverify/Steps.antt =====
-- What one re-verification keeps, whichever way it ends.
use edufurthersf_be.Prelude.{
  ℕ, ◌≡◌, refl, String, Bool, Option, none, some, List, [], ◌∷◌, ◌++◌, ltb, find, Bool-cases, inl,
  inr, Result, ok, raise, ◌>>=◌,
}
use edufurthersf_be.Prelude.Text.{Text, text_eq}
use edufurthersf_be.Prelude.Session.{Session, write}
use edufurthersf_be.Time.{Instant}
use edufurthersf_be.Zones.{DateTime, ZoneLookup}
use edufurthersf_be.Json.{Json, Dict}
use edufurthersf_be.Freshness.{FreshnessBucket, FreshnessConfig, is_unchanged_recheck}
use edufurthersf_be.Rows.{update_row}
use edufurthersf_be.ReturnUrls.{text_or}
use edufurthersf_be.Urls.{UrlLibrary, canonicalize_url}
use edufurthersf_be.Catalogue.{ScholarshipCycle, cycle_key}
use edufurthersf_be.Catalogue.Invariant.{identity}
use edufurthersf_be.Refresh.{evidence_deadline, derived_facts, bucket_of}
use edufurthersf_be.Pages.{SourcePage, Site, Clients, page_of, fetch_and_persist_page}
use edufurthersf_be.Pages.Persisted.{IgnoresPages, Both, fetch-Both}
use edufurthersf_be.Reverify.{
  is_live_for, cycle_task, insert_unless_live, open_cycle_review_task, linked_page, same_page,
  new_page, link_page, page_or_new, draft_of, fetched_hash, restores, renew, still_valid, defer_by,
  defer_or_flag, page_at, page_from, get_or_create_source_page, compare_hashes, judge, after_fetch,
  fetch_of, with_page, reverify_one_cycle,
}

-- A write of a cycle that leaves its key and its triple.
pub record KeepsIdentity (f : ScholarshipCycle → ScholarshipCycle) : Type 0 where
  pub same_id : (c : ScholarshipCycle) → (f c).cycle_id ≡ c.cycle_id
  pub same : (c : ScholarshipCycle) → identity (f c) ≡ identity c

-- A property of the site that the statements of a re-verification of the cycle keep.
pub record Stable (cycle_id : ℕ) (J : Site → Type 0) : Type 0 where
  pub pages : IgnoresPages J
  pub cycle :
      (s : Site) (f : ScholarshipCycle → ScholarshipCycle)
      → KeepsIdentity f
      → J s
      → J (record s {
        catalogue = record s.catalogue {
          cycles = update_row cycle_key cycle_id f s.catalogue.cycles;
        };
      })
  pub task :
      (s : Site) (task_id : ℕ) (reason : String) (draft : Dict)
      → J s
      → J (record s {
        tasks =
            insert_unless_live
              (find (is_live_for cycle_id) s.tasks)
              (cycle_task task_id cycle_id reason draft)
              s.tasks;
      })

renew-KeepsIdentity : (now : Instant) → KeepsIdentity (renew now)
renew-KeepsIdentity now = record {
  same_id = λ c. elim (Bool-cases (restores c)) [ inl e ↦ rw e refl | inr e ↦ rw e refl ];
  same = λ c. elim (Bool-cases (restores c)) [ inl e ↦ rw e refl | inr e ↦ rw e refl ];
}

module _ (J : Site → Type 0) (cycle : ScholarshipCycle) (stable : Stable cycle.cycle_id J) where
  link-Both : (page : SourcePage) (db : Session Site) → Both J db → Both J (link_page cycle page db)
  link-Both page db h = (
    stable.cycle db.current (λ c. record c { source_page_id = some page.page_id })
        (record { same_id = λ c. refl; same = λ c. refl }) h.0,
    h.1,
  )

  page_or_new-Both :
      (found : Option SourcePage) (new : SourcePage) (db : Session Site)
      → Both J db
      → Both J (page_or_new found new cycle db).0
  page_or_new-Both (some page) new db h = link-Both page db h
  page_or_new-Both none new db h =
      let s = db.current in
      link-Both new (write (λ s. record s { pages = s.pages ++ new ∷ [] }) db)
        (stable.pages s (s.pages ++ new ∷ []) s.snapshots s.usage h.0, h.1)

  task-Both :
      (task_id : ℕ) (reason : String) (draft : Dict) (db : Session Site)
      → Both J db
      → Both J (open_cycle_review_task task_id cycle.cycle_id reason draft db)
  unfolding open_cycle_review_task
  task-Both task_id reason draft db h = (stable.task db.current task_id reason draft h.0, h.1)

  module _ (zone_info : Text → ZoneLookup) (text_of : Json → Text)
      (fromisoformat : Text → Option DateTime) (urls : UrlLibrary) (id_text : ℕ → Text)
      (cfg : FreshnessConfig) (now : Instant) where
    defer_by-Both :
        (bucket : Result FreshnessBucket) (task_id : ℕ) (reason : String) (db : Session Site)
        → Both J db
        → Both J
            (defer_by zone_info text_of fromisoformat urls id_text cfg now bucket task_id cycle
              reason db).0
    defer_by-Both (raise e) task_id reason db h = h
    defer_by-Both (ok bucket) task_id reason db h =
        elim (Bool-cases (ltb now (evidence_deadline cycle bucket cfg))) [
          | inl e ↦ rw e h
          | inr e ↦ rw e (task-Both task_id reason (draft_of (id_text cycle.cycle_id) cycle) db h)
        ]

    defer-Both :
        (task_id : ℕ) (reason : String) (db : Session Site)
        → Both J db
        → Both J
            (defer_or_flag zone_info text_of fromisoformat urls id_text cfg now task_id cycle reason
              db).0
    unfolding defer_or_flag
    defer-Both task_id reason db h =
        defer_by-Both (bucket_of zone_info text_of fromisoformat cycle now cfg) task_id reason db h

    page_at-Both :
        (url : Result Text) (page_id source_id : ℕ) (db : Session Site)
        → Both J db
        → Both J
            (page_at zone_info text_of fromisoformat urls id_text cfg now url page_id source_id
              cycle db).0
    page_at-Both (raise e) page_id source_id db h = h
    page_at-Both (ok url) page_id source_id db h =
        page_or_new-Both (find (same_page source_id url) db.current.pages)
          (new_page page_id source_id url) db h

    page_from-Both :
        (found : Option SourcePage) (page_id source_id : ℕ) (db : Session Site)
        → Both J db
        → Both J
            (page_from zone_info text_of fromisoformat urls id_text cfg now found page_id source_id
              cycle db).0
    page_from-Both (some page) page_id source_id db h = h
    page_from-Both none page_id source_id db h =
        page_at-Both (canonicalize_url urls cycle.official_cycle_url) page_id source_id db h

    compare-Both :
        (task_id : ℕ) (previous_hash new_hash : Text) (http_status : ℕ) (valid : Result Bool)
        (db : Session Site)
        → Both J db
        → Both J
            (compare_hashes zone_info text_of fromisoformat urls id_text cfg now task_id cycle
              previous_hash new_hash http_status valid db).0
    compare-Both task_id previous_hash new_hash http_status (raise e) db h = h
    compare-Both task_id previous_hash new_hash http_status (ok valid) db h =
        elim (Bool-cases (is_unchanged_recheck (some previous_hash) new_hash http_status valid)) [
          | inl e ↦ rw e (stable.cycle db.current (renew now) (renew-KeepsIdentity now) h.0, h.1)
          | inr e ↦ elim (Bool-cases (text_eq previous_hash new_hash)) [
            | inl y ↦ rw (e, y) h
            | inr n ↦ rw (e, n) (task-Both task_id "reverify_content_changed" _ db h)
          ]
        ]

    judge-Both :
        (task_id : ℕ) (previous_hash : Option Text) (fetched : Option (Text × ℕ))
        (db : Session Site)
        → Both J db
        → Both J
            (judge zone_info text_of fromisoformat urls id_text cfg now task_id cycle previous_hash
              fetched db).0
    judge-Both task_id previous_hash none db h = defer-Both task_id "reverify_link_unreachable" db h
    judge-Both task_id none (some (new_hash, http_status)) db h =
        defer-Both task_id "reverify_first_observation" db h
    judge-Both task_id (some previous_hash) (some (new_hash, http_status)) db h =
        let derived = derived_facts zone_info text_of fromisoformat cycle in
        compare-Both task_id previous_hash new_hash http_status
          (still_valid zone_info derived derived.deadline_at now) db h

    module _ (clients : Clients) (snapshot_id : ℕ) where
      after_fetch-Both :
          (task_id : ℕ) (page : SourcePage) (r : Session Site × Result ℕ)
          → Both J r.0
          → Both J
              (after_fetch zone_info text_of fromisoformat urls id_text cfg now clients snapshot_id
                task_id cycle page r).0
      after_fetch-Both task_id page (db, raise e) h =
          defer-Both task_id "reverify_fetch_failed" db h
      after_fetch-Both task_id page (db, ok snapshot) h =
          judge-Both task_id page.normalized_content_hash
            (fetched_hash (page_of page.page_id db.current.pages)) db h

      fetch_of-Both :
          (task_id : ℕ) (page : SourcePage) (hostname : Result (Option Text)) (db : Session Site)
          → Both J db
          → Both J
              (fetch_of zone_info text_of fromisoformat urls id_text cfg now clients snapshot_id
                task_id cycle page hostname db).0
      fetch_of-Both task_id page (raise e) db h = defer-Both task_id "reverify_fetch_failed" db h
      fetch_of-Both task_id page (ok hostname) db h =
          let domains : Option (List Text) = some (text_or [] hostname ∷ []) in
          after_fetch-Both task_id page
            (fetch_and_persist_page clients snapshot_id now page.page_id domains db)
            (fetch-Both J stable.pages clients snapshot_id now page.page_id domains db h)

      with_page-Both :
          (task_id : ℕ) (r : Session Site × Result SourcePage)
          → Both J r.0
          → Both J
              (with_page zone_info text_of fromisoformat urls id_text cfg now clients snapshot_id
                task_id cycle r).0
      with_page-Both task_id (db, raise e) h = defer-Both task_id "reverify_fetch_failed" db h
      with_page-Both task_id (db, ok page) h =
          fetch_of-Both task_id page
            (urls.urlsplit page.normalized_url >>= λ parts. ok parts.hostname) db h

      -- A re-verification keeps what its statements keep, whether it returns or raises.
      pub reverify_one-Both :
          (task_id page_id source_id : ℕ) (db : Session Site)
          → Both J db
          → Both J
              (reverify_one_cycle zone_info text_of fromisoformat urls id_text cfg now clients
                snapshot_id task_id page_id source_id cycle db).0
      unfolding reverify_one_cycle get_or_create_source_page
      reverify_one-Both task_id page_id source_id db h =
          let found = linked_page cycle.source_page_id db.current.pages in
          with_page-Both task_id
            (page_from zone_info text_of fromisoformat urls id_text cfg now found page_id source_id
              cycle db)
            (page_from-Both found page_id source_id db h)
