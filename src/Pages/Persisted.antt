-- ===== src/Pages/Persisted.antt =====
-- What a fetch leaves of the rest of the site, and what it stores.
use edufurthersf_be.Prelude.{
  ℕ, String, Bool, true, false, not, Option, none, some, List, [], ◌∷◌, leb, if◌then◌else◌,
  Bool-cases, inl, inr, Result, ok, raise, lookup_error, value_error, transport_error,
  integrity_error,
}
use edufurthersf_be.Prelude.Text.{Text}
use edufurthersf_be.Prelude.Session.{Session}
use edufurthersf_be.Time.{Instant}
use edufurthersf_be.ResearchBudget.{ResearchProviderUsage, reserve_call}
use edufurthersf_be.Fetching.{FetchedSource}
use edufurthersf_be.Pages.{
  Source, SourcePage, SourceSnapshot, Site, Clients, page_of, source_of, domains_of, try_with_key,
  with_fallback, fetch_with_jina_fallback, persist, fetch_from, fetch_page, fetch_and_persist_page,
}

-- A property of a site that does not look at pages, snapshots and budgets.
abbrev pub IgnoresPages : (Site → Type 0) → Type 0
IgnoresPages J =
    (s : Site) (pages : List SourcePage) (snapshots : List SourceSnapshot)
    (usage : List ResearchProviderUsage)
    → J s
    → J (record s { pages = pages; snapshots = snapshots; usage = usage })

-- It holds of what a session sees, and of what is committed.
abbrev pub Both : (Site → Type 0) → Session Site → Type 0
Both J db = J db.current × J db.committed

module _ (J : Site → Type 0) (ignores : IgnoresPages J) where
  try-Both :
      (clients : Clients) (url : Text) (key : Option Text) (db : Session Site)
      → Both J db
      → Both J (try_with_key clients url key db).0
  try-Both clients url none db h = h
  try-Both clients url (some []) db h = h
  try-Both clients url (some (c ∷ key)) db h =
      let s = db.current in
      let usage =
        (reserve_call "jina" clients.period_key clients.jina_monthly_call_limit s.usage).0 in
      let kept = ignores s s.pages s.snapshots usage h.0 in (kept, kept)

  with_fallback-Both :
      (clients : Clients) (url : Text) (direct : Result FetchedSource) (db : Session Site)
      → Both J db
      → Both J (with_fallback clients url direct db).0
  with_fallback-Both clients url (raise (transport_error what)) db h =
      try-Both clients url clients.jina_api_key db h
  with_fallback-Both clients url (raise (value_error what)) db h = h
  with_fallback-Both clients url (raise (lookup_error what)) db h = h
  with_fallback-Both clients url (raise (integrity_error what)) db h = h
  with_fallback-Both clients url (ok fetched) db h =
      elim (Bool-cases (leb 400 fetched.status_code)) [
        | inl e ↦ rw e (try-Both clients url clients.jina_api_key db h)
        | inr e ↦ rw e h
      ]

  fallback-Both :
      (clients : Clients) (url : Text) (domains : List Text) (db : Session Site)
      → Both J db
      → Both J (fetch_with_jina_fallback clients url domains db).0
  unfolding fetch_with_jina_fallback
  fallback-Both clients url domains db h =
      with_fallback-Both clients url (clients.fetch_source url domains) db h

  either-Both :
      (b : Bool) (x y : Session Site × Result ℕ)
      → Both J x.0
      → Both J y.0
      → Both J (if b then x else y).0
  either-Both true x y h k = h
  either-Both false x y h k = k

  persist-Both :
      (clients : Clients) (page_id snapshot_id : ℕ) (now : Instant)
      (r : Session Site × Result (FetchedSource × String))
      → Both J r.0
      → Both J (persist clients page_id snapshot_id now r).0
  persist-Both clients page_id snapshot_id now (db, raise e) h = h
  persist-Both clients page_id snapshot_id now (db, ok (fetched, version)) h =
      let s = db.current in let kept = ignores s _ _ s.usage h.0 in (kept, kept)

  fetch_from-Both :
      (clients : Clients) (snapshot_id : ℕ) (now : Instant) (override : Option (List Text))
      (page : SourcePage) (source : Option Source) (db : Session Site)
      → Both J db
      → Both J (fetch_from clients snapshot_id now override page source db).0
  fetch_from-Both clients snapshot_id now override page none db h = h
  fetch_from-Both clients snapshot_id now override page (some source) db h =
      either-Both (not source.active) (db, raise (value_error "Source is inactive or missing"))
        (persist clients page.page_id snapshot_id now
          (fetch_with_jina_fallback clients page.normalized_url (domains_of override source) db))
        h
        (persist-Both clients page.page_id snapshot_id now
          (fetch_with_jina_fallback clients page.normalized_url (domains_of override source) db)
          (fallback-Both clients page.normalized_url (domains_of override source) db h))

  fetch_page-Both :
      (clients : Clients) (snapshot_id : ℕ) (now : Instant) (override : Option (List Text))
      (page : Option SourcePage) (db : Session Site)
      → Both J db
      → Both J (fetch_page clients snapshot_id now override page db).0
  fetch_page-Both clients snapshot_id now override none db h = h
  fetch_page-Both clients snapshot_id now override (some page) db h =
      fetch_from-Both clients snapshot_id now override page
        (source_of page.source_id db.current.sources) db h

  -- A fetch changes pages, snapshots and budgets only.
  pub fetch-Both :
      (clients : Clients) (snapshot_id : ℕ) (now : Instant) (page_id : ℕ)
      (override : Option (List Text)) (db : Session Site)
      → Both J db
      → Both J (fetch_and_persist_page clients snapshot_id now page_id override db).0
  unfolding fetch_and_persist_page
  fetch-Both clients snapshot_id now page_id override db h =
      fetch_page-Both clients snapshot_id now override (page_of page_id db.current.pages) db h
