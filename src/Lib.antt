-- ===== src/Lib.antt =====
-- The Scholarship Finder backend (src/app): a search over published scholarship cycles, the
-- pipeline that turns discovered pages into reviewed records, and the durable jobs and events
-- that drive both. This library models the decisions and the stored state of that program as
-- functions, and proves what makes them correct.
--
-- How the parts interact. A discovery is linked to a scholarship or queued for a reviewer
-- (Linking), with a place in the queue (ReviewPriority) and a job for its draft (Jobs), which a
-- worker claims, runs and settles (Worker). A cycle is published with facts that were validated
-- (Publication), stored as JSON (Json), and may be withdrawn (Withdrawals); a cycle's facts are
-- read through one sanitising pass (Facts), except by the match of a search, and uses the
-- controlled vocabularies (Taxonomy, Countries). A search normalises its filters (Filters), and
-- for each cycle evaluates the gates and the score (Matching) and the status that may be shown
-- at this moment (Status, over the time zones of Zones). The re-verification sweeps sort cycles
-- into buckets (Freshness, over the calendar of Calendar). The pages of a search are bound to a
-- cursor (Cursors), counted against a limit (RateLimit), and stored as a bounded copy for the
-- visitor's session (Snapshots, Sessions). Whether other sources agree on a discovery is
-- computed from its siblings (Corroboration). Events for analytics are stored with the change
-- that they describe and sent later (Outbox). A handoff returns only to an allowed URL
-- (ReturnUrls).
--
-- Which file models which code:
--
-- * Prelude and its children, for numbers, lists, exceptions as values (Result), texts as lists
--   of code points, sorted sets of texts.
-- * Time, Calendar, Zones, for instants, months of the Gregorian calendar, and what
--   src/app/domain/status.py uses of datetime and zoneinfo.
-- * Json, for JSON values and dictionaries, as JSONB columns hold them.
-- * Jobs, for src/app/domain/jobs.py (claim_job, fail_job, finish_job, leases). Jobs.Table, for
--   src/app/infra/jobs.py (enqueue_job, claim_job_for_execution, complete_job,
--   fail_job_for_execution, reconcile_stuck_jobs, due_jobs) over the rows of ProcessingJob in
--   src/app/domain/models.py.
-- * Worker, for src/app/infra/worker.py (execute_job, execute_due_jobs).
-- * Status, for src/app/domain/status.py (deadline_cutoff, evaluate_public_status,
--   evaluate_status_detail).
-- * Freshness, for src/app/domain/freshness.py (classify_bucket, the intervals,
--   is_reverify_due, is_unchanged_recheck).
-- * Taxonomy, Filters, for src/app/domain/taxonomy.py (the tables, their normalisers,
--   normalize_search_filters). Countries, for src/app/domain/countries.py.
-- * Facts, for src/app/domain/facts.py (derive_facts, sanitized_dict).
-- * Matching, for src/app/domain/matching.py (evaluate_match).
-- * Rows, for tables as lists of rows, UPDATE by key and SELECT ... FOR UPDATE SKIP LOCKED; the
--   job table and the outbox are such tables. Outbox, for src/app/infra/outbox.py over
--   OutboxEvent of src/app/domain/models.py.
-- * ReviewPriority, for src/app/domain/review_priority.py. Linking, for
--   src/app/domain/linking.py and src/app/infra/linking.py (decide_link, link_discovery,
--   _add_review_task_once).
-- * Publication, for src/app/domain/publication.py (build_cycle_facts). Withdrawals, for
--   src/app/infra/withdrawals.py (withdraw_scholarship).
-- * Catalogue, for the rows of src/app/domain/models.py that published records consist of.
--   Publishing, for src/app/infra/publication.py (publish_cycle, load_cycle_for_update,
--   update_cycle).
-- * Refresh, for the first half of src/app/infra/freshness.py (_published_cycles,
--   _refresh_one_status, refresh_due_statuses). Reverify, for the second half
--   (reverify_due_cycles, _reverify_one_cycle, _defer_or_flag). History, for all operations
--   that write published records, as steps of one site.
-- * Urls, for src/app/domain/urls.py. Fetching, for src/app/infra/source_fetch.py. Pages, for
--   src/app/infra/source_persistence.py. ResearchBudget, for src/app/infra/research_budget.py.
-- * Search, for the handler search of src/app/api/routes.py, from the scan of the published
--   cycles to the page, with _search_result and _result_sort_value.
-- * Cursors, for src/app/core/cursors.py. Reviews, for src/app/infra/reviews.py
--   (decide_review).
-- * Snapshots, for src/app/domain/snapshots.py. Sessions, for src/app/infra/sessions.py over
--   AnonymousSession and Search of src/app/domain/models.py.
-- * RateLimit, for src/app/core/rate_limit.py.
-- * Corroboration, for src/app/domain/corroboration.py, with the comparisons of
--   src/app/domain/fact_matching.py over any reading of amounts and dates.
--   Corroboration.Siblings, for src/app/infra/corroboration.py. Corroboration.Gate, for
--   src/app/domain/sanity_checks.py and src/app/domain/auto_approval_scoring.py.
-- * Samples, for the data that tests share.
-- * ReturnUrls, for src/app/domain/return_urls.py (is_allowed_return_url).
--
-- Representation. A table is the list of its rows; an operation that commits returns the new
-- table, and one that raises returns a Result. An instant is a number of microseconds from one
-- day before year 1, so that every offset from UTC keeps it a natural number; a length of time
-- is a number of microseconds. UUIDs are numbers (they are only compared). Texts of the
-- vocabularies are lists of code points; lower and upper act on ASCII letters. There is no
-- fuel: every loop of the modelled code runs over a finite list.
--
-- What is an argument. The database gives fresh ids, the clock at each reading, the rows that
-- other sessions have locked, and the result of a query by pattern. The time zone database,
-- urlsplit, isoformat with fromisoformat, str on values that are no texts, the extraction of
-- facts from a page, the reading of amounts and dates, and what the handler of a job does are
-- arguments of the definitions that use them; a theorem that relies on one of them says so in
-- its binders.
--
-- Not modelled. An OverflowError of a date next to the year 1 or 9999. What another session
-- writes between the two commits of one re-verification (reverify_one_cycle). Network clients,
-- the HTTP interface, settings and logging, the harvest of listings, the migrations and the
-- scripts, which call other services or move data without a decision of their own; and
-- ingestion, the gate and the publication of auto-approval, and the reading of amounts and
-- dates (parse_amount, parse_deadline).
pub mod Prelude
pub mod Time
pub mod Calendar
pub mod Zones
pub mod Json
pub mod Jobs
pub mod Status
pub mod Freshness
pub mod Taxonomy
pub mod Countries
pub mod Filters
pub mod Facts
pub mod Matching
pub mod Worker
pub mod Rows
pub mod Outbox
pub mod ReviewPriority
pub mod Linking
pub mod Publication
pub mod Catalogue
pub mod Publishing
pub mod Withdrawals
pub mod ReturnUrls
pub mod Urls
pub mod Fetching
pub mod ResearchBudget
pub mod Pages
pub mod Refresh
pub mod Reverify
pub mod History
pub mod Search
pub mod Cursors
pub mod Snapshots
pub mod Sessions
pub mod RateLimit
pub mod Corroboration
pub mod Reviews
pub mod Samples
