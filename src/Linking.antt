-- ===== src/Linking.antt =====
-- src/app/domain/linking.py and src/app/infra/linking.py: linking a discovery to a scholarship, or putting
-- it into the review queue. A function that commits returns the new database. Arguments stand for
-- fresh ids, the texts of ids, the scholarships that a title matches (ILIKE), the authority grade
-- of a page's source, and `extract_and_store_facts`, which writes the two columns of facts.
pub mod Queue
pub mod Outcome
mod Tests
use edufurthersf_be.Prelude.{
  ℕ, String, Bool, true, false, not, ◌&&◌, Option, none, some, List, [], ◌∷◌, ◌++◌, ◌==◌, ltb,
  if◌then◌else◌, find, keep, is_some, truthy, Result, ok, raise, lookup_error,
}
use edufurthersf_be.Prelude.Text.{Text, text_eq}
use edufurthersf_be.Json.{Json, str, Dict}
use edufurthersf_be.Rows.{update_row, order_by}
use edufurthersf_be.Jobs.Table.{Table, enqueue_job}
use edufurthersf_be.ReviewPriority.{compute_review_priority}

pub data LinkOutcome : Type 0 where
  linked new_candidate needs_review duplicate_pending : LinkOutcome

pub record LinkDecision : Type 0 where
  pub outcome : LinkOutcome
  pub scholarship_id : Option ℕ
  pub reason : String

abbrev pub decide_link : List ℕ → LinkDecision
decide_link [] = record {
  outcome = new_candidate;
  scholarship_id = none;
  reason = "no_identity_candidate";
}
decide_link (s ∷ []) = record {
  outcome = linked;
  scholarship_id = some s;
  reason = "single_identity_candidate";
}
decide_link (s ∷ r ∷ rest) = record {
  outcome = needs_review;
  scholarship_id = none;
  reason = "ambiguous_identity_candidates";
}

-- `processing_state`: a step before linking, by its name, or the outcome of it.
pub data ProcessingState : Type 0 where
  before : String → ProcessingState
  done : LinkOutcome → ProcessingState

pub record Discovery : Type 0 where
  pub discovery_id : ℕ
  pub source_page_id : ℕ
  pub raw_title : Option Text
  pub raw_excerpt : Option Text
  pub processing_state : ProcessingState
  pub normalized_identity_key : Option Text
  pub canonical_scholarship_id : Option ℕ
  pub extracted_facts : Option Dict
  pub ai_extracted_facts : Option Dict
  pub duplicate_of_discovery_id : Option ℕ

pub record ReviewTask : Type 0 where
  pub review_task_id : ℕ
  pub discovery_id : Option ℕ
  pub cycle_id : Option ℕ
  pub reason : String
  pub priority : ℕ
  pub is_open : Bool
  pub resolution : Option Text
  pub draft_recommendation : Option Dict

pub record Database : Type 0 where
  pub discoveries : List Discovery
  pub tasks : List ReviewTask
  pub jobs : Table

abbrev pub key_of : Discovery → ℕ
key_of d = d.discovery_id

abbrev pub is_for : ℕ → Option ℕ → Bool
is_for id none = false
is_for id (some n) = n == id

-- `state = 'open' AND resolution IS NULL`, for one discovery.
abbrev pub is_live : ℕ → ReviewTask → Bool
is_live discovery_id task =
    is_for discovery_id task.discovery_id && (task.is_open && not (is_some task.resolution))

abbrev pub live_task : ℕ → List ReviewTask → Option ReviewTask
live_task discovery_id = find (is_live discovery_id)

abbrev pub new_task : ℕ → ℕ → String → ℕ → ReviewTask
new_task review_task_id discovery_id reason priority = record {
  review_task_id = review_task_id;
  discovery_id = some discovery_id;
  cycle_id = none;
  reason = reason;
  priority = priority;
  is_open = true;
  resolution = none;
  draft_recommendation = none;
}

-- `normalized_identity_key == key`.
abbrev pub same_key : Text → Option Text → Bool
same_key key none = false
same_key key (some k) = text_eq k key

abbrev pub is_original : Text → Discovery → Discovery → Bool
is_original key d e =
    same_key key e.normalized_identity_key
    && (not (e.source_page_id == d.source_page_id)
        && (not (is_some e.duplicate_of_discovery_id) && ltb e.discovery_id d.discovery_id))

abbrev pub first_id : List Discovery → Option ℕ
first_id [] = none
first_id (e ∷ rest) = some e.discovery_id

-- The earliest discovery that this one repeats; an empty key is no key.
unfoldable pub find_original : Discovery → List Discovery → Option ℕ
find_original d rows = elim d.normalized_identity_key [
  | none ↦ none
  | some key ↦
      if truthy key then first_id (order_by key_of (keep (is_original key d) rows)) else none
]

abbrev pub set_duplicate : ℕ → Discovery → Discovery
set_duplicate original_id d = record d {
  duplicate_of_discovery_id = some original_id;
  processing_state = done duplicate_pending;
}

abbrev pub set_linked : Option ℕ → Discovery → Discovery
set_linked scholarship_id d = record d {
  canonical_scholarship_id = scholarship_id;
  processing_state = done linked;
}

abbrev pub set_state : LinkOutcome → Discovery → Discovery
set_state outcome d = record d { processing_state = done outcome }

abbrev pub is_needs_review : LinkOutcome → Bool
is_needs_review needs_review = true
is_needs_review _ = false

abbrev pub title_of : Discovery → Text
title_of d = elim d.raw_title [ none ↦ [] | some title ↦ title ]

module _ (id_text : ℕ → Text) (prepare_key : ℕ → String) where
  -- The insert that the unique index on live tasks arbitrates, and the job for a new task.
  unfoldable pub insert_task : Option ReviewTask → ReviewTask → ℕ → Database → Database
  unfolding enqueue_job
  insert_task (some _) task job_id db = db
  insert_task none task job_id db = record db {
    tasks = db.tasks ++ task ∷ [];
    jobs =
        (enqueue_job job_id "prepare_review" (prepare_key task.review_task_id)
          (("review_task_id", str (id_text task.review_task_id)) ∷ []) db.jobs).0;
  }

  unfoldable pub add_review_task_once : ℕ → ℕ → ℕ → String → ℕ → Database → Database
  unfolding insert_task
  add_review_task_once task_id job_id discovery_id reason priority db =
      insert_task (live_task discovery_id db.tasks) (new_task task_id discovery_id reason priority)
        job_id db

  module _ (candidates : Text → List ℕ) (authority_grade : ℕ → Option Text)
      (extract : Bool → Discovery → Discovery) where
    abbrev pub write : (Discovery → Discovery) → Discovery → Database → Database
    write f d db = record db { discoveries = update_row key_of d.discovery_id f db.discoveries }

    abbrev pub queue : LinkDecision → ℕ → ℕ → Discovery → Database → Database
    queue decision task_id job_id d db =
        let e = extract true d in
        let ambiguous = is_needs_review decision.outcome in
        let priority =
          compute_review_priority ambiguous e.extracted_facts e.ai_extracted_facts
            (authority_grade d.source_page_id) in
        add_review_task_once task_id job_id d.discovery_id decision.reason priority (
          write
            (λ row.
              set_state (if ambiguous then needs_review else new_candidate) (extract true row))
            d db)

    abbrev pub apply_decision : LinkDecision → ℕ → ℕ → Discovery → Database → Database
    apply_decision decision task_id job_id d db = elim decision.outcome [
      | linked ↦ write (set_linked decision.scholarship_id) d db
      | _ ↦ queue decision task_id job_id d db
    ]

    abbrev pub link_row : Option ℕ → ℕ → ℕ → Discovery → Database → Database × Result LinkOutcome
    link_row (some original_id) task_id job_id d db =
        (write (λ row. extract false (set_duplicate original_id row)) d db, ok duplicate_pending)
    link_row none task_id job_id d db =
        let decision = decide_link (candidates (title_of d)) in
        (apply_decision decision task_id job_id d db, ok decision.outcome)

    abbrev pub link_found : Option Discovery → ℕ → ℕ → Database → Database × Result LinkOutcome
    link_found none task_id job_id db = (db, raise (lookup_error "Discovery not found"))
    link_found (some d) task_id job_id db =
        link_row (find_original d db.discoveries) task_id job_id d db

    unfoldable pub link_discovery : ℕ → ℕ → ℕ → Database → Database × Result LinkOutcome
    unfolding find_original add_review_task_once
    link_discovery discovery_id task_id job_id db =
        link_found (find (λ d. d.discovery_id == discovery_id) db.discoveries) task_id job_id db
