-- ===== src/Publishing.antt =====
-- src/app/infra/publication.py: publishing an application cycle, and correcting one. Fresh ids, the
-- time of an insert, the texts of ids and the dedupe key of the event are arguments.
pub mod Keeps
pub mod Exact
mod Tests
use edufurthersf_be.Prelude.{
  ℕ, String, Bool, true, false, not, ◌&&◌, ◌||◌, Option, none, some, List, [], ◌∷◌, ◌++◌, map, ◌==◌,
  if◌then◌else◌, find, is_some, Result, ok, raise, lookup_error, value_error, ◌>>=◌, ◌>>◌, raise_if,
}
use edufurthersf_be.Prelude.Text.{Text, codes, text_eq}
use edufurthersf_be.Prelude.SortedTexts.{sorted_texts}
use edufurthersf_be.Time.{Instant}
use edufurthersf_be.Json.{Json, str, Dict}
use edufurthersf_be.Status.{PublicStatus}
use edufurthersf_be.Rows.{update_row}
use edufurthersf_be.Facts.{texts}
use edufurthersf_be.Catalogue.{
  published, Scholarship, ScholarshipCycle, Catalogue, id_of, cycle_key, by_id, is_withdrawn,
  same_identity,
}
use edufurthersf_be.Outbox.{enqueue_analytics_event}

-- The keyword arguments that both operations share.
pub record CycleValues : Type 0 where
  pub provider_cycle_key : Text
  pub applicant_segment : Text
  pub official_cycle_url : Text
  pub public_status : PublicStatus
  pub facts : Dict
  pub status_valid_until : Option Instant
  pub last_verified_at : Option Instant

abbrev pub new_cycle : ℕ → Instant → ℕ → CycleValues → ScholarshipCycle
new_cycle cycle_id created_at scholarship_id v = record {
  cycle_id = cycle_id;
  scholarship_id = scholarship_id;
  provider_cycle_key = v.provider_cycle_key;
  applicant_segment = v.applicant_segment;
  official_cycle_url = v.official_cycle_url;
  public_status = v.public_status;
  status_valid_until = v.status_valid_until;
  last_verified_at = v.last_verified_at;
  facts = v.facts;
  source_page_id = none;
  auto_downgraded = false;
  is_auto_approved = false;
  created_at = created_at;
}

-- The text of both audit rows.
abbrev pub cycle_reason : CycleValues → String → Option Text
cycle_reason v what = some (
    codes "cycle " ++ (v.provider_cycle_key ++ (codes " (" ++ (v.applicant_segment ++ codes what))))

-- A scholarship that may be written: found, and not withdrawn.
unfoldable pub writable : Option Scholarship → String → Result Scholarship
writable none refusal = raise (lookup_error "Scholarship not found")
writable (some s) refusal =
    if is_withdrawn s.lifecycle_state then raise (value_error refusal) else ok s

abbrev pub find_cycle : ℕ → CycleValues → List ScholarshipCycle → Option ScholarshipCycle
find_cycle scholarship_id v =
    find (same_identity scholarship_id v.provider_cycle_key v.applicant_segment)

unfoldable pub checked_publish : ℕ → CycleValues → Catalogue → Result (Unit {0})
unfolding writable
checked_publish id v db = do
  s ← writable (by_id id db.scholarships) "Cannot publish a withdrawn scholarship"
  raise_if (is_some (find_cycle id v db.cycles))
      (value_error "A cycle with this key and segment is already published")

module _ (id_text : ℕ → Text) (published_key : ℕ → Text → Text → String) where
  -- What follows the checks of `publish_cycle`.
  abbrev pub insert_cycle : ScholarshipCycle → ℕ → CycleValues → Text → ℕ → Catalogue → Catalogue
  insert_cycle cycle id v actor event_id db = record {
    scholarships =
        update_row id_of id (λ s. record s { lifecycle_state = published }) db.scholarships;
    cycles = db.cycles ++ cycle ∷ [];
    audits =
        db.audits
        ++ record {
          actor = actor;
          action = "scholarship.published";
          target_id = some id;
          reason = cycle_reason v ") published";
          context = none;
        }
          ∷ [];
    events =
        enqueue_analytics_event event_id "scholarship_published"
          (published_key id v.provider_cycle_key v.applicant_segment)
          (("scholarship_id", str (id_text id))
            ∷ ("cycle_id", str (id_text cycle.cycle_id))
            ∷ ("provider_cycle_key", str v.provider_cycle_key)
            ∷ [])
          db.events;
  }

  abbrev pub publish_checked :
      Result (Unit {0})
      → ℕ
      → ℕ
      → Instant
      → ℕ
      → CycleValues
      → Text
      → Catalogue
      → Catalogue × Result ScholarshipCycle
  publish_checked (raise e) cycle_id event_id created_at id v actor db = (db, raise e)
  publish_checked (ok done) cycle_id event_id created_at id v actor db =
      let cycle = new_cycle cycle_id created_at id v in
      (insert_cycle cycle id v actor event_id db, ok cycle)

  unfoldable pub publish_cycle :
      ℕ → ℕ → Instant → ℕ → CycleValues → Text → Catalogue → Catalogue × Result ScholarshipCycle
  unfolding checked_publish
  publish_cycle cycle_id event_id created_at id v actor db =
      publish_checked (checked_publish id v db) cycle_id event_id created_at id v actor db

abbrev pub found_cycle : Option ScholarshipCycle → Result ScholarshipCycle
found_cycle none = raise (lookup_error "Cycle not found")
found_cycle (some c) = ok c

unfoldable pub load_cycle_for_update : ℕ → ℕ → Catalogue → Result ScholarshipCycle
unfolding writable
load_cycle_for_update id cycle_id db = do
  s ← writable (by_id id db.scholarships) "Cannot update a cycle of a withdrawn scholarship"
  found_cycle (find (λ c. c.cycle_id == cycle_id && c.scholarship_id == id) db.cycles)

abbrev pub set_values : CycleValues → ScholarshipCycle → ScholarshipCycle
set_values v cycle = record cycle {
  provider_cycle_key = v.provider_cycle_key;
  applicant_segment = v.applicant_segment;
  official_cycle_url = v.official_cycle_url;
  public_status = v.public_status;
  status_valid_until = v.status_valid_until;
  last_verified_at = v.last_verified_at;
  facts = v.facts;
}

-- Another cycle that has the new identity, looked for only where the identity changes.
unfoldable pub clashes : ScholarshipCycle → CycleValues → List ScholarshipCycle → Bool
clashes cycle v cycles =
    not (
      text_eq v.provider_cycle_key cycle.provider_cycle_key
      && text_eq v.applicant_segment cycle.applicant_segment)
    && is_some (
        find
          (λ c.
            same_identity cycle.scholarship_id v.provider_cycle_key v.applicant_segment c
            && not (c.cycle_id == cycle.cycle_id))
          cycles)

module _ (id_text : ℕ → Text) where
  abbrev pub write_cycle : ScholarshipCycle → CycleValues → List Text → Text → Catalogue → Catalogue
  write_cycle cycle v changed_fields actor db = record db {
    cycles = update_row cycle_key cycle.cycle_id (set_values v) db.cycles;
    audits =
        db.audits
        ++ record {
          actor = actor;
          action = "scholarship.cycle_updated";
          target_id = some cycle.scholarship_id;
          reason = cycle_reason v ") updated";
          context = some (
              ("cycle_id", str (id_text cycle.cycle_id))
              ∷ ("changed_fields", texts (sorted_texts changed_fields))
              ∷ []);
        }
          ∷ [];
  }

  unfoldable pub update_cycle :
      ScholarshipCycle
      → CycleValues
      → List Text
      → Text
      → Catalogue
      → Catalogue × Result ScholarshipCycle
  unfolding clashes
  update_cycle cycle v changed_fields actor db =
      if clashes cycle v db.cycles
      then (db, raise (value_error "A cycle with this key and segment is already published"))
      else (write_cycle cycle v changed_fields actor db, ok (set_values v cycle))
