-- ===== src/Withdrawals.antt =====
-- src/app/infra/withdrawals.py: withdrawing a published record. The result is the new state of the
-- tables that it writes; the texts of ids and the dedupe key of the event are arguments.
pub mod Hidden
pub mod Keeps
mod Tests
use edufurthersf_be.Prelude.{
  ℕ, String, Bool, true, false, Option, none, some, List, [], ◌∷◌, ◌++◌, map, ◌==◌, if◌then◌else◌,
  find, keep, length, take, Result, ok, raise, lookup_error, value_error,
}
use edufurthersf_be.Prelude.Text.{Text}
use edufurthersf_be.Time.{Instant}
use edufurthersf_be.Json.{Json, int, pos, str, Dict}
use edufurthersf_be.Status.{PublicStatus, status_unknown}
use edufurthersf_be.Rows.{update_row}
use edufurthersf_be.Catalogue.{
  withdrawn, Scholarship, ScholarshipCycle, Catalogue, id_of, by_id, is_withdrawn,
}
use edufurthersf_be.Outbox.{Events, enqueue_analytics_event}

abbrev pub is_of : ℕ → ScholarshipCycle → Bool
is_of id c = c.scholarship_id == id

-- A withdrawn record must not keep asserting an open application.
abbrev pub close : ScholarshipCycle → ScholarshipCycle
close c = record c { public_status = status_unknown; status_valid_until = none }

abbrev pub close_of : ℕ → ScholarshipCycle → ScholarshipCycle
close_of id c = if is_of id c then close c else c

module _ (id_text : ℕ → Text) (withdrawn_key : ℕ → String) where
  -- What follows the two checks.
  unfoldable pub withdraw : ℕ → ℕ → Text → Text → Catalogue → Catalogue
  withdraw event_id id reason actor db =
      let affected = length (keep (is_of id) db.cycles) in
      record {
        scholarships =
            update_row id_of id (λ s. record s { lifecycle_state = withdrawn }) db.scholarships;
        cycles = map (close_of id) db.cycles;
        audits =
            db.audits
            ++ record {
              actor = actor;
              action = "scholarship.withdrawn";
              target_id = some id;
              reason = some (take 2000 reason);
              context = none;
            }
              ∷ [];
        events =
            enqueue_analytics_event event_id "scholarship_withdrawn" (withdrawn_key id)
              (("scholarship_id", str (id_text id)) ∷ ("cycles", int (pos affected)) ∷ [])
              db.events;
      }

  unfoldable pub withdraw_found :
      Option Scholarship → ℕ → ℕ → Text → Text → Catalogue → Catalogue × Result ℕ
  unfolding withdraw
  withdraw_found none event_id id reason actor db =
      (db, raise (lookup_error "Scholarship not found"))
  withdraw_found (some s) event_id id reason actor db =
      if is_withdrawn s.lifecycle_state
      then (db, raise (value_error "Scholarship is already withdrawn"))
      else (withdraw event_id id reason actor db, ok (length (keep (is_of id) db.cycles)))

  unfoldable pub withdraw_scholarship : ℕ → ℕ → Text → Text → Catalogue → Catalogue × Result ℕ
  unfolding withdraw_found
  withdraw_scholarship event_id id reason actor db =
      withdraw_found (by_id id db.scholarships) event_id id reason actor db
