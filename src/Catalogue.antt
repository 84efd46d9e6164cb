-- ===== src/Catalogue.antt =====
-- The rows of src/app/domain/models.py that published records consist of: scholarships, their
-- application cycles, the audit log and the outbox. Columns that no modelled operation reads or
-- writes are left out.
pub mod Invariant
use edufurthersf_be.Prelude.{
  ℕ, String, Bool, true, false, ◌&&◌, Option, none, some, List, [], ◌∷◌, ◌==◌, find,
}
use edufurthersf_be.Prelude.Text.{Text, text_eq}
use edufurthersf_be.Time.{Instant}
use edufurthersf_be.Json.{Dict}
use edufurthersf_be.Status.{PublicStatus}
use edufurthersf_be.Outbox.{Events}

pub data RecordState : Type 0 where
  discovered needs_review published withdrawn : RecordState

pub record Provider : Type 0 where
  pub provider_id : ℕ
  pub name : Text
  pub country : Option Text

pub record Scholarship : Type 0 where
  pub scholarship_id : ℕ
  pub provider_id : ℕ
  pub slug : Text
  pub name : Text
  pub official_home_url : Text
  pub award_type : Text
  pub lifecycle_state : RecordState

pub record ScholarshipCycle : Type 0 where
  pub cycle_id : ℕ
  pub scholarship_id : ℕ
  pub provider_cycle_key : Text
  pub applicant_segment : Text
  pub official_cycle_url : Text
  pub public_status : PublicStatus
  pub status_valid_until : Option Instant
  pub last_verified_at : Option Instant
  pub facts : Dict
  pub source_page_id : Option ℕ
  pub auto_downgraded : Bool
  pub is_auto_approved : Bool
  pub created_at : Instant

pub record AuditLog : Type 0 where
  pub actor : Text
  pub action : String
  pub target_id : Option ℕ
  pub reason : Option Text
  pub context : Option Dict

pub record Catalogue : Type 0 where
  pub scholarships : List Scholarship
  pub cycles : List ScholarshipCycle
  pub audits : List AuditLog
  pub events : Events

abbrev pub id_of : Scholarship → ℕ
id_of s = s.scholarship_id

abbrev pub cycle_key : ScholarshipCycle → ℕ
cycle_key c = c.cycle_id

abbrev pub by_id : ℕ → List Scholarship → Option Scholarship
by_id id = find (λ s. s.scholarship_id == id)

abbrev pub is_withdrawn : RecordState → Bool
is_withdrawn withdrawn = true
is_withdrawn _ = false

abbrev pub is_published : RecordState → Bool
is_published published = true
is_published _ = false

-- `ScholarshipCycle.scholarship.has(lifecycle_state=RecordState.published)`.
abbrev pub is_public : List Scholarship → ScholarshipCycle → Bool
is_public scholarships c = elim (by_id c.scholarship_id scholarships) [
  | none ↦ false
  | some s ↦ is_published s.lifecycle_state
]

-- The unique triple of a cycle.
abbrev pub same_identity : ℕ → Text → Text → ScholarshipCycle → Bool
same_identity scholarship_id key segment c =
    c.scholarship_id == scholarship_id
    && (text_eq c.provider_cycle_key key && text_eq c.applicant_segment segment)
