-- ===== src/Reviews.antt =====
-- src/app/infra/reviews.py: the decision on a review task. A fresh id is an argument; a violated
-- constraint on slugs or providers raises, and a function that raises leaves the tables as they are.
pub mod Decided
mod Tests
use edufurthersf_be.Prelude.{
  ℕ, String, Bool, true, false, not, ◌&&◌, ◌||◌, Option, none, some, List, [], ◌∷◌, ◌++◌, ◌==◌,
  if◌then◌else◌, find, any, is_some, take, truthy, Error, Result, ok, raise, lookup_error,
  value_error, integrity_error, ◌>>=◌,
}
use edufurthersf_be.Prelude.Text.{Text, codes, text_eq}
use edufurthersf_be.Rows.{update_row}
use edufurthersf_be.Taxonomy.{taxonomy, award_type}
use edufurthersf_be.Catalogue.{needs_review, Scholarship, RecordState}
use edufurthersf_be.Linking.{Discovery, ReviewTask, key_of, set_linked}

pub data Decision : Type 0 where
  approve reject : Decision

pub record ReviewDecisionRequest : Type 0 where
  pub decision : Decision
  pub provider_id : Option ℕ
  pub canonical_name : Option Text
  pub official_home_url : Option Text
  pub slug : Option Text
  pub award : Option Text
  pub reason : Text

pub record ReviewTables : Type 0 where
  pub tasks : List ReviewTask
  pub discoveries : List Discovery
  pub scholarships : List Scholarship
  pub provider_ids : List ℕ

abbrev pub task_key : ReviewTask → ℕ
task_key t = t.review_task_id

abbrev pub task_of : ℕ → List ReviewTask → Option ReviewTask
task_of id = find (λ t. t.review_task_id == id)

abbrev pub discovery_of : ℕ → List Discovery → Option Discovery
discovery_of id = find (λ d. d.discovery_id == id)

-- What an approval needs, all of it present.
pub record Approval : Type 0 where
  pub discovery_id : ℕ
  pub provider_id : ℕ
  pub official_home_url : Text
  pub slug : Text
  pub award : Text

abbrev pub missing : Error
missing = value_error "Approval requires discovery, provider, slug, award type, and official URL"

abbrev pub required {ℓ} : {A : Type ℓ} → Option A → Result A
required none = raise missing
required (some a) = ok a

unfoldable pub approval : ReviewTask → ReviewDecisionRequest → Result Approval
approval task request = do
  discovery_id ← required task.discovery_id
  provider_id ← required request.provider_id
  official_home_url ← required request.official_home_url
  slug ← required request.slug
  award ← required request.award
  ok (record {
    discovery_id = discovery_id;
    provider_id = provider_id;
    official_home_url = official_home_url;
    slug = slug;
    award = award;
  })

-- `first or second or "Unnamed scholarship"`; an empty text is false.
abbrev pub text_or_else : Option Text → Text → Text
text_or_else none default = default
text_or_else (some []) default = default
text_or_else (some (c ∷ s)) default = c ∷ s

abbrev pub new_scholarship : ℕ → Approval → Text → Option Text → Option Text → Scholarship
new_scholarship scholarship_id a award_type canonical_name raw_title = record {
  scholarship_id = scholarship_id;
  provider_id = a.provider_id;
  slug = a.slug;
  name = text_or_else canonical_name (text_or_else raw_title (codes "Unnamed scholarship"));
  official_home_url = a.official_home_url;
  award_type = award_type;
  lifecycle_state = needs_review;
}

abbrev pub resolve : Text → ReviewTask → ReviewTask
resolve reason task = record task { is_open = false; resolution = some (take 2000 reason) }

abbrev pub resolve_task : ℕ → Text → ReviewTables → ReviewTables
resolve_task id reason db = record db { tasks = update_row task_key id (resolve reason) db.tasks }

abbrev pub has_slug : Text → List Scholarship → Bool
has_slug slug = any (λ s. text_eq s.slug slug)

abbrev pub link : Scholarship → Discovery → ReviewTables → ReviewTables
link s discovery db = record db {
  scholarships = db.scholarships ++ s ∷ [];
  discoveries =
      update_row key_of discovery.discovery_id (set_linked (some s.scholarship_id)) db.discoveries;
}

abbrev pub has_provider : ℕ → List ℕ → Bool
has_provider id = any (λ p. p == id)

-- `db.flush()` raises for a slug that is taken, and for a provider that does not exist.
abbrev pub approve_found :
    ℕ
    → ℕ
    → ReviewDecisionRequest
    → Approval
    → Text
    → Option Discovery
    → ReviewTables
    → ReviewTables × Result (Option ℕ)
approve_found id scholarship_id request a code none db =
    (db, raise (lookup_error "Discovery not found"))
approve_found id scholarship_id request a code (some discovery) db =
    if has_slug a.slug db.scholarships || not (has_provider a.provider_id db.provider_ids)
    then (db, raise (integrity_error "scholarships"))
    else (
      resolve_task id request.reason (
          link (new_scholarship scholarship_id a code request.canonical_name discovery.raw_title)
            discovery db),
      ok (some scholarship_id),
    )

abbrev pub approve_as :
    ℕ
    → ℕ
    → ReviewDecisionRequest
    → Result (Approval × Text)
    → ReviewTables
    → ReviewTables × Result (Option ℕ)
approve_as id scholarship_id request (raise e) db = (db, raise e)
approve_as id scholarship_id request (ok (a, code)) db =
    approve_found id scholarship_id request a code (discovery_of a.discovery_id db.discoveries) db

abbrev pub decide_as :
    Decision
    → ℕ
    → ℕ
    → ReviewDecisionRequest
    → ReviewTask
    → ReviewTables
    → ReviewTables × Result (Option ℕ)
decide_as reject id scholarship_id request task db = (resolve_task id request.reason db, ok none)
decide_as approve id scholarship_id request task db =
    approve_as id scholarship_id request
      (approval task request >>= λ a. award_type taxonomy a.award >>= λ code. ok (a, code)) db

abbrev pub decide_found :
    Option ReviewTask
    → ℕ
    → ℕ
    → ReviewDecisionRequest
    → ReviewTables
    → ReviewTables × Result (Option ℕ)
decide_found none id scholarship_id request db =
    (db, raise (lookup_error "Open review task not found"))
decide_found (some task) id scholarship_id request db =
    if not task.is_open
    then (db, raise (lookup_error "Open review task not found"))
    else decide_as request.decision id scholarship_id request task db

unfoldable pub decide_review :
    ℕ → ℕ → ReviewDecisionRequest → ReviewTables → ReviewTables × Result (Option ℕ)
unfolding approval
decide_review id scholarship_id request db =
    decide_found (task_of id db.tasks) id scholarship_id request db
