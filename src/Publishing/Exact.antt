-- ===== src/Publishing/Exact.antt =====
-- What publishing a cycle leaves, and what it refuses.
use edufurthersf_be.Prelude.{ℕ, ◌≡◌, ◌≢◌, String, none, some, [], ◌∷◌, ◌++◌}
use edufurthersf_be.Prelude.Text.{Text}
use edufurthersf_be.Outbox
use edufurthersf_be.Catalogue.{published, Scholarship, ScholarshipCycle, Catalogue, by_id}
use edufurthersf_be.Publishing.{CycleValues, find_cycle}

abbrev pub duplicate : String
duplicate = "A cycle with this key and segment is already published"

-- What a publication leaves: the record is published, the cycle is stored under its triple, the
-- event is stored, and no scholarship but this one is written.
pub record IsPublication (key : String) (id : ℕ) (v : CycleValues) (c : ScholarshipCycle)
    (db u : Catalogue) : Type 0 where
  pub published_record :
      (s : Scholarship) × (by_id id u.scholarships ≡ some s) × (s.lifecycle_state ≡ published)
  pub stored : find_cycle id v u.cycles ≡ some c
  pub appended : u.cycles ≡ db.cycles ++ c ∷ []
  pub announced : Outbox.by_key key u.events ≢ none

abbrev as_published : Scholarship → Scholarship
as_published s = record s { lifecycle_state = published }

module _ (id_text : ℕ → Text) (published_key : ℕ → Text → Text → String) where
  abbrev key_of : ℕ → CycleValues → String
  key_of id v = published_key id v.provider_cycle_key v.applicant_segment
