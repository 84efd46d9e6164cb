-- ===== src/Reviews/Decided.antt =====
-- What a decision on a review task leaves.
use edufurthersf_be.Prelude.{ℕ, ◌≡◌, true, false, Option, none, some, [], ◌∷◌, ◌++◌}
use edufurthersf_be.Prelude.Text.{Text}
use edufurthersf_be.Catalogue.{needs_review, Scholarship}
use edufurthersf_be.Linking.{Discovery, ReviewTask, set_linked}
use edufurthersf_be.Reviews.{
  Decision, approve, reject, ReviewTables, task_of, discovery_of, has_slug, has_provider,
}

-- A rejection writes the task alone. An approval adds one scholarship that still needs a review, under a
-- slug that was free and of a provider that exists, and links a discovery to it.
abbrev pub HasEffect : Decision → ReviewTables → ReviewTables → Option ℕ → Type 0
HasEffect reject db u r =
    (r ≡ none) × (u.scholarships ≡ db.scholarships) × (u.discoveries ≡ db.discoveries)
HasEffect approve db u r =
    (s : Scholarship) × (d : Discovery) × (r ≡ some s.scholarship_id)
    × (u.scholarships ≡ db.scholarships ++ s ∷ [])
    × (s.lifecycle_state ≡ needs_review)
    × (has_slug s.slug db.scholarships ≡ false)
    × (has_provider s.provider_id db.provider_ids ≡ true)
    × (discovery_of d.discovery_id u.discoveries ≡ some (set_linked (some s.scholarship_id) d))

pub record IsDecision (id : ℕ) (decision : Decision) (db u : ReviewTables) (r : Option ℕ)
    : Type 0 where
  pub closed : (t : ReviewTask) × (task_of id u.tasks ≡ some t) × (t.is_open ≡ false)
  pub effect : HasEffect decision db u r
