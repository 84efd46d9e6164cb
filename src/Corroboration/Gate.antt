-- ===== src/Corroboration/Gate.antt =====
-- src/app/domain/sanity_checks.py and src/app/domain/auto_approval_scoring.py: the checks of a candidate, and its score.
use edufurthersf_be.Prelude.{
  ℕ, ◌+◌, ◌-◌, ◌*◌, ◌≤◌, inl, inr, min, Bool, true, false, not, ◌&&◌, ◌||◌, Option, none, some, any,
  truthy, leb, ltb, if◌then◌else◌, Bool-cases, arith,
}
use edufurthersf_be.Prelude.Text.{Text, codes, text_eq}
use edufurthersf_be.Time.{Instant}
use edufurthersf_be.Json.{ℤ, pos, negsuc}
use edufurthersf_be.Corroboration.{ExtractedFacts, Readings, amounts_of}

pub record SanityCheckResult : Type 0 where
  pub has_positive_amount : Bool
  pub amount_evidence_sufficient : Bool
  pub deadline_is_future_or_absent : Bool

abbrev pub passed : SanityCheckResult → Bool
passed r = r.amount_evidence_sufficient && r.deadline_is_future_or_absent

abbrev pub is_future_or_absent : Option Instant → Instant → Bool
is_future_or_absent none now = true
is_future_or_absent (some deadline) now = ltb now deadline

module _ {Amount Date : Type 0} (readings : Readings Amount Date) where
  abbrev pub positive : Option Amount → Bool
  positive none = false
  positive (some amount) = readings.is_positive amount

  unfoldable pub run_sanity_checks :
      Option ExtractedFacts → Option Instant → ℕ → ℕ → Instant → SanityCheckResult
  run_sanity_checks facts deadline_at source_count min_sources now =
      let amounts = amounts_of facts in
      let has_positive = any (λ raw. positive (readings.parse_amount raw)) amounts in
      record {
        has_positive_amount = has_positive;
        amount_evidence_sufficient =
            has_positive || (not (truthy amounts) && leb min_sources source_count);
        deadline_is_future_or_absent = is_future_or_absent deadline_at now;
      }

-- `points - penalty`.
abbrev pub minus : ℕ → ℕ → ℤ
minus a b = if leb b a then pos (a - b) else negsuc (b - a - 1)

abbrev pub source_points : ℕ → ℕ
source_points count = if leb 2 count then 40 + min ((count - 2) * 10) 20 else 0

abbrev pub points_if : ℕ → Bool → ℕ
points_if n true = n
points_if n false = 0

-- An answer that is none counts as false.
abbrev pub answered_yes : Option Bool → Bool
answered_yes none = false
answered_yes (some b) = b

abbrev pub is_grade_ab : Option Text → Bool
is_grade_ab none = false
is_grade_ab (some grade) = text_eq grade (codes "A") || text_eq grade (codes "B")

abbrev pub points : ℕ → Bool → Option Bool → Bool → ℕ
points count amount_matches deadline_matches sanity_passed =
    source_points count
    + points_if 20 amount_matches
    + points_if 20 (answered_yes deadline_matches)
    + points_if 10 sanity_passed

unfoldable pub compute_auto_approval_score : ℕ → Bool → Option Bool → Bool → Option Text → ℤ
compute_auto_approval_score count amount_matches deadline_matches sanity_passed authority_grade =
    minus (points count amount_matches deadline_matches sanity_passed)
      (points_if 30 (not (is_grade_ab authority_grade)))

-- A score between -30 and 110.
abbrev pub IsInRange : ℤ → Type 0
IsInRange (pos n) = n ≤ 110
IsInRange (negsuc n) = n ≤ 29

minus-IsInRange : (a b : ℕ) → a ≤ 110 → b ≤ 30 → IsInRange (minus a b)
minus-IsInRange a b h k = elim (Bool-cases (leb b a)) [
  | inl e ↦ rw e (omega arith)
  | inr e ↦ rw e (omega arith)
]

points_if_le : (n : ℕ) (b : Bool) → points_if n b ≤ n
points_if_le n true = omega arith
points_if_le n false = omega arith

source_points_le : (count : ℕ) → source_points count ≤ 60
source_points_le count = ground arith

points_le :
    (count : ℕ) (amount : Bool) (deadline : Option Bool) (sanity : Bool)
    → points count amount deadline sanity ≤ 110
points_le count amount deadline sanity =
    let a = source_points_le count in
    let b = points_if_le 20 amount in
    let c = points_if_le 20 (answered_yes deadline) in let d = points_if_le 10 sanity in omega arith

-- Whatever was found, the score of a candidate is between -30 and 110.
pub score-IsInRange :
    (count : ℕ) (amount : Bool) (deadline : Option Bool) (sanity : Bool) (grade : Option Text)
    → IsInRange (compute_auto_approval_score count amount deadline sanity grade)
unfolding compute_auto_approval_score
score-IsInRange count amount deadline sanity grade =
    minus-IsInRange (points count amount deadline sanity) (points_if 30 (not (is_grade_ab grade)))
      (points_le count amount deadline sanity) (points_if_le 30 (not (is_grade_ab grade)))
