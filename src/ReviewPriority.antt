-- ===== src/ReviewPriority.antt =====
-- src/app/domain/review_priority.py: where a task stands in the review queue. The lower number comes
-- first. Subtraction stops at 0 here, which is below the floor of 1, as a negative score is there.
pub mod Bands
use edufurthersf_be.Prelude.{
  ℕ, ◌+◌, ◌-◌, ◌*◌, max, Bool, true, false, ◌||◌, Option, none, some, [], if◌then◌else◌,
}
use edufurthersf_be.Prelude.Text.{Text, codes, text_eq}
use edufurthersf_be.Json.{Json, null, arr, nil, cons, Dict, get_or, is_truthy}

abbrev pub needs_review_base : ℕ
needs_review_base = 50

abbrev pub new_candidate_base : ℕ
new_candidate_base = 100

abbrev pub min_priority : ℕ
min_priority = 1

-- `facts or {}`.
abbrev pub or_empty : Option Dict → Dict
or_empty none = []
or_empty (some facts) = facts

-- `authority_grade in ("A", "B")`.
unfoldable pub is_a_or_b : Option Text → Bool
is_a_or_b none = false
is_a_or_b (some grade) = text_eq grade (codes "A") || text_eq grade (codes "B")

-- `isinstance(value, list) and value`.
unfoldable pub is_some_list : Json → Bool
is_some_list (arr (cons v vs)) = true
is_some_list _ = false

-- `if signal: score -= bonus`.
abbrev pub less : Bool → ℕ → ℕ → ℕ
less true bonus score = score - bonus
less false bonus score = score

-- The score by the signals that are present.
unfoldable pub score_of : Bool → Bool → Bool → Bool → Bool → Bool → ℕ
score_of needs_review authority funding deadline level evidence =
    max
      (less evidence 10 (
        less level 5 (
          less deadline 10 (
            less funding 10 (
              less authority 20
                (if needs_review then needs_review_base else new_candidate_base))))))
      min_priority

unfoldable pub compute_review_priority : Bool → Option Dict → Option Dict → Option Text → ℕ
unfolding score_of is_a_or_b is_some_list
compute_review_priority needs_review extracted_facts ai_extracted_facts authority_grade =
    let facts = or_empty extracted_facts in
    score_of needs_review (is_a_or_b authority_grade)
      (is_truthy (get_or "funding_mentions" null facts))
      (is_truthy (get_or "deadline_mentions" null facts))
      (is_truthy (get_or "level_mentions" null facts))
      (is_some_list (get_or "evidence" null (or_empty ai_extracted_facts)))
