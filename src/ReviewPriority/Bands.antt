-- ===== src/ReviewPriority/Bands.antt =====
-- The bands of the review queue.
use edufurthersf_be.Prelude.{◌+◌, ◌≤◌, Bool, true, false, Option, arith}
use edufurthersf_be.Prelude.Text.{Text}
use edufurthersf_be.Json.{Dict, get_or, is_truthy, null}
use edufurthersf_be.ReviewPriority.{
  or_empty, is_a_or_b, is_some_list, score_of, compute_review_priority,
}

score_bands :
    (authority funding deadline level evidence : Bool)
    → let ambiguous = score_of true authority funding deadline level evidence in
      let fresh = score_of false authority funding deadline level evidence in
      (1 ≤ ambiguous) × (ambiguous ≤ 50) × (45 ≤ fresh) × (fresh ≤ 100) × (ambiguous + 44 ≤ fresh)
unfolding score_of
score_bands authority funding deadline level evidence =
    (ground arith, ground arith, ground arith, ground arith, ground arith)

-- An ambiguous link has a priority from 1 to 50 and a new identity one from 45 to 100; with the
-- same signals the ambiguous link comes first, by at least 44.
pub priority_bands :
    (facts ai_facts : Option Dict) (grade : Option Text)
    → let ambiguous = compute_review_priority true facts ai_facts grade in
      let fresh = compute_review_priority false facts ai_facts grade in
      (1 ≤ ambiguous) × (ambiguous ≤ 50) × (45 ≤ fresh) × (fresh ≤ 100) × (ambiguous + 44 ≤ fresh)
unfolding compute_review_priority
priority_bands facts ai_facts grade =
    score_bands (is_a_or_b grade) (is_truthy (get_or "funding_mentions" null (or_empty facts)))
      (is_truthy (get_or "deadline_mentions" null (or_empty facts)))
      (is_truthy (get_or "level_mentions" null (or_empty facts)))
      (is_some_list (get_or "evidence" null (or_empty ai_facts)))
