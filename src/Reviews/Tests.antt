-- ===== src/Reviews/Tests.antt =====
-- An approval at a concrete input.
use edufurthersf_be.Prelude.{true, none, some, [], ◌∷◌}
use edufurthersf_be.Prelude.Text.{codes}
use edufurthersf_be.Linking.{Discovery, ReviewTask, done}
use edufurthersf_be.Linking
use edufurthersf_be.Reviews.{approve, ReviewDecisionRequest, ReviewTables}

abbrev candidate : Discovery
candidate = record {
  discovery_id = 7;
  source_page_id = 2;
  raw_title = some (codes "Chevening");
  raw_excerpt = none;
  processing_state = done Linking.new_candidate;
  normalized_identity_key = none;
  canonical_scholarship_id = none;
  extracted_facts = none;
  ai_extracted_facts = none;
  duplicate_of_discovery_id = none;
}

abbrev waiting : ReviewTask
waiting = record {
  review_task_id = 4;
  discovery_id = some 7;
  cycle_id = none;
  reason = "no_identity_candidate";
  priority = 50;
  is_open = true;
  resolution = none;
  draft_recommendation = none;
}

abbrev queue : ReviewTables
queue = record {
  tasks = waiting ∷ [];
  discoveries = candidate ∷ [];
  scholarships = [];
  provider_ids = 1 ∷ [];
}

abbrev accept : ReviewDecisionRequest
accept = record {
  decision = approve;
  provider_id = some 1;
  canonical_name = none;
  official_home_url = some (codes "https://a.test/");
  slug = some (codes "chevening");
  award = some (codes "scholarship");
  reason = codes "official page";
}
