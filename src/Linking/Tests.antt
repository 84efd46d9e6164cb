-- ===== src/Linking/Tests.antt =====
-- Runs of linking, and the theorems about it and about priorities at concrete inputs.
use edufurthersf_be.Prelude.{
  ℕ, ◌≤◌, ◌≡◌, refl, String, Bool, Option, none, some, List, [], ◌∷◌, arith, keep, length, Result,
  ok,
}
use edufurthersf_be.Prelude.Text.{Text, codes, text_eq}
use edufurthersf_be.Rows.{order_by, insert_by}
use edufurthersf_be.Linking.{
  LinkOutcome, needs_review, before, Discovery, Database, is_live, find_original, link_discovery,
}
use edufurthersf_be.Linking.Outcome.{link-one_live}

abbrev found_on : ℕ → ℕ → Discovery
found_on id page = record {
  discovery_id = id;
  source_page_id = page;
  raw_title = some (codes "Chevening");
  raw_excerpt = none;
  processing_state = before "normalized";
  normalized_identity_key = some (codes "chevening");
  canonical_scholarship_id = none;
  extracted_facts = none;
  ai_extracted_facts = none;
  duplicate_of_discovery_id = none;
}

abbrev stored : Database
stored = record { discoveries = found_on 1 10 ∷ found_on 2 20 ∷ []; tasks = []; jobs = [] }

abbrev id_text : ℕ → Text
id_text n = n ∷ []

abbrev prepare_key : ℕ → String
prepare_key n = "prepare_review"

-- Two scholarships have this name.
abbrev candidates : Text → List ℕ
candidates title = 7 ∷ 8 ∷ []

abbrev grade : ℕ → Option Text
grade page = some (codes "A")

abbrev extract : Bool → Discovery → Discovery
extract with_ai d = record d { extracted_facts = some [] }

abbrev linked_first : Database × Result LinkOutcome
linked_first = link_discovery id_text prepare_key candidates grade extract 1 100 200 stored

ambiguous_run : linked_first.1 ≡ ok needs_review
unfolding link_discovery find_original order_by insert_by text_eq
ambiguous_run = refl

link-one_live_example : length (keep (is_live 1) linked_first.0.tasks) ≤ 1
link-one_live_example =
    link-one_live id_text prepare_key candidates grade extract 1 1 100 200 stored (omega arith)

duplicate_run : find_original (found_on 2 20) stored.discoveries ≡ some 1
unfolding find_original order_by insert_by text_eq
duplicate_run = refl
