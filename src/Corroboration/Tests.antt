-- ===== src/Corroboration/Tests.antt =====
-- Corroboration at concrete rows: discovery 1 of source 7, and discovery 2 of source 8 with the same key.
use edufurthersf_be.Prelude.{ℕ, ◌≡◌, refl, true, Option, none, some, [], ◌∷◌, ok}
use edufurthersf_be.Prelude.Text.{Text, codes, text_eq}
use edufurthersf_be.Pages.{Source, SourcePage}
use edufurthersf_be.Corroboration.{
  ExtractedFacts, SiblingFact, CorroborationResult, Readings, evaluate_corroboration, tallied,
  amounts_match, deadlines_match,
}
use edufurthersf_be.Corroboration.Exact.{IsEvaluated, corroboration_exact}
use edufurthersf_be.Corroboration.Siblings.{
  DiscoveryFacts, Tables, IsSecond, gather_corroboration, load_siblings, siblings_among,
  counts_another,
}

-- A text is read as itself.
abbrev readings : Readings Text Text
readings = record {
  parse_amount = λ s. some s;
  amount_eq = text_eq;
  is_positive = λ s. true;
  parse_deadline = λ s. some s;
  date_eq = text_eq;
}

abbrev facts : Option ExtractedFacts
facts = some (record { funding_mentions = some (codes "£5" ∷ []); deadline_mentions = none })

abbrev found : ℕ → ℕ → DiscoveryFacts
found id page = record {
  discovery_id = id;
  source_page_id = page;
  normalized_identity_key = some (codes "k");
  split_from_discovery_id = none;
  extracted_facts = facts;
}

abbrev page_of_source : ℕ → ℕ → SourcePage
page_of_source page source = record {
  page_id = page;
  source_id = source;
  normalized_url = [];
  normalized_content_hash = none;
  last_attempted_at = none;
  last_successful_fetch_at = none;
  http_status = none;
  final_url = none;
}

abbrev source : ℕ → Source
source id = record { source_id = id; name = "s"; approved_domains = []; active = true }

abbrev tables : Tables
tables = record {
  discoveries = found 1 10 ∷ found 2 20 ∷ [];
  pages = page_of_source 10 7 ∷ page_of_source 20 8 ∷ [];
  sources = source 7 ∷ source 8 ∷ [];
}

abbrev sibling : SiblingFact
sibling = record { discovery_id = 2; source_id = 8; facts = facts }

abbrev agreed : CorroborationResult
agreed = record {
  independent_source_count = 2;
  amount_corroborated = some true;
  deadline_corroborated = none;
  corroborating_discovery_ids = 2 ∷ [];
}

gathered_test : gather_corroboration readings tables (found 1 10) ≡ ok agreed
unfolding gather_corroboration load_siblings siblings_among evaluate_corroboration tallied
    amounts_match deadlines_match text_eq
gathered_test = refl

corroboration_exact_example :
    IsEvaluated readings 7 facts
      (sibling ∷ [])
      (evaluate_corroboration readings 7 facts (sibling ∷ []))
corroboration_exact_example = corroboration_exact readings 7 facts (sibling ∷ [])

counts_another_example :
    (row : DiscoveryFacts) × (key : Text) × (own : ℕ) × (other : ℕ) × IsSecond tables
      (found 1 10)
      row
      key
      own
      other
counts_another_example = counts_another readings tables (found 1 10) agreed gathered_test refl
