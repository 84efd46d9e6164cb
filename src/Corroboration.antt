-- ===== src/Corroboration.antt =====
-- src/app/domain/corroboration.py, src/app/domain/sanity_checks.py, src/app/domain/auto_approval_scoring.py, and the
-- comparisons of src/app/domain/fact_matching.py over any reading of amounts and of deadlines. Of the extracted
-- facts, which are lists of texts, these read two keys.
pub mod Exact
pub mod Siblings
pub mod Gate
mod Tests
use edufurthersf_be.Prelude.{
  ℕ, ◌+◌, ◌*◌, ◌-◌, min, Bool, true, false, not, ◌&&◌, ◌||◌, Option, none, some, List, [], ◌∷◌,
  ◌++◌, any, truthy, length, leb, ltb, ◌==◌, is_some, if◌then◌else◌,
}
use edufurthersf_be.Prelude.Text.{Text, codes, text_eq, mem}
use edufurthersf_be.Time.{Instant}
use edufurthersf_be.Json.{ℤ, pos, negsuc}

-- `d.get(key)` is none where the key is missing.
pub record ExtractedFacts : Type 0 where
  pub funding_mentions : Option (List Text)
  pub deadline_mentions : Option (List Text)

abbrev or_empty : Option (List Text) → List Text
or_empty none = []
or_empty (some values) = values

abbrev pub amounts_of : Option ExtractedFacts → List Text
amounts_of none = []
amounts_of (some facts) = or_empty facts.funding_mentions

abbrev pub deadlines_of : Option ExtractedFacts → List Text
deadlines_of none = []
deadlines_of (some facts) = or_empty facts.deadline_mentions

pub record SiblingFact : Type 0 where
  pub discovery_id : ℕ
  pub source_id : ℕ
  pub facts : Option ExtractedFacts

pub record CorroborationResult : Type 0 where
  pub independent_source_count : ℕ
  pub amount_corroborated : Option Bool
  pub deadline_corroborated : Option Bool
  pub corroborating_discovery_ids : List ℕ

-- The variables of the loop.
pub record Tally : Type 0 where
  pub distinct_sources : List ℕ
  pub amount_corroborated : Option Bool
  pub deadline_corroborated : Option Bool
  pub corroborating_ids : List ℕ

-- `None if not values else False`.
abbrev pub unless_absent : List Text → Option Bool
unless_absent [] = none
unless_absent (v ∷ values) = some false

-- Two values that were read are compared; none where one of them was not.
abbrev pub both_match {ℓ} : {V : Type ℓ} → (V → V → Bool) → Option V → Option V → Option Bool
both_match eq none b = none
both_match eq (some a) none = none
both_match eq (some a) (some b) = some (eq a b)

-- A result that is none counts as false.
abbrev pub is_yes : Option Bool → Bool
is_yes none = false
is_yes (some b) = b

abbrev pub add_source : ℕ → List ℕ → List ℕ
add_source s sources = if any (λ t. t == s) sources then sources else sources ++ s ∷ []

-- The readings: a currency with its amount, of which the second is compared and tested, and a date.
pub record Readings (Amount Date : Type 0) : Type 0 where
  pub parse_amount : Text → Option Amount
  pub amount_eq : Amount → Amount → Bool
  pub is_positive : Amount → Bool
  pub parse_deadline : Text → Option Date
  pub date_eq : Date → Date → Bool

module _ {Amount Date : Type 0} (readings : Readings Amount Date) where
  unfoldable pub amounts_match : Text → Text → Option Bool
  amounts_match a b =
      both_match readings.amount_eq (readings.parse_amount a) (readings.parse_amount b)

  unfoldable pub deadlines_match : Text → Text → Option Bool
  deadlines_match a b =
      both_match readings.date_eq (readings.parse_deadline a) (readings.parse_deadline b)

  -- `any(match(a, b) for a in own for b in theirs)`.
  abbrev pub any_pair : (Text → Text → Option Bool) → List Text → List Text → Bool
  any_pair match_of own theirs = any (λ a. any (λ b. is_yes (match_of a b)) theirs) own

  abbrev pub agrees_amount : List Text → SiblingFact → Bool
  agrees_amount own sibling = any_pair amounts_match own (amounts_of sibling.facts)

  abbrev pub agrees_deadline : List Text → SiblingFact → Bool
  agrees_deadline own sibling =
      truthy own && any_pair deadlines_match own (deadlines_of sibling.facts)

  -- One pass of the loop.
  abbrev pub tally : List Text → List Text → SiblingFact → Tally → Tally
  tally own_amounts own_deadlines sibling s =
      let amount = agrees_amount own_amounts sibling in
      let deadline = agrees_deadline own_deadlines sibling in
      record {
        distinct_sources = add_source sibling.source_id s.distinct_sources;
        amount_corroborated = if amount then some true else s.amount_corroborated;
        deadline_corroborated = if deadline then some true else s.deadline_corroborated;
        corroborating_ids =
            if amount || deadline
            then s.corroborating_ids ++ sibling.discovery_id ∷ []
            else s.corroborating_ids;
      }

  unfoldable pub tallied : List Text → List Text → List SiblingFact → Tally → Tally
  tallied own_amounts own_deadlines [] s = s
  tallied own_amounts own_deadlines (sibling ∷ siblings) s =
      tallied own_amounts own_deadlines siblings (tally own_amounts own_deadlines sibling s)

  unfoldable pub evaluate_corroboration :
      ℕ → Option ExtractedFacts → List SiblingFact → CorroborationResult
  unfolding tallied
  evaluate_corroboration own_source_id own_facts siblings =
      let own_amounts = amounts_of own_facts in
      let own_deadlines = deadlines_of own_facts in
      let start : Tally = record {
        distinct_sources = own_source_id ∷ [];
        amount_corroborated = unless_absent own_amounts;
        deadline_corroborated = unless_absent own_deadlines;
        corroborating_ids = [];
      } in
      let s = tallied own_amounts own_deadlines siblings start in
      record {
        independent_source_count = length s.distinct_sources;
        amount_corroborated = s.amount_corroborated;
        deadline_corroborated = s.deadline_corroborated;
        corroborating_discovery_ids = s.corroborating_ids;
      }
