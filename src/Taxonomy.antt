-- ===== src/Taxonomy.antt =====
-- src/app/domain/taxonomy.py: the controlled vocabularies, their aliases, and normalisation.
pub mod Codes
pub mod Canonical
mod Tests
use edufurthersf_be.Prelude.{
  String, Bool, not, Option, none, some, List, [], ◌∷◌, map, if◌then◌else◌, is_some, Result, ok,
  raise, value_error, ◌>>=◌, ◌>>◌, raise_if,
}
use edufurthersf_be.Prelude.Text.{Text, codes, strip, lower, upper, lookup}
use edufurthersf_be.Prelude.SortedSet.{sorted_set}

-- A dictionary that is written as a literal.
abbrev pub table : List (String × String) → List (Text × Text)
table [] = []
table ((k, v) ∷ d) = (codes k, codes v) ∷ table d

pub record Taxonomy : Type 0 where
  pub version : Text
  pub countries : List (Text × Text)
  pub degrees : List (Text × Text)
  pub fields : List (Text × Text)
  pub field_aliases : List (Text × Text)
  pub degree_aliases : List (Text × Text)
  pub award_types : List (Text × Text)
  pub funding_types : List (Text × Text)

-- `key in table`.
abbrev pub has_key : Text → List (Text × Text) → Bool
has_key k d = is_some (lookup k d)

-- `table.get(key, default)`.
abbrev pub get_or : Text → Text → List (Text × Text) → Text
get_or k default d = elim (lookup k d) [ none ↦ default | some v ↦ v ]

-- `value.strip().lower()`.
unfoldable pub fold : Text → Text
unfolding strip lower
fold value = lower (strip value)

unfoldable pub country : Taxonomy → Text → Result Text
country self value = do
  let code = upper (strip value)
  raise_if (not (has_key code self.countries)) (value_error "Unsupported country")
  ok code

unfoldable pub degree : Taxonomy → Text → Result Text
degree self value = do
  let code = get_or (fold value) (fold value) self.degree_aliases
  raise_if (not (has_key code self.degrees)) (value_error "Unsupported degree level")
  ok code

unfoldable pub field : Taxonomy → Text → Result Text
field self value = do
  let code = get_or (fold value) (fold value) self.field_aliases
  raise_if (not (has_key code self.fields)) (value_error "Unsupported field")
  ok code

abbrev pub add_canonical : Result Text → List Text → List Text
add_canonical (ok code) canonical = code ∷ canonical
add_canonical (raise e) canonical = canonical

abbrev add_unmapped : Text → Result Text → List Text → List Text
add_unmapped value (ok code) unmapped = unmapped
add_unmapped value (raise e) unmapped = value ∷ unmapped

-- The loop of `_normalize_codes`: the set of codes that resolve.
unfoldable pub resolved : (Text → Result Text) → List Text → List Text
resolved resolver [] = []
resolved resolver (value ∷ values) = add_canonical (resolver value) (resolved resolver values)

-- And the set of values that do not.
unfoldable pub unresolved : (Text → Result Text) → List Text → List Text
unresolved resolver [] = []
unresolved resolver (value ∷ values) =
    add_unmapped value (resolver value) (unresolved resolver values)

unfoldable pub normalize_codes : (Text → Result Text) → List Text → List Text × List Text
normalize_codes resolver values =
    (sorted_set (resolved resolver values), sorted_set (unresolved resolver values))

abbrev pub normalize_fields : Taxonomy → List Text → List Text × List Text
normalize_fields self values = normalize_codes (field self) values

abbrev pub normalize_degrees : Taxonomy → List Text → List Text × List Text
normalize_degrees self values = normalize_codes (degree self) values

unfoldable pub lookup_code : Text → List (Text × Text) → String → Result Text
lookup_code value table label = do
  let code = fold value
  raise_if (not (has_key code table)) (value_error label)
  ok code

abbrev pub award_type : Taxonomy → Text → Result Text
award_type self value = lookup_code value self.award_types "Unsupported award type"

abbrev pub funding_type : Taxonomy → Text → Result Text
funding_type self value = lookup_code value self.funding_types "Unsupported funding type"

abbrev countries_table : List (Text × Text)
countries_table = table (
    ("NG", "Nigeria")
    ∷ ("CA", "Canada")
    ∷ ("GB", "United Kingdom")
    ∷ ("US", "United States")
    ∷ ("DE", "Germany")
    ∷ ("FI", "Finland")
    ∷ ("AU", "Australia")
    ∷ [])

abbrev degrees_table : List (Text × Text)
degrees_table = table (("masters", "Master's") ∷ ("mba", "MBA") ∷ ("doctorate", "PhD") ∷ [])

abbrev fields_table : List (Text × Text)
fields_table = table (
    ("technology", "Technology")
    ∷ ("engineering", "Engineering")
    ∷ ("mathematics_and_statistics", "Mathematics and Statistics")
    ∷ ("natural_sciences", "Natural Sciences")
    ∷ ("health_and_medical_sciences", "Health and Medical Sciences")
    ∷ ("business_and_management", "Business and Management")
    ∷ ("economics_and_development", "Economics and Development")
    ∷ ("social_sciences", "Social Sciences")
    ∷ ("law", "Law")
    ∷ ("public_policy_and_governance", "Public Policy and Governance")
    ∷ ("education", "Education")
    ∷ ("arts_humanities_and_design", "Arts, Humanities and Design")
    ∷ ("agriculture_and_food_systems", "Agriculture and Food Systems")
    ∷ ("environmental_and_climate_sciences", "Environmental and Climate Sciences")
    ∷ [])

abbrev field_aliases_table : List (Text × Text)
field_aliases_table = table (
    ("ict", "technology")
    ∷ ("computer science", "technology")
    ∷ ("cs", "technology")
    ∷ ("public health", "health_and_medical_sciences")
    ∷ ("mph", "health_and_medical_sciences")
    ∷ ("health", "health_and_medical_sciences")
    ∷ ("welfare", "health_and_medical_sciences")
    ∷ ("health_and_welfare", "health_and_medical_sciences")
    ∷ ("business_and_administration", "business_and_management")
    ∷ ("business_administration_law", "business_and_management")
    ∷ ("social_behavioural_sciences", "social_sciences")
    ∷ ("social_sciences_journalism_information", "social_sciences")
    ∷ ("journalism_and_information", "social_sciences")
    ∷ ("engineering_trades", "engineering")
    ∷ ("engineering_manufacturing_construction", "engineering")
    ∷ ("manufacturing_and_processing", "engineering")
    ∷ ("architecture_and_construction", "engineering")
    ∷ ("physical_sciences", "natural_sciences")
    ∷ ("biological_sciences", "natural_sciences")
    ∷ ("natural_sciences_math_stats", "natural_sciences")
    ∷ ("environment", "environmental_and_climate_sciences")
    ∷ ("agriculture", "agriculture_and_food_systems")
    ∷ ("forestry", "agriculture_and_food_systems")
    ∷ ("fisheries", "agriculture_and_food_systems")
    ∷ ("veterinary", "agriculture_and_food_systems")
    ∷ ("agriculture_forestry_fisheries_veterinary", "agriculture_and_food_systems")
    ∷ ("arts_and_humanities", "arts_humanities_and_design")
    ∷ ("arts", "arts_humanities_and_design")
    ∷ ("humanities", "arts_humanities_and_design")
    ∷ ("languages", "arts_humanities_and_design")
    ∷ ("mathematics", "mathematics_and_statistics")
    ∷ ("public_policy", "public_policy_and_governance")
    ∷ [])

abbrev degree_aliases_table : List (Text × Text)
degree_aliases_table = table (
    ("phd", "doctorate")
    ∷ ("ph.d", "doctorate")
    ∷ ("ph.d.", "doctorate")
    ∷ ("doctoral", "doctorate")
    ∷ ("master's", "masters")
    ∷ ("master", "masters")
    ∷ ("msc", "masters")
    ∷ ("ma", "masters")
    ∷ [])

abbrev award_types_table : List (Text × Text)
award_types_table = table (
    ("scholarship", "Scholarship")
    ∷ ("fellowship", "Fellowship")
    ∷ ("assistantship", "Assistantship")
    ∷ ("studentship", "Studentship")
    ∷ ("grant", "Grant")
    ∷ [])

abbrev funding_types_table : List (Text × Text)
funding_types_table = table (
    ("fully_funded", "Fully funded")
    ∷ ("partial_funding", "Partial funding")
    ∷ ("tuition_only", "Tuition only")
    ∷ ("stipend_only", "Stipend only")
    ∷ [])

unfoldable pub taxonomy : Taxonomy
taxonomy = record {
  version = codes "taxonomy-v3";
  countries = countries_table;
  degrees = degrees_table;
  fields = fields_table;
  field_aliases = field_aliases_table;
  degree_aliases = degree_aliases_table;
  award_types = award_types_table;
  funding_types = funding_types_table;
}
