-- ===== src/Countries.antt =====
-- src/app/domain/countries.py: the vocabulary of origins, which is every country that Core publishes, and
-- of destinations, which are the countries with verified coverage.
use edufurthersf_be.Prelude.{
  not, List, [], ◌∷◌, map, Result, ok, value_error, ◌>>=◌, ◌>>◌, raise_if,
}
use edufurthersf_be.Prelude.Text.{Text, codes, strip, upper, mem}
use edufurthersf_be.Taxonomy.{table, has_key}

abbrev pub supported_destinations : List Text
supported_destinations =
    map codes (
      "CA" ∷ "GB" ∷ "US" ∷ "DE" ∷ "FI" ∷ "AU" ∷ "TR" ∷ "JP" ∷ "KR" ∷ "CN" ∷ "FR" ∷ "SA" ∷ "NZ" ∷ [])

abbrev pub seed_countries : List (Text × Text)
seed_countries = table (
    ("NG", "Nigeria")
    ∷ ("CA", "Canada")
    ∷ ("GB", "United Kingdom")
    ∷ ("US", "United States")
    ∷ ("DE", "Germany")
    ∷ ("FI", "Finland")
    ∷ ("AU", "Australia")
    ∷ ("TR", "Turkiye")
    ∷ ("JP", "Japan")
    ∷ ("KR", "South Korea")
    ∷ ("CN", "China")
    ∷ ("FR", "France")
    ∷ ("SA", "Saudi Arabia")
    ∷ ("NZ", "New Zealand")
    ∷ [])

pub record CountryVocabulary : Type 0 where
  pub names : List (Text × Text)
  pub destinations : List Text

unfoldable pub origin : CountryVocabulary → Text → Result Text
origin self value = do
  let code = upper (strip value)
  raise_if (not (has_key code self.names)) (value_error "Unsupported country")
  ok code

unfoldable pub destination : CountryVocabulary → Text → Result Text
unfolding origin
destination self value = do
  code ← origin self value
  raise_if (not (mem code self.destinations)) (value_error "No verified coverage for destination")
  ok code
