-- ===== src/Publication/Tests.antt =====
-- A publication at a concrete input.
use edufurthersf_be.Prelude.{◌≡◌, refl, true, Option, none, some, [], ◌∷◌, truthy, ok}
use edufurthersf_be.Prelude.Text.{Text, codes, strip, upper, lower, lookup, mem, text_eq, text_ltb}
use edufurthersf_be.Prelude.SortedSet.{sorted_set}
use edufurthersf_be.Zones.{DateTime, WallTime, Offset, ZoneLookup, not_found}
use edufurthersf_be.Status.{date}
use edufurthersf_be.Json.{Json, Dict}
use edufurthersf_be.Taxonomy.{taxonomy, degree, fold}
use edufurthersf_be.Countries.{
  CountryVocabulary, origin, destination, seed_countries, supported_destinations,
}
use edufurthersf_be.Facts.{present, derive_facts}
use edufurthersf_be.Publication.{
  CycleInputs, Normalized, normalized, normalized_names, published_funding, published_entries,
  build_cycle_facts,
}
use edufurthersf_be.Publication.Readback.{reading, IsRequest, published_read}

abbrev text_of : Json → Text
text_of v = codes "None"

abbrev wall_digits : DateTime → Text
wall_digits d = elim d.offset [ none ↦ 78 ∷ d.wall ∷ [] | some o ↦ 65 ∷ d.wall ∷ o ∷ [] ]

abbrev from_digits : Text → Option DateTime
from_digits (n ∷ w ∷ []) = some (record { wall = w; offset = none })
from_digits (n ∷ w ∷ o ∷ []) = some (record { wall = w; offset = some o })
from_digits _ = none

read_parts :
    (w : WallTime) (o : Option Offset)
    → from_digits (wall_digits (record { wall = w; offset = o }))
      ≡ some (record { wall = w; offset = o })
read_parts w none = refl
read_parts w (some o) = refl

some_digits :
    (w : WallTime) (o : Option Offset)
    → truthy (wall_digits (record { wall = w; offset = o })) ≡ true
some_digits w none = refl
some_digits w (some o) = refl

no_zones : Text → ZoneLookup
no_zones name = not_found

abbrev vocabulary : CountryVocabulary
vocabulary = record { names = seed_countries; destinations = supported_destinations }

abbrev cycle : CycleInputs
cycle = record {
  destinations = codes "gb" ∷ [];
  levels = codes "PhD" ∷ [];
  origin_mode = codes "restricted";
  origins = codes "NG" ∷ [];
  field_mode = codes "all";
  fields = [];
  evidence_fresh = true;
  deadline_at = some (record { wall = 1000; offset = none });
  deadline_precision = date;
  deadline_timezone = none;
  eligibility_note = some (codes "Not for UK nationals");
  expected_reopen_month = none;
  field_names = none;
  programme_names = some (codes " Physics " ∷ []);
  funding = none;
}

abbrev parts : Normalized
parts = record {
  destinations = codes "GB" ∷ [];
  levels = codes "doctorate" ∷ [];
  origins = codes "NG" ∷ [];
  fields = [];
  programmes = codes "Physics" ∷ [];
  funding = none;
}

abbrev facts : Dict
facts = (present (published_entries no_zones vocabulary wall_digits cycle parts))

built : build_cycle_facts no_zones vocabulary wall_digits cycle ≡ ok facts
unfolding build_cycle_facts normalized destination origin degree taxonomy fold strip lower upper
    lookup text_eq sorted_set text_ltb mem normalized_names published_funding
built = refl

requested : IsRequest cycle
unfolding mem text_eq
requested = record { origin_mode = refl; field_mode = refl; month = tt }

published_read_example :
    (n : Normalized) × (normalized no_zones vocabulary cycle ≡ ok n)
    × (derive_facts text_of from_digits facts ≡ reading cycle n)
published_read_example =
    published_read text_of wall_digits from_digits (λ d. read_parts d.wall d.offset)
      (λ d. some_digits d.wall d.offset) no_zones vocabulary cycle facts requested built
