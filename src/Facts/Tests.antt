-- ===== src/Facts/Tests.antt =====
-- A row that was written by hand, and the theorems about its facts.
use edufurthersf_be.Prelude.{◌≡◌, refl, true, Option, none, some, [], ◌∷◌, truthy}
use edufurthersf_be.Prelude.Text.{Text, codes}
use edufurthersf_be.Zones.{DateTime, WallTime, Offset}
use edufurthersf_be.Json.{Json, int, pos, str, bool, Dict}
use edufurthersf_be.Facts.{texts, derive_facts, sanitized_dict}
use edufurthersf_be.Facts.Sanitized.{shown, sanitized_read}
use edufurthersf_be.Facts.Contract.{IsInContract, derive-IsInContract}

abbrev text_of : Json → Text
text_of v = codes "None"

-- Timestamps as a digit for each microsecond, with a mark for one that has an offset.
abbrev wall_digits : DateTime → Text
wall_digits d = elim d.offset [ none ↦ 78 ∷ d.wall ∷ [] | some o ↦ 65 ∷ d.wall ∷ o ∷ [] ]

abbrev from_digits : Text → Option DateTime
from_digits (n ∷ w ∷ []) = some (record { wall = w; offset = none })
from_digits (n ∷ w ∷ o ∷ []) = some (record { wall = w; offset = some o })
from_digits _ = none

read_parts :
    (w : WallTime) (o : Option Offset)
    → from_digits (wall_digits (record { wall = w; offset = o }))
      ≡ some (record { wall = w; offset = o })
read_parts w none = refl
read_parts w (some o) = refl

read_back : (d : DateTime) → from_digits (wall_digits d) ≡ some d
read_back d = read_parts d.wall d.offset

some_digits :
    (w : WallTime) (o : Option Offset)
    → truthy (wall_digits (record { wall = w; offset = o })) ≡ true
some_digits w none = refl
some_digits w (some o) = refl

never_empty : (d : DateTime) → truthy (wall_digits d) ≡ true
never_empty d = some_digits d.wall d.offset

abbrev by_hand : Dict
by_hand =
    ("destinations", texts (codes "GB" ∷ codes "CA" ∷ []))
    ∷ ("levels", texts (codes "PhD" ∷ codes "guild" ∷ []))
    ∷ ("origin_mode", str (codes "Restricted"))
    ∷ ("expected_reopen_month", int (pos 13))
    ∷ ("funding_type", str (codes " Fully_Funded"))
    ∷ ("deadline_at", str (78 ∷ 1000 ∷ []))
    ∷ ("evidence_fresh", bool true)
    ∷ []

sanitized_read_example :
    derive_facts text_of from_digits
      (sanitized_dict wall_digits (derive_facts text_of from_digits by_hand))
    ≡ shown (derive_facts text_of from_digits by_hand)
sanitized_read_example =
    sanitized_read text_of wall_digits from_digits read_back never_empty by_hand

derive-IsInContract_example : IsInContract (derive_facts text_of from_digits by_hand)
derive-IsInContract_example = derive-IsInContract text_of from_digits by_hand
