-- ===== src/Snapshots/Tests.antt =====
-- A snapshot at a concrete page.
use edufurthersf_be.Prelude.{◌≡◌, refl, false, none, List, [], ◌∷◌}
use edufurthersf_be.Prelude.Text.{Text, codes, mem, text_eq}
use edufurthersf_be.Prelude.SortedSet.{sorted_set}
use edufurthersf_be.Zones.{DateTime}
use edufurthersf_be.Json.{str}
use edufurthersf_be.Snapshots.{
  ResultDict, excluded_fields_of, build_result_snapshot, scalar, timestamp,
}
use edufurthersf_be.Snapshots.Allowed.{HoldsExactly, snapshot_exact}

abbrev isoformat : DateTime → Text
isoformat t = t.wall ∷ []

abbrev evaluated : DateTime
evaluated = record { wall = 7; offset = none }

abbrev page : List ResultDict
page =
    ((codes "name", scalar (str (codes "A")))
      ∷ (codes "notes", scalar (str (codes "B")))
      ∷ (codes "deadline_at", timestamp evaluated)
      ∷ [])
    ∷ []

left_out_test : excluded_fields_of page ≡ codes "notes" ∷ []
unfolding excluded_fields_of sorted_set mem text_eq
left_out_test = refl

snapshot_exact_example : HoldsExactly isoformat page (codes "notes") (
    build_result_snapshot isoformat page evaluated
      (codes "match-v2")
      (codes "taxonomy-v3")
      1
      20
      1
      false
      []
      none
      none)
snapshot_exact_example =
    snapshot_exact isoformat page evaluated (codes "match-v2") (codes "taxonomy-v3") 1 20 1 false []
      none none (codes "notes")
