-- ===== src/Snapshots/Allowed.antt =====
-- What a snapshot keeps of each result, and what it names as left out.
use edufurthersf_be.Prelude.{
  ℕ, ◌≡◌, refl, ap, ◌∙◌, inl, inr, Bool, not, ◌&&◌, Option, none, some, List, [], ◌∷◌, map, keep,
  length, if◌then◌else◌, Bool-cases, arith,
}
use edufurthersf_be.Prelude.Text.{Text, text_eq, eq_of_text_eq, mem, lookup}
use edufurthersf_be.Prelude.SortedSet.{mem-sorted_set}
use edufurthersf_be.Zones.{DateTime}
use edufurthersf_be.Snapshots.{
  Value, Plain, ResultDict, Snapshot, allowed_result_keys, all_keys, plain, allowed_only,
  excluded_fields_of, build_result_snapshot,
}

abbrev is_allowed : Text → Bool
is_allowed k = mem k allowed_result_keys

mem-keep : (p : Text → Bool) (k : Text) (xs : List Text) → mem k (keep p xs) ≡ (mem k xs && p k)
unfolding mem
mem-keep p k [] = refl
mem-keep p k (x ∷ xs) = elim (Bool-cases (text_eq x k)) [
  | inl e ↦ let same : p x ≡ p k = ap p (eq_of_text_eq x k e) in ground (arith, mem-keep p k xs)
  | inr e ↦ ground (arith, mem-keep p k xs)
]

excluded_exact :
    (results : List ResultDict) (k : Text)
    → mem k (excluded_fields_of results) ≡ (mem k (all_keys results) && not (is_allowed k))
unfolding excluded_fields_of
excluded_exact results k =
    mem-sorted_set k (keep (λ j. not (is_allowed j)) (all_keys results))
    ∙ mem-keep (λ j. not (is_allowed j)) k (all_keys results)

module _ (isoformat : DateTime → Text) where
  -- What is stored under a key of a result.
  abbrev pub stored : Option Value → Option Plain
  stored none = none
  stored (some v) = some (plain isoformat v)

  abbrev pub stored_under : Text → ResultDict → Option Plain
  stored_under k r = if is_allowed k then stored (lookup k r) else none

  allowed_exact :
      (k : Text) (r : ResultDict) → lookup k (allowed_only isoformat r) ≡ stored_under k r
  unfolding allowed_only lookup
  allowed_exact k [] = ground arith
  allowed_exact k ((j, v) ∷ d) = elim (Bool-cases (text_eq j k)) [
    | inl e ↦
        let same : is_allowed j ≡ is_allowed k = ap is_allowed (eq_of_text_eq j k e) in
        ground (arith, allowed_exact k d)
    | inr e ↦ ground (arith, allowed_exact k d)
  ]

  results_exact :
      (k : Text) (results : List ResultDict)
      → map (lookup k) (map (allowed_only isoformat) results) ≡ map (stored_under k) results
  results_exact k [] = refl
  results_exact k (r ∷ rs) = rw (allowed_exact k r, results_exact k rs) refl

  length-stored :
      (results : List ResultDict) → length (map (allowed_only isoformat) results) ≡ length results
  length-stored [] = refl
  length-stored (r ∷ rs) = rw (length-stored rs) refl

  -- What a snapshot holds under a key, and whether it names the key as left out.
  abbrev pub HoldsExactly : List ResultDict → Text → Snapshot → Type 0
  HoldsExactly results k snapshot =
      (map (lookup k) snapshot.results ≡ map (stored_under k) results)
      × (mem k snapshot.meta.excluded_fields ≡ (mem k (all_keys results) && not (is_allowed k)))
      × (snapshot.meta.returned_count ≡ length results)

  -- In the snapshot of any page, a key holds in each result the plain form of what the result has there
  -- if the key is on the list of allowed ones, and nothing if it is not; the key is named as left out
  -- exactly if some result has it and the list does not; and the page counts its results.
  pub snapshot_exact :
      (results : List ResultDict) (evaluated_at : DateTime) (match_policy taxonomy : Text)
      (page_number limit total : ℕ) (more : Bool) (warnings : List Text)
      (counts : Option (List (Text × ℕ))) (possible : Option ℕ) (k : Text)
      → HoldsExactly results k (
          build_result_snapshot isoformat results evaluated_at match_policy taxonomy page_number
            limit total more warnings counts possible)
  unfolding build_result_snapshot
  snapshot_exact results evaluated_at match_policy taxonomy page_number limit total more warnings
        counts possible k =
      (results_exact k results, excluded_exact results k, length-stored results)
