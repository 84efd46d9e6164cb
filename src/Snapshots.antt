-- ===== src/Snapshots.antt =====
-- src/app/domain/snapshots.py: the stored record of one page of a search. A key is a text; `isoformat` and
-- `str` on the values that JSON does not have are parameters.
pub mod Allowed
mod Tests
use edufurthersf_be.Prelude.{
  ℕ, String, Bool, true, false, not, Option, none, some, List, [], ◌∷◌, ◌++◌, map, keep, length,
}
use edufurthersf_be.Prelude.Text.{Text, codes, mem}
use edufurthersf_be.Prelude.SortedSet.{sorted_set}
use edufurthersf_be.Time.{Instant}
use edufurthersf_be.Zones.{DateTime}
use edufurthersf_be.Json.{Json}

abbrev pub snapshot_schema_version : Text
snapshot_schema_version = codes "snapshot-v3"

abbrev pub allowed_result_keys : List Text
allowed_result_keys = map codes (
    "scholarship_id" ∷ "cycle_id" ∷ "name" ∷ "provider" ∷ "award_type" ∷ "status" ∷ "status_detail"
    ∷ "fit" ∷ "official_url" ∷ "last_verified_at" ∷ "eligibility_note" ∷ "field_names" ∷ "fields"
    ∷ "programme_names" ∷ "destinations" ∷ "deadline_at" ∷ "deadline_precision" ∷ "degree_levels"
    ∷ "expected_reopen_month" ∷ "funding_type" ∷ "provider_country" ∷ "caveats" ∷ [])

-- A value of `model_dump()`: one that JSON has, a timestamp, or any other, by its `str`.
mutual
  pub data Value : Type 0 where
    scalar : Json → Value
    timestamp : DateTime → Value
    list : Values → Value
    dict : Entries → Value
    other : Text → Value

  pub data Values : Type 0 where
    none_left : Values
    value : Value → Values → Values

  pub data Entries : Type 0 where
    no_entry : Entries
    entry : Text → Value → Entries → Entries

-- A stored value: JSON with keys that are texts.
mutual
  pub data Plain : Type 0 where
    scalar : Json → Plain
    text : Text → Plain
    list : Plains → Plain
    dict : PlainEntries → Plain

  pub data Plains : Type 0 where
    none_left : Plains
    value : Plain → Plains → Plains

  pub data PlainEntries : Type 0 where
    no_entry : PlainEntries
    entry : Text → Plain → PlainEntries → PlainEntries

abbrev pub ResultDict : Type 0
ResultDict = List (Text × Value)

abbrev pub PlainDict : Type 0
PlainDict = List (Text × Plain)

pub record SnapshotMeta : Type 0 where
  pub evaluated_at : Text
  pub match_policy_version : Text
  pub taxonomy_version : Text
  pub total_match_count : ℕ
  pub returned_count : ℕ
  pub warnings : List Text
  pub excluded_fields : List Text
  pub confirmed_counts : Option (List (Text × ℕ))
  pub possible_match_count : Option ℕ

pub record SnapshotPagination : Type 0 where
  pub page_number : ℕ
  pub requested_limit : ℕ
  pub has_next_page : Bool

-- The dictionary stored on the search; `results` is its key `data`.
pub record Snapshot : Type 0 where
  pub schema_version : Text
  pub results : List PlainDict
  pub meta : SnapshotMeta
  pub pagination : SnapshotPagination

abbrev pub keys_of {ℓ} : {V : Type ℓ} → List (Text × V) → List Text
keys_of [] = []
keys_of ((k, v) ∷ d) = k ∷ keys_of d

-- `{key for result in results for key in result}`, with repetitions.
abbrev pub all_keys : List ResultDict → List Text
all_keys [] = []
all_keys (r ∷ rs) = keys_of r ++ all_keys rs

-- `sorted({key for result in results for key in result} - ALLOWED_RESULT_KEYS)`.
unfoldable pub excluded_fields_of : List ResultDict → List Text
excluded_fields_of results =
    sorted_set (keep (λ k. not (mem k allowed_result_keys)) (all_keys results))

module _ (isoformat : DateTime → Text) where
  -- `_plain`.
  abbrev mutual
    pub plain : Value → Plain
    plain (scalar v) = scalar v
    plain (timestamp t) = text (isoformat t)
    plain (list vs) = list (plain_list vs)
    plain (dict es) = dict (plain_entries es)
    plain (other s) = text s

    pub plain_list : Values → Plains
    plain_list none_left = none_left
    plain_list (value v vs) = value (plain v) (plain_list vs)

    pub plain_entries : Entries → PlainEntries
    plain_entries no_entry = no_entry
    plain_entries (entry k v es) = entry k (plain v) (plain_entries es)

  -- `{key: _plain(value) for key, value in result.items() if key in ALLOWED_RESULT_KEYS}`.
  unfoldable pub allowed_only : ResultDict → PlainDict
  allowed_only [] = []
  allowed_only ((k, v) ∷ d) = elim (mem k allowed_result_keys) [
    | true ↦ (k, plain v) ∷ allowed_only d
    | false ↦ allowed_only d
  ]

  unfoldable pub build_result_snapshot :
      List ResultDict
      → DateTime
      → Text
      → Text
      → ℕ
      → ℕ
      → ℕ
      → Bool
      → List Text
      → Option (List (Text × ℕ))
      → Option ℕ
      → Snapshot
  unfolding allowed_only excluded_fields_of
  build_result_snapshot results evaluated_at match_policy_version taxonomy_version page_number
        requested_limit total_match_count has_next_page warnings confirmed_counts
        possible_match_count =
      let stored = map allowed_only results in
      record {
        schema_version = snapshot_schema_version;
        results = stored;
        meta = record {
          evaluated_at = isoformat evaluated_at;
          match_policy_version = match_policy_version;
          taxonomy_version = taxonomy_version;
          total_match_count = total_match_count;
          returned_count = length stored;
          warnings = warnings;
          excluded_fields = excluded_fields_of results;
          confirmed_counts = confirmed_counts;
          possible_match_count = possible_match_count;
        };
        pagination = record {
          page_number = page_number;
          requested_limit = requested_limit;
          has_next_page = has_next_page;
        };
      }
