-- ===== src/Facts/Contract.antt =====
-- The facts that are read, against the vocabularies.
use edufurthersf_be.Prelude.{
  ◌≡◌, ◌≤◌, refl, inl, inr, true, ◌&&◌, ◌||◌, Option, none, some, List, [], ◌∷◌, leb, arith, All,
  Bool-cases, Result, ok, raise,
}
use edufurthersf_be.Prelude.Text.{Text, codes, mem, text_eq, text_eq_refl, eq_of_text_eq}
use edufurthersf_be.Prelude.SortedSet.{All-sorted_set}
use edufurthersf_be.Zones.{DateTime}
use edufurthersf_be.Json.{
  pos, negsuc, Json, null, bool, int, float, str, arr, obj, nil, Dict, get_or, string_list,
}
use edufurthersf_be.Taxonomy.{
  taxonomy, has_key, field, degree, resolved, add_canonical, normalize_codes, funding_type,
}
use edufurthersf_be.Taxonomy.Codes.{field-has_key, degree-has_key, funding_type-has_key}
use edufurthersf_be.Facts.{
  DerivedFacts, clamp_mode, read_month, read_funding, accepted, derive_facts,
}

abbrev pub AtSome : {A : Type 0} → (A → Type 0) → Option A → Type 0
AtSome P none = Unit
AtSome P (some a) = P a

pub record IsInContract (d : DerivedFacts) : Type 0 where
  pub origin_mode :
      mem d.origin_mode (codes "restricted" ∷ codes "unrestricted" ∷ codes "unknown" ∷ []) ≡ true
  pub field_mode : mem d.field_mode (codes "restricted" ∷ codes "all" ∷ codes "unknown" ∷ []) ≡ true
  pub month : AtSome (λ n. (1 ≤ n) × (n ≤ 12)) d.expected_reopen_month
  pub funding : AtSome (λ code. has_key code taxonomy.funding_types ≡ true) d.funding
  pub levels : All (λ code. has_key code taxonomy.degrees ≡ true) d.degree_levels
  pub fields : All (λ code. has_key code taxonomy.fields ≡ true) d.fields

unknown_last : (a b : Text) → mem (codes "unknown") (a ∷ b ∷ codes "unknown" ∷ []) ≡ true
unfolding mem
unknown_last a b = ground (arith, text_eq_refl (codes "unknown"))

among :
    (s a b : Text)
    → (text_eq s a || text_eq s b) ≡ true
    → mem s (a ∷ b ∷ codes "unknown" ∷ []) ≡ true
unfolding mem
among s a b h = ground (arith, eq_of_text_eq s a, eq_of_text_eq s b, text_eq_refl s)

clamp_mode-mem :
    (first second : Text) (v : Json)
    → mem (clamp_mode first second v) (first ∷ second ∷ codes "unknown" ∷ []) ≡ true
unfolding clamp_mode
clamp_mode-mem first second null = unknown_last first second
clamp_mode-mem first second (bool b) = unknown_last first second
clamp_mode-mem first second (int n) = unknown_last first second
clamp_mode-mem first second (float s) = unknown_last first second
clamp_mode-mem first second (str s) = elim (Bool-cases (text_eq s first || text_eq s second)) [
  | inl e ↦ rw e (among s first second e)
  | inr e ↦ rw e (unknown_last first second)
]
clamp_mode-mem first second (arr vs) = unknown_last first second
clamp_mode-mem first second (obj fs) = unknown_last first second

read_month-range : (v : Json) → AtSome (λ n. (1 ≤ n) × (n ≤ 12)) (read_month v)
unfolding read_month
read_month-range (int (pos n)) = elim (Bool-cases (leb 1 n && leb n 12)) [
  | inl e ↦ rw e (ground arith, ground arith)
  | inr e ↦ rw e tt
]
read_month-range (int (negsuc n)) = tt
read_month-range null = tt
read_month-range (bool b) = tt
read_month-range (float s) = tt
read_month-range (str s) = tt
read_month-range (arr vs) = tt
read_month-range (obj fs) = tt

accepted-has_key :
    (s : Text) (r : Result Text)
    → funding_type taxonomy s ≡ r
    → AtSome (λ code. has_key code taxonomy.funding_types ≡ true) (accepted r)
accepted-has_key s (ok code) e = funding_type-has_key s code e
accepted-has_key s (raise x) e = tt

read_funding-has_key :
    (v : Json) → AtSome (λ code. has_key code taxonomy.funding_types ≡ true) (read_funding v)
unfolding read_funding
read_funding-has_key (str s) = accepted-has_key s (funding_type taxonomy s) refl
read_funding-has_key null = tt
read_funding-has_key (bool b) = tt
read_funding-has_key (int n) = tt
read_funding-has_key (float s) = tt
read_funding-has_key (arr vs) = tt
read_funding-has_key (obj fs) = tt

module _ (resolver : Text → Result Text) (P : Text → Type 0)
    (returns : (value code : Text) → resolver value ≡ ok code → P code) where
  All-add :
      (value : Text) (r : Result Text) (rest : List Text)
      → resolver value ≡ r
      → All P rest
      → All P (add_canonical r rest)
  All-add value (ok code) rest e h = (returns value code e, h)
  All-add value (raise x) rest e h = h

  All-resolved : (values : List Text) → All P (resolved resolver values)
  unfolding resolved
  All-resolved [] = tt
  All-resolved (v ∷ vs) = All-add v (resolver v) (resolved resolver vs) refl (All-resolved vs)

  All-normalize_codes : (values : List Text) → All P (normalize_codes resolver values).0
  unfolding normalize_codes
  All-normalize_codes values = All-sorted_set P (resolved resolver values) (All-resolved values)

-- Whatever a row stores, the modes that are read from it are among their three words, the month
-- among 1 to 12, and the funding type, the levels and the fields are codes of the taxonomy.
pub derive-IsInContract :
    (text_of : Json → Text) (fromisoformat : Text → Option DateTime) (facts : Dict)
    → IsInContract (derive_facts text_of fromisoformat facts)
unfolding derive_facts
derive-IsInContract text_of fromisoformat facts = record {
  origin_mode =
      clamp_mode-mem (codes "restricted") (codes "unrestricted") (get_or "origin_mode" null facts);
  field_mode = clamp_mode-mem (codes "restricted") (codes "all") (get_or "field_mode" null facts);
  month = read_month-range (get_or "expected_reopen_month" null facts);
  funding = read_funding-has_key (get_or "funding_type" null facts);
  levels =
      All-normalize_codes (degree taxonomy) (λ code. has_key code taxonomy.degrees ≡ true)
        (degree-has_key taxonomy) (string_list (get_or "levels" (arr nil) facts));
  fields =
      All-normalize_codes (field taxonomy) (λ code. has_key code taxonomy.fields ≡ true)
        (field-has_key taxonomy) (string_list (get_or "fields" (arr nil) facts));
}
