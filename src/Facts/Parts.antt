-- ===== src/Facts/Parts.antt =====
-- Each part of the facts, read back after it was read and written once.
use edufurthersf_be.Prelude.{
  ◌≡◌, refl, ap, ◌∙◌, inl, inr, true, ◌&&◌, Option, none, some, List, [], ◌∷◌, map, leb, truthy,
  arith, Bool-cases, Result, ok, raise,
}
use edufurthersf_be.Prelude.Text.{Text, text_eq}
use edufurthersf_be.Prelude.SortedSet.{sorted_set, sorted_set_idem}
use edufurthersf_be.Zones.{DateTime}
use edufurthersf_be.Status.{Precision, date, datetime}
use edufurthersf_be.Json.{
  pos, negsuc, Json, null, bool, int, float, str, arr, obj, items, items-to_items, is_truthy,
}
use edufurthersf_be.Taxonomy.{taxonomy, funding_type}
use edufurthersf_be.Facts.{
  clamp_mode, read_precision, precision_name, read_month, accepted, read_funding, read_note,
  read_timezone, read_destinations, str_of, texts, safe_deadline_at, some_text, some_month,
  some_timestamp, read_timestamp,
}
use edufurthersf_be.Facts.Lookup.{choose}
use edufurthersf_be.Taxonomy.Codes.{funding_type_fixed}

-- The value of an entry, or the default of the reader.
abbrev pub value_or : Json → Option Json → Json
value_or default value = choose true value default

pub clamp_mode_idem :
    (first second : Text) (v : Json)
    → clamp_mode first second (str (clamp_mode first second v)) ≡ clamp_mode first second v
unfolding clamp_mode
clamp_mode_idem first second null = ground arith
clamp_mode_idem first second (bool b) = ground arith
clamp_mode_idem first second (int n) = ground arith
clamp_mode_idem first second (float s) = ground arith
clamp_mode_idem first second (str s) = ground arith
clamp_mode_idem first second (arr vs) = ground arith
clamp_mode_idem first second (obj fs) = ground arith

pub precision_read : (p : Precision) → read_precision (str (precision_name p)) ≡ p
unfolding read_precision text_eq
precision_read date = refl
precision_read datetime = refl

pub month_read : (v : Json) → read_month (value_or null (some_month (read_month v))) ≡ read_month v
unfolding read_month
month_read null = refl
month_read (bool b) = refl
month_read (int (pos n)) = elim (Bool-cases (leb 1 n && leb n 12)) [
  | inl e ↦ rw (e, e) refl
  | inr e ↦ rw e refl
]
month_read (int (negsuc n)) = refl
month_read (float s) = refl
month_read (str s) = refl
month_read (arr vs) = refl
month_read (obj fs) = refl

pub note_read : (v : Json) → read_note (value_or null (some_text (read_note v))) ≡ read_note v
unfolding read_note
note_read null = refl
note_read (bool b) = refl
note_read (int n) = refl
note_read (float s) = refl
note_read (str []) = refl
note_read (str (c ∷ s)) = refl
note_read (arr vs) = refl
note_read (obj fs) = refl

pub timezone_read : (t : Option Text) → read_timezone (value_or null (some_text t)) ≡ t
timezone_read none = refl
timezone_read (some s) = refl

map-str_of :
    (text_of : Json → Text) (values : List Text)
    → map (str_of text_of) (map (λ s. str s) values) ≡ values
map-str_of text_of [] = refl
map-str_of text_of (s ∷ values) = rw (map-str_of text_of values)

pub reread :
    (text_of : Json → Text) (values : List Text)
    → read_destinations text_of (texts values) ≡ sorted_set values
unfolding read_destinations
reread text_of values =
    ap sorted_set (rw (items-to_items (map (λ s. str s) values)) (map-str_of text_of values))

sorted_destinations :
    (text_of : Json → Text) (v : Json)
    → sorted_set (read_destinations text_of v) ≡ read_destinations text_of v
unfolding read_destinations sorted_set
sorted_destinations text_of (arr vs) = sorted_set_idem (map (str_of text_of) (items vs))
sorted_destinations text_of null = refl
sorted_destinations text_of (bool b) = refl
sorted_destinations text_of (int n) = refl
sorted_destinations text_of (float s) = refl
sorted_destinations text_of (str s) = refl
sorted_destinations text_of (obj fs) = refl

pub destinations_read :
    (text_of : Json → Text) (v : Json)
    → read_destinations text_of (texts (read_destinations text_of v)) ≡ read_destinations text_of v
destinations_read text_of v =
    reread text_of (read_destinations text_of v) ∙ sorted_destinations text_of v

pub accepted_fixed :
    (r : Result Text)
    → ((code : Text) → r ≡ ok code → funding_type taxonomy code ≡ ok code)
    → read_funding (value_or null (some_text (accepted r))) ≡ accepted r
unfolding read_funding
accepted_fixed (raise e) fixed = refl
accepted_fixed (ok code) fixed = ap accepted (fixed code refl)

pub funding_read :
    (v : Json) → read_funding (value_or null (some_text (read_funding v))) ≡ read_funding v
unfolding read_funding
funding_read (str s) = accepted_fixed (funding_type taxonomy s) (funding_type_fixed s)
funding_read null = refl
funding_read (bool b) = refl
funding_read (int n) = refl
funding_read (float s) = refl
funding_read (arr vs) = refl
funding_read (obj fs) = refl

no_timestamp : (fromisoformat : Text → Option DateTime) → safe_deadline_at fromisoformat null ≡ none
unfolding safe_deadline_at is_truthy
no_timestamp fromisoformat = refl

written_timestamp :
    (fromisoformat : Text → Option DateTime) (s : Text)
    → truthy s ≡ true
    → safe_deadline_at fromisoformat (str s) ≡ fromisoformat s
unfolding safe_deadline_at is_truthy read_timestamp
written_timestamp fromisoformat [] h = cc
written_timestamp fromisoformat (c ∷ s) h = refl

module _ (isoformat : DateTime → Text) (fromisoformat : Text → Option DateTime)
    (read_back : (d : DateTime) → fromisoformat (isoformat d) ≡ some d)
    (never_empty : (d : DateTime) → truthy (isoformat d) ≡ true) where
  pub timestamp_read :
      (t : Option DateTime)
      → safe_deadline_at fromisoformat (value_or null (some_timestamp isoformat t)) ≡ t
  timestamp_read none = no_timestamp fromisoformat
  timestamp_read (some d) =
      written_timestamp fromisoformat (isoformat d) (never_empty d) ∙ read_back d
