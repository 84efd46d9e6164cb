-- ===== src/Facts/Lookup.antt =====
-- Reading a key of a dictionary that holds the entries with a value.
use edufurthersf_be.Prelude.{
  ◌≡◌, refl, String, str_eq, Bool, true, false, Option, none, some, List, [], ◌∷◌, arith, map,
}
use edufurthersf_be.Prelude.Text.{Text}
use edufurthersf_be.Json.{Json, get, get_or, items-to_items, str, str_items, string_list}
use edufurthersf_be.Facts.{present, texts}

-- A value, if there is one and it is wanted.
abbrev pub choose : Bool → Option Json → Json → Json
choose false value otherwise = otherwise
choose true none otherwise = otherwise
choose true (some value) otherwise = value

-- The first entry with this key and a value.
abbrev pub pick : String → Json → List (String × Option Json) → Json
pick key default [] = default
pick key default ((k, value) ∷ entries) = choose (str_eq k key) value (pick key default entries)

pub get_or-present :
    (key : String) (default : Json) (entries : List (String × Option Json))
    → get_or key default (present entries) ≡ pick key default entries
unfolding present get
get_or-present key default [] = refl
get_or-present key default ((k, none) ∷ entries) =
    ground (arith, get_or-present key default entries)
get_or-present key default ((k, some value) ∷ entries) =
    ground (arith, get_or-present key default entries)

str_items-texts : (values : List Text) → str_items (map (λ s. str s) values) ≡ values
unfolding str_items
str_items-texts [] = refl
str_items-texts (s ∷ values) = rw (str_items-texts values)

-- A list of texts is read back as it was written.
pub string_list-texts : (values : List Text) → string_list (texts values) ≡ values
unfolding string_list
string_list-texts values = rw (items-to_items (map (λ s. str s) values)) (str_items-texts values)
