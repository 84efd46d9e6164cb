-- ===== src/Json.antt =====
-- JSON values, as JSONB columns hold them, and Python dictionaries read from them.
use edufurthersf_be.Prelude.{
  ℕ, zero, suc, String, ◌≡◌, refl, Bool, true, false, ◌&&◌, ◌||◌, Option, none, some, List, [], ◌∷◌,
  str_eq, eq_iff, arith, leb, ◌==◌, if◌then◌else◌,
}
use edufurthersf_be.Prelude.Text.{Text, text_eq}

-- An integer: `negsuc n` is -(n + 1).
pub data ℤ : Type 0 where
  pos : ℕ → ℤ
  negsuc : ℕ → ℤ

-- A number with a fraction or an exponent is kept as it is written.
mutual
  pub data Json : Type 0 where
    null : Json
    bool : Bool → Json
    int : ℤ → Json
    float : Text → Json
    str : Text → Json
    arr : Items → Json
    obj : Fields → Json

  pub data Items : Type 0 where
    nil : Items
    cons : Json → Items → Items

  pub data Fields : Type 0 where
    end : Fields
    field : String → Json → Fields → Fields

abbrev pub items : Items → List Json
items nil = []
items (cons v vs) = v ∷ items vs

abbrev pub Dict : Type 0
Dict = List (String × Json)

abbrev pub fields : Fields → Dict
fields end = []
fields (field k v fs) = (k, v) ∷ fields fs

abbrev pub to_items : List Json → Items
to_items [] = nil
to_items (v ∷ vs) = cons v (to_items vs)

pub items-to_items : (vs : List Json) → items (to_items vs) ≡ vs
items-to_items [] = refl
items-to_items (v ∷ vs) = rw (items-to_items vs)

-- `d.get(key)`.
unfoldable pub get {ℓ} : {V : Type ℓ} → String → List (String × V) → Option V
get k [] = none
get k ((j, v) ∷ d) = if str_eq j k then some v else get k d

-- `d[key] = value`.
unfoldable pub put {ℓ} : {V : Type ℓ} → String → V → List (String × V) → List (String × V)
put k v [] = (k, v) ∷ []
put k v ((j, w) ∷ d) = if str_eq j k then (j, v) ∷ d else (j, w) ∷ put k v d

pub get-put {ℓ} :
    {V : Type ℓ} (k j : String) (v : V) (d : List (String × V))
    → get j (put k v d) ≡ (if str_eq k j then some v else get j d)
unfolding get put
get-put k j v [] = refl
get-put k j v ((i, w) ∷ d) = ground (arith, eq_iff k j, eq_iff i k, eq_iff i j, get-put k j v d)

-- A number is false exactly if each of its digits is zero.
has_nonzero_digit : Text → Bool
has_nonzero_digit [] = false
has_nonzero_digit (c ∷ s) =
    let rest = has_nonzero_digit s in
    if (c == b'e') || (c == b'E') then false else (leb b'1' c && leb c b'9') || rest

-- `bool(value)`.
unfoldable pub is_truthy : Json → Bool
unfolding has_nonzero_digit
is_truthy null = false
is_truthy (bool b) = b
is_truthy (int (pos zero)) = false
is_truthy (int (pos (suc n))) = true
is_truthy (int (negsuc n)) = true
is_truthy (float s) = has_nonzero_digit s
is_truthy (str []) = false
is_truthy (str (c ∷ s)) = true
is_truthy (arr nil) = false
is_truthy (arr (cons v vs)) = true
is_truthy (obj end) = false
is_truthy (obj (field k v fs)) = true

-- `isinstance(value, str)`, with the text.
abbrev pub as_str : Json → Option Text
as_str (str s) = some s
as_str _ = none

-- `[item for item in value if isinstance(item, str)]`.
unfoldable pub str_items : List Json → List Text
str_items [] = []
str_items (str s ∷ vs) = s ∷ str_items vs
str_items (_ ∷ vs) = str_items vs

-- `string_list(value)` of src/app/domain/facts.py: a value that is no list gives no items.
unfoldable pub string_list : Json → List Text
unfolding str_items
string_list (arr vs) = str_items (items vs)
string_list _ = []

-- `value == text`.
abbrev pub is_str : Text → Json → Bool
is_str text (str s) = text_eq s text
is_str text _ = false

-- `d.get(key, default)`.
abbrev pub get_or : String → Json → Dict → Json
get_or k default d = elim (get k d) [ none ↦ default | some v ↦ v ]
