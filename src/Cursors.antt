-- ===== src/Cursors.antt =====
-- src/app/core/cursors.py: the cursor of a page. base64, the signature, `json` and the texts of ids are
-- parameters, each with what it raises; the id of a search is a number.
pub mod Bound
mod Tests
use edufurthersf_be.Prelude.{
  ℕ, String, Bool, true, false, not, ◌&&◌, ◌||◌, Option, none, some, List, [], ◌∷◌, ◌++◌, ◌==◌,
  if◌then◌else◌, Error, Result, ok, raise, value_error, ◌>>=◌, ◌>>◌, raise_if,
}
use edufurthersf_be.Prelude.Text.{Text, codes, text_eq}
use edufurthersf_be.Json.{Json, bool, int, float, str, pos, negsuc, null, arr, obj, Dict, get}

pub record CursorState : Type 0 where
  pub offset : ℕ
  pub search_id : ℕ

-- `urlsafe_b64decode` and `decode` may raise, and so may `json.loads`; `loads` also raises for what is no
-- object. `uuid.UUID(str(value))` is `uuid_of`, and `float_is` compares a float with an integer.
pub record CursorLibrary : Type 0 where
  pub b64encode : Text → Text
  pub b64decode : Text → Result Text
  pub sign : Text → Text → Text
  pub dumps : Dict → Text
  pub loads : Text → Result Dict
  pub uuid_text : ℕ → Text
  pub uuid_of : Json → Result ℕ
  pub float_is : Text → ℕ → Bool

abbrev pub invalid : Error
invalid = value_error "Invalid or expired search cursor"

-- `token.rsplit(".", 1)`.
unfoldable pub rsplit_dot : Text → Option (Text × Text)
rsplit_dot [] = none
rsplit_dot (c ∷ s) = elim (rsplit_dot s) [
  | none ↦ if c == b'.' then some ([], s) else none
  | some (payload, signature) ↦ some (c ∷ payload, signature)
]

-- `data["filter_digest"] == filter_digest`.
abbrev pub is_text : Text → Option Json → Bool
is_text s (some (str t)) = text_eq t s
is_text s _ = false

-- `data["offset"]`, if it is an integer that is not negative; `True` is the integer 1.
abbrev pub natural : Option Json → Result ℕ
natural (some (int (pos n))) = ok n
natural (some (bool b)) = ok (if b then 1 else 0)
natural _ = raise invalid

abbrev pub present : Option Json → Result Json
present none = raise invalid
present (some v) = ok v

-- Every exception is turned into the same ValueError.
abbrev pub hidden {ℓ} : {A : Type ℓ} → Result A → Result A
hidden (raise e) = raise invalid
hidden (ok a) = ok a

abbrev pub split_or_raise : Option (Text × Text) → Result (Text × Text)
split_or_raise none = raise invalid
split_or_raise (some parts) = ok parts

module _ (lib : CursorLibrary) where
  -- `data["limit"] == limit`.
  abbrev pub is_number : ℕ → Option Json → Bool
  is_number n (some (int (pos m))) = m == n
  is_number n (some (bool b)) = (if b then 1 else 0) == n
  is_number n (some (float t)) = lib.float_is t n
  is_number n _ = false

  abbrev pub cursor_data : ℕ → Text → ℕ → ℕ → Dict
  cursor_data offset filter_digest search_id limit =
      ("offset", int (pos offset))
      ∷ ("filter_digest", str filter_digest)
      ∷ ("search_id", str (lib.uuid_text search_id))
      ∷ ("limit", int (pos limit))
      ∷ []

  unfoldable pub encode_cursor : ℕ → Text → ℕ → ℕ → Text → Text
  encode_cursor offset filter_digest search_id limit secret =
      let payload = lib.dumps (cursor_data offset filter_digest search_id limit) in
      lib.b64encode (payload ++ codes "." ++ lib.sign payload secret)

  unfoldable pub read_data : Dict → Text → ℕ → Result CursorState
  read_data fields filter_digest limit = do
    raise_if
        (not (is_text filter_digest (get "filter_digest" fields))
          || not (is_number limit (get "limit" fields)))
        invalid
    offset ← natural (get "offset" fields)
    id ← present (get "search_id" fields)
    search_id ← lib.uuid_of id
    ok (record { offset = offset; search_id = search_id })

  unfoldable pub read_token : Text → Text → ℕ → Text → Result CursorState
  unfolding rsplit_dot read_data
  read_token token filter_digest limit secret = do
    parts ← split_or_raise (rsplit_dot token)
    raise_if (not (text_eq parts.1 (lib.sign parts.0 secret))) invalid
    data_of ← lib.loads parts.0
    read_data data_of filter_digest limit

  unfoldable pub decode_cursor : Text → Text → ℕ → Text → Result CursorState
  unfolding read_token
  decode_cursor cursor filter_digest limit secret =
      hidden (lib.b64decode cursor >>= λ token. read_token token filter_digest limit secret)
