-- ===== src/Cursors/Tests.antt =====
-- A cursor at a concrete input, with texts for which reading back is plain.
use edufurthersf_be.Prelude.{ℕ, ◌≡◌, refl, false, [], ◌∷◌, Result, ok, raise}
use edufurthersf_be.Prelude.Text.{Text, codes}
use edufurthersf_be.Json.{Json, str, int, pos, Dict}
use edufurthersf_be.Cursors.{CursorLibrary, invalid, encode_cursor, decode_cursor}
use edufurthersf_be.Cursors.Bound.{ReadsBack, bound_to, cursor_bound}

abbrev dumps : Dict → Text
dumps ((_, int (pos offset)) ∷ (_, str digest) ∷ (_, str (id ∷ [])) ∷ (_, int (pos limit)) ∷ []) =
    offset ∷ limit ∷ id ∷ digest
dumps _ = []

abbrev loads : Text → Result Dict
loads (offset ∷ limit ∷ id ∷ digest) = ok (
    ("offset", int (pos offset))
    ∷ ("filter_digest", str digest)
    ∷ ("search_id", str (id ∷ []))
    ∷ ("limit", int (pos limit))
    ∷ [])
loads _ = raise invalid

abbrev uuid_of : Json → Result ℕ
uuid_of (str (id ∷ [])) = ok id
uuid_of _ = raise invalid

abbrev lib : CursorLibrary
lib = record {
  b64encode = λ s. s;
  b64decode = λ s. ok s;
  sign = λ payload secret. codes "c0f";
  dumps = dumps;
  loads = loads;
  uuid_text = λ id. id ∷ [];
  uuid_of = uuid_of;
  float_is = λ t n. false;
}

lib-ReadsBack : ReadsBack lib
lib-ReadsBack = record {
  decoded = λ s. refl;
  loaded = λ offset digest search_id limit. refl;
  parsed = λ id. refl;
  undotted = λ payload secret. (refl, (refl, (refl, tt)));
}

abbrev cursor : Text
cursor = encode_cursor lib 20 (codes "ab") 7 10 (codes "secret")

cursor_bound_example :
    decode_cursor lib cursor (codes "cd") 10 (codes "secret")
    ≡ bound_to lib 20 (codes "ab") 7 10 (codes "cd") 10
cursor_bound_example =
    cursor_bound lib 20 (codes "ab") 7 10 (codes "secret") (codes "cd") 10 lib-ReadsBack
