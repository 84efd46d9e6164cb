-- ===== src/Cursors/Bound.antt =====
-- What a cursor is bound to.
use edufurthersf_be.Prelude.{
  ℕ, ◌≡◌, refl, inl, inr, false, not, ◌||◌, none, some, [], ◌∷◌, ◌++◌, ◌==◌, if◌then◌else◌, All,
  Bool-cases, Result, ok, raise,
}
use edufurthersf_be.Prelude.Text.{Text, codes, text_eq, text_eq_refl}
use edufurthersf_be.Json.{str, get}
use edufurthersf_be.Cursors.{
  CursorState, CursorLibrary, invalid, rsplit_dot, hidden, cursor_data, encode_cursor, read_data,
  read_token, decode_cursor,
}

-- What the parameters are documented to do: base64 reads back what it wrote, `json` the data of a
-- cursor, and `UUID` the text of an id; a
-- signature is a text of hexadecimal digits, which has no dot.
pub record ReadsBack (lib : CursorLibrary) : Type 0 where
  pub decoded : (s : Text) → lib.b64decode (lib.b64encode s) ≡ ok s
  pub loaded :
      (offset : ℕ) (digest : Text) (search_id limit : ℕ)
      → lib.loads (lib.dumps (cursor_data lib offset digest search_id limit))
        ≡ ok (cursor_data lib offset digest search_id limit)
  pub parsed : (id : ℕ) → lib.uuid_of (str (lib.uuid_text id)) ≡ ok id
  pub undotted : (payload secret : Text) → All (λ c. (c == b'.') ≡ false) (lib.sign payload secret)

no_dot : (s : Text) → All (λ c. (c == b'.') ≡ false) s → rsplit_dot s ≡ none
unfolding rsplit_dot
no_dot [] h = refl
no_dot (c ∷ s) h = rw (no_dot s h.1, h.0) refl

last_dot :
    (payload signature : Text)
    → All (λ c. (c == b'.') ≡ false) signature
    → rsplit_dot (payload ++ codes "." ++ signature) ≡ some (payload, signature)
unfolding rsplit_dot
last_dot [] signature h = rw (no_dot signature h) refl
last_dot (c ∷ payload) signature h = rw (last_dot payload signature h) refl

module _ (lib : CursorLibrary) where
  -- The tests that the data of a cursor passes.
  abbrev pub bound_to : ℕ → Text → ℕ → ℕ → Text → ℕ → Result CursorState
  bound_to offset digest search_id limit other_digest other_limit =
      if not (text_eq digest other_digest) || not (limit == other_limit)
      then raise invalid
      else ok (record { offset = offset; search_id = search_id })

  data_read :
      (back : ReadsBack lib) (offset : ℕ) (digest : Text) (search_id limit : ℕ) (other : Text)
      (other_limit : ℕ)
      → hidden (read_data lib (cursor_data lib offset digest search_id limit) other other_limit)
        ≡ bound_to offset digest search_id limit other other_limit
  unfolding read_data get
  data_read back offset digest search_id limit other other_limit =
      elim (Bool-cases (not (text_eq digest other) || not (limit == other_limit))) [
        | inl e ↦ rw e refl
        | inr e ↦ rw (e, back.parsed search_id) refl
      ]

  -- A cursor that was made for one digest of filters and one limit is read back under these, and under any
  -- other digest or limit it is refused as every invalid cursor is; provided that base64, json and UUID
  -- read back what they wrote, and that a signature has no dot.
  pub cursor_bound :
      (offset : ℕ) (digest : Text) (search_id limit : ℕ) (secret other : Text) (other_limit : ℕ)
      → ReadsBack lib
      → decode_cursor lib
          (encode_cursor lib offset digest search_id limit secret)
          other
          other_limit
          secret
        ≡ bound_to offset digest search_id limit other other_limit
  unfolding decode_cursor encode_cursor read_token
  cursor_bound offset digest search_id limit secret other other_limit back =
      let data_of = cursor_data lib offset digest search_id limit in
      let payload = lib.dumps data_of in
      let signature = lib.sign payload secret in
      rw
        (
          back.decoded (payload ++ codes "." ++ signature),
          last_dot payload signature (back.undotted payload secret),
          text_eq_refl signature,
          back.loaded offset digest search_id limit,
        )
        (data_read back offset digest search_id limit other other_limit)
