-- ===== src/Rows.antt =====
-- A database table as the list of its rows: UPDATE by primary key, and a bounded SELECT in the
-- order of the keys that skips the rows which other sessions have locked.
pub mod Laws
pub mod Each
use edufurthersf_be.Prelude.{
  ℕ, Bool, not, ◌&&◌, List, [], ◌∷◌, leb, ◌==◌, if◌then◌else◌, keep, take, any,
}

module _ {A : Type 0} (key : A → ℕ) where
  -- An UPDATE of the row with this primary key.
  unfoldable pub update_row : ℕ → (A → A) → List A → List A
  update_row id f [] = []
  update_row id f (a ∷ t) = (if key a == id then f a else a) ∷ update_row id f t

  -- `ORDER BY` the primary key.
  unfoldable pub insert_by : A → List A → List A
  insert_by a [] = a ∷ []
  insert_by a (b ∷ t) =
      let deeper = insert_by a t in if leb (key a) (key b) then a ∷ b ∷ t else b ∷ deeper

  unfoldable pub order_by : List A → List A
  unfolding insert_by
  order_by [] = []
  order_by (a ∷ t) = insert_by a (order_by t)

  -- `WHERE test ORDER BY key LIMIT limit FOR UPDATE SKIP LOCKED`.
  unfoldable pub select_where : (A → Bool) → (ℕ → Bool) → ℕ → List A → List A
  unfolding order_by
  select_where test locked limit t =
      take limit (order_by (keep (λ a. test a && not (locked (key a))) t))

  -- `for row in batch: f(row)`, where each row is written back.
  unfoldable pub update_each : (A → A) → List A → List A → List A
  update_each f [] t = t
  update_each f (b ∷ batch) t = update_each f batch (update_row (key b) f t)

  -- Whether a batch holds a row with this key.
  abbrev pub has_row : ℕ → List A → Bool
  has_row id batch = any (λ b. key b == id) batch
