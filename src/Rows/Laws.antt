-- ===== src/Rows/Laws.antt =====
-- What UPDATE and SELECT keep.
use mathlib.Core.Option
use edufurthersf_be.Prelude.{
  ap, ◌∙◌, find, some, length, In-keep, take_all, ◌≤◌, ℕ, ◌≡◌, ◌≢◌, refl, sym, ◌∙◌, Bool, true,
  false, not, ◌&&◌, ◌⊎◌, inl, inr, List, [], ◌∷◌, arith, keep, Bool-cases, ◌==◌, ==_iff, All, In,
  keep-In, take-In, All-keep, All-take, All-append, leb, take, suc, zero, ◌++◌,
}
use edufurthersf_be.Rows.{update_row, insert_by, order_by, select_where}

module _ {A : Type 0} (key : A → ℕ) where
  -- An UPDATE keeps what every row satisfies, if it keeps it at the rows that it writes.
  pub All-update_row :
      (P : A → Type 0) (id : ℕ) (f : A → A) (t : List A)
      → ((a : A) → In a t → key a ≡ id → P a → P (f a))
      → All P t
      → All P (update_row key id f t)
  unfolding update_row
  All-update_row P id f [] keeps h = h
  All-update_row P id f (a ∷ t) keeps h =
      let rest = All-update_row P id f t (λ b m. keeps b (inr m)) h.1 in
      elim (Bool-cases (key a == id)) [
        | inl e ↦ rw e (keeps a (inl refl) ((==_iff (key a) id).0 e) h.0, rest)
        | inr e ↦ rw e (h.0, rest)
      ]

  -- Primary keys differ.
  abbrev pub DistinctKeys : List A → Type 0
  DistinctKeys [] = Unit
  DistinctKeys (a ∷ t) = All (λ b. key b ≢ key a) t × DistinctKeys t

  pub DistinctKeys-update_row :
      (id : ℕ) (f : A → A) (t : List A)
      → ((a : A) → key (f a) ≡ key a)
      → DistinctKeys t
      → DistinctKeys (update_row key id f t)
  unfolding update_row
  DistinctKeys-update_row id f [] same h = h
  DistinctKeys-update_row id f (a ∷ t) same h =
      let others : All (λ b. key b ≢ key a) (update_row key id f t) =
        All-update_row (λ b. key b ≢ key a) id f t (λ b m e n. λ p. n (sym (same b) ∙ p)) h.0 in
      let rest = DistinctKeys-update_row id f t same h.1 in
      elim (Bool-cases (key a == id)) [
        | inl e ↦ rw e (rw (same a) others, rest)
        | inr e ↦ rw e (others, rest)
      ]

  In-insert_by : (x a : A) (t : List A) → In x (insert_by key a t) → (a ≡ x) ⊎ In x t
  unfolding insert_by
  In-insert_by x a [] m = m
  In-insert_by x a (b ∷ t) m = ground (arith, In-insert_by x a t)

  pub In-order_by : (x : A) (t : List A) → In x (order_by key t) → In x t
  unfolding order_by
  In-order_by x [] m = m
  In-order_by x (a ∷ t) m = elim (In-insert_by x a (order_by key t) m) [
    | inl e ↦ inl e
    | inr k ↦ inr (In-order_by x t k)
  ]

  -- A selected row is in the table, passes the test and is locked by nobody else.
  pub select_where-In :
      (test : A → Bool) (locked : ℕ → Bool) (limit : ℕ) (x : A) (t : List A)
      → In x (select_where key test locked limit t)
      → In x t × (test x ≡ true) × (locked (key x) ≡ false)
  unfolding select_where
  select_where-In test locked limit x t m =
      let wanted : A → Bool = λ a. test a && not (locked (key a)) in
      let (k, h) =
        keep-In wanted x t
          (In-order_by x (keep wanted t) (take-In limit x (order_by key (keep wanted t)) m)) in
      (k, ground arith, ground arith)

  DistinctKeys-keep : (p : A → Bool) (t : List A) → DistinctKeys t → DistinctKeys (keep p t)
  DistinctKeys-keep p [] h = h
  DistinctKeys-keep p (a ∷ t) h = elim (Bool-cases (p a)) [
    | inl e ↦ rw e (All-keep (λ b. key b ≢ key a) p t h.0, DistinctKeys-keep p t h.1)
    | inr e ↦ rw e (DistinctKeys-keep p t h.1)
  ]

  All-insert_by : (P : A → Type 0) (a : A) (t : List A) → P a → All P t → All P (insert_by key a t)
  unfolding insert_by
  All-insert_by P a [] p h = (p, tt)
  All-insert_by P a (b ∷ t) p h = ground (arith, All-insert_by P a t)

  DistinctKeys-insert_by :
      (a : A) (t : List A)
      → All (λ b. key b ≢ key a) t
      → DistinctKeys t
      → DistinctKeys (insert_by key a t)
  unfolding insert_by
  DistinctKeys-insert_by a [] n h = (tt, tt)
  DistinctKeys-insert_by a (b ∷ t) n h = elim (Bool-cases (leb (key a) (key b))) [
    | inl e ↦ rw e (n, h)
    | inr e ↦ rw e (
      All-insert_by (λ c. key c ≢ key b) a t (λ p. n.0 (sym p)) h.0,
      DistinctKeys-insert_by a t n.1 h.1,
    )
  ]

  All-order_by : (P : A → Type 0) (t : List A) → All P t → All P (order_by key t)
  unfolding order_by
  All-order_by P [] h = h
  All-order_by P (a ∷ t) h = All-insert_by P a (order_by key t) h.0 (All-order_by P t h.1)

  DistinctKeys-order_by : (t : List A) → DistinctKeys t → DistinctKeys (order_by key t)
  unfolding order_by
  DistinctKeys-order_by [] h = h
  DistinctKeys-order_by (a ∷ t) h =
      DistinctKeys-insert_by a (order_by key t) (All-order_by (λ b. key b ≢ key a) t h.0)
        (DistinctKeys-order_by t h.1)

  pub DistinctKeys-take : (n : ℕ) (t : List A) → DistinctKeys t → DistinctKeys (take n t)
  DistinctKeys-take zero t h = tt
  DistinctKeys-take (suc n) [] h = h
  DistinctKeys-take (suc n) (a ∷ t) h =
      (All-take (λ b. key b ≢ key a) n t h.0, DistinctKeys-take n t h.1)

  -- No row is selected twice.
  pub DistinctKeys-select_where :
      (test : A → Bool) (locked : ℕ → Bool) (limit : ℕ) (t : List A)
      → DistinctKeys t
      → DistinctKeys (select_where key test locked limit t)
  unfolding select_where
  DistinctKeys-select_where test locked limit t h =
      let wanted : A → Bool = λ a. test a && not (locked (key a)) in
      DistinctKeys-take limit (order_by key (keep wanted t))
        (DistinctKeys-order_by (keep wanted t) (DistinctKeys-keep wanted t h))

  -- An INSERT of a row with a fresh key.
  pub DistinctKeys-append :
      (a : A) (t : List A)
      → All (λ b. key b ≢ key a) t
      → DistinctKeys t
      → DistinctKeys (t ++ a ∷ [])
  DistinctKeys-append a [] n h = (tt, tt)
  DistinctKeys-append a (b ∷ t) n h = (
    All-append (λ c. key c ≢ key b) t (a ∷ []) h.0 ((λ p. n.0 (sym p)), tt),
    DistinctKeys-append a t n.1 h.1,
  )

  insert_by-In : (x a : A) (t : List A) → (a ≡ x) ⊎ In x t → In x (insert_by key a t)
  unfolding insert_by
  insert_by-In x a [] m = m
  insert_by-In x a (b ∷ t) m = ground (arith, insert_by-In x a t)

  -- ORDER BY loses no row, and adds none.
  pub order_by-In : (x : A) (t : List A) → In x t → In x (order_by key t)
  unfolding order_by
  order_by-In x [] m = m
  order_by-In x (a ∷ t) (inl e) = insert_by-In x a (order_by key t) (inl e)
  order_by-In x (a ∷ t) (inr m) = insert_by-In x a (order_by key t) (inr (order_by-In x t m))

  length-insert_by : (a : A) (t : List A) → length (insert_by key a t) ≡ suc (length t)
  unfolding insert_by
  length-insert_by a [] = refl
  length-insert_by a (b ∷ t) = ground (arith, length-insert_by a t)

  pub length-order_by : (t : List A) → length (order_by key t) ≡ length t
  unfolding order_by
  length-order_by [] = refl
  length-order_by (a ∷ t) = omega (arith, length-insert_by a (order_by key t), length-order_by t)

  -- With room for all of them, every unlocked row that passes the test is selected.
  pub In-select_where :
      (test : A → Bool) (locked : ℕ → Bool) (limit : ℕ) (x : A) (t : List A)
      → length (keep (λ a. test a && not (locked (key a))) t) ≤ limit
      → In x t
      → test x ≡ true
      → locked (key x) ≡ false
      → In x (select_where key test locked limit t)
  unfolding select_where
  In-select_where test locked limit x t room m h l =
      let wanted : A → Bool = λ a. test a && not (locked (key a)) in
      let fits : length (order_by key (keep wanted t)) ≤ limit =
        omega (arith, length-order_by (keep wanted t)) in
      rw (take_all limit (order_by key (keep wanted t)) fits)
        (order_by-In x (keep wanted t) (In-keep wanted x t m (ground arith)))

  -- The row with a primary key, after an UPDATE of it.
  pub find-update_row :
      (id : ℕ) (f : A → A) (t : List A) {a : A}
      → ((b : A) → key (f b) ≡ key b)
      → find (λ b. key b == id) t ≡ some a
      → find (λ b. key b == id) (update_row key id f t) ≡ some (f a)
  unfolding update_row
  find-update_row id f [] same e = cc
  find-update_row id f (b ∷ t) same e = elim (Bool-cases (key b == id)) [
    | inl y ↦
        let hit : (key (f b) == id) ≡ true = ap (λ n. n == id) (same b) ∙ y in
        rw (y, hit) (ap (Option.map f) (rw y at e))
    | inr n ↦ rw (n, n) (find-update_row id f t same (rw n at e))
  ]
