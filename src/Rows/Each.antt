-- ===== src/Rows/Each.antt =====
-- A loop over a batch of rows, against the table that it is to leave.
use edufurthersf_be.Prelude.{
  ℕ, ◌≡◌, ◌≢◌, refl, sym, ap, ◌∙◌, subst, Bool, true, false, inl, inr, List, [], ◌∷◌, map, arith,
  Bool-cases, ◌==◌, ==_iff, All, All-In, In, any-In, if◌then◌else◌,
}
use edufurthersf_be.Rows.{update_row, select_where, update_each, has_row}
use edufurthersf_be.Rows.Laws.{
  DistinctKeys, select_where-In, DistinctKeys-select_where, DistinctKeys-update_row,
}

module _ {A : Type 0} (key : A → ℕ) where
  -- Two rows with one primary key are one row.
  pub DistinctKeys-unique :
      (a b : A) (t : List A) → DistinctKeys key t → In a t → In b t → key a ≡ key b → a ≡ b
  DistinctKeys-unique a b [] h m n e = absurd m
  DistinctKeys-unique a b (c ∷ t) h (inl p) (inl q) e = sym p ∙ q
  DistinctKeys-unique a b (c ∷ t) h (inl p) (inr n) e =
      absurd (All-In (λ k. key k ≢ key c) t h.0 n (sym e ∙ ap key (sym p)))
  DistinctKeys-unique a b (c ∷ t) h (inr m) (inl q) e =
      absurd (All-In (λ k. key k ≢ key c) t h.0 m (e ∙ ap key (sym q)))
  DistinctKeys-unique a b (c ∷ t) h (inr m) (inr n) e = DistinctKeys-unique a b t h.1 m n e

  no_row : (id : ℕ) (batch : List A) → All (λ b. key b ≢ id) batch → has_row key id batch ≡ false
  no_row id [] h = refl
  no_row id (b ∷ batch) h = ground (arith, no_row id batch h.1, h.0)

  abbrev pub written : (A → A) → List A → A → A
  written f batch a = if has_row key (key a) batch then f a else a

  first_written :
      (f : A → A) (b : A) (batch t : List A)
      → ((a : A) → key (f a) ≡ key a)
      → has_row key (key b) batch ≡ false
      → map (written f batch) (update_row key (key b) f t) ≡ map (written f (b ∷ batch)) t
  unfolding update_row
  first_written f b batch [] same n = refl
  first_written f b batch (a ∷ t) same n =
      let rest = first_written f b batch t same n in
      elim (Bool-cases (key a == key b)) [
        | inl e ↦
            let here : key a ≡ key b = (==_iff (key a) (key b)).0 e in
            let once : has_row key (key (f a)) batch ≡ false =
              ap (λ id. has_row key id batch) (same a ∙ here) ∙ n in
            let back : (key b == key a) ≡ true = (==_iff (key b) (key a)).1 (sym here) in
            rw (e, once, back, rest)
        | inr e ↦ let back : (key b == key a) ≡ false = ground arith in rw (e, back, rest)
      ]

  written_nil : (f : A → A) (t : List A) → t ≡ map (written f []) t
  written_nil f [] = refl
  written_nil f (a ∷ t) = ap (λ r. a ∷ r) (written_nil f t)

  pub update_each_exact :
      (f : A → A) (batch t : List A)
      → ((a : A) → key (f a) ≡ key a)
      → DistinctKeys key batch
      → update_each key f batch t ≡ map (written f batch) t
  unfolding update_each
  update_each_exact f [] t same d = written_nil f t
  update_each_exact f (b ∷ batch) t same d =
      update_each_exact f batch (update_row key (key b) f t) same d.1
      ∙ first_written f b batch t same (no_row (key b) batch d.0)

  -- A row that has the key of a selected row passes the test of the selection.
  pub has_row-test :
      (test : A → Bool) (locked : ℕ → Bool) (limit : ℕ) (t : List A) (a : A)
      → DistinctKeys key t
      → In a t
      → has_row key (key a) (select_where key test locked limit t) ≡ true
      → test a ≡ true
  has_row-test test locked limit t a d m h =
      let (b, n, e) = any-In (λ b. key b == key a) (select_where key test locked limit t) h in
      let (k, passes, free) = select_where-In key test locked limit b t n in
      subst (λ c. test c ≡ true) (DistinctKeys-unique b a t d k m ((==_iff (key b) (key a)).0 e))
        passes

  All-written :
      (P : A → Type 0) (f : A → A) (batch t : List A)
      → ((a : A) → In a t → has_row key (key a) batch ≡ true → P a → P (f a))
      → All P t
      → All P (map (written f batch) t)
  All-written P f batch [] keeps h = h
  All-written P f batch (a ∷ t) keeps h =
      let rest = All-written P f batch t (λ b m. keeps b (inr m)) h.1 in
      elim (Bool-cases (has_row key (key a) batch)) [
        | inl e ↦ rw e (keeps a (inl refl) e h.0, rest)
        | inr e ↦ rw e (h.0, rest)
      ]

  -- What every row satisfies, it still satisfies after a loop over selected rows that keeps it at
  -- the rows which pass the test.
  pub All-update_each :
      (P : A → Type 0) (f : A → A) (test : A → Bool) (locked : ℕ → Bool) (limit : ℕ) (t : List A)
      → ((a : A) → key (f a) ≡ key a)
      → DistinctKeys key t
      → ((a : A) → test a ≡ true → P a → P (f a))
      → All P t
      → All P (update_each key f (select_where key test locked limit t) t)
  All-update_each P f test locked limit t same d keeps h =
      let batch = select_where key test locked limit t in
      subst (All P)
        (sym
          (update_each_exact f batch t same (DistinctKeys-select_where key test locked limit t d)))
        (All-written P f batch t (λ a m r. keeps a (has_row-test test locked limit t a d m r)) h)

  pub DistinctKeys-update_each :
      (f : A → A) (batch t : List A)
      → ((a : A) → key (f a) ≡ key a)
      → DistinctKeys key t
      → DistinctKeys key (update_each key f batch t)
  unfolding update_each
  DistinctKeys-update_each f [] t same d = d
  DistinctKeys-update_each f (b ∷ batch) t same d =
      DistinctKeys-update_each f batch (update_row key (key b) f t) same
        (DistinctKeys-update_row key (key b) f t same d)
