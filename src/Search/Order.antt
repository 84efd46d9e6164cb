-- ===== src/Search/Order.antt =====
-- The order of search results.
use edufurthersf_be.Prelude.{
  ℕ, ◌≡◌, sym, ◌∙◌, subst, ◌⊎◌, inl, inr, Bool, true, false, List, [], ◌∷◌, arith, Bool-cases, All,
  All-map_of, In,
}
use edufurthersf_be.Prelude.Text.{
  Text, text_eq, text_eq_refl, eq_of_text_eq, text_ltb, text_ltb_irrefl, text_ltb_trans,
  text_ltb_total,
}
use edufurthersf_be.Search.{SortKey, lex, lex_text, key_ltb, insert_sorted, sort_by}

text_after_trans :
    (a b c : Text) → text_ltb b a ≡ false → text_ltb c b ≡ false → text_ltb c a ≡ false
text_after_trans a b c h k = elim (Bool-cases (text_ltb c a)) [
  | inr n ↦ n
  | inl y ↦ elim (Bool-cases (text_ltb a b)) [
    | inl below ↦ cc (k, text_ltb_trans c a b y below)
    | inr n ↦ let same : a ≡ b = text_ltb_total a b n h in cc (k, same)
  ]
]

text_asym : (a b : Text) → text_ltb b a ≡ true → text_ltb a b ≡ false
text_asym a b h = elim (Bool-cases (text_ltb a b)) [
  | inr n ↦ n
  | inl y ↦ cc (text_ltb_irrefl b, text_ltb_trans b a b h y)
]

lex_trans :
    (a b c : ℕ) (x y z : Bool)
    → (x ≡ false → y ≡ false → z ≡ false)
    → lex b a x ≡ false
    → lex c b y ≡ false
    → lex c a z ≡ false
lex_trans a b c x y z rest h k = ground (arith, rest)

lex_asym : (a b : ℕ) (x y : Bool) → (x ≡ true → y ≡ false) → lex b a x ≡ true → lex a b y ≡ false
lex_asym a b x y rest h = ground (arith, rest)

lex_text_trans :
    (a b c : Text) (x y z : Bool)
    → (x ≡ false → y ≡ false → z ≡ false)
    → lex_text b a x ≡ false
    → lex_text c b y ≡ false
    → lex_text c a z ≡ false
lex_text_trans a b c x y z rest h k = elim (Bool-cases (text_eq c a)) [
  | inr n ↦ let later = text_after_trans a b c (ground arith) (ground arith) in ground arith
  | inl e ↦
      let same : c ≡ a = eq_of_text_eq c a e in
      let later = text_after_trans a b c (ground arith) (ground arith) in
      let back : text_ltb a b ≡ false = subst (λ t. text_ltb t b ≡ false) same (ground arith) in
      let all_same : a ≡ b = text_ltb_total a b back (ground arith) in
      let e1 : text_eq b a ≡ true = subst (λ t. text_eq t a ≡ true) all_same (text_eq_refl a) in
      let e2 : text_eq c b ≡ true =
        subst (λ t. text_eq t b ≡ true) (sym (same ∙ all_same)) (text_eq_refl b) in
      let z_false : z ≡ false = rest (ground arith) (ground arith) in ground arith
]

lex_text_asym :
    (a b : Text) (x y : Bool)
    → (x ≡ true → y ≡ false)
    → lex_text b a x ≡ true
    → lex_text a b y ≡ false
lex_text_asym a b x y rest h = elim (Bool-cases (text_ltb b a)) [
  | inl below ↦
      let later = text_asym a b below in
      elim (Bool-cases (text_eq a b)) [
        | inr n ↦ ground arith
        | inl e ↦
            let same : a ≡ b = eq_of_text_eq a b e in
            cc (below, subst (λ t. text_ltb t a ≡ false) same (text_ltb_irrefl a))
      ]
  | inr n ↦
      let same : b ≡ a = eq_of_text_eq b a (ground arith) in
      let later : text_ltb a b ≡ false =
        subst (λ t. text_ltb t b ≡ false) same (text_ltb_irrefl b) in
      let y_false : y ≡ false = rest (ground arith) in ground arith
]

-- `b` does not come before `a`.
pub Follows : SortKey → SortKey → Type 0
Follows a b = key_ltb b a ≡ false

Follows-trans : (a b c : SortKey) → Follows a b → Follows b c → Follows a c
unfolding Follows key_ltb
Follows-trans a b c = lex_trans a.fit_rank b.fit_rank c.fit_rank _ _ _ (
    lex_trans a.status_rank b.status_rank c.status_rank _ _ _ (
      lex_trans a.has_value b.has_value c.has_value _ _ _
        (lex_text_trans a.value b.value c.value _ _ _ (text_after_trans a.id b.id c.id))))

Follows-asym : (a b : SortKey) → key_ltb b a ≡ true → Follows b a
unfolding Follows key_ltb
Follows-asym a b = lex_asym a.fit_rank b.fit_rank _ _ (
    lex_asym a.status_rank b.status_rank _ _ (
      lex_asym a.has_value b.has_value _ _
        (lex_text_asym a.value b.value _ _ (text_asym a.id b.id))))

module _ {A : Type 0} (key : A → SortKey) where
  -- No item comes before an item that stands earlier.
  abbrev pub IsSorted : List A → Type 0
  IsSorted [] = Unit
  IsSorted (a ∷ t) = All (λ b. Follows (key a) (key b)) t × IsSorted t

  All-insert_sorted :
      (P : A → Type 0) (a : A) (t : List A) → P a → All P t → All P (insert_sorted key a t)
  unfolding insert_sorted
  All-insert_sorted P a [] p h = (p, tt)
  All-insert_sorted P a (b ∷ t) p h = ground (arith, All-insert_sorted P a t)

  insert-IsSorted : (a : A) (t : List A) → IsSorted t → IsSorted (insert_sorted key a t)
  unfolding insert_sorted Follows
  insert-IsSorted a [] h = (tt, tt)
  insert-IsSorted a (b ∷ t) h = elim (Bool-cases (key_ltb (key b) (key a))) [
    | inl e ↦ rw e (
      All-insert_sorted (λ c. Follows (key b) (key c)) a t (Follows-asym (key a) (key b) e) h.0,
      insert-IsSorted a t h.1,
    )
    | inr e ↦ rw e ((e, All-map_of (λ c k. Follows-trans (key a) (key b) (key c) e k) t h.0), h)
  ]

  pub sort-IsSorted : (t : List A) → IsSorted (sort_by key t)
  unfolding sort_by
  sort-IsSorted [] = tt
  sort-IsSorted (a ∷ t) = insert-IsSorted a (sort_by key t) (sort-IsSorted t)

  In-insert : (x a : A) (t : List A) → In x (insert_sorted key a t) → (a ≡ x) ⊎ In x t
  unfolding insert_sorted
  In-insert x a [] m = m
  In-insert x a (b ∷ t) m = ground (arith, In-insert x a t)

  insert-In : (x a : A) (t : List A) → (a ≡ x) ⊎ In x t → In x (insert_sorted key a t)
  unfolding insert_sorted
  insert-In x a [] m = m
  insert-In x a (b ∷ t) m = ground (arith, insert-In x a t)

  -- Sorting loses no item, and adds none.
  pub In-sort : (x : A) (t : List A) → In x (sort_by key t) → In x t
  unfolding sort_by
  In-sort x [] m = m
  In-sort x (a ∷ t) m = elim (In-insert x a (sort_by key t) m) [
    | inl e ↦ inl e
    | inr k ↦ inr (In-sort x t k)
  ]

  pub sort-In : (x : A) (t : List A) → In x t → In x (sort_by key t)
  unfolding sort_by
  sort-In x [] m = m
  sort-In x (a ∷ t) (inl e) = insert-In x a (sort_by key t) (inl e)
  sort-In x (a ∷ t) (inr m) = insert-In x a (sort_by key t) (inr (sort-In x t m))
