-- ===== src/Search/Pages.antt =====
-- The pages of a search, by the cursors that lead from one to the next.
use edufurthersf_be.Prelude.{
  ℕ, zero, suc, ◌+◌, ◌≡◌, ◌≤◌, ◌<◌, refl, sym, ap, ◌∙◌, inl, inr, Option, none, some, List, [], ◌∷◌,
  ◌++◌, arith, ltb, Bool-cases, length, take, All, truthy, true, ◌⊎◌, length-take-le,
}
use edufurthersf_be.Search.{drop, page_data, next_offset}

module _ {A : Type 0} where
  abbrev pub with_page : List A → Option (List (List A)) → Option (List (List A))
  with_page page none = none
  with_page page (some pages) = some (page ∷ pages)

  abbrev pub concat : List (List A) → List A
  concat [] = []
  concat (page ∷ pages) = page ++ concat pages

  -- The pages hold the matches from an offset on, and none is empty or longer than the limit.
  pub record AreRest (limit offset : ℕ) (m : List A) (pages : List (List A)) : Type 0 where
    pub rest : concat pages ≡ drop offset m
    pub filled : All (λ p. truthy p ≡ true) pages
    pub short : All (λ p. length p ≤ limit) pages
    pub few : length pages + offset ≤ length m

  -- The pages from a cursor on, for a client that makes at most so many requests: none if the last of these still
  -- returns a cursor.
  abbrev pub follow : ℕ → ℕ → Option ℕ → List A → Option (List (List A))
  follow fuel limit none matched = some []
  follow zero limit (some offset) matched = none
  follow (suc fuel) limit (some offset) matched =
      with_page (page_data offset limit matched)
        (follow fuel limit (next_offset offset limit matched) matched)

  first_rest : (n : ℕ) (m : List A) → take n m ++ drop n m ≡ m
  first_rest zero m = refl
  first_rest (suc n) [] = refl
  first_rest (suc n) (x ∷ m) = ap (λ r. x ∷ r) (first_rest n m)

  drop_nil : (n : ℕ) → drop {A = A} n [] ≡ []
  drop_nil zero = refl
  drop_nil (suc n) = refl

  drop-drop : (limit offset : ℕ) (m : List A) → drop (offset + limit) m ≡ drop limit (drop offset m)
  drop-drop limit zero m = ap (λ n. drop n m) (none_more limit)
    where
      none_more : (n : ℕ) → 0 + n ≡ n
      none_more n = omega arith
  drop-drop limit (suc offset) [] = drop_nil (suc offset + limit) ∙ sym (drop_nil limit)
  drop-drop limit (suc offset) (x ∷ m) =
      ap (λ n. drop n (x ∷ m)) (one_more offset limit) ∙ drop-drop limit offset m
    where
      one_more : (a b : ℕ) → suc a + b ≡ suc (a + b)
      one_more a b = omega arith

  take-drop :
      (limit offset : ℕ) (m : List A)
      → take limit (drop offset m) ++ drop (offset + limit) m ≡ drop offset m
  take-drop limit offset m =
      ap (λ r. take limit (drop offset m) ++ r) (drop-drop limit offset m)
      ∙ first_rest limit (drop offset m)

  drop_all : (n : ℕ) (m : List A) → length m ≤ n → drop n m ≡ []
  drop_all zero [] h = refl
  drop_all zero (x ∷ m) h = absurd (omega arith)
  drop_all (suc n) [] h = refl
  drop_all (suc n) (x ∷ m) h = drop_all n m (omega arith)

  append_nil : (m : List A) → m ++ [] ≡ m
  append_nil [] = refl
  append_nil (x ∷ m) = ap (λ r. x ∷ r) (append_nil m)

  page-truthy :
      (limit offset : ℕ) (m : List A)
      → 1 ≤ limit
      → offset < length m
      → truthy (page_data offset limit m) ≡ true
  page-truthy limit offset [] h k = absurd (omega arith)
  page-truthy zero zero (x ∷ m) h k = absurd (omega arith)
  page-truthy (suc limit) zero (x ∷ m) h k = refl
  page-truthy limit (suc offset) (x ∷ m) h k = page-truthy limit offset m h (omega arith)

  pages_from :
      (fuel limit offset : ℕ) (m : List A)
      → 1 ≤ limit
      → offset < length m
      → length m < offset + fuel
      → (pages : List (List A)) × (follow fuel limit (some offset) m ≡ some pages)
        × AreRest limit offset m pages
  pages_from zero limit offset m h k f = absurd (omega arith)
  pages_from (suc fuel) limit offset m h k f = elim (Bool-cases (ltb (offset + limit) (length m))) [
    | inl e ↦
        let (pages, found, are) =
          pages_from fuel limit (offset + limit) m h (ground arith) (omega arith) in
        (
          page_data offset limit m ∷ pages,
          rw (e, found) refl,
          record {
            rest = ap (λ r. page_data offset limit m ++ r) are.rest ∙ take-drop limit offset m;
            filled = (page-truthy limit offset m h k, are.filled);
            short = (length-take-le limit (drop offset m), are.short);
            few = omega (arith, are.few);
          },
        )
    | inr e ↦
        let over : drop (offset + limit) m ≡ [] = drop_all (offset + limit) m (ground arith) in
        (
          page_data offset limit m ∷ [],
          rw e (no_more fuel limit offset m),
          record {
            rest = ap (λ r. page_data offset limit m ++ r) (sym over) ∙ take-drop limit offset m;
            filled = (page-truthy limit offset m h k, tt);
            short = (length-take-le limit (drop offset m), tt);
            few = omega arith;
          },
        )
  ]
    where
      no_more :
          (n limit offset : ℕ) (m : List A)
          → with_page (page_data offset limit m) (follow n limit none m)
            ≡ some (page_data offset limit m ∷ [])
      no_more zero limit offset m = refl
      no_more (suc n) limit offset m = refl

  -- The pages of a search: one empty page where there is no match, and otherwise filled pages.
  abbrev pub ArePages : ℕ → List A → List (List A) → Type 0
  ArePages limit m pages =
      (concat pages ≡ m)
      × All (λ p. length p ≤ limit) pages
      × (((m ≡ []) × (pages ≡ [] ∷ []))
          ⊎ (All (λ p. truthy p ≡ true) pages × (length pages ≤ length m)))

  -- If a page may hold a match, and the matches are the same at each request, a client that follows the cursors from
  -- the first page comes to a page without a cursor, after at most as many requests as there are matches, or one if
  -- there is none. The pages together hold every match once and in order, none is longer than the limit, and
  -- none is empty but the one page of a search without matches.
  pub pages_complete :
      (limit : ℕ) (m : List A)
      → 1 ≤ limit
      → (pages : List (List A)) × (follow (suc (length m)) limit (some 0) m ≡ some pages)
        × ArePages limit m pages
  pages_complete zero m h = absurd (omega arith)
  pages_complete (suc limit) [] h =
      ([] ∷ [], ground arith, (refl, (omega arith, tt), inl (refl, refl)))
  pages_complete (suc limit) (x ∷ m) h =
      let (pages, found, are) =
        pages_from (suc (length (x ∷ m))) (suc limit) 0 (x ∷ m) h (omega arith) (omega arith) in
      (pages, found, (are.rest, are.short, inr (are.filled, omega (arith, are.few))))
