-- ===== src/Sessions/Recorded.antt =====
-- The rows of a search: one for each page.
use edufurthersf_be.Prelude.{
  ℕ, suc, ◌≡◌, refl, inl, inr, false, Option, none, some, List, [], ◌∷◌, ◌++◌, any, length, ◌==◌,
  if◌then◌else◌, Bool-cases, Option-cases, All, All-map_of, ok, arith,
}
use edufurthersf_be.Sessions.{
  Search, SearchResponse, assigned, is_page, page_of, written, record_search_response,
}

-- No two rows are of one page of one search.
abbrev pub OnePerPage : List Search → Type 0
OnePerPage [] = Unit
OnePerPage (r ∷ rs) = All (λ q. is_page r.search_id r.page_number q ≡ false) rs × OnePerPage rs

-- The row that is found for a page after one of them is written.
abbrev pub found_after : Search → ℕ → ℕ → List Search → Option Search
found_after row s p rows = if is_page s p row then some row else page_of s p rows

added_found :
    (row : Search) (rows : List Search) (s p : ℕ)
    → page_of row.search_id row.page_number rows ≡ none
    → page_of s p (rows ++ row ∷ []) ≡ found_after row s p rows
added_found row [] s p h = refl
added_found row (r ∷ rs) s p h = ground (arith, added_found row rs s p)

written_found :
    (row e : Search) (rows : List Search) (s p : ℕ)
    → page_of row.search_id row.page_number rows ≡ some e
    → page_of s p (written row rows) ≡ found_after row s p rows
unfolding written
written_found row e [] s p h = ground arith
written_found row e (r ∷ rs) s p h = ground (arith, written_found row e rs s p)

length-added : (row : Search) (rows : List Search) → length (rows ++ row ∷ []) ≡ suc (length rows)
length-added row [] = refl
length-added row (r ∷ rs) = rw (length-added row rs) refl

length-written : (row : Search) (rows : List Search) → length (written row rows) ≡ length rows
unfolding written
length-written row [] = refl
length-written row (r ∷ rs) = ground (arith, length-written row rs)

All-added :
    (P : Search → Type 0) (row : Search) (rows : List Search)
    → All P rows
    → P row
    → All P (rows ++ row ∷ [])
All-added P row [] h k = (k, tt)
All-added P row (r ∷ rs) h k = (h.0, All-added P row rs h.1 k)

added-OnePerPage :
    (row : Search) (rows : List Search)
    → page_of row.search_id row.page_number rows ≡ none
    → OnePerPage rows
    → OnePerPage (rows ++ row ∷ [])
added-OnePerPage row [] h k = (tt, tt)
added-OnePerPage row (r ∷ rs) h k = elim (Bool-cases (is_page row.search_id row.page_number r)) [
  | inl e ↦ ground arith
  | inr e ↦
      let rest : page_of row.search_id row.page_number rs ≡ none = ground arith in
      let differs : is_page r.search_id r.page_number row ≡ false = ground arith in
      (
        All-added (λ q. is_page r.search_id r.page_number q ≡ false) row rs k.0 differs,
        added-OnePerPage row rs rest k.1,
      )
]

differs_written :
    (row r : Search) (rs : List Search)
    → is_page row.search_id row.page_number r ≡ false
    → All (λ q. is_page r.search_id r.page_number q ≡ false) rs
    → All (λ q. is_page r.search_id r.page_number q ≡ false) (written row rs)
unfolding written
differs_written row r [] h k = tt
differs_written row r (q ∷ qs) h k = ground (arith, differs_written row r qs)

written-OnePerPage :
    (row : Search) (rows : List Search) → OnePerPage rows → OnePerPage (written row rows)
unfolding written
written-OnePerPage row [] k = tt
written-OnePerPage row (r ∷ rs) k = elim (Bool-cases (is_page row.search_id row.page_number r)) [
  | inl e ↦
      let there : (q : Search)
          → is_page r.search_id r.page_number q ≡ false
          → is_page row.search_id row.page_number q ≡ false =
        λ q d. ground arith in
      rw e (All-map_of there rs k.0, k.1)
  | inr e ↦ rw e (differs_written row r rs e k.0, written-OnePerPage row rs k.1)
]

-- What recording a response comes to: one row more if its page had none.
abbrev pub counted_after : Option Search → ℕ → ℕ
counted_after none n = suc n
counted_after (some existing) n = n

abbrev pub IsRecorded : List Search → SearchResponse → Search → List Search → Type 0
IsRecorded rows a row after =
    OnePerPage after
    × ((s p : ℕ) → page_of s p after ≡ found_after row s p rows)
    × (length after ≡ counted_after (page_of a.search_id a.page_number rows) (length rows))
    × (row ≡ assigned row.id a)

-- In a table with at most one row for each page of a search, recording a response under an id that no row has
-- succeeds: the row returned has the response's values, it is the row found for its page, every other page finds
-- the row it found before, there still is at most one row for each page, and there is one row more exactly if
-- the page had none. So a page that is requested again loses what was returned for it before.
pub response_stored :
    (rows : List Search) (id : ℕ) (a : SearchResponse)
    → OnePerPage rows
    → any (λ r. r.id == id) rows ≡ false
    → (row : Search) × (after : List Search) × (record_search_response rows id a ≡ ok (row, after))
      × IsRecorded rows a row after
unfolding record_search_response
response_stored rows id a k fresh = elim (Option-cases (page_of a.search_id a.page_number rows)) [
  | inl e ↦
      let row = assigned id a in
      (
        row,
        rows ++ row ∷ [],
        rw (e, fresh, record_search_response) refl,
        (
          added-OnePerPage row rows e k,
          λ s p. added_found row rows s p e,
          rw e (length-added row rows),
          refl,
        ),
      )
  | inr (existing, e) ↦
      let row = assigned existing.id a in
      (
        row,
        written row rows,
        rw (e, record_search_response) refl,
        (
          written-OnePerPage row rows k,
          λ s p. written_found row existing rows s p e,
          rw e (length-written row rows),
          refl,
        ),
      )
]
