-- ===== src/Catalogue/Invariant/Identity.antt =====
-- The unique triples of the cycles, through an INSERT and an UPDATE.
use edufurthersf_be.Prelude.{
  ℕ, ◌≡◌, ◌≢◌, sym, ap, ◌∙◌, ◌⊎◌, inl, inr, true, false, ◌&&◌, none, List, [], ◌∷◌, ◌++◌, arith,
  ◌==◌, ==_iff, ==_refl, find, All, All-append, Bool-cases,
}
use edufurthersf_be.Prelude.Text.{Text, text_eq, text_eq_refl}
use edufurthersf_be.Rows.{update_row}
use edufurthersf_be.Rows.Laws.{DistinctKeys}
use edufurthersf_be.Catalogue.{ScholarshipCycle, cycle_key, same_identity}
use edufurthersf_be.Catalogue.Invariant.{identity, DistinctIdentities}

same_triple :
    (a b : ℕ) (k l s r : Text)
    → (a ≡ b) × (k ≡ l) × (s ≡ r)
    → (a == b && (text_eq k l && text_eq s r)) ≡ true
same_triple a b k l s r (e, f, g) = rw (e, f, g) (rw (==_refl b, text_eq_refl l, text_eq_refl r))

pub differs :
    (id : ℕ) (key segment : Text) (d : ScholarshipCycle)
    → same_identity id key segment d ≡ false
    → identity d ≢ (id, key, segment)
differs id key segment d h p = cc (
  h,
  same_triple d.scholarship_id id d.provider_cycle_key key d.applicant_segment segment
      (ap (λ t. t.0) p, ap (λ t. t.1) p, ap (λ t. t.2) p),
)

-- Where no cycle has a triple, each has another one.
pub find-differs :
    (id : ℕ) (key segment : Text) (t : List ScholarshipCycle)
    → find (same_identity id key segment) t ≡ none
    → All (λ d. identity d ≢ (id, key, segment)) t
find-differs id key segment [] h = tt
find-differs id key segment (d ∷ t) h = elim (Bool-cases (same_identity id key segment d)) [
  | inl e ↦ cc (rw e at h)
  | inr e ↦ (differs id key segment d e, find-differs id key segment t (rw e at h))
]

pub DistinctIdentities-append :
    (c : ScholarshipCycle) (t : List ScholarshipCycle)
    → All (λ d. identity d ≢ identity c) t
    → DistinctIdentities t
    → DistinctIdentities (t ++ c ∷ [])
DistinctIdentities-append c [] n h = (tt, tt)
DistinctIdentities-append c (d ∷ t) n h = (
  All-append (λ e. identity e ≢ identity d) t (c ∷ []) h.0 ((λ p. n.0 (sym p)), tt),
  DistinctIdentities-append c t n.1 h.1,
)

-- An UPDATE of one row that takes a triple which no other row has.
pub DistinctIdentities-update :
    (id : ℕ) (f : ScholarshipCycle → ScholarshipCycle) (triple : ℕ × Text × Text)
    (t : List ScholarshipCycle)
    → DistinctKeys cycle_key t
    → All (λ d. (d.cycle_id ≢ id) ⊎ (identity (f d) ≡ triple)) t
    → All (λ d. (d.cycle_id ≡ id) ⊎ (identity d ≢ triple)) t
    → DistinctIdentities t
    → DistinctIdentities (update_row cycle_key id f t)
unfolding update_row
DistinctIdentities-update id f triple [] keys takes free h = h
DistinctIdentities-update id f triple (d ∷ t) keys takes free h =
    let rest = DistinctIdentities-update id f triple t keys.1 takes.1 free.1 h.1 in
    elim (Bool-cases (d.cycle_id == id)) [
      | inl e ↦
          let here : d.cycle_id ≡ id = (==_iff d.cycle_id id).0 e in
          let taken : identity (f d) ≡ triple = taken_by d takes.0 here in
          rw e (alone d here taken t keys.0 free.1, rest)
      | inr e ↦
          let apart : identity d ≢ triple =
            free_of d free.0 (λ p. cc (e, (==_iff d.cycle_id id).1 p)) in
          rw e (kept d apart t takes.1 h.0, rest)
    ]
  where
    taken_by :
        (x : ScholarshipCycle)
        → (x.cycle_id ≢ id) ⊎ (identity (f x) ≡ triple)
        → x.cycle_id ≡ id
        → identity (f x) ≡ triple
    taken_by x (inl n) p = absurd (n p)
    taken_by x (inr q) p = q

    free_of :
        (x : ScholarshipCycle)
        → (x.cycle_id ≡ id) ⊎ (identity x ≢ triple)
        → x.cycle_id ≢ id
        → identity x ≢ triple
    free_of x (inl p) n = absurd (n p)
    free_of x (inr q) n = q

    alone :
        (x : ScholarshipCycle)
        → x.cycle_id ≡ id
        → identity (f x) ≡ triple
        → (u : List ScholarshipCycle) → All (λ y. y.cycle_id ≢ x.cycle_id) u
        → All (λ y. (y.cycle_id ≡ id) ⊎ (identity y ≢ triple)) u
        → All (λ y. identity y ≢ identity (f x)) (update_row cycle_key id f u)
    alone x here taken [] n g = tt
    alone x here taken (y ∷ u) n g =
        let other : y.cycle_id ≢ id = λ p. n.0 (p ∙ sym here) in
        let miss : (y.cycle_id == id) ≡ false = ground (arith, ==_iff y.cycle_id id) in
        rw miss ((λ p. free_of y g.0 other (p ∙ taken)), alone x here taken u n.1 g.1)

    kept :
        (x : ScholarshipCycle)
        → identity x ≢ triple
        → (u : List ScholarshipCycle) → All (λ y. (y.cycle_id ≢ id) ⊎ (identity (f y) ≡ triple)) u
        → All (λ y. identity y ≢ identity x) u
        → All (λ y. identity y ≢ identity x) (update_row cycle_key id f u)
    kept x apart [] g n = tt
    kept x apart (y ∷ u) g n = elim (Bool-cases (y.cycle_id == id)) [
      | inl e ↦
          let taken : identity (f y) ≡ triple = taken_by y g.0 ((==_iff y.cycle_id id).0 e) in
          rw e ((λ p. apart (sym p ∙ taken)), kept x apart u g.1 n.1)
      | inr e ↦ rw e (n.0, kept x apart u g.1 n.1)
    ]
