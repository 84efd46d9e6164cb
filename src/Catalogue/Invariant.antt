-- ===== src/Catalogue/Invariant.antt =====
-- What holds of the catalogue between two operations.
pub mod Identity
pub mod Mapped
use edufurthersf_be.Prelude.{
  ℕ, ◌≡◌, ◌≢◌, refl, sym, ap, ◌∙◌, subst, ◌⊎◌, inl, inr, Bool, true, false, Option, none, some,
  List, [], ◌∷◌, arith, ◌==◌, ==_iff, find, All, Bool-cases, Option-cases, if◌then◌else◌,
}
use edufurthersf_be.Prelude.Text.{Text}
use edufurthersf_be.Status.{status_unknown}
use edufurthersf_be.Rows.{update_row}
use edufurthersf_be.Rows.Laws.{DistinctKeys, find-update_row}
use edufurthersf_be.Catalogue.{
  RecordState, Scholarship, ScholarshipCycle, Catalogue, id_of, cycle_key, by_id, is_withdrawn,
}

-- The unique triple of a cycle.
abbrev pub identity : ScholarshipCycle → ℕ × Text × Text
identity c = (c.scholarship_id, c.provider_cycle_key, c.applicant_segment)

abbrev pub DistinctIdentities : List ScholarshipCycle → Type 0
DistinctIdentities [] = Unit
DistinctIdentities (c ∷ t) = All (λ d. identity d ≢ identity c) t × DistinctIdentities t

abbrev pub gone : Option Scholarship → Bool
gone none = false
gone (some s) = is_withdrawn s.lifecycle_state

-- The cycle asserts nothing, if its scholarship was withdrawn.
abbrev pub IsQuiet : List Scholarship → ScholarshipCycle → Type 0
IsQuiet scholarships c =
    (gone (by_id c.scholarship_id scholarships) ≡ false) ⊎ (c.public_status ≡ status_unknown)

pub record IsCatalogue (db : Catalogue) : Type 0 where
  pub ids : DistinctKeys id_of db.scholarships
  pub cycle_ids : DistinctKeys cycle_key db.cycles
  pub identities : DistinctIdentities db.cycles
  pub quiet : All (IsQuiet db.scholarships) db.cycles

-- Where a scholarship is written, the others are found as before.
pub by_id-update_other :
    (id j : ℕ) (f : Scholarship → Scholarship) (t : List Scholarship)
    → ((s : Scholarship) → (f s).scholarship_id ≡ s.scholarship_id)
    → (id == j) ≡ false
    → by_id j (update_row id_of id f t) ≡ by_id j t
unfolding update_row
by_id-update_other id j f [] same n = refl
by_id-update_other id j f (s ∷ t) same n =
    let rest = by_id-update_other id j f t same n in
    elim (Bool-cases (s.scholarship_id == id)) [
      | inl e ↦
          let here : s.scholarship_id ≡ id = (==_iff s.scholarship_id id).0 e in
          let miss : (s.scholarship_id == j) ≡ false = ap (λ k. k == j) here ∙ n in
          let miss' : ((f s).scholarship_id == j) ≡ false = ap (λ k. k == j) (same s) ∙ miss in
          rw (e, miss, miss') rest
      | inr e ↦ elim (Bool-cases (s.scholarship_id == j)) [
        | inl y ↦ rw (e, y) refl
        | inr k ↦ rw (e, k) rest
      ]
    ]

-- A scholarship is written into a state `to`; each cycle stays quiet, if it does so where its own
-- scholarship is the one that is written.
pub IsQuiet-update :
    (id : ℕ) (f : Scholarship → Scholarship) (t : List Scholarship) (s : Scholarship)
    (c d : ScholarshipCycle)
    → ((x : Scholarship) → (f x).scholarship_id ≡ x.scholarship_id)
    → by_id id t ≡ some s
    → d.scholarship_id ≡ c.scholarship_id
    → ((id == c.scholarship_id) ≡ true
        → (is_withdrawn (f s).lifecycle_state ≡ false) ⊎ (d.public_status ≡ status_unknown))
    → ((id == c.scholarship_id) ≡ false → d.public_status ≡ c.public_status)
    → IsQuiet t c
    → IsQuiet (update_row id_of id f t) d
IsQuiet-update id f t s c d same found parent here there q =
    elim (Bool-cases (id == c.scholarship_id)) [
      | inl e ↦
          let own : id ≡ d.scholarship_id = (==_iff id c.scholarship_id).0 e ∙ sym parent in
          let row : by_id d.scholarship_id (update_row id_of id f t) ≡ some (f s) =
            subst (λ k. by_id k (update_row id_of id f t) ≡ some (f s)) own
              (find-update_row id_of id f t same found) in
          elim (here e) [ inl w ↦ inl (ap gone row ∙ w) | inr u ↦ inr u ]
      | inr n ↦
          let other : by_id d.scholarship_id (update_row id_of id f t) ≡ by_id c.scholarship_id t =
            ap (λ k. by_id k (update_row id_of id f t)) parent
            ∙ by_id-update_other id c.scholarship_id f t same n in
          elim q [ inl w ↦ inl (ap gone other ∙ w) | inr u ↦ inr (there n ∙ u) ]
    ]
