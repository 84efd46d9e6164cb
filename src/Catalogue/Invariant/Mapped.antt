-- ===== src/Catalogue/Invariant/Mapped.antt =====
-- A loop over the cycles that writes neither their keys nor their triples.
use edufurthersf_be.Prelude.{
  ◌≡◌, ◌≢◌, sym, ap, ◌∙◌, subst, ◌⊎◌, List, [], ◌∷◌, map, All, In, inl, inr, refl, true, Bool-cases,
}
use edufurthersf_be.Status.{status_unknown}
use edufurthersf_be.Rows.{update_each, has_row}
use edufurthersf_be.Rows.Each.{written, update_each_exact}
use edufurthersf_be.Rows.Laws.{DistinctKeys}
use edufurthersf_be.Catalogue.{Scholarship, ScholarshipCycle, Catalogue, cycle_key, by_id}
use edufurthersf_be.Catalogue.Invariant.{identity, DistinctIdentities, gone, IsQuiet, IsCatalogue}

module _ (f : ScholarshipCycle → ScholarshipCycle) where
  pub All-map :
      (P Q : ScholarshipCycle → Type 0) (t : List ScholarshipCycle)
      → ((c : ScholarshipCycle) → In c t → P c → Q (f c))
      → All P t
      → All Q (map f t)
  All-map P Q [] step h = tt
  All-map P Q (c ∷ t) step h = (step c (inl refl) h.0, All-map P Q t (λ d m. step d (inr m)) h.1)

  pub DistinctKeys-map :
      (t : List ScholarshipCycle)
      → ((c : ScholarshipCycle) → (f c).cycle_id ≡ c.cycle_id)
      → DistinctKeys cycle_key t
      → DistinctKeys cycle_key (map f t)
  DistinctKeys-map [] same h = tt
  DistinctKeys-map (c ∷ t) same h = (
    All-map (λ d. d.cycle_id ≢ c.cycle_id) (λ d. d.cycle_id ≢ (f c).cycle_id) t
        (λ d m n p. n (sym (same d) ∙ p ∙ same c)) h.0,
    DistinctKeys-map t same h.1,
  )

  pub DistinctIdentities-map :
      (t : List ScholarshipCycle)
      → ((c : ScholarshipCycle) → identity (f c) ≡ identity c)
      → DistinctIdentities t
      → DistinctIdentities (map f t)
  DistinctIdentities-map [] same h = tt
  DistinctIdentities-map (c ∷ t) same h = (
    All-map (λ d. identity d ≢ identity c) (λ d. identity d ≢ identity (f c)) t
        (λ d m n p. n (sym (same d) ∙ p ∙ same c)) h.0,
    DistinctIdentities-map t same h.1,
  )

-- A cycle that keeps its scholarship, and its status unless that turns unknown, stays quiet.
pub IsQuiet-lowered :
    (scholarships : List Scholarship) (c d : ScholarshipCycle)
    → d.scholarship_id ≡ c.scholarship_id
    → (d.public_status ≡ c.public_status) ⊎ (d.public_status ≡ status_unknown)
    → IsQuiet scholarships c
    → IsQuiet scholarships d
IsQuiet-lowered scholarships c d parent (inr u) q = inr u
IsQuiet-lowered scholarships c d parent (inl e) (inl live) =
    inl (ap (λ id. gone (by_id id scholarships)) parent ∙ live)
IsQuiet-lowered scholarships c d parent (inl e) (inr u) = inr (e ∙ u)

-- A loop that writes the cycles of a batch.
pub IsCatalogue-update_each :
    (f : ScholarshipCycle → ScholarshipCycle) (batch : List ScholarshipCycle) (db : Catalogue)
    → ((c : ScholarshipCycle) → (f c).cycle_id ≡ c.cycle_id)
    → ((c : ScholarshipCycle) → identity (f c) ≡ identity c)
    → DistinctKeys cycle_key batch
    → ((c : ScholarshipCycle)
        → In c db.cycles
        → has_row cycle_key c.cycle_id batch ≡ true
        → IsQuiet db.scholarships c
        → IsQuiet db.scholarships (f c))
    → IsCatalogue db
    → IsCatalogue (record db { cycles = update_each cycle_key f batch db.cycles })
IsCatalogue-update_each f batch db same_id same distinct quiet good =
    let g = written cycle_key f batch in
    let exact = update_each_exact cycle_key f batch db.cycles same_id distinct in
    record {
      ids = good.ids;
      cycle_ids = subst (DistinctKeys cycle_key) (sym exact) (
          DistinctKeys-map g db.cycles
            (λ c. elim (Bool-cases (has_row cycle_key c.cycle_id batch)) [
              | inl e ↦ rw e (same_id c)
              | inr e ↦ rw e refl
            ])
            good.cycle_ids);
      identities = subst DistinctIdentities (sym exact) (
          DistinctIdentities-map g db.cycles
            (λ c. elim (Bool-cases (has_row cycle_key c.cycle_id batch)) [
              | inl e ↦ rw e (same c)
              | inr e ↦ rw e refl
            ])
            good.identities);
      quiet = subst (All (IsQuiet db.scholarships)) (sym exact) (
          All-map g (IsQuiet db.scholarships) (IsQuiet db.scholarships) db.cycles
            (λ c m q. elim (Bool-cases (has_row cycle_key c.cycle_id batch)) [
              | inl e ↦ rw e (quiet c m e q)
              | inr e ↦ rw e q
            ])
            good.quiet);
    }
