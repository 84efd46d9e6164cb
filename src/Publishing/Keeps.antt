-- ===== src/Publishing/Keeps.antt =====
-- The catalogue between two writes of a reviewer: publishing and updating a cycle.
use edufurthersf_be.Prelude.{
  ℕ, ◌≡◌, ◌≢◌, refl, sym, ap, ◌∙◌, subst, All-In, ◌⊎◌, inl, inr, String, Bool, false, not, ◌&&◌,
  Option, none, some, List, [], ◌∷◌, arith, ◌==◌, ==_iff, find, find-In, In, is_some, All,
  All-append, All-map_of, All-of_In, Bool-cases, Result, ok, raise, value_error, bind_returned,
  raise_if, ok-injective,
}
use edufurthersf_be.Prelude.Text.{Text, text_eq, eq_of_text_eq}
use edufurthersf_be.Time.{Instant}
use edufurthersf_be.Rows.{update_row}
use edufurthersf_be.Rows.Laws.{
  DistinctKeys-append, DistinctKeys-update_row, find-update_row, All-update_row,
}
use edufurthersf_be.Rows.Each.{DistinctKeys-unique}
use edufurthersf_be.Catalogue.{
  published, Scholarship, ScholarshipCycle, Catalogue, id_of, cycle_key, by_id, is_withdrawn,
  same_identity,
}
use edufurthersf_be.Catalogue.Invariant.{
  identity, DistinctIdentities, gone, IsQuiet, IsCatalogue, IsQuiet-update,
}
use edufurthersf_be.Catalogue.Invariant.Identity.{
  differs, find-differs, DistinctIdentities-append, DistinctIdentities-update,
}
use edufurthersf_be.Publishing.{
  CycleValues, new_cycle, writable, find_cycle, insert_cycle, checked_publish, publish_checked,
  publish_cycle, found_cycle, load_cycle_for_update, set_values, clashes, write_cycle, update_cycle,
}

abbrev as_published : Scholarship → Scholarship
as_published s = record s { lifecycle_state = published }

pub writable_passed :
    (found : Option Scholarship) (refusal : String) (s : Scholarship)
    → writable found refusal ≡ ok s
    → (found ≡ some s) × (is_withdrawn s.lifecycle_state ≡ false)
unfolding writable
writable_passed none refusal s h = cc
writable_passed (some x) refusal s h = elim (Bool-cases (is_withdrawn x.lifecycle_state)) [
  | inl e ↦ cc (rw e at h)
  | inr e ↦
      let same : x ≡ s = ok-injective (rw e at h) in
      (ap some same, ap (λ y. is_withdrawn y.lifecycle_state) (sym same) ∙ e)
]

free_identity :
    (found : Option ScholarshipCycle) (refusal : String)
    → raise_if (is_some found) (value_error refusal) ≡ ok tt
    → found ≡ none
free_identity none refusal h = refl
free_identity (some c) refusal h = cc

pub checked_publish_passed :
    (id : ℕ) (v : CycleValues) (db : Catalogue)
    → checked_publish id v db ≡ ok tt
    → (s : Scholarship) × (by_id id db.scholarships ≡ some s)
      × (is_withdrawn s.lifecycle_state ≡ false)
      × (find_cycle id v db.cycles ≡ none)
unfolding checked_publish
checked_publish_passed id v db h =
    let (s, first, next) =
      bind_returned (writable (by_id id db.scholarships) "Cannot publish a withdrawn scholarship") _
        h in
    let (row, live) =
      writable_passed (by_id id db.scholarships) "Cannot publish a withdrawn scholarship" s first in
    (
      s,
      row,
      live,
      free_identity (find_cycle id v db.cycles)
          "A cycle with this key and segment is already published" next,
    )

pub found_cycle_passed :
    (found : Option ScholarshipCycle) (c : ScholarshipCycle)
    → found_cycle found ≡ ok c
    → found ≡ some c
found_cycle_passed none c h = cc
found_cycle_passed (some x) c h = ap some (ok-injective h)

pub load_passed :
    (id cycle_id : ℕ) (db : Catalogue) (c : ScholarshipCycle)
    → load_cycle_for_update id cycle_id db ≡ ok c
    → (s : Scholarship) × (by_id id db.scholarships ≡ some s)
      × (is_withdrawn s.lifecycle_state ≡ false)
      × In c db.cycles
      × (c.cycle_id ≡ cycle_id)
      × (c.scholarship_id ≡ id)
unfolding load_cycle_for_update
load_passed id cycle_id db c h =
    let refusal : String = "Cannot update a cycle of a withdrawn scholarship" in
    let test : ScholarshipCycle → Bool = λ c. c.cycle_id == cycle_id && c.scholarship_id == id in
    let (s, first, next) = bind_returned (writable (by_id id db.scholarships) refusal) _ h in
    let (row, live) = writable_passed (by_id id db.scholarships) refusal s first in
    let (m, e) = find-In test db.cycles (found_cycle_passed (find test db.cycles) c next) in
    (s, row, live, m, ground arith, ground arith)

module _ (id_text : ℕ → Text) (published_key : ℕ → Text → Text → String) where
  insert_cycle-IsCatalogue :
      (cycle_id event_id : ℕ) (created_at : Instant) (id : ℕ) (v : CycleValues) (actor : Text)
      (db : Catalogue) (s : Scholarship)
      → by_id id db.scholarships ≡ some s
      → find_cycle id v db.cycles ≡ none
      → All (λ c. c.cycle_id ≢ cycle_id) db.cycles
      → IsCatalogue db
      → IsCatalogue (
          insert_cycle id_text published_key
            (new_cycle cycle_id created_at id v)
            id
            v
            actor
            event_id
            db)
  insert_cycle-IsCatalogue cycle_id event_id created_at id v actor db s row free fresh good =
      let cycle = new_cycle cycle_id created_at id v in
      let here = find-update_row id_of id as_published db.scholarships (λ x. refl) row in
      record {
        ids = DistinctKeys-update_row id_of id as_published db.scholarships (λ x. refl) good.ids;
        cycle_ids = DistinctKeys-append cycle_key cycle db.cycles fresh good.cycle_ids;
        identities =
            DistinctIdentities-append cycle db.cycles
              (find-differs id v.provider_cycle_key v.applicant_segment db.cycles free)
              good.identities;
        quiet =
            All-append (IsQuiet (update_row id_of id as_published db.scholarships)) db.cycles
              (cycle ∷ [])
              (All-map_of
                (λ c.
                  IsQuiet-update id as_published db.scholarships s c c (λ x. refl) row refl
                    (λ e. inl refl) (λ n. refl))
                db.cycles good.quiet)
              (inl (ap gone here), tt);
      }

  publish_checked-IsCatalogue :
      (checked : Result (Unit {0})) (cycle_id event_id : ℕ) (created_at : Instant) (id : ℕ)
      (v : CycleValues) (actor : Text) (db : Catalogue)
      → checked_publish id v db ≡ checked
      → All (λ c. c.cycle_id ≢ cycle_id) db.cycles
      → IsCatalogue db
      → IsCatalogue
          (publish_checked id_text published_key checked cycle_id event_id created_at id v actor
            db).0
  publish_checked-IsCatalogue (raise e) cycle_id event_id created_at id v actor db h fresh good =
      good
  publish_checked-IsCatalogue (ok done) cycle_id event_id created_at id v actor db h fresh good =
      let (s, row, live, free) = checked_publish_passed id v db h in
      insert_cycle-IsCatalogue cycle_id event_id created_at id v actor db s row free fresh good

  -- Publishing a cycle, whether it is accepted or refused, keeps the catalogue consistent.
  pub publish_cycle-IsCatalogue :
      (cycle_id event_id : ℕ) (created_at : Instant) (id : ℕ) (v : CycleValues) (actor : Text)
      (db : Catalogue)
      → All (λ c. c.cycle_id ≢ cycle_id) db.cycles
      → IsCatalogue db
      → IsCatalogue
          (publish_cycle id_text published_key cycle_id event_id created_at id v actor db).0
  unfolding publish_cycle
  publish_cycle-IsCatalogue cycle_id event_id created_at id v actor db fresh good =
      publish_checked-IsCatalogue (checked_publish id v db) cycle_id event_id created_at id v actor
        db refl fresh good

other_cycle :
    (cycle : ScholarshipCycle) (v : CycleValues) (d : ScholarshipCycle)
    → (same_identity cycle.scholarship_id v.provider_cycle_key v.applicant_segment d
        && not (d.cycle_id == cycle.cycle_id))
      ≡ false
    → (d.cycle_id ≡ cycle.cycle_id)
      ⊎ (identity d ≢ (cycle.scholarship_id, v.provider_cycle_key, v.applicant_segment))
other_cycle cycle v d h = elim (Bool-cases (d.cycle_id == cycle.cycle_id)) [
  | inl e ↦ inl ((==_iff d.cycle_id cycle.cycle_id).0 e)
  | inr e ↦
      inr (differs cycle.scholarship_id v.provider_cycle_key v.applicant_segment d (ground arith))
]

no_other :
    (cycle : ScholarshipCycle) (v : CycleValues) (t : List ScholarshipCycle)
    → is_some (
        find
          (λ c.
            same_identity cycle.scholarship_id v.provider_cycle_key v.applicant_segment c
            && not (c.cycle_id == cycle.cycle_id))
          t)
      ≡ false
    → All
        (λ d.
          (d.cycle_id ≡ cycle.cycle_id)
          ⊎ (identity d ≢ (cycle.scholarship_id, v.provider_cycle_key, v.applicant_segment)))
        t
no_other cycle v [] h = tt
no_other cycle v (d ∷ t) h =
    let test : Bool =
      same_identity cycle.scholarship_id v.provider_cycle_key v.applicant_segment d
      && not (d.cycle_id == cycle.cycle_id) in
    elim (Bool-cases test) [
      | inl e ↦ cc (rw e at h)
      | inr e ↦ (other_cycle cycle v d e, no_other cycle v t (rw e at h))
    ]

-- A cycle that keeps its triple is the only one with it.
keeps_triple :
    (cycle : ScholarshipCycle) (t : List ScholarshipCycle)
    → DistinctIdentities t
    → In cycle t
    → All (λ d. (d ≡ cycle) ⊎ (identity d ≢ identity cycle)) t
keeps_triple cycle [] h m = tt
keeps_triple cycle (d ∷ t) h (inl e) =
    (inl e, subst_all t (subst (λ x. All (λ y. identity y ≢ identity x) t) e h.0))
  where
    subst_all :
        (u : List ScholarshipCycle)
        → All (λ y. identity y ≢ identity cycle) u
        → All (λ y. (y ≡ cycle) ⊎ (identity y ≢ identity cycle)) u
    subst_all u g = All-map_of (λ y n. inr n) u g
keeps_triple cycle (d ∷ t) h (inr m) =
    (inr (λ p. All-In (λ y. identity y ≢ identity d) t h.0 m (sym p)), keeps_triple cycle t h.1 m)

-- Where nothing clashes, no other cycle has the new triple.
pub free_triple :
    (cycle : ScholarshipCycle) (v : CycleValues) (t : List ScholarshipCycle)
    → DistinctIdentities t
    → In cycle t
    → clashes cycle v t ≡ false
    → All
        (λ d.
          (d.cycle_id ≡ cycle.cycle_id)
          ⊎ (identity d ≢ (cycle.scholarship_id, v.provider_cycle_key, v.applicant_segment)))
        t
unfolding clashes
free_triple cycle v t h m n =
    let same : Bool =
      text_eq v.provider_cycle_key cycle.provider_cycle_key
      && text_eq v.applicant_segment cycle.applicant_segment in
    elim (Bool-cases same) [
      | inl e ↦
          let k : v.provider_cycle_key ≡ cycle.provider_cycle_key =
            eq_of_text_eq v.provider_cycle_key cycle.provider_cycle_key (ground arith) in
          let s : v.applicant_segment ≡ cycle.applicant_segment =
            eq_of_text_eq v.applicant_segment cycle.applicant_segment (ground arith) in
          rw (k, s)
            (All-map_of (λ d p. elim p [ inl q ↦ inl (ap cycle_key q) | inr q ↦ inr q ]) t
              (keeps_triple cycle t h m))
      | inr e ↦ no_other cycle v t (rw e at n)
    ]

module _ (id_text : ℕ → Text) where
  write_cycle-IsCatalogue :
      (cycle : ScholarshipCycle) (v : CycleValues) (changed : List Text) (actor : Text)
      (db : Catalogue) (s : Scholarship)
      → by_id cycle.scholarship_id db.scholarships ≡ some s
      → is_withdrawn s.lifecycle_state ≡ false
      → In cycle db.cycles
      → clashes cycle v db.cycles ≡ false
      → IsCatalogue db
      → IsCatalogue (write_cycle id_text cycle v changed actor db)
  write_cycle-IsCatalogue cycle v changed actor db s row live m n good =
      let triple : ℕ × Text × Text =
        (cycle.scholarship_id, v.provider_cycle_key, v.applicant_segment) in
      record {
        ids = good.ids;
        cycle_ids =
            DistinctKeys-update_row cycle_key cycle.cycle_id (set_values v) db.cycles (λ x. refl)
              good.cycle_ids;
        identities =
            DistinctIdentities-update cycle.cycle_id (set_values v) triple db.cycles good.cycle_ids
              (All-of_In (λ d. (d.cycle_id ≢ cycle.cycle_id) ⊎ (identity (set_values v d) ≡ triple))
                db.cycles
                (λ d k. elim (Bool-cases (d.cycle_id == cycle.cycle_id)) [
                  | inl e ↦ inr (
                      ap (λ x. identity (set_values v x))
                        (DistinctKeys-unique cycle_key d cycle db.cycles good.cycle_ids k m
                          ((==_iff d.cycle_id cycle.cycle_id).0 e)))
                  | inr e ↦ inl (λ p. cc (e, (==_iff d.cycle_id cycle.cycle_id).1 p))
                ]))
              (free_triple cycle v db.cycles good.identities m n) good.identities;
        quiet =
            All-update_row cycle_key (IsQuiet db.scholarships) cycle.cycle_id (set_values v)
              db.cycles
              (λ d k e q.
                let same : d ≡ cycle =
                  DistinctKeys-unique cycle_key d cycle db.cycles good.cycle_ids k m e in
                inl (
                  ap (λ x. gone (by_id x.scholarship_id db.scholarships)) same
                  ∙ ap gone row
                  ∙ live))
              good.quiet;
      }

  -- Correcting a cycle that was loaded for it, whether accepted or refused, keeps the catalogue consistent.
  pub update_cycle-IsCatalogue :
      (id cycle_id : ℕ) (cycle : ScholarshipCycle) (v : CycleValues) (changed : List Text)
      (actor : Text) (db : Catalogue)
      → load_cycle_for_update id cycle_id db ≡ ok cycle
      → IsCatalogue db
      → IsCatalogue (update_cycle id_text cycle v changed actor db).0
  unfolding update_cycle
  update_cycle-IsCatalogue id cycle_id cycle v changed actor db loaded good =
      let (s, row, live, m, same, parent) = load_passed id cycle_id db cycle loaded in
      elim (Bool-cases (clashes cycle v db.cycles)) [
        | inl e ↦ rw e good
        | inr e ↦ rw e (
            write_cycle-IsCatalogue cycle v changed actor db s
              (ap (λ x. by_id x db.scholarships) parent ∙ row) live m e good)
      ]
