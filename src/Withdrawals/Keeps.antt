-- ===== src/Withdrawals/Keeps.antt =====
-- The catalogue through a withdrawal.
use edufurthersf_be.Prelude.{
  ℕ, ◌≡◌, refl, sym, ap, inl, inr, String, true, false, Option, none, some, ==_iff, ◌==◌,
  Bool-cases,
}
use edufurthersf_be.Prelude.Text.{Text}
use edufurthersf_be.Status.{status_unknown}
use edufurthersf_be.Rows.{update_row}
use edufurthersf_be.Rows.Laws.{DistinctKeys-update_row}
use edufurthersf_be.Catalogue.{
  withdrawn, Scholarship, ScholarshipCycle, Catalogue, id_of, by_id, is_withdrawn,
}
use edufurthersf_be.Catalogue.Invariant.{identity, IsQuiet, IsCatalogue, IsQuiet-update}
use edufurthersf_be.Catalogue.Invariant.Mapped.{All-map, DistinctKeys-map, DistinctIdentities-map}
use edufurthersf_be.Withdrawals.{is_of, close_of, withdraw, withdraw_found, withdraw_scholarship}

abbrev as_withdrawn : Scholarship → Scholarship
as_withdrawn s = record s { lifecycle_state = withdrawn }

close_of-identity : (id : ℕ) (c : ScholarshipCycle) → identity (close_of id c) ≡ identity c
close_of-identity id c = elim (Bool-cases (is_of id c)) [ inl e ↦ rw e refl | inr e ↦ rw e refl ]

close_of-id : (id : ℕ) (c : ScholarshipCycle) → (close_of id c).cycle_id ≡ c.cycle_id
close_of-id id c = elim (Bool-cases (is_of id c)) [ inl e ↦ rw e refl | inr e ↦ rw e refl ]

close_of-unknown :
    (id : ℕ) (c : ScholarshipCycle)
    → (id == c.scholarship_id) ≡ true
    → (close_of id c).public_status ≡ status_unknown
close_of-unknown id c e =
    let hit : is_of id c ≡ true =
      (==_iff c.scholarship_id id).1 (sym ((==_iff id c.scholarship_id).0 e)) in
    rw hit refl

close_of-other :
    (id : ℕ) (c : ScholarshipCycle)
    → (id == c.scholarship_id) ≡ false
    → (close_of id c).public_status ≡ c.public_status
close_of-other id c n = elim (Bool-cases (is_of id c)) [
  | inl e ↦ cc (n, (==_iff id c.scholarship_id).1 (sym ((==_iff c.scholarship_id id).0 e)))
  | inr e ↦ rw e refl
]

module _ (id_text : ℕ → Text) (withdrawn_key : ℕ → String) where
  withdraw_found-IsCatalogue :
      (found : Option Scholarship) (event_id id : ℕ) (reason actor : Text) (db : Catalogue)
      → by_id id db.scholarships ≡ found
      → IsCatalogue db
      → IsCatalogue (withdraw_found id_text withdrawn_key found event_id id reason actor db).0
  unfolding withdraw_found withdraw
  withdraw_found-IsCatalogue none event_id id reason actor db row good = good
  withdraw_found-IsCatalogue (some s) event_id id reason actor db row good =
      elim (Bool-cases (is_withdrawn s.lifecycle_state)) [
        | inl y ↦ rw y good
        | inr k ↦ rw k (record {
          ids = DistinctKeys-update_row id_of id as_withdrawn db.scholarships (λ x. refl) good.ids;
          cycle_ids = DistinctKeys-map (close_of id) db.cycles (close_of-id id) good.cycle_ids;
          identities =
              DistinctIdentities-map (close_of id) db.cycles (close_of-identity id) good.identities;
          quiet =
              All-map (close_of id) (IsQuiet db.scholarships)
                (IsQuiet (update_row id_of id as_withdrawn db.scholarships)) db.cycles
                (λ c m.
                  IsQuiet-update id as_withdrawn db.scholarships s c (close_of id c) (λ x. refl) row
                    (ap (λ t. t.0) (close_of-identity id c)) (λ e. inr (close_of-unknown id c e))
                    (close_of-other id c))
                good.quiet;
        })
      ]

  -- A withdrawal, whether it is accepted or refused, keeps the catalogue consistent.
  pub withdraw_scholarship-IsCatalogue :
      (event_id id : ℕ) (reason actor : Text) (db : Catalogue)
      → IsCatalogue db
      → IsCatalogue (withdraw_scholarship id_text withdrawn_key event_id id reason actor db).0
  unfolding withdraw_scholarship
  withdraw_scholarship-IsCatalogue event_id id reason actor db good =
      withdraw_found-IsCatalogue (by_id id db.scholarships) event_id id reason actor db refl good
