-- ===== src/Withdrawals/Hidden.antt =====
-- What a withdrawal does to the cycles of the record, and to all others.
use edufurthersf_be.Prelude.{
  ℕ, ◌≡◌, ◌≢◌, refl, sym, ap, ◌⊎◌, inl, inr, String, false, not, Option, none, some, List, [], ◌∷◌,
  map, keep, length, All, Bool-cases, ok, raise, ok-injective, value_error,
}
use edufurthersf_be.Prelude.Text.{Text}
use edufurthersf_be.Status.{status_unknown}
use edufurthersf_be.Json.{int, pos, str}
use edufurthersf_be.Rows.Laws.{find-update_row}
use edufurthersf_be.Outbox.{enqueue_analytics_event}
use edufurthersf_be.Outbox.Dispatch.{enqueue_event_once}
use edufurthersf_be.Outbox
use edufurthersf_be.Catalogue.{
  withdrawn, Scholarship, ScholarshipCycle, Catalogue, id_of, by_id, is_withdrawn,
}
use edufurthersf_be.Withdrawals.{is_of, close_of, withdraw, withdraw_found, withdraw_scholarship}

-- The cycle belongs to another record, or asserts nothing.
abbrev pub Silent : ℕ → ScholarshipCycle → Type 0
Silent id c =
    (is_of id c ≡ false) ⊎ ((c.public_status ≡ status_unknown) × (c.status_valid_until ≡ none))

abbrev pub others : ℕ → List ScholarshipCycle → List ScholarshipCycle
others id cycles = keep (λ c. not (is_of id c)) cycles

close_of-Silent :
    (id : ℕ) (cycles : List ScholarshipCycle) → All (Silent id) (map (close_of id) cycles)
close_of-Silent id [] = tt
close_of-Silent id (c ∷ cycles) = elim (Bool-cases (is_of id c)) [
  | inl e ↦ rw e (inr (refl, refl), close_of-Silent id cycles)
  | inr e ↦ rw e (inl e, close_of-Silent id cycles)
]

others-close_of :
    (id : ℕ) (cycles : List ScholarshipCycle)
    → others id (map (close_of id) cycles) ≡ others id cycles
others-close_of id [] = refl
others-close_of id (c ∷ cycles) = elim (Bool-cases (is_of id c)) [
  | inl e ↦ rw (e, e) (others-close_of id cycles)
  | inr e ↦ rw (e, e) (ap (λ r. c ∷ r) (others-close_of id cycles))
]

abbrev as_withdrawn : Scholarship → Scholarship
as_withdrawn s = record s { lifecycle_state = withdrawn }

-- What a withdrawal leaves: the record is withdrawn, its cycles assert nothing, every other cycle
-- is as it was, the event is stored, and the number of its cycles is returned.
pub record IsWithdrawal (key : String) (id : ℕ) (db u : Catalogue) (n : ℕ) : Type 0 where
  pub withdrawn_record :
      (s : Scholarship) × (by_id id u.scholarships ≡ some s) × (s.lifecycle_state ≡ withdrawn)
  pub silent : All (Silent id) u.cycles
  pub rest : others id u.cycles ≡ others id db.cycles
  pub announced : Outbox.by_key key u.events ≢ none
  pub count : n ≡ length (keep (is_of id) db.cycles)

module _ (id_text : ℕ → Text) (withdrawn_key : ℕ → String) where
  found-IsWithdrawal :
      (found : Option Scholarship) (event_id id : ℕ) (reason actor : Text) (db : Catalogue) (n : ℕ)
      → by_id id db.scholarships ≡ found
      → (withdraw_found id_text withdrawn_key found event_id id reason actor db).1 ≡ ok n
      → IsWithdrawal
          (withdrawn_key id)
          id
          db
          (withdraw_found id_text withdrawn_key found event_id id reason actor db).0
          n
  unfolding withdraw_found withdraw
  found-IsWithdrawal none event_id id reason actor db n e h = cc
  found-IsWithdrawal (some s) event_id id reason actor db n e h =
      elim (Bool-cases (is_withdrawn s.lifecycle_state)) [
        | inl y ↦ cc (rw y at h)
        | inr k ↦ rw k (record {
          withdrawn_record = (
            as_withdrawn s,
            find-update_row id_of id as_withdrawn db.scholarships (λ x. refl) e,
            refl,
          );
          silent = close_of-Silent id db.cycles;
          rest = others-close_of id db.cycles;
          announced =
              (enqueue_event_once event_id event_id "scholarship_withdrawn" "" (withdrawn_key id)
                (("scholarship_id", str (id_text id))
                  ∷ ("cycles", int (pos (length (keep (is_of id) db.cycles))))
                  ∷ [])
                [] db.events).0;
          count = sym (ok-injective (rw k at h));
        })
      ]

  refused :
      (found : Option Scholarship) (event_id id : ℕ) (reason actor : Text) (u : Catalogue)
      (s : Scholarship)
      → found ≡ some s
      → s.lifecycle_state ≡ withdrawn
      → withdraw_found id_text withdrawn_key found event_id id reason actor u
        ≡ (u, raise (value_error "Scholarship is already withdrawn"))
  unfolding withdraw_found
  refused none event_id id reason actor u s e w = cc
  refused (some x) event_id id reason actor u s e w =
      let same : x.lifecycle_state ≡ withdrawn = cc in rw same

  -- A withdrawal that returns leaves the record withdrawn, makes each of its cycles assert nothing,
  -- leaves the cycles of all other records as they were, has its event stored and returns how many
  -- cycles it closed; a second withdrawal raises ValueError and changes nothing.
  pub withdrawn_once :
      (event_id other_id id : ℕ) (reason actor other_reason other_actor : Text) (db : Catalogue)
      (n : ℕ)
      → (withdraw_scholarship id_text withdrawn_key event_id id reason actor db).1 ≡ ok n
      → let u = (withdraw_scholarship id_text withdrawn_key event_id id reason actor db).0 in
        IsWithdrawal (withdrawn_key id) id db u n
        × (withdraw_scholarship id_text withdrawn_key other_id id other_reason other_actor u
            ≡ (u, raise (value_error "Scholarship is already withdrawn")))
  unfolding withdraw_scholarship
  withdrawn_once event_id other_id id reason actor other_reason other_actor db n h =
      let u =
        (withdraw_found id_text withdrawn_key (by_id id db.scholarships) event_id id reason actor
          db).0 in
      let made =
        found-IsWithdrawal (by_id id db.scholarships) event_id id reason actor db n refl h in
      let (s, e, w) = made.withdrawn_record in
      (made, refused (by_id id u.scholarships) other_id id other_reason other_actor u s e w)
