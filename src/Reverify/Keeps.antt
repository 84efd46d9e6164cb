-- ===== src/Reverify/Keeps.antt =====
-- The catalogue and the review queue through a re-verification.
use edufurthersf_be.Prelude.{
  ℕ, ◌≡◌, ◌≢◌, ◌≤◌, refl, sym, ap, ◌∙◌, subst, ◌⊎◌, inl, inr, String, true, false, Option, none,
  some, List, [], ◌∷◌, arith, ◌==◌, ==_iff, find, keep, length, In, All, All-of_In, Bool-cases,
  All-In,
}
use edufurthersf_be.Json.{Dict}
use edufurthersf_be.Rows.{update_row, update_each}
use edufurthersf_be.Rows.Laws.{All-update_row}
use edufurthersf_be.Rows.Each.{DistinctKeys-unique}
use edufurthersf_be.Catalogue.{
  Scholarship, ScholarshipCycle, Catalogue, cycle_key, by_id, is_public, is_published, is_withdrawn,
  published, withdrawn, discovered, needs_review,
}
use edufurthersf_be.Catalogue.Invariant.{identity, gone, IsCatalogue}
use edufurthersf_be.Catalogue.Invariant.Mapped.{IsCatalogue-update_each}
use edufurthersf_be.Linking.{ReviewTask}
use edufurthersf_be.Linking.Queue.{keep-none, length-keep-append, length-keep-other}
use edufurthersf_be.Pages.{Site}
use edufurthersf_be.Reverify.{is_live_for, cycle_task, insert_unless_live}
use edufurthersf_be.Reverify.Steps.{KeepsIdentity, Stable}

abbrev pub Lives : Catalogue → ScholarshipCycle → Type 0
Lives db c = gone (by_id c.scholarship_id db.scholarships) ≡ false

-- The catalogue is consistent, and the scholarship of the cycle was not withdrawn.
pub record Kept (cycle_id : ℕ) (db : Catalogue) : Type 0 where
  pub good : IsCatalogue db
  pub live : All (λ c. (c.cycle_id ≢ cycle_id) ⊎ Lives db c) db.cycles

same-Lives :
    (db : Catalogue) (c d : ScholarshipCycle) → identity d ≡ identity c → Lives db c → Lives db d
same-Lives db c d same h = ap (λ t. gone (by_id t.0 db.scholarships)) same ∙ h

Kept-update :
    (cycle : ScholarshipCycle) (f : ScholarshipCycle → ScholarshipCycle) (db : Catalogue)
    → KeepsIdentity f
    → Kept cycle.cycle_id db
    → Kept cycle.cycle_id (record db { cycles = update_row cycle_key cycle.cycle_id f db.cycles })
unfolding update_each
Kept-update cycle f db keeps kept = record {
  good =
      IsCatalogue-update_each f (cycle ∷ []) db keeps.same_id keeps.same (tt, tt)
        (λ c m e q. inl (
          same-Lives db c (f c) (keeps.same c) (
            own c ((==_iff cycle.cycle_id c.cycle_id).0 (ground arith))
              (All-In (λ c. (c.cycle_id ≢ cycle.cycle_id) ⊎ Lives db c) db.cycles kept.live m))))
        kept.good;
  live =
      All-update_row cycle_key (λ c. (c.cycle_id ≢ cycle.cycle_id) ⊎ Lives db c) cycle.cycle_id f
        db.cycles (λ c m e q. inr (same-Lives db c (f c) (keeps.same c) (own c (sym e) q)))
        kept.live;
}
  where
    own :
        (c : ScholarshipCycle)
        → cycle.cycle_id ≡ c.cycle_id
        → (c.cycle_id ≢ cycle.cycle_id) ⊎ Lives db c
        → Lives db c
    own c e (inl n) = absurd (n (sym e))
    own c e (inr h) = h

pub Kept-Stable :
    (cycle : ScholarshipCycle) → Stable cycle.cycle_id (λ s. Kept cycle.cycle_id s.catalogue)
Kept-Stable cycle = record {
  pages = λ s pages snapshots usage h. h;
  cycle = λ s f keeps h. Kept-update cycle f s.catalogue keeps h;
  task = λ s task_id reason draft h. h;
}

published-Lives :
    (found : Option Scholarship)
    → (elim found [ none ↦ false | some s ↦ is_published s.lifecycle_state ]) ≡ true
    → gone found ≡ false
published-Lives none h = refl
published-Lives (some s) h = by_state s.lifecycle_state h
  where
    by_state : (t : _) → is_published t ≡ true → is_withdrawn t ≡ false
    by_state published h = refl
    by_state discovered h = cc
    by_state needs_review h = cc
    by_state withdrawn h = cc

-- A cycle that is public belongs to a scholarship that was not withdrawn.
pub Kept-public :
    (cycle : ScholarshipCycle) (db : Catalogue)
    → IsCatalogue db
    → In cycle db.cycles
    → is_public db.scholarships cycle ≡ true
    → Kept cycle.cycle_id db
Kept-public cycle db good m visible = record {
  good = good;
  live =
      All-of_In (λ c. (c.cycle_id ≢ cycle.cycle_id) ⊎ Lives db c) db.cycles
        (λ c k. elim (Bool-cases (c.cycle_id == cycle.cycle_id)) [
          | inl e ↦
              let same : c ≡ cycle =
                DistinctKeys-unique cycle_key c cycle db.cycles good.cycle_ids k m
                  ((==_iff c.cycle_id cycle.cycle_id).0 e) in
              inr (
                subst (Lives db) (sym same)
                  (published-Lives (by_id cycle.scholarship_id db.scholarships) visible))
          | inr e ↦ inl (λ p. cc (e, (==_iff c.cycle_id cycle.cycle_id).1 p))
        ]);
}

-- No cycle has two live tasks.
abbrev pub OneTaskEach : Site → Type 0
OneTaskEach s = (id : ℕ) → length (keep (is_live_for id) s.tasks) ≤ 1

one-task :
    (found : Option ReviewTask) (task_id cycle_id : ℕ) (reason : String) (draft : Dict)
    (tasks : List ReviewTask) (id : ℕ)
    → find (is_live_for cycle_id) tasks ≡ found
    → length (keep (is_live_for id) tasks) ≤ 1
    → length (
        keep
          (is_live_for id)
          (insert_unless_live found (cycle_task task_id cycle_id reason draft) tasks))
      ≤ 1
one-task (some live) task_id cycle_id reason draft tasks id e h = h
one-task none task_id cycle_id reason draft tasks id e h =
    let task = cycle_task task_id cycle_id reason draft in
    elim (Bool-cases (cycle_id == id)) [
      | inl y ↦
          let same : cycle_id ≡ id = (==_iff cycle_id id).0 y in
          let empty : length (keep (is_live_for id) tasks) ≡ 0 =
            subst (λ n. length (keep (is_live_for n) tasks) ≡ 0) same
              (keep-none (is_live_for cycle_id) tasks e) in
          omega (arith, length-keep-append (is_live_for id) tasks task)
      | inr n ↦
          let other : is_live_for id task ≡ false = rw n refl in
          omega (arith, length-keep-other (is_live_for id) tasks task other)
    ]

pub OneTaskEach-Stable : (cycle_id : ℕ) → Stable cycle_id OneTaskEach
OneTaskEach-Stable cycle_id = record {
  pages = λ s pages snapshots usage h. h;
  cycle = λ s f keeps h. h;
  task = λ s task_id reason draft h id.
      one-task (find (is_live_for cycle_id) s.tasks) task_id cycle_id reason draft s.tasks id refl
        (h id);
}
