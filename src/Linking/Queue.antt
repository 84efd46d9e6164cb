-- ===== src/Linking/Queue.antt =====
-- The live tasks of a discovery in the review queue.
use edufurthersf_be.Prelude.{
  ℕ, ◌+◌, ◌≤◌, ◌≡◌, ◌≢◌, refl, subst, inl, inr, String, Bool, true, false, none, some, List, [],
  ◌∷◌, ◌++◌, arith, ◌==◌, ==_refl, ==_iff, find, keep, length, Option-cases, find-append_none,
  Bool-cases,
}
use edufurthersf_be.Prelude.Text.{Text}
use edufurthersf_be.Linking.{
  ReviewTask, Database, is_live, live_task, new_task, insert_task, add_review_task_once,
}

live_new_task :
    (task_id id : ℕ) (reason : String) (priority : ℕ)
    → is_live id (new_task task_id id reason priority) ≡ true
live_new_task task_id id reason priority = rw (==_refl id)

-- Where no row passes a test, none is kept.
pub keep-none :
    (p : ReviewTask → Bool) (t : List ReviewTask) → find p t ≡ none → length (keep p t) ≡ 0
keep-none p [] h = refl
keep-none p (x ∷ t) h = ground (arith, keep-none p t)

pub length-keep-append :
    (p : ReviewTask → Bool) (t : List ReviewTask) (x : ReviewTask)
    → length (keep p (t ++ x ∷ [])) ≤ length (keep p t) + 1
length-keep-append p [] x = ground arith
length-keep-append p (y ∷ t) x = ground (arith, length-keep-append p t x)

pub length-keep-other :
    (p : ReviewTask → Bool) (t : List ReviewTask) (x : ReviewTask)
    → p x ≡ false
    → length (keep p (t ++ x ∷ [])) ≡ length (keep p t)
length-keep-other p [] x h = ground arith
length-keep-other p (y ∷ t) x h = ground (arith, length-keep-other p t x)

other_live :
    (task_id a b : ℕ) (reason : String) (priority : ℕ)
    → (a == b) ≡ false
    → is_live b (new_task task_id a reason priority) ≡ false
other_live task_id a b reason priority h = rw h

inserted :
    (other task_id id : ℕ) (reason : String) (priority : ℕ) (tasks : List ReviewTask)
    → live_task id tasks ≡ none
    → length (keep (is_live other) tasks) ≤ 1
    → length (keep (is_live other) (tasks ++ new_task task_id id reason priority ∷ [])) ≤ 1
inserted other task_id id reason priority tasks e h =
    let task = new_task task_id id reason priority in
    elim (Bool-cases (id == other)) [
      | inl y ↦
          let same : id ≡ other = (==_iff id other).0 y in
          let empty : length (keep (is_live other) tasks) ≡ 0 =
            subst (λ n. length (keep (is_live n) tasks) ≡ 0) same
              (keep-none (is_live id) tasks e) in
          omega (arith, length-keep-append (is_live other) tasks task)
      | inr n ↦ omega (
        arith,
        length-keep-other (is_live other) tasks task
            (other_live task_id id other reason priority n),
      )
    ]

module _ (id_text : ℕ → Text) (prepare_key : ℕ → String) where
  find_new :
      (p : ReviewTask → Bool) (t : List ReviewTask) (x : ReviewTask)
      → find p t ≡ none
      → p x ≡ true
      → find p (t ++ x ∷ []) ≡ some x
  find_new p t x e h = rw (find-append_none p t (x ∷ []) e, h)

  kept :
      (task_id job_id id : ℕ) (reason : String) (priority : ℕ) (db : Database) (task : ReviewTask)
      → live_task id db.tasks ≡ some task
      → add_review_task_once id_text prepare_key task_id job_id id reason priority db ≡ db
  unfolding add_review_task_once insert_task
  kept task_id job_id id reason priority db task e = rw e

  pub add-live :
      (task_id job_id id : ℕ) (reason : String) (priority : ℕ) (db : Database)
      → live_task id
          (add_review_task_once id_text prepare_key task_id job_id id reason priority db).tasks
        ≢ none
  unfolding add_review_task_once insert_task
  add-live task_id job_id id reason priority db = elim (Option-cases (live_task id db.tasks)) [
    | inl e ↦
        let task = new_task task_id id reason priority in
        let hit =
          find_new (is_live id) db.tasks task e (live_new_task task_id id reason priority) in
        rw (e, hit) (λ n. cc)
    | inr (task, e) ↦ rw (e, e) (λ n. cc)
  ]

  -- Once a discovery was queued it has a live task, and queueing it again, for whatever reason and
  -- with whatever priority, changes neither the tasks nor the jobs.
  pub queued_once :
      (task_id job_id other_task other_job id : ℕ) (reason other_reason : String)
      (priority other_priority : ℕ) (db : Database)
      → let u = add_review_task_once id_text prepare_key task_id job_id id reason priority db in
        (live_task id u.tasks ≢ none)
        × (add_review_task_once id_text prepare_key other_task other_job id other_reason
              other_priority u
            ≡ u)
  queued_once task_id job_id other_task other_job id reason other_reason priority other_priority
        db =
      let live = add-live task_id job_id id reason priority db in
      (live, unchanged other_task other_job id other_reason other_priority _ live)
    where
      unchanged :
          (t j i : ℕ) (r : String) (p : ℕ) (u : Database)
          → live_task i u.tasks ≢ none
          → add_review_task_once id_text prepare_key t j i r p u ≡ u
      unchanged t j i r p u live = elim (Option-cases (live_task i u.tasks)) [
        | inl e ↦ absurd (live e)
        | inr (task, e) ↦ kept t j i r p u task e
      ]

  pub add-one_live :
      (other task_id job_id id : ℕ) (reason : String) (priority : ℕ) (db : Database)
      → length (keep (is_live other) db.tasks) ≤ 1
      → length (
          keep
            (is_live other)
            (add_review_task_once id_text prepare_key task_id job_id id reason priority db).tasks)
        ≤ 1
  unfolding add_review_task_once insert_task
  add-one_live other task_id job_id id reason priority db h =
      elim (Option-cases (live_task id db.tasks)) [
        | inl e ↦ rw e (inserted other task_id id reason priority db.tasks e h)
        | inr (task, e) ↦ rw e h
      ]
