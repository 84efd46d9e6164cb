-- ===== src/Linking/Outcome.antt =====
-- What linking decides, and what it leaves in the queue.
use edufurthersf_be.Prelude.{
  ℕ, ◌≤◌, ◌<◌, ◌≡◌, ◌≢◌, refl, sym, ap, subst, inl, inr, String, Bool, true, false, Option, none,
  some, List, [], ◌∷◌, arith, ◌==◌, ==_iff, find, keep, length, In, keep-In, if◌then◌else◌,
  Option-cases, is_some, truthy, ok, ok-injective, find-In,
}
use mathlib.Core.Option.{some-injective}
use edufurthersf_be.Prelude.Text.{Text, eq_of_text_eq}
use edufurthersf_be.Rows.{order_by}
use edufurthersf_be.Rows.Laws.{In-order_by}
use edufurthersf_be.Linking.{
  LinkOutcome, linked, new_candidate, needs_review, duplicate_pending, decide_link, Discovery,
  Database, key_of, is_live, live_task, is_original, same_key, first_id, find_original, title_of,
  apply_decision, link_row, link_found, link_discovery,
}
use edufurthersf_be.Linking.Queue.{add-live, add-one_live}

-- The outcomes that need a reviewer.
abbrev pub IsQueued : LinkOutcome → Type 0
IsQueued new_candidate = Unit
IsQueued needs_review = Unit
IsQueued linked = ⊥
IsQueued duplicate_pending = ⊥

-- What makes `d` a repeat of `e`: an earlier discovery of another page with the same key, which is not
-- a duplicate itself.
pub record IsRepeatOf (d e : Discovery) : Type 0 where
  pub key : (k : Text) × (d.normalized_identity_key ≡ some k) × (e.normalized_identity_key ≡ some k)
  pub page : e.source_page_id ≢ d.source_page_id
  pub root : e.duplicate_of_discovery_id ≡ none
  pub earlier : e.discovery_id < d.discovery_id

same_key-eq : (k : Text) (o : Option Text) → same_key k o ≡ true → o ≡ some k
same_key-eq k none h = cc
same_key-eq k (some j) h = ap some (eq_of_text_eq j k h)

not_some : (o : Option ℕ) → is_some o ≡ false → o ≡ none
not_some none h = refl
not_some (some n) h = cc

first_id-In :
    (rows : List Discovery) {id : ℕ}
    → first_id rows ≡ some id
    → (e : Discovery) × In e rows × (e.discovery_id ≡ id)
first_id-In [] h = cc
first_id-In (e ∷ rows) {id} h = (e, inl refl, some-injective e.discovery_id id h)

original_of :
    (d : Discovery) (k : Text) (e : Discovery)
    → d.normalized_identity_key ≡ some k
    → is_original k d e ≡ true
    → IsRepeatOf d e
original_of d k e key h = record {
  key = (k, key, same_key-eq k e.normalized_identity_key (ground arith));
  page = λ p. ground arith;
  root = not_some e.duplicate_of_discovery_id (ground arith);
  earlier = ground arith;
}

-- A discovery is taken for a duplicate only of an earlier discovery of another page with the same
-- identity key that is not a duplicate itself.
pub original_exact :
    (d : Discovery) (rows : List Discovery) (id : ℕ)
    → find_original d rows ≡ some id
    → (e : Discovery) × In e rows × (e.discovery_id ≡ id) × IsRepeatOf d e
unfolding find_original
original_exact d rows id h = elim (Option-cases d.normalized_identity_key) [
  | inl n ↦ cc (rw n at h)
  | inr (k, e) ↦
      let (first, full) =
        keyed k (first_id (order_by key_of (keep (is_original k d) rows))) (rw e at h) in
      let (x, m, same) = first_id-In (order_by key_of (keep (is_original k d) rows)) full in
      let (there, test) =
        keep-In (is_original k d) x rows (In-order_by key_of x (keep (is_original k d) rows) m) in
      (x, there, same, original_of d k x e test)
]
  where
    keyed :
        (k : Text) (o : Option ℕ)
        → (if truthy k then o else none) ≡ some id
        → (truthy k ≡ true) × (o ≡ some id)
    keyed k o g = ground arith

module _ (id_text : ℕ → Text) (prepare_key : ℕ → String) (candidates : Text → List ℕ)
    (authority_grade : ℕ → Option Text) (extract : Bool → Discovery → Discovery) where
  decision-queued :
      (scholarships : List ℕ) (task_id job_id : ℕ) (d : Discovery) (db : Database)
      (outcome : LinkOutcome)
      → (decide_link scholarships).outcome ≡ outcome
      → IsQueued outcome
      → live_task d.discovery_id
          (apply_decision id_text prepare_key candidates authority_grade extract
            (decide_link scholarships)
            task_id
            job_id
            d
            db).tasks
        ≢ none
  decision-queued [] task_id job_id d db outcome h q =
      add-live id_text prepare_key task_id job_id d.discovery_id _ _ _
  decision-queued (s ∷ []) task_id job_id d db outcome h q = absurd (subst IsQueued (sym h) q)
  decision-queued (s ∷ r ∷ rest) task_id job_id d db outcome h q =
      add-live id_text prepare_key task_id job_id d.discovery_id _ _ _

  row-queued :
      (original : Option ℕ) (task_id job_id : ℕ) (d : Discovery) (db : Database)
      (outcome : LinkOutcome)
      → (link_row id_text prepare_key candidates authority_grade extract original task_id job_id d
          db).1
        ≡ ok outcome
      → IsQueued outcome
      → live_task d.discovery_id
          (link_row id_text prepare_key candidates authority_grade extract original task_id job_id d
            db).0.tasks
        ≢ none
  row-queued (some o) task_id job_id d db outcome h q =
      absurd (subst IsQueued (sym (ok-injective h)) q)
  row-queued none task_id job_id d db outcome h q =
      decision-queued (candidates (title_of d)) task_id job_id d db outcome (ok-injective h) q

  found-queued :
      (found : Option Discovery) (discovery_id task_id job_id : ℕ) (db : Database)
      (outcome : LinkOutcome)
      → find (λ d. d.discovery_id == discovery_id) db.discoveries ≡ found
      → (link_found id_text prepare_key candidates authority_grade extract found task_id job_id
          db).1
        ≡ ok outcome
      → IsQueued outcome
      → live_task discovery_id
          (link_found id_text prepare_key candidates authority_grade extract found task_id job_id
            db).0.tasks
        ≢ none
  found-queued none discovery_id task_id job_id db outcome e h q = cc
  found-queued (some d) discovery_id task_id job_id db outcome e h q =
      let (m, same) = find-In (λ x. x.discovery_id == discovery_id) db.discoveries e in
      let original = find_original d db.discoveries in
      subst
        (λ id.
          live_task id
            (link_row id_text prepare_key candidates authority_grade extract original task_id job_id
              d db).0.tasks
          ≢ none)
        ((==_iff d.discovery_id discovery_id).0 same)
        (row-queued original task_id job_id d db outcome h q)

  -- Where linking returns that a discovery is a new candidate or needs a review, the queue holds a
  -- live task for it.
  pub link_queues :
      (discovery_id task_id job_id : ℕ) (db : Database) (outcome : LinkOutcome)
      → (link_discovery id_text prepare_key candidates authority_grade extract discovery_id task_id
          job_id db).1
        ≡ ok outcome
      → IsQueued outcome
      → live_task discovery_id
          (link_discovery id_text prepare_key candidates authority_grade extract discovery_id
            task_id job_id db).0.tasks
        ≢ none
  unfolding link_discovery
  link_queues discovery_id task_id job_id db outcome h q =
      found-queued (find (λ d. d.discovery_id == discovery_id) db.discoveries) discovery_id task_id
        job_id db outcome refl h q

  decision-one_live :
      (other : ℕ) (scholarships : List ℕ) (task_id job_id : ℕ) (d : Discovery) (db : Database)
      → length (keep (is_live other) db.tasks) ≤ 1
      → length (
          keep
            (is_live other)
            (apply_decision id_text prepare_key candidates authority_grade extract
              (decide_link scholarships)
              task_id
              job_id
              d
              db).tasks)
        ≤ 1
  decision-one_live other [] task_id job_id d db h =
      add-one_live id_text prepare_key other task_id job_id d.discovery_id _ _ _ h
  decision-one_live other (s ∷ []) task_id job_id d db h = h
  decision-one_live other (s ∷ r ∷ rest) task_id job_id d db h =
      add-one_live id_text prepare_key other task_id job_id d.discovery_id _ _ _ h

  row-one_live :
      (other : ℕ) (original : Option ℕ) (task_id job_id : ℕ) (d : Discovery) (db : Database)
      → length (keep (is_live other) db.tasks) ≤ 1
      → length (
          keep
            (is_live other)
            (link_row id_text prepare_key candidates authority_grade extract original task_id job_id
              d db).0.tasks)
        ≤ 1
  row-one_live other (some o) task_id job_id d db h = h
  row-one_live other none task_id job_id d db h =
      decision-one_live other (candidates (title_of d)) task_id job_id d db h

  found-one_live :
      (other : ℕ) (found : Option Discovery) (task_id job_id : ℕ) (db : Database)
      → length (keep (is_live other) db.tasks) ≤ 1
      → length (
          keep
            (is_live other)
            (link_found id_text prepare_key candidates authority_grade extract found task_id job_id
              db).0.tasks)
        ≤ 1
  found-one_live other none task_id job_id db h = h
  found-one_live other (some d) task_id job_id db h =
      row-one_live other (find_original d db.discoveries) task_id job_id d db h

  -- Linking any discovery keeps at most one live task for each discovery.
  pub link-one_live :
      (other discovery_id task_id job_id : ℕ) (db : Database)
      → length (keep (is_live other) db.tasks) ≤ 1
      → length (
          keep
            (is_live other)
            (link_discovery id_text prepare_key candidates authority_grade extract discovery_id
              task_id job_id db).0.tasks)
        ≤ 1
  unfolding link_discovery
  link-one_live other discovery_id task_id job_id db h =
      found-one_live other (find (λ d. d.discovery_id == discovery_id) db.discoveries) task_id
        job_id db h
