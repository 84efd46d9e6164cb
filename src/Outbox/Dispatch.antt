-- ===== src/Outbox/Dispatch.antt =====
-- What one dispatch does to each event, and what it returns.
use edufurthersf_be.Prelude.{
  ℕ, ◌≡◌, ◌≢◌, ◌≤◌, ◌<◌, refl, inl, inr, String, eq_iff, Bool, true, false, Option, none, some, [],
  ◌∷◌, ◌++◌, map, length, arith, In, not, ◌&&◌, truthy, if◌then◌else◌, Option-cases, str_eq, Result,
  ok, raise, length-take-le, find-append_none,
}
use edufurthersf_be.Prelude.Text.{Text}
use edufurthersf_be.Json.{Dict}
use edufurthersf_be.Time.{Instant}
use edufurthersf_be.Rows.{select_where}
use edufurthersf_be.Rows.Laws.{DistinctKeys, DistinctKeys-select_where, select_where-In}
use edufurthersf_be.Rows.Each.{written, update_each_exact}
use edufurthersf_be.Outbox.{
  pending, OutboxEvent, Events, id_of, destination_analytics, by_key, new_event,
  enqueue_analytics_event, is_undelivered, claim_pending_events, mark_dispatched, mark_failed,
  Delivery, delivered, http_error, other_error, Counts, settle, has_key, dispatch_analytics_events,
}

-- The events of the batch are settled at once; no other event changes.
abbrev pub settled : Delivery → (ℕ → Instant) → Events → Events → Events
settled delivered clock batch t = map (written id_of (mark_dispatched clock) batch) t
settled (http_error error) clock batch t = map (written id_of (mark_failed error) batch) t
settled (other_error e) clock batch t = t

abbrev pub counted : Delivery → ℕ → Result Counts
counted delivered n = ok (record { held = 0; dispatched = n; failed = none })
counted (http_error error) n = ok (record { held = 0; dispatched = 0; failed = some n })
counted (other_error e) n = raise e

-- What a dispatch of a batch is to do: without the gate and a key it holds every event; otherwise
-- it settles the batch as the delivery ended, if there is one.
abbrev pub dispatched_as :
    Bool → Delivery → (ℕ → Instant) → Events → Events → Events × Result Counts
dispatched_as false outcome clock batch t =
    (t, ok (record { held = length batch; dispatched = 0; failed = none }))
dispatched_as true outcome clock [] t = (t, ok (record { held = 0; dispatched = 0; failed = none }))
dispatched_as true outcome clock (e ∷ batch) t =
    (settled outcome clock (e ∷ batch) t, counted outcome (length (e ∷ batch)))

settle_exact :
    (outcome : Delivery) (clock : ℕ → Instant) (batch t : Events)
    → DistinctKeys id_of batch
    → settle outcome clock batch t ≡ (settled outcome clock batch t, counted outcome (length batch))
unfolding settle
settle_exact delivered clock batch t d =
    rw (update_each_exact id_of (mark_dispatched clock) batch t (λ e. refl) d)
settle_exact (http_error error) clock batch t d =
    rw (update_each_exact id_of (mark_failed error) batch t (λ e. refl) d)
settle_exact (other_error e) clock batch t d = refl

gate_exact :
    (gate : Bool) (outcome : Delivery) (clock : ℕ → Instant) (batch t : Events)
    → DistinctKeys id_of batch
    → (if not gate
        then (t, ok (record { held = length batch; dispatched = 0; failed = none }))
        else if not (truthy batch)
        then (t, ok (record { held = 0; dispatched = 0; failed = none }))
        else settle outcome clock batch t)
      ≡ dispatched_as gate outcome clock batch t
gate_exact false outcome clock batch t d = refl
gate_exact true outcome clock [] t d = refl
gate_exact true outcome clock (e ∷ batch) t d = settle_exact outcome clock (e ∷ batch) t d

-- A dispatch settles exactly the claimed batch, each event once and as the delivery ended, leaves
-- every other event as it is, and returns how many it held, dispatched or failed; without the gate
-- and a key it changes nothing.
pub dispatch_exact :
    (active : Bool) (api_key : Option Text) (outcome : Delivery) (clock : ℕ → Instant)
    (locked : ℕ → Bool) (limit : ℕ) (t : Events)
    → DistinctKeys id_of t
    → dispatch_analytics_events active api_key outcome clock locked limit t
      ≡ dispatched_as
          (active && has_key api_key)
          outcome
          clock
          (claim_pending_events destination_analytics locked limit t)
          t
unfolding dispatch_analytics_events claim_pending_events
dispatch_exact active api_key outcome clock locked limit t d =
    gate_exact (active && has_key api_key) outcome clock
      (select_where id_of (is_undelivered destination_analytics) locked limit t) t
      (DistinctKeys-select_where id_of (is_undelivered destination_analytics) locked limit t d)

-- A claimed batch has at most `limit` events, and each is a pending event for this destination
-- that failed fewer than five times and that no other session has locked.
pub claim_bounded :
    (destination : String) (locked : ℕ → Bool) (limit : ℕ) (t : Events) (e : OutboxEvent)
    → In e (claim_pending_events destination locked limit t)
    → (length (claim_pending_events destination locked limit t) ≤ limit)
      × In e t
      × (e.destination ≡ destination)
      × (e.state ≡ pending)
      × (e.attempts < 5)
      × (locked e.event_id ≡ false)
unfolding claim_pending_events select_where
claim_bounded destination locked limit t e m =
    let (k, u, l) = select_where-In id_of (is_undelivered destination) locked limit e t m in
    (
      length-take-le limit _,
      k,
      (eq_iff e.destination destination).0 (ground arith),
      ground arith,
      ground arith,
      l,
    )

-- Once an event was enqueued, an event with its key is stored, and a second delivery of the same
-- key changes nothing.
pub enqueue_event_once :
    (first second : ℕ) (event_type other_type dedupe_key : String) (payload other : Dict)
    (t : Events)
    → let u = enqueue_analytics_event first event_type dedupe_key payload t in
      (by_key dedupe_key u ≢ none)
      × (enqueue_analytics_event second other_type dedupe_key other u ≡ u)
unfolding enqueue_analytics_event
enqueue_event_once first second event_type other_type dedupe_key payload other t =
    elim (Option-cases (by_key dedupe_key t)) [
      | inl e ↦
          let new = new_event first event_type dedupe_key payload in
          let self : str_eq dedupe_key dedupe_key ≡ true = (eq_iff dedupe_key dedupe_key).1 refl in
          let hit : by_key dedupe_key (t ++ new ∷ []) ≡ some new =
            rw (find-append_none (λ e. str_eq e.dedupe_key dedupe_key) t (new ∷ []) e, self) in
          rw (e, hit) ((λ n. cc), refl)
      | inr (k, e) ↦ rw (e, e) ((λ n. cc), refl)
    ]
