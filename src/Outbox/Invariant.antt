-- ===== src/Outbox/Invariant.antt =====
-- What holds of the outbox after any events were enqueued and dispatched.
use edufurthersf_be.Prelude.{
  ℕ, ◌≡◌, ◌≢◌, ◌<◌, refl, inl, inr, String, Bool, true, Option, none, [], ◌∷◌, arith, All,
  All-append, Option-cases, is_some, ◌&&◌, truthy, Bool-cases,
}
use edufurthersf_be.Prelude.Text.{Text}
use edufurthersf_be.Json.{Dict}
use edufurthersf_be.Time.{Instant}
use edufurthersf_be.Rows.{update_each}
use edufurthersf_be.Rows.Laws.{DistinctKeys, DistinctKeys-append}
use edufurthersf_be.Rows.Each.{All-update_each, DistinctKeys-update_each}
use edufurthersf_be.Outbox.{
  pending, dispatched, dead_letter, OutboxEvent, Events, id_of, destination_analytics, by_key,
  new_event, enqueue_analytics_event, is_undelivered, claim_pending_events, mark_dispatched,
  mark_failed, Delivery, delivered, http_error, other_error, settle, has_key,
  dispatch_analytics_events,
}

-- How often an event was tried without success, and whether it carries a time of delivery.
abbrev pub IsSound : OutboxEvent → Type 0
IsSound e = elim e.state [
  | pending ↦ (e.attempts < 5) × (e.dispatched_at ≡ none)
  | dispatched ↦ (e.attempts < 5) × (is_some e.dispatched_at ≡ true)
  | dead_letter ↦ (e.attempts ≡ 5) × (e.dispatched_at ≡ none)
]

pub record IsOutbox (t : Events) : Type 0 where
  pub sound : All IsSound t
  pub ids : DistinctKeys id_of t

-- The operations of the outbox, in any order and with any end of a delivery. An event id is fresh
-- (UUIDv7).
pub data Step (t : Events) : Events → Type 0 where
  enqueue :
      (event_id : ℕ) (event_type dedupe_key : String) (payload : Dict)
      → All (λ e. e.event_id ≢ event_id) t
      → Step t (enqueue_analytics_event event_id event_type dedupe_key payload t)
  dispatch :
      (active : Bool) (api_key : Option Text) (outcome : Delivery) (clock : ℕ → Instant)
      (locked : ℕ → Bool) (limit : ℕ)
      → Step t (dispatch_analytics_events active api_key outcome clock locked limit t).0

pub data History : Events → Type 0 where
  empty : History []
  after : {t u : Events} → Step t u → History t → History u

enqueue-IsOutbox :
    (event_id : ℕ) (event_type dedupe_key : String) (payload : Dict) (t : Events)
    → All (λ e. e.event_id ≢ event_id) t
    → IsOutbox t
    → IsOutbox (enqueue_analytics_event event_id event_type dedupe_key payload t)
unfolding enqueue_analytics_event
enqueue-IsOutbox event_id event_type dedupe_key payload t fresh h =
    elim (Option-cases (by_key dedupe_key t)) [
      | inl e ↦ rw e (record {
        sound =
            All-append IsSound t (new_event event_id event_type dedupe_key payload ∷ []) h.sound
              ((omega arith, refl), tt);
        ids =
            DistinctKeys-append id_of (new_event event_id event_type dedupe_key payload) t fresh
              h.ids;
      })
      | inr (k, e) ↦ rw e h
    ]

dispatched-IsSound :
    (clock : ℕ → Instant) (e : OutboxEvent)
    → is_undelivered destination_analytics e ≡ true
    → IsSound (mark_dispatched clock e)
dispatched-IsSound clock e u = (ground arith, refl)

failed-IsSound :
    (error : Text) (e : OutboxEvent)
    → is_undelivered destination_analytics e ≡ true
    → IsSound e
    → IsSound (mark_failed error e)
failed-IsSound error e u h = ground arith

module _ (locked : ℕ → Bool) (limit : ℕ) (t : Events) (h : IsOutbox t) where
  mark-IsOutbox :
      (mark : OutboxEvent → OutboxEvent)
      → ((e : OutboxEvent) → (mark e).event_id ≡ e.event_id)
      → ((e : OutboxEvent)
          → is_undelivered destination_analytics e ≡ true
          → IsSound e
          → IsSound (mark e))
      → IsOutbox
          (update_each id_of mark (claim_pending_events destination_analytics locked limit t) t)
  unfolding claim_pending_events
  mark-IsOutbox mark same keeps = record {
    sound =
        All-update_each id_of IsSound mark (is_undelivered destination_analytics) locked limit t
          same h.ids keeps h.sound;
    ids =
        DistinctKeys-update_each id_of mark
          (claim_pending_events destination_analytics locked limit t) t same h.ids;
  }

  settle-IsOutbox :
      (outcome : Delivery) (clock : ℕ → Instant)
      → IsOutbox
          (settle outcome clock (claim_pending_events destination_analytics locked limit t) t).0
  unfolding settle
  settle-IsOutbox delivered clock =
      mark-IsOutbox (mark_dispatched clock) (λ e. refl) (λ e u k. dispatched-IsSound clock e u)
  settle-IsOutbox (http_error error) clock =
      mark-IsOutbox (mark_failed error) (λ e. refl) (failed-IsSound error)
  settle-IsOutbox (other_error e) clock = h

  dispatch-IsOutbox :
      (active : Bool) (api_key : Option Text) (outcome : Delivery) (clock : ℕ → Instant)
      → IsOutbox (dispatch_analytics_events active api_key outcome clock locked limit t).0
  unfolding dispatch_analytics_events
  dispatch-IsOutbox active api_key outcome clock = elim (Bool-cases (active && has_key api_key)) [
    | inl gate ↦
        elim (Bool-cases (truthy (claim_pending_events destination_analytics locked limit t))) [
          | inl e ↦ rw (gate, e) (settle-IsOutbox outcome clock)
          | inr e ↦ rw (gate, e) h
        ]
    | inr shut ↦ rw shut h
  ]

-- Whatever was enqueued and dispatched, and however each delivery ended: event ids are unique, a
-- pending or dispatched event failed fewer than five times, a dead letter exactly five times, and
-- an event carries a time of delivery exactly if it was dispatched.
pub History-IsOutbox : {t : Events} → History t → IsOutbox t
History-IsOutbox empty = record { sound = tt; ids = tt }
History-IsOutbox (after {t} (enqueue event_id event_type dedupe_key payload fresh) h) =
    enqueue-IsOutbox event_id event_type dedupe_key payload t fresh (History-IsOutbox h)
History-IsOutbox (after {t} (dispatch active api_key outcome clock locked limit) h) =
    dispatch-IsOutbox locked limit t (History-IsOutbox h) active api_key outcome clock
