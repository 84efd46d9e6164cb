-- ===== src/Outbox.antt =====
-- src/app/infra/outbox.py and the `outbox_events` table of src/app/domain/models.py. What the database
-- gives is an argument: a fresh `event_id`, the rows that other sessions have locked, and the clock
-- when an event is marked. The call of `send_batch` is an argument too, by the way it ends.
pub mod Invariant
pub mod Dispatch
mod Tests
use edufurthersf_be.Prelude.{
  ℕ, ◌+◌, String, str_eq, Bool, true, false, not, ◌&&◌, Option, none, some, List, [], ◌∷◌, ◌++◌,
  ltb, leb, if◌then◌else◌, any, find, truthy, take, length, Error, Result, ok, raise,
}
use edufurthersf_be.Prelude.Text.{Text}
use edufurthersf_be.Time.{Instant}
use edufurthersf_be.Json.{Json, str, Dict, put}
use edufurthersf_be.Rows.{update_each, select_where}

pub data EventState : Type 0 where
  pending dispatched dead_letter : EventState

pub record OutboxEvent : Type 0 where
  pub event_id : ℕ
  pub event_type : String
  pub destination : String
  pub dedupe_key : String
  pub payload : Dict
  pub state : EventState
  pub attempts : ℕ
  pub dispatched_at : Option Instant

abbrev pub Events : Type 0
Events = List OutboxEvent

abbrev pub id_of : OutboxEvent → ℕ
id_of event = event.event_id

abbrev pub destination_analytics : String
destination_analytics = "posthog"

abbrev pub max_dispatch_attempts : ℕ
max_dispatch_attempts = 5

abbrev pub by_key : String → Events → Option OutboxEvent
by_key dedupe_key = find (λ e. str_eq e.dedupe_key dedupe_key)

abbrev pub new_event : ℕ → String → String → Dict → OutboxEvent
new_event event_id event_type dedupe_key payload = record {
  event_id = event_id;
  event_type = event_type;
  destination = destination_analytics;
  dedupe_key = dedupe_key;
  payload = payload;
  state = pending;
  attempts = 0;
  dispatched_at = none;
}

-- `on_conflict_do_nothing(index_elements=["dedupe_key"])`.
abbrev pub insert_unless : Option OutboxEvent → OutboxEvent → Events → Events
insert_unless none event t = t ++ event ∷ []
insert_unless (some _) event t = t

unfoldable pub enqueue_analytics_event : ℕ → String → String → Dict → Events → Events
enqueue_analytics_event event_id event_type dedupe_key payload t =
    insert_unless (by_key dedupe_key t) (new_event event_id event_type dedupe_key payload) t

abbrev pub is_pending : EventState → Bool
is_pending pending = true
is_pending _ = false

abbrev pub is_undelivered : String → OutboxEvent → Bool
is_undelivered destination e =
    str_eq e.destination destination && (is_pending e.state && ltb e.attempts max_dispatch_attempts)

unfoldable pub claim_pending_events : String → (ℕ → Bool) → ℕ → Events → Events
claim_pending_events destination locked limit =
    select_where id_of (is_undelivered destination) locked limit

abbrev pub mark_dispatched : (ℕ → Instant) → OutboxEvent → OutboxEvent
mark_dispatched clock event = record event {
  state = dispatched;
  dispatched_at = some (clock event.event_id);
}

abbrev pub mark_failed : Text → OutboxEvent → OutboxEvent
mark_failed error event =
    let attempts = event.attempts + 1 in
    record event {
      attempts = attempts;
      state = if leb max_dispatch_attempts attempts then dead_letter else event.state;
      payload = put "last_error" (str (take 500 error)) event.payload;
    }

-- How `send_batch` ends; an `httpx.HTTPError` is caught.
pub data Delivery : Type 0 where
  delivered : Delivery
  http_error : Text → Delivery
  other_error : Error → Delivery

pub record Counts : Type 0 where
  pub held : ℕ
  pub dispatched : ℕ
  pub failed : Option ℕ

unfoldable pub settle : Delivery → (ℕ → Instant) → Events → Events → Events × Result Counts
settle delivered clock events t = (
  update_each id_of (mark_dispatched clock) events t,
  ok (record { held = 0; dispatched = length events; failed = none }),
)
settle (http_error error) clock events t = (
  update_each id_of (mark_failed error) events t,
  ok (record { held = 0; dispatched = 0; failed = some (length events) }),
)
settle (other_error e) clock events t = (t, raise e)

abbrev pub has_key : Option Text → Bool
has_key none = false
has_key (some key) = truthy key

-- `active` is the environment gate and `api_key` the key, which is missing or a text.
unfoldable pub dispatch_analytics_events :
    Bool → Option Text → Delivery → (ℕ → Instant) → (ℕ → Bool) → ℕ → Events → Events × Result Counts
unfolding claim_pending_events settle
dispatch_analytics_events active api_key outcome clock locked limit t =
    let events = claim_pending_events destination_analytics locked limit t in
    if not (active && has_key api_key)
    then (t, ok (record { held = length events; dispatched = 0; failed = none }))
    else if not (truthy events)
    then (t, ok (record { held = 0; dispatched = 0; failed = none }))
    else settle outcome clock events t
