-- ===== src/Outbox/Tests.antt =====
-- Runs of the outbox, and the theorems about it at concrete inputs.
use edufurthersf_be.Prelude.{
  ℕ, ◌≡◌, refl, inl, Bool, true, false, Option, some, [], ◌∷◌, ◌&&◌, arith, In,
}
use edufurthersf_be.Prelude.Text.{Text, codes}
use edufurthersf_be.Time.{seconds}
use edufurthersf_be.Rows.{select_where, insert_by, order_by}
use edufurthersf_be.Rows.Laws.{DistinctKeys}
use edufurthersf_be.Outbox.{
  OutboxEvent, Events, id_of, new_event, enqueue_analytics_event, claim_pending_events, http_error,
  has_key, dispatch_analytics_events,
}
use edufurthersf_be.Outbox.Invariant.{IsOutbox, Step, History, empty, after, History-IsOutbox}
use edufurthersf_be.Outbox.Dispatch.{dispatched_as, dispatch_exact}

abbrev unlocked : ℕ → Bool
unlocked n = false

abbrev clock : ℕ → ℕ
clock id = seconds id

abbrev search_event : OutboxEvent
search_event = new_event 1 "search_completed" "search:1" []

abbrev click_event : OutboxEvent
click_event = new_event 2 "result_clicked" "click:2" []

abbrev stored : Events
stored = search_event ∷ click_event ∷ []

History-stored : History stored
unfolding enqueue_analytics_event
History-stored =
    after (Step.enqueue 2 "result_clicked" "click:2" [] ((omega arith), tt))
      (after (Step.enqueue 1 "search_completed" "search:1" [] tt) empty)

abbrev key : Option Text
key = some (codes "phc")

History-IsOutbox_example :
    IsOutbox
      (dispatch_analytics_events true key (http_error (codes "503")) clock unlocked 1 stored).0
History-IsOutbox_example =
    History-IsOutbox
      (after (Step.dispatch true key (http_error (codes "503")) clock unlocked 1) History-stored)

ids : DistinctKeys id_of stored
ids = (((omega arith), tt), (tt, tt))

dispatch_exact_example :
    dispatch_analytics_events true key (http_error (codes "503")) clock unlocked 1 stored
    ≡ dispatched_as
        (true && has_key key)
        (http_error (codes "503"))
        clock
        (claim_pending_events "posthog" unlocked 1 stored)
        stored
dispatch_exact_example =
    dispatch_exact true key (http_error (codes "503")) clock unlocked 1 stored ids

batch_run : claim_pending_events "posthog" unlocked 1 stored ≡ search_event ∷ []
unfolding claim_pending_events select_where order_by insert_by
batch_run = refl

claimed : In search_event (claim_pending_events "posthog" unlocked 1 stored)
unfolding claim_pending_events select_where order_by insert_by
claimed = inl refl
