-- ===== src/Node/Client/Tests.antt =====
-- The client at items that are their own size, with room for four of them.
use app_health.Prelude.{ℕ, ◌≡◌, refl, true, false, List, [], ◌∷◌, ◌++◌, some, none, arith, map}
use app_health.Node.Transport.{TransportResult, delivered, undelivered, unknown_error}
use app_health.Node.Batching.{take_sized_batch}
use app_health.Node.Client.{
  Limits, State, Encoded, Call, record_event, record_log, record_product, flush, close, timer_fires,
  drain_ends, result, init, queued, enqueue, admitted, flush_queues, schedule_flush, close_client,
  settle, fire_timer, resume_drain, drain_events, drain_logs, drain_products, start_send,
  record_delivery_result, payload_size, step, run, idle,
}
use app_health.Node.Client.Invariant.{Inv, run-init-Inv}
use app_health.Node.Client.Accounting.{known}
use app_health.Node.Client.Closing.{offers, run_accounts}
use mathlib.Core.List.{Sublistᴰ}
use app_health.Node.Client.Products.{pending_products}
use app_health.Node.Client.ProductOrder.{all_completed_products, all_accepted_products}
use app_health.Node.Client.Pending.{pending_events, pending_logs}
use app_health.Node.Client.Order.{
  all_completed_events, all_accepted_events, all_completed_logs, all_accepted_logs,
  run_events_in_order, run_logs_in_order,
}
use app_health.Node.Client.Draining.{Drained, flush_terminates}
use app_health.Node.Client.Stranding.{close_strands_events}

client : Unit {0}
unfolding step run enqueue admitted flush_queues schedule_flush close_client settle fire_timer
    resume_drain drain_events drain_logs drain_products start_send take_sized_batch init
    record_delivery_result payload_size queued
client = tt

abbrev sizes : Encoded ℕ ℕ ℕ
sizes = record { event = λ n. n; log = λ n. n; product = λ n. n }

abbrev limits : Limits
limits = record {
  max_queue_size = 4;
  max_batch_size = 3;
  log_batch_size = 2;
  disable_timer = false;
}

abbrev Calls : Type 0
Calls = List (Call ℕ ℕ ℕ)

abbrev sent : Call ℕ ℕ ℕ
sent = result (delivered 202 0)

abbrev lost : Call ℕ ℕ ℕ
lost = result (undelivered none 3 unknown_error)

-- Two events and a log wait; an invalid log, a fourth item and a fifth that finds no room follow; the
-- timeout starts a drain whose first request succeeds and whose second fails.
abbrev busy_day : Calls
busy_day =
    record_event (some 10)
    ∷ record_event (some 20)
    ∷ record_log (some 30)
    ∷ record_log none
    ∷ record_product (some 40)
    ∷ record_event (some 50)
    ∷ timer_fires
    ∷ sent
    ∷ lost
    ∷ []

busy_day_counts :
    let d = (run sizes busy_day (init limits)).diag in
    (d.sent_events ≡ 2)
    × (d.dropped_delivery ≡ 1)
    × (d.dropped_invalid ≡ 1)
    × (d.dropped_overflow ≡ 1)
    × (d.queued ≡ 0)
unfolding client
busy_day_counts = (refl, refl, refl, refl, refl)

-- An event that is recorded while the log of an earlier flush is on its way.
abbrev logging : Calls
logging = record_log (some 30) ∷ flush ∷ record_event (some 10) ∷ []

abbrev logging_state : State ℕ ℕ ℕ
unfolding client
logging_state = run sizes logging (init limits)

closed_too_soon :
    let t = run sizes (close ∷ sent ∷ drain_ends ∷ []) logging_state in
    (t.queue ≡ 10 ∷ []) × (t.flushing ≡ idle) × (t.closed ≡ true)
unfolding client
closed_too_soon = (refl, refl, refl)

run-init-Inv_example : Inv (run sizes busy_day (init limits))
run-init-Inv_example = run-init-Inv sizes limits busy_day

abbrev before_day : State ℕ ℕ ℕ
before_day = init limits

abbrev after_day : State ℕ ℕ ℕ
after_day = run sizes busy_day before_day

run_accounts_example :
    (known after_day ≡ offers sizes busy_day)
    × (all_completed_events sizes busy_day before_day ++ pending_events after_day
        ≡ all_accepted_events sizes busy_day before_day)
    × (all_completed_logs sizes busy_day before_day ++ pending_logs after_day
        ≡ all_accepted_logs sizes busy_day before_day)
    × Sublistᴰ
        (all_completed_products sizes busy_day before_day ++ pending_products after_day)
        (all_accepted_products sizes busy_day before_day)
run_accounts_example = run_accounts sizes limits busy_day

run_events_in_order_example :
    all_completed_events sizes busy_day (init limits)
      ++ pending_events (run sizes busy_day (init limits))
    ≡ pending_events {E = ℕ} {L = ℕ} {P = ℕ} (init limits)
      ++ all_accepted_events sizes busy_day (init limits)
run_events_in_order_example = run_events_in_order sizes busy_day (init limits)

run_logs_in_order_example :
    all_completed_logs sizes busy_day (init limits)
      ++ pending_logs (run sizes busy_day (init limits))
    ≡ pending_logs {E = ℕ} {L = ℕ} {P = ℕ} (init limits)
      ++ all_accepted_logs sizes busy_day (init limits)
run_logs_in_order_example = run_logs_in_order sizes busy_day (init limits)

abbrev waiting : State ℕ ℕ ℕ
unfolding client
waiting = record (init limits) { queue = 10 ∷ 20 ∷ []; log_queue = 30 ∷ [] }

abbrev outcomes : List TransportResult
outcomes =
    delivered 202 0 ∷ undelivered none 3 unknown_error ∷ delivered 202 1 ∷ delivered 202 0 ∷ []

flush_terminates_example :
    Drained sizes (run sizes (map result outcomes) (flush_queues sizes waiting))
unfolding client
flush_terminates_example =
    flush_terminates sizes waiting outcomes
      (record {
        events_fit = omega arith;
        logs_fit = omega arith;
        some_events = omega arith;
        some_logs = omega arith;
      })
      refl (omega arith) (omega arith)

close_strands_events_example :
    (step sizes drain_ends (run sizes (sent ∷ []) (step sizes close logging_state))).queue
    ≡ logging_state.queue
unfolding client
close_strands_events_example = close_strands_events sizes logging_state (sent ∷ []) refl refl refl
