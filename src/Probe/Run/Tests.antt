-- ===== src/Probe/Run/Tests.antt =====
-- Two journeys over four runs: one fails while nothing can be delivered, then the vantage is offline.
use app_health.Prelude.{◌+◌, ◌≤◌, ◌≡◌, refl, true, false, List, [], ◌∷◌, none, some, length}
use app_health.Js.Strings.{Text, codes}
use app_health.Probe.Incident.{
  ok, failed, failing, advance, advance_ok, advance_bad, open_incident, replay,
}
use app_health.Probe.Run.{
  Measured, FailureKind, Run, empty_state, max_pending_logs, run_history, run_probes, queued_logs,
  batch, advance_all, observed, last, vantage_offline, heartbeat_log, transition_log,
  count_statuses, status_of,
}
use app_health.Probe.Run.Journeys.{count_statuses-total}
use app_health.Probe.Run.Queue.{undelivered, run_history-pending, run_history_bounds}

abbrev shop : Text
shop = codes "shop"

abbrev shop_pay : Text
shop_pay = codes "shop/pay"

abbrev pay_fails : Measured
pay_fails = record {
  project = shop;
  journey = codes "pay";
  outcome = failed;
  failure = some FailureKind.http;
  new_id = "i1";
  log_id = "l1";
}

abbrev find_works : Measured
find_works = record {
  project = shop;
  journey = codes "find";
  outcome = ok;
  failure = none;
  new_id = "i2";
  log_id = "l2";
}

abbrev no_network : Measured
no_network = record pay_fails { failure = some FailureKind.dns }

abbrev outage : List Run
outage =
    record {
      started_at = 60;
      interval_seconds = 300;
      measured = pay_fails ∷ find_works ∷ [];
      heartbeat_id = "h1";
      delivers = λ logs. false;
    }
    ∷ record {
      started_at = 360;
      interval_seconds = 300;
      measured = no_network ∷ no_network ∷ [];
      heartbeat_id = "h2";
      delivers = λ logs. false;
    }
    ∷ []

runs : Unit {0}
unfolding run_history run_probes queued_logs batch advance_all observed last vantage_offline
    heartbeat_log transition_log count_statuses advance advance_ok advance_bad open_incident replay
runs = tt

run_history-outage_pending : length (run_history empty_state outage).pending ≡ 1
unfolding runs
run_history-outage_pending = refl

run_history-outage : status_of (run_history empty_state outage).journeys shop_pay ≡ failing
unfolding runs
run_history-outage = refl

run_history-pending_example :
    (run_history empty_state outage).pending
    ≡ last max_pending_logs (undelivered [] empty_state outage)
run_history-pending_example = run_history-pending outage

abbrev next_run : Run
next_run = record {
  started_at = 660;
  interval_seconds = 300;
  measured = pay_fails ∷ [];
  heartbeat_id = "h3";
  delivers = λ logs. true;
}

run_history_bounds_example :
    (length (run_history empty_state outage).pending ≤ max_pending_logs)
    × (length (batch (run_history empty_state outage) next_run) ≤ max_pending_logs + 1)
run_history_bounds_example = run_history_bounds outage next_run

each_counted :
    let c =
      count_statuses (run_history empty_state outage).journeys (shop_pay ∷ shop ∷ []) false 1 in
    c.healthy_count + c.degraded_count + c.failing_count ≡ 2
each_counted =
    count_statuses-total (run_history empty_state outage).journeys (shop_pay ∷ shop ∷ []) false 1
