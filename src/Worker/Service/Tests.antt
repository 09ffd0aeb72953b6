-- ===== src/Worker/Service/Tests.antt =====
-- One batch that is sent twice, a batch whose storage throws, and a browser's logs.
use app_health.Prelude.{
  arith, ℕ, ◌≡◌, refl, Bool, true, false, List, leb, [], ◌∷◌, Option, none, some, length,
}
use app_health.Js.Strings.{Text, codes, join}
use app_health.Js.Maps.{get, set, remove}
use app_health.Js.Numbers.Decimal.{digits, decimal}
use app_health.Contracts.Routing.{
  info, log_level_at_least, log_matches_route, collect_sinks, default_log_routes, warn,
}
use app_health.Worker.Memory.{scope_key, scope_prefix, item_key}
use app_health.Worker.Memory.Keys.{no_keys, add_key, create_key, find_key, verify_key}
use app_health.Worker.Memory.Dedupe.{batch_key, prune_dedupe, mark_seen, forget}
use app_health.Worker.Memory.Buckets.{
  index_from, histogram_index, bucket_key, add_to_bucket, first_in_bucket, upsert_bucket,
  upsert_events,
}
use app_health.Worker.Memory.Environments.{
  EnvironmentV1, new_environment, find_named, create_environment, resolve_environment,
}
use app_health.Worker.Memory.Installation.{Runtime, node, record_ingest}
use app_health.Worker.Memory.Failures.{EventV1, record_failures}
use app_health.Worker.Memory.Logs.{LogEventV1, record_logs}
use app_health.Worker.Memory.Endpoints.{endpoint_key, record_observed}
use app_health.Worker.Memory.PublicKeys.{
  create_public_key, find_public_key, verify_public_key, quota_key, consume_browser_quota,
}
use app_health.Worker.Memory.Capabilities.{
  capability_key, read_capabilities, received_row, record_capability,
}
use app_health.Worker.Service.{
  InMemoryAdapter, ResolvedScope, ok, refused, threw, verify_ingest_key, resolve_scope,
}
use app_health.Worker.Service.Endpoints.{
  EventBatchV1, EndpointEvent, EventStorage, persist_in_memory, persist_events_frame,
  record_endpoint_metadata, persist_events, memory_storage, ingest,
}
use app_health.Worker.Service.Logs.{
  BrowserLogBatchV1, LogIngestResult, validate_log_timestamps, claim_id, commit_logs, ingest_logs,
  ingest_browser_logs,
}
use app_health.Worker.Service.Retries.{Stores, ingest_again, ingest_after_throw}
use app_health.Worker.Service.Passing.{Passed}
use app_health.Worker.Service.Refusals.{ingest_refused}

abbrev plain : Text → Text
plain raw_key = b'h' ∷ raw_key

abbrev no_id : EventBatchV1 → Text
no_id batch = []

abbrev shop : Text
shop = codes "shop"

abbrev live : EnvironmentV1
live = new_environment (codes "env-1") shop (codes "live") 10

abbrev repos : InMemoryAdapter
repos = record {
  capabilities = [];
  apps = [];
  environments = (codes "env-1", live) ∷ [];
  keys = create_key plain no_keys shop none 10 (codes "ahk_1") (codes "k1");
  installation = [];
  seen_batches = [];
  failure_events = [];
  log_events = [];
  public_keys =
      create_public_key plain (record { objects = []; by_id = []; by_verifier = []; quota = [] })
        shop (codes "env-1") (codes "https://shop.example" ∷ []) 10 (codes "ahk_pub_1")
        (codes "p1");
  observed_endpoints = [];
  buckets = [];
}

abbrev event : EventV1
event = record {
  event_id = codes "e1";
  timestamp = 400000;
  method = codes "GET";
  route = codes "/orders";
  status_code = 503;
  duration_ms = 12;
  response_bytes = none;
  release = none;
}

abbrev batch : EventBatchV1
batch = record {
  batch_id = some (codes "b1");
  runtime = node;
  environment = some (codes "live");
  release = none;
  events = event ∷ [];
}

service : Unit {0}
unfolding join get set remove digits decimal scope_key scope_prefix item_key add_key create_key
    find_key verify_key batch_key prune_dedupe mark_seen forget index_from histogram_index
    bucket_key add_to_bucket first_in_bucket upsert_bucket upsert_events find_named
    create_environment resolve_environment record_ingest record_failures record_logs endpoint_key
    record_observed create_public_key find_public_key verify_public_key quota_key
    consume_browser_quota capability_key read_capabilities received_row record_capability
    verify_ingest_key resolve_scope record_endpoint_metadata persist_events ingest
    validate_log_timestamps claim_id commit_logs ingest_logs ingest_browser_logs log_level_at_least
    log_matches_route collect_sinks default_log_routes
service = tt

abbrev known_key : Text
known_key = codes "ahk_1"

first :
    (ingest plain no_id memory_storage repos known_key (some batch) 400000 (codes "env-2")).0
    ≡ ok 1 0
unfolding service
first = refl

first_bucket :
    length
      (ingest plain no_id memory_storage repos known_key
        (some batch)
        400000
        (codes "env-2")).1.buckets
    ≡ 1
unfolding service
first_bucket = refl

abbrev after_first : InMemoryAdapter
after_first =
    (ingest plain no_id memory_storage repos known_key (some batch) 400000 (codes "env-2")).1

ingest_again_example :
    ingest plain no_id memory_storage after_first known_key (some batch) 500000 (codes "env-3")
    ≡ (ok 0 1, record after_first { seen_batches = prune_dedupe 500000 after_first.seen_batches })
ingest_again_example =
    ingest_again plain no_id memory_storage repos known_key batch 400000 500000 (codes "env-2")
      (codes "env-3") 0 (unfold service in refl) (omega arith) (omega arith) refl first

-- Storage that throws before it stores anything until the time 405000.
abbrev flaky :
    Bool
    → InMemoryAdapter
    → ResolvedScope
    → Runtime
    → List EndpointEvent
    → ℕ
    → InMemoryAdapter × Bool
flaky true r scope runtime events now = persist_in_memory r scope runtime events now
flaky false r scope runtime events now = (r, false)

flaky_frame :
    (up : Bool) (r : InMemoryAdapter) (scope : ResolvedScope) (runtime : Runtime)
    (events : List EndpointEvent) (now : ℕ)
    → ((flaky up r scope runtime events now).0.keys ≡ r.keys)
      × ((flaky up r scope runtime events now).0.environments ≡ r.environments)
      × ((flaky up r scope runtime events now).0.seen_batches ≡ r.seen_batches)
flaky_frame true r scope runtime events now = persist_events_frame r scope runtime events now
flaky_frame false r scope runtime events now = (refl, refl, refl)

abbrev throwing : EventStorage
throwing = record {
  persist = λ r scope runtime events now. flaky (leb 405000 now) r scope runtime events now;
  keeps_keys =
      λ r scope runtime events now. (flaky_frame (leb 405000 now) r scope runtime events now).0;
  keeps_environments =
      λ r scope runtime events now. (flaky_frame (leb 405000 now) r scope runtime events now).1;
  keeps_seen =
      λ r scope runtime events now. (flaky_frame (leb 405000 now) r scope runtime events now).2;
}

thrown : (ingest plain no_id throwing repos known_key (some batch) 400000 (codes "env-2")).0 ≡ threw
unfolding service
thrown = refl

abbrev after_throw : InMemoryAdapter
after_throw = (ingest plain no_id throwing repos known_key (some batch) 400000 (codes "env-2")).1

stored_at_last :
    (ingest plain no_id throwing after_throw known_key (some batch) 410000 (codes "env-3")).0
    ≡ ok 1 0
unfolding service
stored_at_last = refl

ingest_after_throw_example :
    (p : Passed plain no_id throwing repos known_key batch 400000 (codes "env-2")) × Stores plain
      no_id throwing after_throw p.scope batch 410000
      (ingest plain no_id throwing after_throw known_key (some batch) 410000 (codes "env-3"))
ingest_after_throw_example =
    ingest_after_throw plain no_id throwing repos known_key batch 400000 410000 (codes "env-2")
      (codes "env-3") (unfold service in refl) refl thrown

too_late :
    (ingest plain no_id memory_storage repos known_key (some batch) 900000 (codes "env-2")).0
    ≡ refused 400 (codes "event timestamp outside clock-skew window")
unfolding service
too_late = refl

ingest_refused_example :
    (ingest plain no_id memory_storage repos known_key (some batch) 900000 (codes "env-2")).1
    ≡ repos
ingest_refused_example =
    ingest_refused plain no_id memory_storage repos known_key (some batch) 900000 (codes "env-2")
      400 (codes "event timestamp outside clock-skew window") too_late

abbrev log : LogEventV1
log = record {
  log_id = codes "l1";
  timestamp = 400000;
  event = codes "signup";
  level = info;
  title = none;
  description = none;
  icon = none;
  props = [];
}

abbrev logs_body : BrowserLogBatchV1
logs_body = record {
  batch = record { batch_id = some (codes "b2"); environment = none; batch_logs = log ∷ [] };
  public_key = codes "ahk_pub_1";
}

abbrev log_count : LogIngestResult → ℕ
log_count (LogIngestResult.ok accepted duplicates scope source sinks) = accepted
log_count (LogIngestResult.refused status error) = status

abbrev browse : Option Text → LogIngestResult × InMemoryAdapter
browse origin =
    ingest_browser_logs plain (λ source ls. []) (default_log_routes warn) repos (some logs_body)
      origin 400000

browser_logs-stored : length (browse (some (codes "https://shop.example"))).1.log_events ≡ 1
unfolding service
browser_logs-stored = refl

browser_logs-foreign : log_count (browse (some (codes "https://other.example"))).0 ≡ 403
unfolding service
browser_logs-foreign = refl
