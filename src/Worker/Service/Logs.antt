-- ===== src/Worker/Service/Logs.antt =====
-- The ingest of application logs, from servers and from browsers.
use app_health.Prelude.{
  ℕ, ◌+◌, ◌*◌, ◌/◌, Bool, true, false, not, ◌&&◌, List, [], ◌∷◌, ◌++◌, Option, none, some, or_else,
  ltb, if◌then◌else◌, any, map, filter, length,
}
use app_health.Js.Strings.{Text, codes, same_text}
use app_health.Js.Maps.{Dict, get}
use app_health.Contracts.Routing.{
  LogSource, LogSink, LogRouteV1, StoredLogV1, server, browser, native, store, collect_sinks,
}
use app_health.Worker.Memory.Keys.{KeyRecordV1}
use app_health.Worker.Memory.Dedupe.{mark_seen}
use app_health.Worker.Memory.Environments.{EnvironmentV1}
use app_health.Worker.Memory.Logs.{LogEventV1, SourcedLog, record_logs, log_retention_ms}
use app_health.Worker.Memory.PublicKeys.{
  PublicKeyStore, PublicLogKeyV1, verify_public_key, consume_browser_quota,
}
use app_health.Worker.Memory.Capabilities.{logs, record_capability}
use app_health.Worker.Service.{
  InMemoryAdapter, ResolvedScope, ScopeResolution, resolved_to, unresolved, max_clock_skew_ms,
  is_blank, verify_ingest_key, resolve_scope,
}

pub record LogBatchV1 : Type 0 where
  pub batch_id : Option Text
  pub environment : Option Text
  pub batch_logs : List LogEventV1

-- A browser's batch has its key in the body.
pub record BrowserLogBatchV1 : Type 0 where
  pub batch : LogBatchV1
  pub public_key : Text

-- `sinks` are the logs by sink.
pub data LogIngestResult : Type 0 where
  ok :
      (accepted duplicates : ℕ)
      → ResolvedScope
      → LogSource
      → (sinks : LogSink → List SourcedLog) → LogIngestResult
  refused : (status : ℕ) (error : Text) → LogIngestResult

abbrev pub sourced : LogSource → LogEventV1 → SourcedLog
sourced source log = record { log = log; source = source }

-- What routing reads of a log.
abbrev pub routed_of : SourcedLog → StoredLogV1
routed_of stored = record {
  log_id = stored.log.log_id;
  source = stored.source;
  level = stored.log.level;
  event = stored.log.event;
}

-- Whether `routeLogs` gives the log to the sink.
abbrev pub goes_to : LogSink → List LogRouteV1 → SourcedLog → Bool
goes_to sink routes stored = collect_sinks (routed_of stored) (λ s. false) routes sink

abbrev pub log_of : SourcedLog → LogEventV1
log_of stored = stored.log

-- `validateLogTimestamps`, `none` where all are well.
unfoldable pub validate_log_timestamps : List LogEventV1 → ℕ → Option LogIngestResult
validate_log_timestamps batch_logs now =
    if any (λ log. ltb (now + max_clock_skew_ms) log.timestamp) batch_logs
    then some (refused 400 (codes "log timestamp too far in the future"))
    else if any (λ log. ltb (log.timestamp + log_retention_ms) now) batch_logs
    then some (refused 400 (codes "log timestamp outside retention window"))
    else none

abbrev pub source_name : LogSource → Text
source_name server = codes "server"
source_name browser = codes "browser"
source_name native = codes "native"

-- `logs:${source}:${batchId}`
unfoldable pub claim_id : LogSource → Text → Text
claim_id source batch_id = codes "logs:" ++ source_name source ++ b':' ∷ batch_id

-- The capability is recorded when there are logs.
abbrev pub note_logs : InMemoryAdapter → ResolvedScope → List LogEventV1 → ℕ → InMemoryAdapter
note_logs repos scope [] now = repos
note_logs repos scope (log ∷ rest) now = record repos {
  capabilities = record_capability repos.capabilities scope.app_id scope.environment_id logs now;
}

abbrev pub committed :
    InMemoryAdapter
    → ResolvedScope
    → List LogEventV1
    → LogSource
    → List LogRouteV1
    → ℕ
    → Bool × Dict ℕ
    → LogIngestResult × InMemoryAdapter
committed repos scope batch_logs source routes now (false, seen) =
    (ok 0 (length batch_logs) scope source (λ sink. []), record repos { seen_batches = seen })
committed repos scope batch_logs source routes now (true, seen) =
    let sinks =
      λ (sink : LogSink). filter (goes_to sink routes) (map (sourced source) batch_logs) in
    let stored : InMemoryAdapter = record repos {
      seen_batches = seen;
      log_events =
          record_logs repos.log_events scope.app_id scope.environment_id (map log_of (sinks store))
            source;
    } in
    (ok (length batch_logs) 0 scope source sinks, note_logs stored scope batch_logs now)

-- The adapter in memory never throws, so no claim is given up here.
unfoldable pub commit_logs :
    InMemoryAdapter
    → ResolvedScope
    → List LogEventV1
    → LogSource
    → List LogRouteV1
    → (now : ℕ) (batch_id : Text) → LogIngestResult × InMemoryAdapter
unfolding claim_id
commit_logs repos scope batch_logs source routes now batch_id =
    committed repos scope batch_logs source routes now (
      mark_seen repos.seen_batches scope.app_id scope.environment_id (claim_id source batch_id) now)

module _ (hash : Text → Text) (legacy_id : LogSource → List LogEventV1 → Text)
    (routes : List LogRouteV1) where
  -- `logBatchId`; `legacy_id` is the digest of the logs' ids.
  abbrev pub log_batch_id : LogSource → LogBatchV1 → Text
  log_batch_id source batch = or_else batch.batch_id (legacy_id source batch.batch_logs)

  abbrev pub resolved_logs :
      InMemoryAdapter
      → LogBatchV1
      → ℕ
      → ScopeResolution × Dict EnvironmentV1
      → LogIngestResult × InMemoryAdapter
  resolved_logs repos batch now (unresolved status error, environments) =
      (refused status error, record repos { environments = environments })
  resolved_logs repos batch now (resolved_to scope, environments) =
      commit_logs (record repos { environments = environments }) scope batch.batch_logs server
        routes now (log_batch_id server batch)

  abbrev pub timely_logs :
      InMemoryAdapter
      → KeyRecordV1
      → LogBatchV1
      → (now : ℕ) (new_id : Text) → Option LogIngestResult
      → LogIngestResult × InMemoryAdapter
  timely_logs repos key batch now new_id (some error) = (error, repos)
  timely_logs repos key batch now new_id none =
      resolved_logs repos batch now
        (resolve_scope repos.environments key batch.environment now new_id)

  abbrev pub validated_logs :
      InMemoryAdapter
      → Option KeyRecordV1
      → Option LogBatchV1
      → (now : ℕ) (new_id : Text) → LogIngestResult × InMemoryAdapter
  validated_logs repos none body now new_id =
      (refused 401 (codes "invalid or revoked ingest key"), repos)
  validated_logs repos (some key) none now new_id = (refused 400 (codes "invalid log batch"), repos)
  validated_logs repos (some key) (some batch) now new_id =
      timely_logs repos key batch now new_id (validate_log_timestamps batch.batch_logs now)

  unfoldable pub ingest_logs :
      InMemoryAdapter
      → (raw_key : Text) → Option LogBatchV1
      → (now : ℕ) (new_id : Text) → LogIngestResult × InMemoryAdapter
  ingest_logs repos raw_key body now new_id =
      validated_logs repos (verify_ingest_key hash repos.keys raw_key) body now new_id

  abbrev pub browser_logs_per_minute : ℕ
  browser_logs_per_minute = 600

  -- `!origin || !allowed_origins.includes(origin)`
  abbrev pub is_foreign : PublicLogKeyV1 → Option Text → Bool
  is_foreign key none = true
  is_foreign key (some origin) = not (any (same_text origin) key.allowed_origins)

  -- `environment && environment !== name`
  abbrev pub is_elsewhere : Option Text → Text → Bool
  is_elsewhere none name = false
  is_elsewhere (some requested) name = not (is_blank requested) && not (same_text requested name)

  -- From the quota on, with what `consumeBrowserQuota` returned.
  abbrev pub metered :
      InMemoryAdapter
      → PublicLogKeyV1
      → EnvironmentV1
      → LogBatchV1
      → ℕ
      → ℕ × PublicKeyStore
      → LogIngestResult × InMemoryAdapter
  metered repos key environment batch now (used, public_keys) =
      let after : InMemoryAdapter = record repos { public_keys = public_keys } in
      let scope : ResolvedScope = record { app_id = key.app_id; environment_id = environment.id } in
      if ltb browser_logs_per_minute used
      then (refused 429 (codes "browser log rate limit exceeded"), after)
      else commit_logs after scope batch.batch_logs browser routes now (log_batch_id browser batch)

  abbrev pub placed :
      InMemoryAdapter
      → PublicLogKeyV1
      → LogBatchV1
      → ℕ
      → Option EnvironmentV1
      → LogIngestResult × InMemoryAdapter
  placed repos key batch now none = (refused 401 (codes "public key environment missing"), repos)
  placed repos key batch now (some environment) =
      if is_elsewhere batch.environment environment.name
      then (refused 400 (codes "environment does not match public key scope"), repos)
      else metered repos key environment batch now (
          consume_browser_quota repos.public_keys key.id ((now / 60000) * 60000)
            (length batch.batch_logs))

  abbrev pub admitted :
      InMemoryAdapter
      → Option PublicLogKeyV1
      → Option Text
      → LogBatchV1
      → ℕ
      → LogIngestResult × InMemoryAdapter
  admitted repos none origin batch now =
      (refused 401 (codes "invalid or revoked public key"), repos)
  admitted repos (some key) origin batch now =
      if is_foreign key origin
      then (refused 403 (codes "origin not allowed for this key"), repos)
      else placed repos key batch now (get key.environment_id repos.environments)

  abbrev pub timely_browser_logs :
      InMemoryAdapter
      → BrowserLogBatchV1
      → Option Text
      → ℕ
      → Option LogIngestResult
      → LogIngestResult × InMemoryAdapter
  timely_browser_logs repos body origin now (some error) = (error, repos)
  timely_browser_logs repos body origin now none =
      admitted repos (verify_public_key hash repos.public_keys body.public_key) origin body.batch
        now

  unfoldable pub ingest_browser_logs :
      InMemoryAdapter
      → Option BrowserLogBatchV1
      → (origin : Option Text) (now : ℕ) → LogIngestResult × InMemoryAdapter
  ingest_browser_logs repos none origin now =
      (refused 400 (codes "invalid browser log batch"), repos)
  ingest_browser_logs repos (some body) origin now =
      timely_browser_logs repos body origin now (validate_log_timestamps body.batch.batch_logs now)
