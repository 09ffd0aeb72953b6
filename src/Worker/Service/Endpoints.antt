-- ===== src/Worker/Service/Endpoints.antt =====
-- The ingest of endpoint events, where the storage of buckets has no `validateEvents` and there is
-- no durable endpoint storage, as with the adapter in memory.
use app_health.Prelude.{
  ℕ, Bool, true, false, List, [], ◌∷◌, Option, none, some, or_else, if◌then◌else◌, any, map, length,
  ◌≡◌, refl,
}
use app_health.Js.Strings.{Text, codes}
use app_health.Js.Maps.{Dict}
use app_health.Worker.Memory.Keys.{KeyRecordV1}
use app_health.Worker.Memory.Environments.{EnvironmentV1}
use app_health.Worker.Memory.Dedupe.{mark_seen, forget}
use app_health.Worker.Memory.Buckets.{MeasuredEvent, upsert_events}
use app_health.Worker.Memory.Installation.{Runtime, record_ingest}
use app_health.Worker.Memory.Failures.{EventV1, record_failures}
use app_health.Worker.Memory.Endpoints.{Observation, record_observed}
use app_health.Worker.Memory.Capabilities.{endpoints, record_capability}
use app_health.Worker.Service.{
  InMemoryAdapter, ResolvedScope, ScopeResolution, resolved_to, unresolved, IngestResult, ok,
  refused, threw, is_skewed, is_blank, verify_ingest_key, resolve_scope,
}

pub record EndpointEvent : Type 0 where
  pub event : EventV1
  pub upstream_sampled : Bool

pub record EventBatchV1 : Type 0 where
  pub batch_id : Option Text
  pub runtime : Runtime
  pub environment : Option Text
  pub release : Option Text
  pub events : List EventV1

abbrev pub endpoint_event : EventV1 → EndpointEvent
endpoint_event event = record { event = event; upstream_sampled = false }

abbrev pub event_of : EndpointEvent → EventV1
event_of e = e.event

abbrev pub observation_of : EndpointEvent → Observation
observation_of e = record {
  method = e.event.method;
  route = e.event.route;
  timestamp = e.event.timestamp;
}

abbrev pub measured_of : EndpointEvent → MeasuredEvent
measured_of e = record {
  timestamp = e.event.timestamp;
  method = e.event.method;
  route = e.event.route;
  status_code = e.event.status_code;
  duration_ms = e.event.duration_ms;
  response_bytes = e.event.response_bytes;
  upstream_sampled = e.upstream_sampled;
}

abbrev pub note_events :
    InMemoryAdapter → ResolvedScope → Runtime → List EndpointEvent → ℕ → InMemoryAdapter
note_events repos scope runtime [] now = repos
note_events repos scope runtime (e ∷ es) now = record repos {
  installation = record_ingest repos.installation scope.app_id scope.environment_id runtime now;
  capabilities =
      record_capability repos.capabilities scope.app_id scope.environment_id endpoints now;
}

unfoldable pub record_endpoint_metadata :
    InMemoryAdapter → ResolvedScope → Runtime → List EndpointEvent → ℕ → InMemoryAdapter
record_endpoint_metadata repos scope runtime events now =
    let recorded : InMemoryAdapter = record repos {
      observed_endpoints =
          record_observed repos.observed_endpoints scope.app_id scope.environment_id
            (map observation_of events);
      failure_events =
          record_failures repos.failure_events scope.app_id scope.environment_id
            (map event_of events);
    } in
    note_events recorded scope runtime events now

-- The adapter in memory never throws here.
unfoldable pub persist_events :
    InMemoryAdapter → ResolvedScope → Runtime → List EndpointEvent → ℕ → InMemoryAdapter
unfolding record_endpoint_metadata
persist_events repos scope runtime events now =
    let noted = record_endpoint_metadata repos scope runtime events now in
    record noted {
      buckets =
          upsert_events noted.buckets scope.app_id scope.environment_id (map measured_of events);
    }

-- Storage as `ingest` calls it: what is left behind, and whether the call returned.
pub record EventStorage : Type 0 where
  pub persist :
      InMemoryAdapter → ResolvedScope → Runtime → List EndpointEvent → ℕ → InMemoryAdapter × Bool
  -- Storage leaves the keys, the environments and the batches that were seen alone.
  pub keeps_keys :
      (repos : InMemoryAdapter) (scope : ResolvedScope) (runtime : Runtime)
      (events : List EndpointEvent) (now : ℕ)
      → (persist repos scope runtime events now).0.keys ≡ repos.keys
  pub keeps_environments :
      (repos : InMemoryAdapter) (scope : ResolvedScope) (runtime : Runtime)
      (events : List EndpointEvent) (now : ℕ)
      → (persist repos scope runtime events now).0.environments ≡ repos.environments
  pub keeps_seen :
      (repos : InMemoryAdapter) (scope : ResolvedScope) (runtime : Runtime)
      (events : List EndpointEvent) (now : ℕ)
      → (persist repos scope runtime events now).0.seen_batches ≡ repos.seen_batches

-- What `ingest` returns for a fresh batch: what storage left, and its claim given up when storage threw.
abbrev pub settled :
    ResolvedScope → (batch_id : Text) → ℕ → InMemoryAdapter × Bool → IngestResult × InMemoryAdapter
settled scope batch_id count (after, true) = (ok count 0, after)
settled scope batch_id count (after, false) = (
  threw,
  record after {
    seen_batches = forget after.seen_batches scope.app_id scope.environment_id batch_id;
  },
)

module _ (hash : Text → Text) (legacy_batch_id : EventBatchV1 → Text) (storage : EventStorage) where
  abbrev pub batch_id_of : EventBatchV1 → Text
  batch_id_of batch = or_else batch.batch_id (legacy_batch_id batch)

  -- From the claim of the batch on, with what `markSeen` returned.
  abbrev pub claimed :
      InMemoryAdapter
      → ResolvedScope
      → EventBatchV1
      → ℕ
      → Bool × Dict ℕ
      → IngestResult × InMemoryAdapter
  claimed repos scope batch now (false, seen) =
      (ok 0 (length batch.events), record repos { seen_batches = seen })
  claimed repos scope batch now (true, seen) =
      settled scope (batch_id_of batch) (length batch.events) (
        storage.persist (record repos { seen_batches = seen }) scope batch.runtime
          (map endpoint_event batch.events) now)

  abbrev pub resolved :
      InMemoryAdapter
      → EventBatchV1
      → ℕ
      → ScopeResolution × Dict EnvironmentV1
      → IngestResult × InMemoryAdapter
  resolved repos batch now (unresolved status error, environments) =
      (refused status error, record repos { environments = environments })
  resolved repos batch now (resolved_to scope, environments) =
      claimed (record repos { environments = environments }) scope batch now
        (mark_seen repos.seen_batches scope.app_id scope.environment_id (batch_id_of batch) now)

  abbrev pub validated :
      InMemoryAdapter
      → KeyRecordV1
      → Option EventBatchV1
      → (now : ℕ) (new_id : Text) → IngestResult × InMemoryAdapter
  validated repos key none now new_id = (refused 400 (codes "invalid v1 batch"), repos)
  validated repos key (some batch) now new_id =
      if any (λ event. is_skewed now event.timestamp) batch.events
      then (refused 400 (codes "event timestamp outside clock-skew window"), repos)
      else resolved repos batch now
          (resolve_scope repos.environments key batch.environment now new_id)

  abbrev pub authenticated :
      InMemoryAdapter
      → (raw_key : Text) → Option KeyRecordV1
      → Option EventBatchV1
      → (now : ℕ) (new_id : Text) → IngestResult × InMemoryAdapter
  authenticated repos raw_key none body now new_id = (
    refused 401 (
        if is_blank raw_key
        then codes "missing ingest key"
        else codes "invalid or revoked ingest key"),
    repos,
  )
  authenticated repos raw_key (some key) body now new_id = validated repos key body now new_id

  -- `body` is what the schema makes of the request's body, `legacy_batch_id` is `legacyBatchID`.
  unfoldable pub ingest :
      InMemoryAdapter
      → (raw_key : Text) → Option EventBatchV1
      → (now : ℕ) (new_id : Text) → IngestResult × InMemoryAdapter
  ingest repos raw_key body now new_id =
      authenticated repos raw_key (verify_ingest_key hash repos.keys raw_key) body now new_id

-- The adapter in memory as storage: it always returns.
abbrev pub persist_in_memory :
    InMemoryAdapter → ResolvedScope → Runtime → List EndpointEvent → ℕ → InMemoryAdapter × Bool
persist_in_memory repos scope runtime events now =
    (persist_events repos scope runtime events now, true)

pub persist_events_frame :
    (repos : InMemoryAdapter) (scope : ResolvedScope) (runtime : Runtime)
    (events : List EndpointEvent) (now : ℕ)
    → ((persist_events repos scope runtime events now).keys ≡ repos.keys)
      × ((persist_events repos scope runtime events now).environments ≡ repos.environments)
      × ((persist_events repos scope runtime events now).seen_batches ≡ repos.seen_batches)
unfolding persist_events
persist_events_frame repos scope runtime [] now = (refl, refl, refl)
persist_events_frame repos scope runtime (e ∷ es) now = (refl, refl, refl)

abbrev pub memory_storage : EventStorage
memory_storage = record {
  persist = persist_in_memory;
  keeps_keys =
      λ repos scope runtime events now. (persist_events_frame repos scope runtime events now).0;
  keeps_environments =
      λ repos scope runtime events now. (persist_events_frame repos scope runtime events now).1;
  keeps_seen =
      λ repos scope runtime events now. (persist_events_frame repos scope runtime events now).2;
}
