-- ===== src/Worker/Service.antt =====
-- apps/worker/src/service.ts: ingest, over the repositories in memory. A request runs to its end before
-- another one starts: what overlaps at an `await` is not modelled here.
pub mod Endpoints
pub mod Logs
pub mod Scopes
pub mod Passing
pub mod Retries
pub mod Refusals
mod Tests
use app_health.Prelude.{
  ℕ, ◌+◌, ◌*◌, Bool, true, false, not, ◌&&◌, ◌||◌, List, [], ◌∷◌, Option, none, some, is_some, ltb,
  if◌then◌else◌,
}
use app_health.Js.Strings.{Text, codes, same_text}
use app_health.Js.Maps.{Dict, get}
use app_health.Worker.Memory.Keys.{KeyStore, KeyRecordV1, verify_key}
use app_health.Worker.Memory.Buckets.{BucketV1}
use app_health.Worker.Memory.Environments.{AppV1, EnvironmentV1, resolve_environment}
use app_health.Worker.Memory.Installation.{InstallationRow}
use app_health.Worker.Memory.Failures.{EventV1}
use app_health.Worker.Memory.Logs.{SourcedLog}
use app_health.Worker.Memory.Endpoints.{ObservedEndpoint}
use app_health.Worker.Memory.PublicKeys.{PublicKeyStore}
use app_health.Worker.Memory.Capabilities.{CapabilityState}

-- The fields of `InMemoryAdapter`.
pub record InMemoryAdapter : Type 0 where
  pub capabilities : Dict (List CapabilityState)
  pub apps : Dict AppV1
  pub environments : Dict EnvironmentV1
  pub keys : KeyStore
  pub installation : Dict InstallationRow
  pub seen_batches : Dict ℕ
  pub failure_events : Dict EventV1
  pub log_events : Dict SourcedLog
  pub public_keys : PublicKeyStore
  pub observed_endpoints : Dict ObservedEndpoint
  pub buckets : Dict BucketV1

pub record ResolvedScope : Type 0 where
  pub app_id : Text
  pub environment_id : Text

pub data ScopeResolution : Type 0 where
  resolved_to : ResolvedScope → ScopeResolution
  unresolved : (status : ℕ) (error : Text) → ScopeResolution

abbrev pub max_clock_skew_ms : ℕ
max_clock_skew_ms = 5 * 60 * 1000

-- `Math.abs(timestamp - now) > MAX_CLOCK_SKEW_MS`
abbrev pub is_skewed : (now timestamp : ℕ) → Bool
is_skewed now timestamp =
    ltb (now + max_clock_skew_ms) timestamp || ltb (timestamp + max_clock_skew_ms) now

-- `!text`
abbrev pub is_blank : Text → Bool
is_blank [] = true
is_blank (c ∷ cs) = false

unfoldable pub verify_ingest_key :
    (hash : Text → Text) → KeyStore → (raw_key : Text) → Option KeyRecordV1
verify_ingest_key hash keys raw_key =
    if is_blank raw_key then none else verify_key hash keys raw_key

abbrev pub scope_of : Text → EnvironmentV1 → ResolvedScope
scope_of app_id environment = record { app_id = app_id; environment_id = environment.id }

-- `requestedEnvironment !== undefined && requestedEnvironment !== environment.name`
abbrev pub is_other_name : Option Text → Text → Bool
is_other_name none name = false
is_other_name (some requested) name = not (same_text requested name)

-- The branch of `resolveScope` for a key of an environment, from the environment that was found.
abbrev pub resolve_own : KeyRecordV1 → Option Text → Option EnvironmentV1 → ScopeResolution
resolve_own key requested none = unresolved 401 (codes "invalid ingest key scope")
resolve_own key requested (some environment) =
    if not (same_text environment.app_id key.app_id)
    then unresolved 401 (codes "invalid ingest key scope")
    else if is_other_name requested environment.name
    then unresolved 400 (codes "environment does not match ingest key scope")
    else resolved_to (scope_of key.app_id environment)

-- The branch for a product key, from the environment that was resolved.
abbrev pub resolve_named : KeyRecordV1 → Option EnvironmentV1 → ScopeResolution
resolve_named key none = unresolved 409 (codes "product environment limit reached")
resolve_named key (some environment) = resolved_to (scope_of key.app_id environment)

abbrev pub resolve_product :
    Dict EnvironmentV1
    → KeyRecordV1
    → Option Text
    → (now : ℕ) (new_id : Text) → ScopeResolution × Dict EnvironmentV1
resolve_product environments key none now new_id =
    (unresolved 400 (codes "environment is required for product key"), environments)
resolve_product environments key (some requested) now new_id =
    let (found, after) = resolve_environment environments key.app_id requested now new_id in
    if is_blank requested
    then (unresolved 400 (codes "environment is required for product key"), environments)
    else (resolve_named key found, after)

abbrev pub resolve_key :
    Dict EnvironmentV1
    → KeyRecordV1
    → Option Text
    → Option Text
    → (now : ℕ) (new_id : Text) → ScopeResolution × Dict EnvironmentV1
resolve_key environments key (some env_id) requested now new_id =
    (resolve_own key requested (get env_id environments), environments)
resolve_key environments key none requested now new_id =
    resolve_product environments key requested now new_id

-- `new_id` is what `newId` gives, should an environment be created.
unfoldable pub resolve_scope :
    Dict EnvironmentV1
    → KeyRecordV1
    → Option Text
    → (now : ℕ) (new_id : Text) → ScopeResolution × Dict EnvironmentV1
resolve_scope environments key requested now new_id =
    resolve_key environments key key.environment_id requested now new_id

pub data IngestResult : Type 0 where
  ok : (accepted duplicates : ℕ) → IngestResult
  refused : (status : ℕ) (error : Text) → IngestResult
  -- An exception left the handler.
  threw : IngestResult
