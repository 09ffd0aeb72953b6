-- ===== src/Worker/Memory.antt =====
-- apps/worker/src/in-memory-adapter.ts: the repositories of the service, in maps.
pub mod Keys
pub mod Dedupe
pub mod Buckets
pub mod Environments
pub mod Installation
pub mod Pages
pub mod Logs
pub mod Failures
pub mod Endpoints
pub mod PublicKeys
pub mod Capabilities
use app_health.Prelude.{List, [], ◌∷◌}
use app_health.Js.Strings.{Text, join}

-- `${appId}|${envId}`
unfoldable pub scope_key : Text → Text → Text
scope_key app_id env_id = join b'|' (app_id ∷ env_id ∷ [])

-- `${appId}|${envId}|`
unfoldable pub scope_prefix : Text → Text → Text
scope_prefix app_id env_id = join b'|' (app_id ∷ env_id ∷ [] ∷ [])

-- `${appId}|${envId}|${id}`
unfoldable pub item_key : (app_id env_id id : Text) → Text
item_key app_id env_id id = join b'|' (app_id ∷ env_id ∷ id ∷ [])
