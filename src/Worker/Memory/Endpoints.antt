-- ===== src/Worker/Memory/Endpoints.antt =====
-- The endpoint inventory: when each method and route was first and last observed.
pub mod Seen
mod Tests
use app_health.Prelude.{
  ℕ, min, max, Bool, true, false, List, [], ◌∷◌, Option, none, some, if◌then◌else◌, filter,
}
use app_health.Js.Strings.{Text, starts_with, join}
use app_health.Js.Maps.{Dict, get, set, values}
use app_health.Worker.Memory.{scope_prefix}

pub record ObservedEndpoint : Type 0 where
  pub method : Text
  pub route : Text
  pub first_seen : ℕ
  pub last_seen : ℕ

pub record Observation : Type 0 where
  pub method : Text
  pub route : Text
  pub timestamp : ℕ

-- `${appId}|${envId}|${endpoint.method}|${endpoint.route}`
unfoldable pub endpoint_key : (app_id env_id : Text) → Observation → Text
endpoint_key app_id env_id endpoint =
    join b'|' (app_id ∷ env_id ∷ endpoint.method ∷ endpoint.route ∷ [])

abbrev pub observed : Option ObservedEndpoint → Observation → ObservedEndpoint
observed none endpoint = record {
  method = endpoint.method;
  route = endpoint.route;
  first_seen = endpoint.timestamp;
  last_seen = endpoint.timestamp;
}
observed (some existing) endpoint = record existing {
  first_seen = min existing.first_seen endpoint.timestamp;
  last_seen = max existing.last_seen endpoint.timestamp;
}

unfoldable pub record_observed :
    Dict ObservedEndpoint → (app_id env_id : Text) → List Observation → Dict ObservedEndpoint
record_observed inventory app_id env_id [] = inventory
record_observed inventory app_id env_id (endpoint ∷ endpoints) =
    let key = endpoint_key app_id env_id endpoint in
    record_observed (set key (observed (get key inventory) endpoint) inventory) app_id env_id
      endpoints

abbrev pub in_scope : (app_id env_id : Text) → Text × ObservedEndpoint → Bool
in_scope app_id env_id (key, endpoint) = starts_with (scope_prefix app_id env_id) key

unfoldable pub list_observed :
    Dict ObservedEndpoint → (app_id env_id : Text) → List ObservedEndpoint
list_observed inventory app_id env_id = values (filter (in_scope app_id env_id) inventory)
