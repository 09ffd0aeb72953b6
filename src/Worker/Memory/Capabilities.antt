-- ===== src/Worker/Memory/Capabilities.antt =====
-- apps/worker/src/capability-store.ts: which capabilities an environment has on, and when each was
-- first and last heard of.
use app_health.Prelude.{
  ℕ, max, Bool, true, false, ◌||◌, List, [], ◌∷◌, Option, none, some, or_else, is_some,
  if◌then◌else◌, map, any, not,
}
use app_health.Js.Strings.{Text, join}
use app_health.Js.Maps.{Dict, get, set}

pub data CapabilityId : Type 0 where
  analytics endpoints logs : CapabilityId

abbrev pub same_capability : CapabilityId → CapabilityId → Bool
same_capability endpoints endpoints = true
same_capability analytics analytics = true
same_capability logs logs = true
same_capability _ _ = false

pub record CapabilityState : Type 0 where
  pub id : CapabilityId
  pub enabled : Bool
  pub first_received_at : Option ℕ
  pub last_received_at : Option ℕ

abbrev pub empty_capability : CapabilityId → CapabilityState
empty_capability id = record {
  id = id;
  enabled = false;
  first_received_at = none;
  last_received_at = none;
}

abbrev pub no_capabilities : List CapabilityState
no_capabilities =
    empty_capability analytics ∷ empty_capability endpoints ∷ empty_capability logs ∷ []

-- `${app}:${env}`
unfoldable pub capability_key : (app_id env_id : Text) → Text
capability_key app_id env_id = join b':' (app_id ∷ env_id ∷ [])

unfoldable pub read_capabilities :
    Dict (List CapabilityState) → (app_id env_id : Text) → List CapabilityState
read_capabilities rows app_id env_id =
    or_else (get (capability_key app_id env_id) rows) no_capabilities

abbrev pub with_enabled : List CapabilityId → CapabilityState → CapabilityState
with_enabled enabled row = record row { enabled = any (same_capability row.id) enabled }

unfoldable pub set_capabilities :
    Dict (List CapabilityState)
    → (app_id env_id : Text) → List CapabilityId
    → Dict (List CapabilityState)
unfolding read_capabilities
set_capabilities rows app_id env_id enabled =
    set (capability_key app_id env_id)
      (map (with_enabled enabled) (read_capabilities rows app_id env_id)) rows

-- What `recordCapability` does to the row of the capability.
abbrev pub received : ℕ → CapabilityState → CapabilityState
received now row = record row {
  enabled = row.enabled || not (is_some row.first_received_at);
  first_received_at = some (or_else row.first_received_at now);
  last_received_at = some (max (or_else row.last_received_at 0) now);
}

-- The rows with the first of the capability changed.
unfoldable pub received_row : CapabilityId → ℕ → List CapabilityState → List CapabilityState
received_row id now [] = []
received_row id now (row ∷ rows) =
    let rest = row ∷ received_row id now rows in
    if same_capability row.id id then received now row ∷ rows else rest

unfoldable pub record_capability :
    Dict (List CapabilityState)
    → (app_id env_id : Text) → CapabilityId
    → ℕ
    → Dict (List CapabilityState)
unfolding read_capabilities received_row
record_capability rows app_id env_id id now =
    set (capability_key app_id env_id) (received_row id now (read_capabilities rows app_id env_id))
      rows
