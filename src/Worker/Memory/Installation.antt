-- ===== src/Worker/Memory/Installation.antt =====
-- The installation repository: when an environment was heard from, and what its operator is told.
pub mod Status
mod Tests
use app_health.Prelude.{
  ℕ, ◌+◌, ◌*◌, Bool, true, false, not, ◌&&◌, ◌||◌, List, [], ◌∷◌, ◌++◌, Option, none, some, is_some,
  leb, ltb, if◌then◌else◌, any, get_elem?,
}
use app_health.Js.Strings.{Text, codes, same_text}
use app_health.Js.Maps.{Dict, get, set, values}
use app_health.Worker.Memory.{scope_key}
use app_health.Worker.Memory.Keys.{
  KeyStore, KeyRecordV1, same_environment, get_active_key_for_environment,
}

pub data Runtime : Type 0 where
  node worker go otel : Runtime

pub record InstallationRow : Type 0 where
  pub app_id : Text
  pub environment_id : Text
  pub runtime : Option Runtime
  pub first_seen : Option ℕ
  pub last_seen : Option ℕ

pub data InstallationState : Type 0 where
  waiting connected stale revoked error : InstallationState

pub record InstallationStatusV1 : Type 0 where
  pub state : InstallationState
  pub runtime : Option Runtime
  pub first_seen : Option ℕ
  pub last_seen : Option ℕ
  pub next_action : Text

abbrev pub stale_threshold_ms : ℕ
stale_threshold_ms = 15 * 60 * 1000

abbrev pub first_heard : Option ℕ → ℕ → Option ℕ
first_heard none now = some now
first_heard (some seen) now = some seen

-- The row after an ingest, from the one that was there.
abbrev pub ingested :
    Option InstallationRow → (app_id env_id : Text) → Runtime → ℕ → InstallationRow
ingested none app_id env_id runtime now = record {
  app_id = app_id;
  environment_id = env_id;
  runtime = some runtime;
  first_seen = some now;
  last_seen = some now;
}
ingested (some row) app_id env_id runtime now = record row {
  runtime = some runtime;
  last_seen = some now;
  first_seen = first_heard row.first_seen now;
}

unfoldable pub record_ingest :
    Dict InstallationRow → (app_id env_id : Text) → Runtime → ℕ → Dict InstallationRow
record_ingest installation app_id env_id runtime now =
    let key = scope_key app_id env_id in
    set key (ingested (get key installation) app_id env_id runtime now) installation

-- The test of the loop of `getStatus` over the keys.
abbrev pub is_revoked_for : (app_id env_id : Text) → Option KeyRecordV1 → Bool
is_revoked_for app_id env_id none = false
is_revoked_for app_id env_id (some key) =
    same_text key.app_id app_id
    && (same_environment key.environment_id (some env_id)
        || same_environment key.environment_id none)
    && is_some key.revoked_at

unfoldable pub is_revoked : KeyStore → (app_id env_id : Text) → Bool
is_revoked keys app_id env_id =
    not (is_some (get_active_key_for_environment keys app_id env_id))
    && any (λ address. is_revoked_for app_id env_id (get_elem? keys.objects address))
        (values keys.by_id)

abbrev pub revoked_status : InstallationStatusV1
revoked_status = record {
  state = revoked;
  runtime = none;
  first_seen = none;
  last_seen = none;
  next_action = codes "Generate a new ingest key and update your SDK configuration.";
}

abbrev pub waiting_status : InstallationStatusV1
waiting_status = record {
  state = waiting;
  runtime = none;
  first_seen = none;
  last_seen = none;
  next_action = codes "Install the SDK with this environment" ++ 0x2019 ∷ codes "s ingest key.";
}

abbrev pub stale_status : InstallationRow → InstallationStatusV1
stale_status row = record {
  state = stale;
  runtime = row.runtime;
  first_seen = row.first_seen;
  last_seen = row.last_seen;
  next_action = codes "No recent traffic received. Send requests to instrumented endpoints.";
}

abbrev pub connected_status : InstallationRow → InstallationStatusV1
connected_status row = record {
  state = connected;
  runtime = row.runtime;
  first_seen = row.first_seen;
  last_seen = row.last_seen;
  next_action = codes "Send traffic to your instrumented endpoints to populate the dashboard.";
}

-- The status by when the row was last seen.
abbrev pub status_at : ℕ → InstallationRow → Option ℕ → InstallationStatusV1
status_at now row none = waiting_status
status_at now row (some last_seen) =
    if ltb (last_seen + stale_threshold_ms) now then stale_status row else connected_status row

abbrev pub status_of_row : ℕ → Option InstallationRow → InstallationStatusV1
status_of_row now none = waiting_status
status_of_row now (some row) = status_at now row row.last_seen

unfoldable pub get_status :
    KeyStore → Dict InstallationRow → (app_id env_id : Text) → ℕ → InstallationStatusV1
unfolding is_revoked
get_status keys installation app_id env_id now =
    if is_revoked keys app_id env_id
    then revoked_status
    else status_of_row now (get (scope_key app_id env_id) installation)
