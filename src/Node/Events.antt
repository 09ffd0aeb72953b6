-- ===== src/Node/Events.antt =====
-- packages/node/src/client.ts, buildEventV1: an endpoint event from what the application recorded.
pub mod Laws
mod Tests
use app_health.Prelude.{ℕ, Option, none, some, ◌>>=◌, or_else}
use app_health.Js.{Value}
use app_health.Js.Strings.{Text}
use app_health.Node.Normalize.{
  normalize_method, normalize_route_path, normalize_status, normalize_duration, normalize_release,
  normalize_timestamp, normalize_response_bytes,
}

-- What `record` is given: nothing is known of the fields before they are normalized.
pub record EventInput : Type 0 where
  method : Value
  route : Value
  status_code : Value
  duration_ms : Value
  timestamp : Value
  response_bytes : Value
  release : Value

pub record EventV1 : Type 0 where
  event_id : Text
  timestamp : ℕ
  method : Text
  route : Text
  status_code : ℕ
  duration_ms : ℕ
  response_bytes : Option ℕ
  release : Option Text

-- `a ?? b` between optional values.
abbrev pub either {ℓ} : {A : Type ℓ} → Option A → Option A → Option A
either (some a) b = some a
either none b = b

-- `upper` is `toUpperCase`, `now` and `uuid` are what the clock and the generator give.
unfoldable pub build_event_v1 :
    (upper : Text → Text) (now : ℕ) (uuid : Text) (default_release : Option Text)
    → EventInput
    → Option EventV1
build_event_v1 upper now uuid default_release event = do
  method ← normalize_method upper event.method
  route ← normalize_route_path event.route
  status ← normalize_status event.status_code
  duration ← normalize_duration event.duration_ms
  some (record {
    event_id = uuid;
    timestamp = or_else (normalize_timestamp event.timestamp) now;
    method = method;
    route = route;
    status_code = status;
    duration_ms = duration;
    response_bytes = normalize_response_bytes event.response_bytes;
    release = either (normalize_release event.release) default_release;
  })
