-- ===== src/Worker/Memory/Failures.antt =====
-- The failure repository: the events with an error status.
pub mod Listing
mod Tests
use app_health.Prelude.{
  ℕ, ◌+◌, Bool, true, false, not, ◌&&◌, List, [], ◌∷◌, Option, none, some, leb, ltb, ◌==◌,
  if◌then◌else◌, filter, take, map,
}
use app_health.Js.Strings.{Text, same_text, starts_with}
use app_health.Js.Maps.{Dict, get, set, values}
use app_health.Js.Sorting.{sort_by}
use app_health.Worker.Memory.{scope_prefix, item_key}

pub record EventV1 : Type 0 where
  pub event_id : Text
  pub timestamp : ℕ
  pub method : Text
  pub route : Text
  pub status_code : ℕ
  pub duration_ms : ℕ
  pub response_bytes : Option ℕ
  pub release : Option Text

pub record FailureEventV1 : Type 0 where
  pub failure_id : Text
  pub method : Text
  pub route : Text
  pub status_code : ℕ
  pub duration_ms : ℕ
  pub occurred_at : ℕ
  pub release : Option Text

unfoldable pub record_failures : Dict EventV1 → (app_id env_id : Text) → List EventV1 → Dict EventV1
record_failures stored app_id env_id [] = stored
record_failures stored app_id env_id (event ∷ events) =
    let with_event = set (item_key app_id env_id event.event_id) event stored in
    record_failures (if leb 400 event.status_code then with_event else stored) app_id env_id events

unfoldable pub is_listed : (app_id env_id : Text) (from : ℕ) → Text × EventV1 → Bool
is_listed app_id env_id from (key, event) =
    starts_with (scope_prefix app_id env_id) key && leb from event.timestamp

-- The comparison: `left` stands before `right`, or they are equal.
unfoldable pub event_precedes :
    (locale_leb : Text → Text → Bool) → Text × EventV1 → Text × EventV1 → Bool
event_precedes locale_leb (key, left) (key', right) =
    if right.timestamp == left.timestamp
    then locale_leb right.event_id left.event_id
    else ltb right.timestamp left.timestamp

abbrev pub failure_of : EventV1 → FailureEventV1
failure_of event = record {
  failure_id = event.event_id;
  method = event.method;
  route = event.route;
  status_code = event.status_code;
  duration_ms = event.duration_ms;
  occurred_at = event.timestamp;
  release = event.release;
}

-- The entries of the events that `listFailures` returns.
unfoldable pub listed_failures :
    (locale_leb : Text → Text → Bool)
    → Dict EventV1
    → (app_id env_id : Text) (from limit : ℕ) → List (Text × EventV1)
listed_failures locale_leb stored app_id env_id from limit =
    take limit (sort_by (event_precedes locale_leb) (filter (is_listed app_id env_id from) stored))

unfoldable pub list_failures :
    (locale_leb : Text → Text → Bool)
    → Dict EventV1
    → (app_id env_id : Text) (from limit : ℕ) → List FailureEventV1
unfolding listed_failures
list_failures locale_leb stored app_id env_id from limit =
    map failure_of (values (listed_failures locale_leb stored app_id env_id from limit))
