-- ===== src/Node/Events/Tests.antt =====
-- Endpoint events built from what an application could record.
use Prim.Native.String.{String}
use app_health.Prelude.{◌-◌, ◌≡◌, refl, false, map, none, some, if◌then◌else◌}
use app_health.Js.{Value, undefined, number, string}
use app_health.Js.Numbers.{infinite, finite, of_ℕ}
use app_health.Js.Strings.{
  Text, codes, is_lower, is_space, trim_start, trim_end, trim, before_mark, split, join,
}
use app_health.Node.Normalize.{
  normalize_method, is_uuid, is_numeric, is_identifier_segment, normalize_segment,
  with_placeholders, normalize_route_path, normalize_status, rounded_within, normalize_duration,
  normalize_response_bytes, normalize_release, normalize_timestamp,
}
use app_health.Node.Normalize.Routes.{IsSafeRoute, normalize_route_path-IsSafeRoute}
use app_health.Node.Events.{EventInput, EventV1, build_event_v1}
use app_health.Node.Events.Laws.{IsEvent, build_event_v1-IsEvent}

abbrev ascii_upper : Text → Text
ascii_upper = map (λ c. if is_lower c then c - 32 else c)

abbrev text : String → Value
text s = string (codes s)

abbrev visit : EventInput
visit = record {
  method = text " get ";
  route = text "/users/42/orders/123e4567-e89b-42d3-a456-426614174000?page=2#top";
  status_code = number (of_ℕ 200);
  duration_ms = number (finite false 25 1);
  timestamp = number (infinite false);
  response_bytes = undefined;
  release = text "mail me@example.org";
}

abbrev sent : EventV1
sent = record {
  event_id = codes "e1";
  timestamp = 1000;
  method = codes "GET";
  route = codes "/users/:id/orders/:id";
  status_code = 200;
  duration_ms = 13;
  response_bytes = none;
  release = some (codes "v1.2");
}

build : Unit {0}
unfolding is_space trim_start trim_end trim before_mark split join normalize_method is_uuid
    is_numeric is_identifier_segment normalize_segment with_placeholders normalize_route_path
    normalize_status rounded_within normalize_duration normalize_response_bytes normalize_release
    normalize_timestamp build_event_v1
build = tt

build_event_v1-visit :
    build_event_v1 ascii_upper 1000 (codes "e1") (normalize_release (text "v1.2")) visit ≡ some sent
unfolding build
build_event_v1-visit = refl

normalize_route_path-IsSafeRoute_example : IsSafeRoute (codes "/users/:id/orders/:id")
unfolding build
normalize_route_path-IsSafeRoute_example =
    normalize_route_path-IsSafeRoute visit.route (codes "/users/:id/orders/:id") refl

build_event_v1-IsEvent_example : IsEvent visit sent
build_event_v1-IsEvent_example =
    build_event_v1-IsEvent ascii_upper 1000 (codes "e1") (text "v1.2") visit sent
      build_event_v1-visit
