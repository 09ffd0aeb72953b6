-- ===== src/Node/Logs/Tests.antt =====
-- A log of a signup, with a prop that is left undefined.
use Prim.Native.String.{String}
use app_health.Prelude.{◌≡◌, refl, true, [], ◌∷◌, none, some}
use app_health.Js.{Value, undefined, null, number, string}
use app_health.Js.Numbers.{infinite}
use app_health.Js.Strings.{codes, is_space, trim_start, trim_end, trim}
use app_health.Contracts.Routing.{warn}
use app_health.Node.Logs.{
  LogInput, LogEventV1, null_prop, string_prop, entries, is_log_event, bounded_text,
  normalize_level, normalize_prop_value, normalize_entries, normalize_props, log_timestamp,
  build_log_event_v1,
}
use app_health.Node.Logs.Laws.{IsLog, build_log_event_v1-IsLog}

abbrev text : String → Value
text s = string (codes s)

abbrev signup : LogInput
signup = record {
  level = text "warn";
  title = text "  New account ";
  description = text "   ";
  icon = undefined;
  props =
      entries
        ((codes "plan", text "pro") ∷ (codes "coupon", undefined) ∷ (codes "seat", null) ∷ []);
  timestamp = number (infinite true);
}

abbrev logged : LogEventV1
logged = record {
  log_id = codes "id";
  timestamp = 5;
  event = codes "user.signup";
  level = warn;
  title = some (codes "New account");
  description = none;
  icon = none;
  props = (codes "plan", string_prop (codes "pro")) ∷ (codes "seat", null_prop) ∷ [];
}

build_log_event_v1-signup :
    build_log_event_v1 (text "user.signup") signup 5 (codes "id") ≡ some logged
unfolding is_space trim_start trim_end trim is_log_event bounded_text normalize_level
    normalize_prop_value normalize_entries normalize_props log_timestamp build_log_event_v1
build_log_event_v1-signup = refl

build_log_event_v1-IsLog_example : IsLog logged
build_log_event_v1-IsLog_example =
    build_log_event_v1-IsLog (text "user.signup") signup 5 (codes "id") logged
      build_log_event_v1-signup
