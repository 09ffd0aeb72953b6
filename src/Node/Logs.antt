-- ===== src/Node/Logs.antt =====
-- packages/node/src/log.ts: an application log from what the application gave to `log()`.
pub mod Laws
mod Tests
use app_health.Prelude.{
  ℕ, ◌-◌, Bool, true, false, not, ◌&&◌, ◌||◌, List, [], ◌∷◌, ◌++◌, Option, none, some, ◌>>=◌,
  or_else, ltb, leb, ◌==◌, if◌then◌else◌, length, take, all,
}
use app_health.Js.{Value, undefined, null, other, boolean, number, string}
use app_health.Js.Numbers.{Num, is_finite, is_integer, is_negative, magnitude}
use app_health.Js.Strings.{Text, trim, codes, is_digit, is_lower, same_text}
use app_health.Contracts.Routing.{LogLevel, debug, info, warn, error}
use app_health.Node.Normalize.{is_empty}

-- `LOG_BOUNDS`
abbrev pub max_title : ℕ
max_title = 200

abbrev pub max_description : ℕ
max_description = 2000

abbrev pub max_icon : ℕ
max_icon = 16

abbrev pub max_props : ℕ
max_props = 40

abbrev pub max_prop_key : ℕ
max_prop_key = 64

abbrev pub max_prop_value : ℕ
max_prop_value = 500

abbrev pub is_event_part : ℕ → Bool
is_event_part c = is_lower c || is_digit c || c == b'_' || c == b'.' || c == b':' || c == b'-'

-- `LOG_EVENT_PATTERN`
unfoldable pub is_log_event : Text → Bool
is_log_event [] = false
is_log_event (c ∷ cs) = (is_lower c || is_digit c) && leb (length cs) 63 && all is_event_part cs

-- The ellipsis stands for what is cut off.
unfoldable pub bounded_text : Value → ℕ → Option Text
bounded_text (string value) most =
    let trimmed = trim value in
    if is_empty trimmed
    then none
    else if ltb most (length trimmed)
    then some (take (most - 1) trimmed ++ 0x2026 ∷ [])
    else some trimmed
bounded_text _ most = none

unfoldable pub normalize_level : Value → Option LogLevel
normalize_level undefined = some info
normalize_level (string value) =
    if same_text value (codes "debug")
    then some debug
    else if same_text value (codes "info")
    then some info
    else if same_text value (codes "warn")
    then some warn
    else if same_text value (codes "error")
    then some error
    else none
normalize_level _ = none

pub data LogPropValue : Type 0 where
  null_prop : LogPropValue
  boolean_prop : Bool → LogPropValue
  number_prop : Num → LogPropValue
  string_prop : Text → LogPropValue

-- `none` is `INVALID`.
unfoldable pub normalize_prop_value : Value → Option LogPropValue
unfolding bounded_text
normalize_prop_value null = some null_prop
normalize_prop_value (boolean raw) = some (boolean_prop raw)
normalize_prop_value (number raw) = if is_finite raw then some (number_prop raw) else none
normalize_prop_value (string raw) =
    some (string_prop (or_else (bounded_text (string raw) max_prop_value) []))
normalize_prop_value _ = none

-- What stands for the props: nothing, an object by its entries, or something else. The keys of an
-- object are distinct, and `__proto__`, which an assignment does not make an entry of, is none.
pub data PropsInput : Type 0 where
  absent not_an_object : PropsInput
  entries : List (Text × Value) → PropsInput

abbrev pub Props : Type 0
Props = List (Text × LogPropValue)

abbrev pub is_undefined : Value → Bool
is_undefined undefined = true
is_undefined _ = false

-- The loop over the entries.
unfoldable pub normalize_entries : List (Text × Value) → Option Props
normalize_entries [] = some []
normalize_entries ((key, raw) ∷ rest) =
    let others = normalize_entries rest in
    if is_undefined raw
    then others
    else if is_empty key || ltb max_prop_key (length key)
    then none
    else (normalize_prop_value raw >>= λ value. others >>= λ props. some ((key, value) ∷ props))

unfoldable pub normalize_props : PropsInput → Option Props
normalize_props absent = some []
normalize_props not_an_object = none
normalize_props (entries es) = do
  props ← normalize_entries es
  if ltb max_props (length props) then none else some props

pub record LogInput : Type 0 where
  level : Value
  title : Value
  description : Value
  icon : Value
  props : PropsInput
  timestamp : Value

pub record LogEventV1 : Type 0 where
  log_id : Text
  timestamp : ℕ
  event : Text
  level : LogLevel
  title : Option Text
  description : Option Text
  icon : Option Text
  props : Props

unfoldable pub log_timestamp : Value → ℕ → ℕ
log_timestamp (number timestamp) now =
    if is_integer timestamp && not (is_negative timestamp) then magnitude timestamp else now
log_timestamp _ now = now

abbrev pub event_name : Value → Option Text
event_name (string event) = if is_log_event event then some event else none
event_name _ = none

-- `now` and `uuid` are what the clock and the generator give.
unfoldable pub build_log_event_v1 : Value → LogInput → (now : ℕ) (uuid : Text) → Option LogEventV1
build_log_event_v1 event input now uuid = do
  name ← event_name event
  level ← normalize_level input.level
  props ← normalize_props input.props
  some (record {
    log_id = uuid;
    timestamp = log_timestamp input.timestamp now;
    event = name;
    level = level;
    title = bounded_text input.title max_title;
    description = bounded_text input.description max_description;
    icon = bounded_text input.icon max_icon;
    props = props;
  })
