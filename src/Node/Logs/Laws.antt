-- ===== src/Node/Logs/Laws.antt =====
-- What the logs that buildLogEventV1 returns hold.
use app_health.Prelude.{
  ℕ, zero, suc, ◌-◌, ◌≤◌, ◌≡◌, refl, true, false, ◌||◌, List, [], ◌∷◌, ◌++◌, Option, none, some,
  or_else, ltb, length, length-append, take, arith, bound, returned, not_refused, let_through,
  or_parts, Bool-cases, inl, inr,
}
use app_health.Js.{Value, undefined, null, other, boolean, number, string}
use app_health.Js.Strings.{Text, trim}
use app_health.Node.Normalize.{is_empty}
use app_health.Node.Events.Laws.{Holds, Holds-none}
use app_health.Node.Logs.{
  max_title, max_description, max_icon, max_props, max_prop_key, max_prop_value, LogPropValue,
  string_prop, PropsInput, absent, not_an_object, entries, Props, LogInput, LogEventV1,
  is_log_event, bounded_text, normalize_level, normalize_prop_value, normalize_entries,
  normalize_props, is_undefined, event_name, build_log_event_v1,
}

-- A text that is there is not empty, and short.
pub record IsShort (most : ℕ) (text : Text) : Type 0 where
  pub named : is_empty text ≡ false
  pub short : length text ≤ most

length-take : (n : ℕ) (text : Text) → length (take n text) ≤ n
length-take zero text = omega arith
length-take (suc n) [] = omega arith
length-take (suc n) (c ∷ text) = omega (arith, length-take n text)

cut_named : (text : Text) (c : ℕ) → is_empty (text ++ c ∷ []) ≡ false
cut_named [] c = refl
cut_named (d ∷ text) c = refl

bounded_text-IsShort :
    (value : Value) (most : ℕ) (text : Text)
    → 1 ≤ most
    → bounded_text value most ≡ some text
    → IsShort most text
unfolding bounded_text
bounded_text-IsShort (string value) most text pos h =
    let trimmed = trim value in
    let (named, rest) = not_refused (is_empty trimmed) h in
    elim (Bool-cases (ltb most (length trimmed))) [
      | inl long ↦ returned (IsShort most) (rw long at rest) (record {
        named = cut_named (take (most - 1) trimmed) 0x2026;
        short = omega (
          arith,
          length-take (most - 1) trimmed,
          length-append (take (most - 1) trimmed) (0x2026 ∷ []),
        );
      })
      | inr fits ↦
          returned (IsShort most) (rw fits at rest) (record { named = named; short = ground arith })
    ]
bounded_text-IsShort undefined most text pos h = ground arith
bounded_text-IsShort null most text pos h = ground arith
bounded_text-IsShort other most text pos h = ground arith
bounded_text-IsShort (boolean b) most text pos h = ground arith
bounded_text-IsShort (number n) most text pos h = ground arith

-- A value of a prop: a text among them is short.
abbrev pub IsPropValue : LogPropValue → Type 0
IsPropValue (string_prop text) = length text ≤ max_prop_value
IsPropValue _ = Unit {0}

pub data AllProps : Props → Type 0 where
  none_left : AllProps []
  one_more :
      {key : Text} {value : LogPropValue} {props : Props}
      → IsShort max_prop_key key
      → IsPropValue value
      → AllProps props
      → AllProps ((key, value) ∷ props)

or_else_short :
    (o : Option Text) → Holds (IsShort max_prop_value) o → length (or_else o []) ≤ max_prop_value
or_else_short none h = omega arith
or_else_short (some text) h = h.short

normalize_prop_value-IsPropValue :
    (raw : Value) (value : LogPropValue) → normalize_prop_value raw ≡ some value → IsPropValue value
unfolding normalize_prop_value
normalize_prop_value-IsPropValue null value h = returned IsPropValue h tt
normalize_prop_value-IsPropValue (boolean b) value h = returned IsPropValue h tt
normalize_prop_value-IsPropValue (number n) value h = returned IsPropValue (let_through _ h).1 tt
normalize_prop_value-IsPropValue (string s) value h = returned IsPropValue h (
    or_else_short (bounded_text (string s) max_prop_value) (
      Holds-none (IsShort max_prop_value) (bounded_text (string s) max_prop_value)
        (λ text e. bounded_text-IsShort (string s) max_prop_value text (omega arith) e)))
normalize_prop_value-IsPropValue undefined value h = ground arith
normalize_prop_value-IsPropValue other value h = ground arith

normalize_entries-AllProps :
    (es : List (Text × Value)) (props : Props) → normalize_entries es ≡ some props → AllProps props
unfolding normalize_entries
normalize_entries-AllProps [] props h = returned AllProps h none_left
normalize_entries-AllProps ((key, raw) ∷ rest) props h = elim (Bool-cases (is_undefined raw)) [
  | inl skipped ↦ normalize_entries-AllProps rest props (rw skipped at h)
  | inr given ↦
      let (fits, h1) =
        not_refused (is_empty key || ltb max_prop_key (length key)) (rw given at h) in
      let (named, short) = or_parts (is_empty key) (ltb max_prop_key (length key)) fits in
      let (value, value_is, h2) = bound (normalize_prop_value raw) h1 in
      let (others, others_are, h3) = bound (normalize_entries rest) h2 in
      returned AllProps h3 (
        one_more (record { named = named; short = ground arith })
          (normalize_prop_value-IsPropValue raw value value_is)
          (normalize_entries-AllProps rest others others_are))
]

normalize_props_lem :
    (input : PropsInput) (props : Props)
    → normalize_props input ≡ some props
    → AllProps props × (length props ≤ max_props)
unfolding normalize_props
normalize_props_lem absent props h =
    returned (λ props. AllProps props × (length props ≤ max_props)) h (none_left, omega arith)
normalize_props_lem not_an_object props h = ground arith
normalize_props_lem (entries es) props h =
    let (taken, taken_are, h1) = bound (normalize_entries es) h in
    let (few, same) = not_refused (ltb max_props (length taken)) h1 in
    returned (λ props. AllProps props × (length props ≤ max_props)) same
      (normalize_entries-AllProps es taken taken_are, ground arith)

-- What a log says, within the bounds of the contract.
pub record IsLog (log : LogEventV1) : Type 0 where
  event : is_log_event log.event ≡ true
  title : Holds (IsShort max_title) log.title
  description : Holds (IsShort max_description) log.description
  icon : Holds (IsShort max_icon) log.icon
  props : AllProps log.props
  few_props : length log.props ≤ max_props

event_name_lem :
    (value : Value) (name : Text) → event_name value ≡ some name → is_log_event name ≡ true
event_name_lem (string s) name h =
    let (fits, same) = let_through (is_log_event s) h in
    returned (λ name. is_log_event name ≡ true) same fits
event_name_lem undefined name h = ground arith
event_name_lem null name h = ground arith
event_name_lem other name h = ground arith
event_name_lem (boolean b) name h = ground arith
event_name_lem (number n) name h = ground arith

Holds-bounded_text :
    (value : Value) (most : ℕ) → 1 ≤ most → Holds (IsShort most) (bounded_text value most)
Holds-bounded_text value most pos =
    Holds-none (IsShort most) (bounded_text value most)
      (λ text e. bounded_text-IsShort value most text pos e)

-- Whatever is given to `log()`, a log that is built has an event name of the contract's form, texts
-- that are not empty and within their bounds, and at most 40 props, with keys of 1 to 64 code units
-- and texts of at most 500.
pub build_log_event_v1-IsLog :
    (event : Value) (input : LogInput) (now : ℕ) (uuid : Text) (log : LogEventV1)
    → build_log_event_v1 event input now uuid ≡ some log
    → IsLog log
unfolding build_log_event_v1
build_log_event_v1-IsLog event input now uuid log h =
    let (name, name_is, h1) = bound (event_name event) h in
    let (level, level_is, h2) = bound (normalize_level input.level) h1 in
    let (props, props_are, h3) = bound (normalize_props input.props) h2 in
    let (valid, few) = normalize_props_lem input.props props props_are in
    returned IsLog h3 (record {
      event = event_name_lem event name name_is;
      title = Holds-bounded_text input.title max_title (omega arith);
      description = Holds-bounded_text input.description max_description (omega arith);
      icon = Holds-bounded_text input.icon max_icon (omega arith);
      props = valid;
      few_props = few;
    })
