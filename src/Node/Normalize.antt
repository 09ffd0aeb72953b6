-- ===== src/Node/Normalize.antt =====
-- packages/node/src/normalize.ts: the fields of an endpoint event, made to fit the V1 contract.
pub mod Bounds
pub mod Identifiers
pub mod Routes
use app_health.Prelude.{
  ℕ, ◌+◌, ◌*◌, Bool, true, false, not, ◌&&◌, ◌||◌, List, [], ◌∷◌, Option, none, some, ltb, leb,
  ◌==◌, if◌then◌else◌, length, all, map,
}
use app_health.Js.{Value, undefined, null, other, boolean, number, string}
use app_health.Js.Numbers.{Num, is_finite, is_integer, is_negative, magnitude, round}
use app_health.Js.Strings.{
  same_text, Text, is_digit, is_upper, is_lower, is_hex, trim, before_mark, split, join, codes,
}

abbrev pub max_method_length : ℕ
max_method_length = 16

abbrev pub max_route_length : ℕ
max_route_length = 256

abbrev pub max_release_length : ℕ
max_release_length = 128

abbrev pub max_duration_ms : ℕ
max_duration_ms = 600000

abbrev pub max_response_bytes : ℕ
max_response_bytes = 268435456

abbrev pub min_status_code : ℕ
min_status_code = 100

abbrev pub max_status_code : ℕ
max_status_code = 599

abbrev pub is_empty : Text → Bool
is_empty [] = true
is_empty (c ∷ cs) = false

-- `upper` is `toUpperCase`, which Unicode's tables define.
unfoldable pub normalize_method : (upper : Text → Text) → Value → Option Text
normalize_method upper (string method) =
    let text = upper (trim method) in
    if is_empty text || ltb max_method_length (length text) || not (all is_upper text)
    then none
    else some text
normalize_method upper _ = none

-- `UUID_RE`, group by group
abbrev pub are_uuid_groups : List Text → Bool
are_uuid_groups (a ∷ b ∷ (v ∷ c) ∷ (r ∷ d) ∷ e ∷ []) =
    (length a == 8)
    && all is_hex a
    && (length b == 4)
    && all is_hex b
    && leb b'1' v
    && leb v b'5'
    && (length c == 3)
    && all is_hex c
    && (r == b'8' || r == b'9' || r == b'a' || r == b'b' || r == b'A' || r == b'B')
    && (length d == 3)
    && all is_hex d
    && (length e == 12)
    && all is_hex e
are_uuid_groups _ = false

unfoldable pub is_uuid : Text → Bool
is_uuid segment = are_uuid_groups (split b'-' segment)

-- `NUMERIC_RE`
unfoldable pub is_numeric : Text → Bool
is_numeric segment = not (is_empty segment) && all is_digit segment

unfoldable pub is_identifier_segment : Text → Bool
is_identifier_segment segment = is_numeric segment || is_uuid segment

-- One turn of the loop over the segments.
unfoldable pub normalize_segment : Text → Text
normalize_segment segment =
    if is_empty segment then [] else if is_identifier_segment segment then codes ":id" else segment

-- The loop over the segments, and what it joins.
unfoldable pub with_placeholders : Text → Text
with_placeholders p = join b'/' (map normalize_segment (split b'/' p))

abbrev pub starts_with_slash : Text → Bool
starts_with_slash [] = false
starts_with_slash (c ∷ cs) = c == b'/'

unfoldable pub normalize_route_path : Value → Option Text
normalize_route_path (string path) =
    let p = before_mark b'#' (before_mark b'?' (trim path)) in
    let normalized = with_placeholders p in
    if is_empty p || not (starts_with_slash p)
    then none
    else if ltb max_route_length (length normalized)
    then none
    else some normalized
normalize_route_path _ = none

unfoldable pub normalize_status : Value → Option ℕ
normalize_status (number status) =
    let code = magnitude status in
    if not (is_integer status)
    then none
    else if is_negative status || ltb code min_status_code || ltb max_status_code code
    then none
    else some code
normalize_status _ = none

-- The tests that durations and sizes share, after `Math.round`.
unfoldable pub rounded_within : ℕ → Num → Option ℕ
rounded_within most value =
    let rounded = magnitude (round value) in
    if not (is_finite value) || is_negative value
    then none
    else if ltb most rounded
    then none
    else some rounded

unfoldable pub normalize_duration : Value → Option ℕ
unfolding rounded_within
normalize_duration (number duration_ms) = rounded_within max_duration_ms duration_ms
normalize_duration _ = none

unfoldable pub normalize_response_bytes : Value → Option ℕ
unfolding rounded_within
normalize_response_bytes (number bytes) = rounded_within max_response_bytes bytes
normalize_response_bytes _ = none

abbrev pub is_release_start : ℕ → Bool
is_release_start c = is_upper c || is_lower c || is_digit c

abbrev pub is_release_part : ℕ → Bool
is_release_part c = is_release_start c || c == b'.' || c == b'_' || c == b'+' || c == b'-'

-- `SAFE_RELEASE_RE`
abbrev pub is_safe_release : Text → Bool
is_safe_release [] = false
is_safe_release (c ∷ cs) = is_release_start c && all is_release_part cs

unfoldable pub normalize_release : Value → Option Text
normalize_release (string release) =
    let trimmed = trim release in
    if not (same_text trimmed release)
    then none
    else if is_empty trimmed || ltb max_release_length (length trimmed)
    then none
    else if is_safe_release trimmed
    then some trimmed
    else none
normalize_release _ = none

-- A result of -0 is the number 0.
unfoldable pub normalize_timestamp : Value → Option ℕ
normalize_timestamp (number timestamp) =
    let rounded = round timestamp in
    if not (is_finite timestamp) || is_negative rounded then none else some (magnitude rounded)
normalize_timestamp _ = none
