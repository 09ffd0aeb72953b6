-- ===== src/Node/Normalize/Routes.antt =====
-- What normalizeRoutePath lets through: rooted, bounded templates without identifiers.
use app_health.Prelude.{
  ℕ, ◌≤◌, ◌≡◌, refl, ap, ◌∙◌, Bool, true, not, ◌||◌, List, [], ◌∷◌, some, returned, ltb, ◌==◌,
  length, all, map, arith, if_elim, all-map, not_refused, not-false, or_parts, and_parts, all_of,
  all_weaken,
}
use app_health.Js.{Value, undefined, null, other, boolean, number, string}
use app_health.Js.Strings.{Text, trim, before_mark, split, join, codes}
use app_health.Js.Strings.Splitting.{
  lacks, split_parts, split_mark, join_next, all-split, lacks-split, all-join, split-join,
  lacks-before_mark, all-before_mark,
}
use mathlib.Core.List.{Memᴰ}
use app_health.Node.Normalize.Identifiers.{
  is_number, IsUuid, is_identifier_segment-number, is_identifier_segment-IsUuid,
}
use app_health.Node.Normalize.{
  normalize_route_path, normalize_segment, is_identifier_segment, is_numeric, is_uuid,
  starts_with_slash, with_placeholders, is_empty, max_route_length,
}

-- What the telemetry may hold of a route.
pub record IsSafeRoute (route : Text) : Type 0 where
  rooted : starts_with_slash route ≡ true
  without_query : lacks b'?' route ≡ true
  without_fragment : lacks b'#' route ≡ true
  bounded : length route ≤ max_route_length
  without_numbers : all (λ segment. not (is_number segment)) (split b'/' route) ≡ true
  without_uuids : (segment : Text) → Memᴰ segment (split b'/' route) → ¬ IsUuid segment

all-normalize_segment :
    (p : ℕ → Bool)
    → all p (codes ":id") ≡ true
    → (segment : Text) → all p segment ≡ true
    → all p (normalize_segment segment) ≡ true
unfolding normalize_segment
all-normalize_segment p id segment h =
    if_elim (λ s. all p s ≡ true) (is_empty segment) (λ e. refl)
      (λ e. if_elim (λ s. all p s ≡ true) (is_identifier_segment segment) (λ k. id) (λ k. h))

normalize_segment_known :
    (segment : Text) → not (is_identifier_segment (normalize_segment segment)) ≡ true
unfolding normalize_segment is_identifier_segment is_numeric is_uuid split
normalize_segment_known segment =
    if_elim (λ s. not (is_identifier_segment s) ≡ true) (is_empty segment) (λ e. refl)
      (λ e.
        if_elim (λ s. not (is_identifier_segment s) ≡ true) (is_identifier_segment segment)
          (λ k. refl) (λ k. rw k refl))

with_placeholders-split :
    (p : Text) (parts : List Text)
    → split b'/' p ≡ parts
    → with_placeholders p ≡ join b'/' (map normalize_segment parts)
unfolding with_placeholders
with_placeholders-split p parts e = rw e refl

rooted_join :
    (part : Text) (rest : List Text)
    → starts_with_slash (join b'/' (map normalize_segment ([] ∷ part ∷ rest))) ≡ true
unfolding normalize_segment
rooted_join part rest =
    rw (join_next b'/' [] (normalize_segment part) (map normalize_segment rest)) refl

-- The loop keeps the leading slash.
with_placeholders_rooted :
    (p : Text) → starts_with_slash p ≡ true → starts_with_slash (with_placeholders p) ≡ true
with_placeholders_rooted [] h = ground arith
with_placeholders_rooted (c ∷ cs) h =
    let (part, rest, e) = split_parts b'/' cs in
    let cut = split_mark b'/' c cs h ∙ ap (◌∷◌ []) e in
    rw (with_placeholders-split (c ∷ cs) ([] ∷ part ∷ rest) cut) (rooted_join part rest)

-- The loop brings in no code unit but those of the placeholder.
all-with_placeholders :
    (p : ℕ → Bool)
    → all p (codes ":id") ≡ true
    → p b'/' ≡ true
    → (path : Text) → all p path ≡ true
    → all p (with_placeholders path) ≡ true
unfolding with_placeholders
all-with_placeholders p id slash path h =
    all-join p b'/' (map normalize_segment (split b'/' path)) slash (
      all-map (all p) (all p) normalize_segment (all-normalize_segment p id) (split b'/' path)
        (all-split p b'/' path h))

-- The segments of the result are those that the loop pushed.
split-with_placeholders :
    (path : Text) → split b'/' (with_placeholders path) ≡ map normalize_segment (split b'/' path)
unfolding with_placeholders
split-with_placeholders path =
    let (part, rest, e) = split_parts b'/' path in
    let lack =
      all-map (lacks b'/') (lacks b'/') normalize_segment
        (all-normalize_segment (λ c. not (c == b'/')) refl) (split b'/' path)
        (lacks-split b'/' path) in
    rw e (split-join b'/' (normalize_segment part) (map normalize_segment rest) (rw e at lack))

with_placeholders_known :
    (path : Text)
    → all (λ segment. not (is_identifier_segment segment)) (split b'/' (with_placeholders path))
      ≡ true
with_placeholders_known path = rw (split-with_placeholders path) (
    all-map (λ segment. true) (λ segment. not (is_identifier_segment segment)) normalize_segment
      (λ segment h. normalize_segment_known segment) (split b'/' path)
      (all_of (λ segment. true) (λ segment. refl) (split b'/' path)))

member_all :
    {A : Type 0} (p : A → Bool) (xs : List A) (x : A) → all p xs ≡ true → Memᴰ x xs → p x ≡ true
member_all p [] x h nowhere = elim nowhere [ ]
member_all p (y ∷ ys) x h (Memᴰ.head e) = rw e (and_parts (p y) (all p ys) h).0
member_all p (y ∷ ys) x h (Memᴰ.tail there) =
    member_all p ys x (and_parts (p y) (all p ys) h).1 there

-- A route that normalizeRoutePath returns is rooted, holds no query string and no fragment, fits in
-- 256 code units, and none of its segments is a decimal number or a UUID of a version from 1 to 5.
pub normalize_route_path-IsSafeRoute :
    (value : Value) (route : Text) → normalize_route_path value ≡ some route → IsSafeRoute route
unfolding normalize_route_path
normalize_route_path-IsSafeRoute (string path) route h =
    let p = before_mark b'#' (before_mark b'?' (trim path)) in
    let (entered, fits) = not_refused (is_empty p || not (starts_with_slash p)) h in
    let (few, same) = not_refused (ltb max_route_length (length (with_placeholders p))) fits in
    returned IsSafeRoute same (record {
      rooted = with_placeholders_rooted p (
          not-false (starts_with_slash p)
            (or_parts (is_empty p) (not (starts_with_slash p)) entered).1);
      without_query =
          all-with_placeholders (λ c. not (c == b'?')) refl refl p
            (all-before_mark (λ c. not (c == b'?')) b'#' (before_mark b'?' (trim path))
              (lacks-before_mark b'?' (trim path)));
      without_fragment =
          all-with_placeholders (λ c. not (c == b'#')) refl refl p
            (lacks-before_mark b'#' (before_mark b'?' (trim path)));
      bounded = ground arith;
      without_numbers =
          all_weaken (λ segment. not (is_identifier_segment segment))
            (λ segment. not (is_number segment)) is_identifier_segment-number
            (split b'/' (with_placeholders p)) (with_placeholders_known p);
      without_uuids = λ segment there. is_identifier_segment-IsUuid segment (
          member_all (λ segment. not (is_identifier_segment segment))
            (split b'/' (with_placeholders p)) segment (with_placeholders_known p) there);
    })
normalize_route_path-IsSafeRoute undefined route h = ground arith
normalize_route_path-IsSafeRoute null route h = ground arith
normalize_route_path-IsSafeRoute other route h = ground arith
normalize_route_path-IsSafeRoute (boolean b) route h = ground arith
normalize_route_path-IsSafeRoute (number n) route h = ground arith
