-- ===== src/Node/Events/Laws.antt =====
-- What the events that buildEventV1 returns hold.
use app_health.Prelude.{
  ℕ, ◌≡◌, refl, sym, ◌∙◌, true, false, not, ◌||◌, [], ◌∷◌, Option, none, some, ◌≤◌, ltb, ◌==◌,
  length, all, all_weaken, arith, bound, returned, not_refused, not-false, let_through, and_parts,
  ==→eq, Bool-cases, inl, inr, ap, or_parts,
}
use app_health.Js.{Value, undefined, null, other, boolean, number, string}
use app_health.Js.Strings.{same_text, Text, trim, is_upper}
use app_health.Js.Strings.Splitting.{lacks}
use app_health.Node.Normalize.{
  is_empty, normalize_method, normalize_route_path, normalize_status, normalize_duration,
  normalize_release, normalize_response_bytes, max_method_length, max_release_length,
  min_status_code, max_status_code, max_duration_ms, max_response_bytes, is_safe_release,
  is_release_part, is_release_start,
}
use app_health.Node.Normalize.Bounds.{IsNearest, rounded_within-IsNearest, normalize_status_bounds}
use app_health.Node.Normalize.Routes.{IsSafeRoute, normalize_route_path-IsSafeRoute}
use app_health.Node.Events.{EventInput, EventV1, either, build_event_v1}

-- A method is 1 to 16 of the letters A to Z.
pub record IsMethod (method : Text) : Type 0 where
  named : is_empty method ≡ false
  short : length method ≤ max_method_length
  letters : all is_upper method ≡ true

-- A release tag is short, and holds nothing of an email address, a URL or free text.
pub record IsRelease (release : Text) : Type 0 where
  named : is_empty release ≡ false
  short : length release ≤ max_release_length
  without_at : lacks b'@' release ≡ true
  without_slash : lacks b'/' release ≡ true
  without_query : lacks b'?' release ≡ true
  without_space : lacks b' ' release ≡ true

-- A property of what an optional field holds, if it is there.
abbrev pub Holds {ℓ} : {A : Type ℓ} → (A → Type 0) → Option A → Type 0
Holds P none = Unit {0}
Holds P (some a) = P a

-- What the event says, and how it comes from what was recorded.
pub record IsEvent (input : EventInput) (event : EventV1) : Type 0 where
  method : IsMethod event.method
  route : IsSafeRoute event.route
  status_low : min_status_code ≤ event.status_code
  status_high : event.status_code ≤ max_status_code
  duration : IsNearest input.duration_ms event.duration_ms
  duration_high : event.duration_ms ≤ max_duration_ms
  bytes_high : Holds (λ bytes. bytes ≤ max_response_bytes) event.response_bytes
  release : Holds IsRelease event.release

pub Holds-none {ℓ} :
    {A : Type ℓ} (P : A → Type 0) (o : Option A) → ((a : A) → o ≡ some a → P a) → Holds P o
Holds-none P none h = tt
Holds-none P (some a) h = h a refl

Holds-either {ℓ} :
    {A : Type ℓ} (P : A → Type 0) (a b : Option A) → Holds P a → Holds P b → Holds P (either a b)
Holds-either P (some a) b h k = h
Holds-either P none b h k = k

normalize_method-IsMethod :
    (upper : Text → Text) (value : Value) (method : Text)
    → normalize_method upper value ≡ some method
    → IsMethod method
unfolding normalize_method
normalize_method-IsMethod upper (string s) method h =
    let text = upper (trim s) in
    let (fine, same) =
      not_refused (is_empty text || ltb max_method_length (length text) || not (all is_upper text))
        h in
    let (first, letters) =
      or_parts (is_empty text || ltb max_method_length (length text)) (not (all is_upper text))
        fine in
    let (named, short) = or_parts (is_empty text) (ltb max_method_length (length text)) first in
    returned IsMethod same (record {
      named = named;
      short = ground arith;
      letters = not-false (all is_upper text) letters;
    })
normalize_method-IsMethod upper undefined n h = ground arith
normalize_method-IsMethod upper null n h = ground arith
normalize_method-IsMethod upper other n h = ground arith
normalize_method-IsMethod upper (boolean b) n h = ground arith
normalize_method-IsMethod upper (number s) n h = ground arith

-- A code unit that no release holds is none of a release's.
not_part :
    (c mark : ℕ) → is_release_part mark ≡ false → is_release_part c ≡ true → not (c == mark) ≡ true
not_part c mark out part = elim (Bool-cases (c == mark)) [
  | inl same ↦
      let impossible : true ≡ false = sym part ∙ (ap is_release_part (==→eq c mark same) ∙ out) in
      ground arith
  | inr differ ↦ rw differ refl
]

is_safe_release_parts :
    (text : Text) → is_safe_release text ≡ true → all is_release_part text ≡ true
is_safe_release_parts [] h = refl
is_safe_release_parts (c ∷ cs) h =
    let (start, rest) = and_parts (is_release_start c) (all is_release_part cs) h in rw start rest

normalize_release-IsRelease :
    (value : Value) (release : Text) → normalize_release value ≡ some release → IsRelease release
unfolding normalize_release
normalize_release-IsRelease (string s) release h =
    let text = trim s in
    let (same, h1) = not_refused (not (same_text text s)) h in
    let (fine, h2) = not_refused (is_empty text || ltb max_release_length (length text)) h1 in
    let (named, short) = or_parts (is_empty text) (ltb max_release_length (length text)) fine in
    let (safe, h3) = let_through (is_safe_release text) h2 in
    let parts = is_safe_release_parts text safe in
    returned IsRelease h3 (record {
      named = named;
      short = ground arith;
      without_at =
          all_weaken is_release_part (λ c. not (c == b'@')) (λ c part. not_part c b'@' refl part)
            text parts;
      without_slash =
          all_weaken is_release_part (λ c. not (c == b'/')) (λ c part. not_part c b'/' refl part)
            text parts;
      without_query =
          all_weaken is_release_part (λ c. not (c == b'?')) (λ c part. not_part c b'?' refl part)
            text parts;
      without_space =
          all_weaken is_release_part (λ c. not (c == b' ')) (λ c part. not_part c b' ' refl part)
            text parts;
    })
normalize_release-IsRelease undefined n h = ground arith
normalize_release-IsRelease null n h = ground arith
normalize_release-IsRelease other n h = ground arith
normalize_release-IsRelease (boolean b) n h = ground arith
normalize_release-IsRelease (number s) n h = ground arith

normalize_duration_lem :
    (value : Value) (n : ℕ)
    → normalize_duration value ≡ some n
    → IsNearest value n × (n ≤ max_duration_ms)
unfolding normalize_duration
normalize_duration_lem (number x) n h = rounded_within-IsNearest max_duration_ms x n h
normalize_duration_lem undefined n h = ground arith
normalize_duration_lem null n h = ground arith
normalize_duration_lem other n h = ground arith
normalize_duration_lem (boolean b) n h = ground arith
normalize_duration_lem (string s) n h = ground arith

normalize_response_bytes_lem :
    (value : Value) (n : ℕ)
    → normalize_response_bytes value ≡ some n
    → IsNearest value n × (n ≤ max_response_bytes)
unfolding normalize_response_bytes
normalize_response_bytes_lem (number x) n h = rounded_within-IsNearest max_response_bytes x n h
normalize_response_bytes_lem undefined n h = ground arith
normalize_response_bytes_lem null n h = ground arith
normalize_response_bytes_lem other n h = ground arith
normalize_response_bytes_lem (boolean b) n h = ground arith
normalize_response_bytes_lem (string s) n h = ground arith

-- Whatever is recorded, an event that is built has a method of 1 to 16 capital letters, a safe
-- route, a status from 100 to 599, a duration nearest to the one given and of at most ten minutes,
-- a size of at most 256 MiB if it has one, and if it has a release, given or the client's, one
-- that holds no at sign, slash, question mark or space.
pub build_event_v1-IsEvent :
    (upper : Text → Text) (now : ℕ) (uuid : Text) (client_release : Value) (input : EventInput)
    (event : EventV1)
    → build_event_v1 upper now uuid (normalize_release client_release) input ≡ some event
    → IsEvent input event
unfolding build_event_v1
build_event_v1-IsEvent upper now uuid client_release input event h =
    let (method, method_is, h1) = bound (normalize_method upper input.method) h in
    let (route, route_is, h2) = bound (normalize_route_path input.route) h1 in
    let (status, status_is, h3) = bound (normalize_status input.status_code) h2 in
    let (duration, duration_is, h4) = bound (normalize_duration input.duration_ms) h3 in
    let (status_low, status_high) = normalize_status_bounds input.status_code status status_is in
    let (measured, duration_high) = normalize_duration_lem input.duration_ms duration duration_is in
    returned (IsEvent input) h4 (record {
      method = normalize_method-IsMethod upper input.method method method_is;
      route = normalize_route_path-IsSafeRoute input.route route route_is;
      status_low = status_low;
      status_high = status_high;
      duration = measured;
      duration_high = duration_high;
      bytes_high =
          Holds-none (λ bytes. bytes ≤ max_response_bytes)
            (normalize_response_bytes input.response_bytes)
            (λ n e. (normalize_response_bytes_lem input.response_bytes n e).1);
      release =
          Holds-either IsRelease (normalize_release input.release)
            (normalize_release client_release)
            (Holds-none IsRelease (normalize_release input.release)
              (normalize_release-IsRelease input.release))
            (Holds-none IsRelease (normalize_release client_release)
              (normalize_release-IsRelease client_release));
    })
