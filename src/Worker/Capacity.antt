-- ===== src/Worker/Capacity.antt =====
-- apps/worker/src/endpoint-capacity.ts: at most 250 groups of measurements in a batch.
pub mod Groups
mod Tests
use app_health.Prelude.{
  ℕ, suc, Bool, true, false, not, ◌&&◌, ◌||◌, List, [], ◌∷◌, ◌++◌, Option, none, some, or_else,
  is_some, leb, ltb, ◌==◌, if◌then◌else◌, any, length,
}
use app_health.Js.Strings.{Text, same_text}
use app_health.Contracts.Histogram.{latency_bucket_bounds_ms}

pub record EndpointEvent : Type 0 where
  pub method : Text
  pub route : Text
  pub duration_ms : ℕ
  pub release : Option Text
  pub environment : Option Text

-- `LATENCY_BUCKET_BOUNDS_MS.findIndex((bound) => event.duration_ms <= bound)`, -1 as `none`
unfoldable pub find_bound : ℕ → List ℕ → ℕ → Option ℕ
find_bound duration_ms [] index = none
find_bound duration_ms (bound ∷ bounds) index =
    let rest = find_bound duration_ms bounds (suc index) in
    if leb duration_ms bound then some index else rest

-- What the text of the JSON array of a group is made of; equal groups have equal texts.
pub record Group : Type 0 where
  pub environment : Text
  pub method : Text
  pub route : Text
  pub index : Option ℕ
  pub release : Text

unfoldable pub group_of : Option Text → EndpointEvent → Group
unfolding find_bound
group_of release event = record {
  environment = or_else event.environment [];
  method = event.method;
  route = event.route;
  index = find_bound event.duration_ms latency_bucket_bounds_ms 0;
  release = or_else event.release (or_else release []);
}

abbrev pub same_index : Option ℕ → Option ℕ → Bool
same_index none none = true
same_index (some i) (some j) = i == j
same_index _ _ = false

unfoldable pub same_group : Group → Group → Bool
same_group a b =
    same_text a.environment b.environment
    && same_text a.method b.method
    && same_text a.route b.route
    && same_index a.index b.index
    && same_text a.release b.release

-- `groups.add`
unfoldable pub add_group : Group → List Group → List Group
add_group group groups = if any (same_group group) groups then groups else groups ++ group ∷ []

-- The loop, with the groups so far: `none` where it throws.
unfoldable pub collect_groups : Option Text → List Group → List EndpointEvent → Option (List Group)
unfolding group_of add_group
collect_groups release groups [] = some groups
collect_groups release groups (event ∷ events) =
    let groups' = add_group (group_of release event) groups in
    let rest = collect_groups release groups' events in
    if ltb 250 (length groups') then none else rest

-- Whether it returns.
unfoldable pub validate_endpoint_capacity : List EndpointEvent → Option Text → Bool
unfolding collect_groups
validate_endpoint_capacity events release = is_some (collect_groups release [] events)
