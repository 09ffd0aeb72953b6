-- ===== src/Worker/Capacity/Tests.antt =====
-- A small batch, and the bins of two durations.
use app_health.Prelude.{ℕ, ◌≡◌, refl, true, [], ◌∷◌, none, length}
use app_health.Js.Strings.{codes}
use app_health.Worker.Memory.Buckets.{index_from, histogram_index}
use app_health.Worker.Capacity.{
  EndpointEvent, find_bound, group_of, same_group, add_group, collect_groups,
  validate_endpoint_capacity,
}
use app_health.Worker.Capacity.Groups.{
  all_groups, histogram_index-find_bound, validate_endpoint_capacity-all_groups,
}

abbrev event : ℕ → EndpointEvent
event duration_ms = record {
  method = codes "GET";
  route = codes "/health";
  duration_ms = duration_ms;
  release = none;
  environment = none;
}

capacity : Unit {0}
unfolding index_from histogram_index find_bound group_of same_group add_group collect_groups
    validate_endpoint_capacity all_groups
capacity = tt

groups_of_three : length (all_groups none [] (event 3 ∷ event 4 ∷ event 70000 ∷ [])) ≡ 2
unfolding capacity
groups_of_three = refl

histogram_index-find_bound_example : histogram_index 70000 ≡ 15
unfolding capacity
histogram_index-find_bound_example = histogram_index-find_bound 70000

within_capacity : validate_endpoint_capacity (event 3 ∷ event 4 ∷ []) none ≡ true
unfolding capacity
within_capacity = validate_endpoint_capacity-all_groups (event 3 ∷ event 4 ∷ []) none
