-- ===== src/Worker/Capacity/Groups.antt =====
-- When a batch is accepted, and that its groups are cut by the bins of the stored histograms.
use app_health.Prelude.{
  ℕ, suc, ◌+◌, ◌≤◌, ◌≡◌, refl, true, false, List, [], ◌∷◌, Option, none, some, or_else, leb, ltb,
  if◌then◌else◌, any, length, length-append, arith, Bool-cases, inl, inr, if_elim,
}
use app_health.Js.Strings.{Text}
use app_health.Contracts.Histogram.{latency_bucket_bounds_ms}
use app_health.Worker.Memory.Buckets.{index_from, histogram_index}
use app_health.Worker.Capacity.{
  EndpointEvent, Group, find_bound, group_of, same_group, add_group, collect_groups,
  validate_endpoint_capacity,
}

index_from-find_bound :
    (duration_ms : ℕ) (bounds : List ℕ) (index : ℕ)
    → index_from duration_ms bounds index
      ≡ or_else (find_bound duration_ms bounds index) (index + length bounds)
unfolding index_from find_bound
index_from-find_bound duration_ms [] index = omega arith
index_from-find_bound duration_ms (bound ∷ bounds) index =
    elim (Bool-cases (ltb bound duration_ms)) [
      | inl over ↦
          let not_within : leb duration_ms bound ≡ false = ground arith in
          let same : suc index + length bounds ≡ index + suc (length bounds) = omega arith in
          rw (over, not_within, index_from-find_bound duration_ms bounds (suc index), same) refl
      | inr within ↦
          let fits : leb duration_ms bound ≡ true = ground arith in rw (within, fits) refl
    ]

-- The bin of a stored histogram that a duration falls into is the index by which the capacity check
-- groups it; the last bin, the sixteenth, is where that finds no bound.
pub histogram_index-find_bound :
    (duration_ms : ℕ)
    → histogram_index duration_ms ≡ or_else (find_bound duration_ms latency_bucket_bounds_ms 0) 15
unfolding histogram_index
histogram_index-find_bound duration_ms =
    index_from-find_bound duration_ms latency_bucket_bounds_ms 0

-- All the groups of a batch, in the order in which they first occur.
unfoldable pub all_groups : Option Text → List Group → List EndpointEvent → List Group
all_groups release groups [] = groups
all_groups release groups (event ∷ events) =
    all_groups release (add_group (group_of release event) groups) events

add_group_grows :
    (group : Group) (groups : List Group) → length groups ≤ length (add_group group groups)
unfolding add_group
add_group_grows group groups =
    if_elim (λ (gs : List Group). length groups ≤ length gs) (any (same_group group) groups)
      (λ there. omega arith) (λ missing. omega (arith, length-append groups (group ∷ [])))

all_groups_grow :
    (release : Option Text) (groups : List Group) (events : List EndpointEvent)
    → length groups ≤ length (all_groups release groups events)
unfolding all_groups
all_groups_grow release groups [] = omega arith
all_groups_grow release groups (event ∷ events) =
    let group = group_of release event in
    omega
      (arith, add_group_grows group groups, all_groups_grow release (add_group group groups) events)

collect_groups_lem :
    (release : Option Text) (groups : List Group) (events : List EndpointEvent)
    → length groups ≤ 250
    → collect_groups release groups events ≡ (
        if leb (length (all_groups release groups events)) 250
        then some (all_groups release groups events)
        else none)
unfolding collect_groups all_groups
collect_groups_lem release groups [] h =
    let fits : leb (length groups) 250 ≡ true = ground arith in rw fits refl
collect_groups_lem release groups (event ∷ events) h =
    let groups' = add_group (group_of release event) groups in
    let grown = all_groups_grow release groups' events in
    elim (Bool-cases (ltb 250 (length groups'))) [
      | inl over ↦
          let refused : leb (length (all_groups release groups' events)) 250 ≡ false =
            ground arith in
          rw (over, refused) refl
      | inr within ↦ rw within (collect_groups_lem release groups' events (ground arith))
    ]

-- A batch is accepted just when all its events have at most 250 groups together, although the check
-- looks at the number after each event.
pub validate_endpoint_capacity-all_groups :
    (events : List EndpointEvent) (release : Option Text)
    → validate_endpoint_capacity events release ≡ leb (length (all_groups release [] events)) 250
unfolding validate_endpoint_capacity
validate_endpoint_capacity-all_groups events release =
    rw (collect_groups_lem release [] events (omega arith))
      (elim (Bool-cases (leb (length (all_groups release [] events)) 250)) [
        | inl fits ↦ rw fits refl
        | inr refused ↦ rw refused refl
      ])
