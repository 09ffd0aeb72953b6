-- ===== src/Worker/Memory/Endpoints/Tests.antt =====
-- One endpoint that is observed twice, out of order.
use app_health.Prelude.{ℕ, ◌≡◌, refl, [], ◌∷◌, some, length}
use app_health.Js.Strings.{codes, join}
use app_health.Js.Maps.{get, set}
use app_health.Worker.Memory.{scope_prefix}
use app_health.Worker.Memory.Endpoints.{Observation, endpoint_key, record_observed, list_observed}
use app_health.Worker.Memory.Endpoints.Seen.{times, spanned, times-record_observed}

abbrev at : ℕ → Observation
at timestamp = record { method = codes "GET"; route = codes "/orders"; timestamp = timestamp }

endpoints : Unit {0}
unfolding join get set scope_prefix endpoint_key record_observed list_observed spanned
endpoints = tt

list_observed-two :
    length (
      list_observed
        (record_observed [] (codes "shop") (codes "live") (at 20 ∷ at 10 ∷ []))
        (codes "shop")
        (codes "live"))
    ≡ 1
unfolding endpoints
list_observed-two = refl

seen_from_to :
    times (
      get
        (endpoint_key (codes "shop") (codes "live") (at 20))
        (record_observed [] (codes "shop") (codes "live") (at 20 ∷ at 10 ∷ [])))
    ≡ some (10, 20)
unfolding endpoints
seen_from_to =
    times-record_observed [] (codes "shop") (codes "live") (at 20 ∷ at 10 ∷ [])
      (endpoint_key (codes "shop") (codes "live") (at 20))
