-- ===== src/Contracts/Routing/Tests.antt =====
-- Three logs under the default routes.
use app_health.Prelude.{◌≡◌, refl, true, List, [], ◌∷◌, some}
use app_health.Js.Strings.{codes}
use app_health.Contracts.Routing.{
  StoredLogV1, info, warn, error, server, browser, store, slack, log_level_at_least,
  log_matches_route, collect_sinks, route_from, route_logs, default_log_routes,
}
use app_health.Contracts.Routing.Laws.{
  wants, keep, present, told, route_logs_lem, default_log_routes_lem,
}

abbrev signup : StoredLogV1
signup = record { log_id = codes "1"; source = server; level = info; event = codes "signup" }

abbrev click : StoredLogV1
click = record { log_id = codes "2"; source = browser; level = warn; event = codes "click" }

abbrev crash : StoredLogV1
crash = record { log_id = codes "3"; source = browser; level = error; event = codes "crash" }

abbrev day : List StoredLogV1
day = signup ∷ click ∷ crash ∷ []

route_logs-slack : route_logs day (default_log_routes info) slack ≡ some (signup ∷ crash ∷ [])
unfolding route_logs route_from collect_sinks log_matches_route log_level_at_least
    default_log_routes
route_logs-slack = refl

route_logs_lem_example :
    route_logs day (default_log_routes info) slack
    ≡ present (keep (wants (default_log_routes info) slack) day)
route_logs_lem_example = route_logs_lem day (default_log_routes info) slack

default_log_routes-crash :
    (wants (default_log_routes info) store crash ≡ true)
    × (wants (default_log_routes info) slack crash ≡ told info browser error)
default_log_routes-crash = default_log_routes_lem info crash
