-- ===== src/Contracts/Routing/Laws.antt =====
-- What each sink receives.
use app_health.Prelude.{
  ◌≡◌, refl, sym, ap, ◌∙◌, Bool, true, false, ◌&&◌, ◌||◌, List, [], ◌∷◌, ◌++◌, append_assoc,
  append-nil, Option, none, some, or_else, if◌then◌else◌, any, Bool-cases, inl, inr,
}
use app_health.Js.Strings.{Text}
use app_health.Contracts.Routing.{
  LogLevel, LogSource, LogSink, StoredLogV1, LogRouteV1, SinkSet, Grouped, server, browser, native,
  store, slack, error, log_matches_route, log_level_at_least, has_sink, add_sinks, collect_sinks,
  push_log, route_from, route_logs, default_log_routes,
}

-- A route that the log matches names the sink.
abbrev pub wants : List LogRouteV1 → LogSink → StoredLogV1 → Bool
wants routes sink log =
    any (λ route. log_matches_route log route && has_sink sink route.sinks) routes

-- The logs that pass the test, in their order.
abbrev pub keep : (StoredLogV1 → Bool) → List StoredLogV1 → List StoredLogV1
keep p [] = []
keep p (log ∷ logs) = let rest = keep p logs in if p log then log ∷ rest else rest

-- A sink without logs is absent.
abbrev pub present : List StoredLogV1 → Option (List StoredLogV1)
present [] = none
present (log ∷ logs) = some (log ∷ logs)

or_false : (b : Bool) → (b || false) ≡ b
or_false true = refl
or_false false = refl

or_assoc : (a b c : Bool) → ((a || b) || c) ≡ (a || (b || c))
or_assoc true b c = refl
or_assoc false b c = refl

collect_sinks-wants :
    (log : StoredLogV1) (set : SinkSet) (routes : List LogRouteV1) (sink : LogSink)
    → collect_sinks log set routes sink ≡ (set sink || wants routes sink log)
unfolding collect_sinks
collect_sinks-wants log set [] sink = sym (or_false (set sink))
collect_sinks-wants log set (route ∷ routes) sink =
    elim (Bool-cases (log_matches_route log route)) [
      | inl holds ↦ rw holds (
          collect_sinks-wants log (add_sinks set route.sinks) routes sink
          ∙ or_assoc (set sink) (has_sink sink route.sinks) (wants routes sink log))
      | inr fails ↦ rw fails (collect_sinks-wants log set routes sink)
    ]

or_else-present : (logs : List StoredLogV1) → or_else (present logs) [] ≡ logs
or_else-present [] = refl
or_else-present (log ∷ logs) = refl

present-snoc :
    (logs : List StoredLogV1) (log : StoredLogV1)
    → some (logs ++ log ∷ []) ≡ present (logs ++ log ∷ [])
present-snoc [] log = refl
present-snoc (l ∷ logs) log = refl

route_from-present :
    (grouped : Grouped) (logs before : List StoredLogV1) (routes : List LogRouteV1) (sink : LogSink)
    → grouped sink ≡ present before
    → route_from grouped logs routes sink ≡ present (before ++ keep (wants routes sink) logs)
unfolding route_from
route_from-present grouped [] before routes sink h = h ∙ ap present (sym (append-nil before))
route_from-present grouped (log ∷ logs) before routes sink h =
    let chosen = collect_sinks-wants log (λ sink. false) routes sink in
    let next = push_log grouped (collect_sinks log (λ sink. false) routes) log in
    elim (Bool-cases (wants routes sink log)) [
      | inl holds ↦
          let pushed : next sink ≡ present (before ++ log ∷ []) =
            rw (chosen, holds, h, or_else-present before) (present-snoc before log) in
          rw holds (
            route_from-present next logs (before ++ log ∷ []) routes sink pushed
            ∙ ap present (append_assoc before (log ∷ []) (keep (wants routes sink) logs)))
      | inr fails ↦
          let same : next sink ≡ present before = rw (chosen, fails) h in
          rw fails (route_from-present next logs before routes sink same)
    ]

-- Each sink receives, in order and once each, just the logs that match some route which names it; a
-- sink that receives none is absent.
pub route_logs_lem :
    (logs : List StoredLogV1) (routes : List LogRouteV1) (sink : LogSink)
    → route_logs logs routes sink ≡ present (keep (wants routes sink) logs)
unfolding route_logs
route_logs_lem logs routes sink = route_from-present (λ sink. none) logs [] routes sink refl

-- What `default_log_routes` tells Slack.
abbrev pub told : LogLevel → LogSource → LogLevel → Bool
told alert server level = log_level_at_least level alert
told alert browser level = log_level_at_least level error
told alert native level = false

by_fields :
    (alert : LogLevel) (id : Text) (source : LogSource) (level : LogLevel) (event : Text)
    → let log : StoredLogV1 = record {
      log_id = id;
      source = source;
      level = level;
      event = event;
    } in
      (wants (default_log_routes alert) store log ≡ true)
      × (wants (default_log_routes alert) slack log ≡ told alert source level)
unfolding default_log_routes log_matches_route
by_fields alert id server level event = (
  refl,
  elim (Bool-cases (log_level_at_least level alert)) [
    | inl holds ↦ rw holds refl
    | inr fails ↦ rw fails refl
  ],
)
by_fields alert id browser level event = (
  refl,
  elim (Bool-cases (log_level_at_least level error)) [
    | inl holds ↦ rw holds refl
    | inr fails ↦ rw fails refl
  ],
)
by_fields alert id native level event = (refl, refl)

-- By default every log is stored, and Slack is told of server logs at or above the alert level and
-- of browser errors, never of native logs.
pub default_log_routes_lem :
    (alert : LogLevel) (log : StoredLogV1)
    → (wants (default_log_routes alert) store log ≡ true)
      × (wants (default_log_routes alert) slack log ≡ told alert log.source log.level)
default_log_routes_lem alert log = by_fields alert log.log_id log.source log.level log.event
