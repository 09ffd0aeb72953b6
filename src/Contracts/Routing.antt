-- ===== src/Contracts/Routing.antt =====
-- packages/contracts/src/log.ts: which sinks receive a log.
pub mod Laws
mod Tests
use app_health.Prelude.{
  ℕ, Bool, true, false, not, ◌&&◌, ◌||◌, List, [], ◌∷◌, ◌++◌, Option, none, some, or_else, leb,
  ◌==◌, if◌then◌else◌, any,
}
use app_health.Js.Strings.{Text, same_text}

pub data LogLevel : Type 0 where
  debug info warn error : LogLevel

pub data LogSource : Type 0 where
  server browser native : LogSource

pub data LogSink : Type 0 where
  store slack : LogSink

-- Of a stored log, what tells it from others and what routing reads.
pub record StoredLogV1 : Type 0 where
  pub log_id : Text
  pub source : LogSource
  pub level : LogLevel
  pub event : Text

-- `match` of a route: a field that is absent does not restrict.
pub record Match : Type 0 where
  source : Option LogSource
  min_level : Option LogLevel
  event : Option Text

pub record LogRouteV1 : Type 0 where
  match_fields : Match
  sinks : List LogSink

-- `LOG_LEVELS.indexOf`
abbrev pub level_index : LogLevel → ℕ
level_index debug = 0
level_index info = 1
level_index warn = 2
level_index error = 3

unfoldable pub log_level_at_least : LogLevel → LogLevel → Bool
log_level_at_least level minimum = leb (level_index minimum) (level_index level)

abbrev pub same_source : LogSource → LogSource → Bool
same_source server server = true
same_source browser browser = true
same_source native native = true
same_source _ _ = false

abbrev pub same_sink : LogSink → LogSink → Bool
same_sink store store = true
same_sink slack slack = true
same_sink _ _ = false

-- `field !== undefined && …`, a test of what is there
abbrev pub refuses {ℓ} : {A : Type ℓ} → Option A → (A → Bool) → Bool
refuses none test = false
refuses (some a) test = test a

unfoldable pub log_matches_route : StoredLogV1 → LogRouteV1 → Bool
unfolding log_level_at_least
log_matches_route log route =
    if refuses route.match_fields.source (λ source. not (same_source log.source source))
    then false
    else if refuses route.match_fields.min_level (λ least. not (log_level_at_least log.level least))
    then false
    else not (refuses route.match_fields.event (λ event. not (same_text log.event event)))

-- A `Set` of sinks. The order of its elements shows nowhere in the result, which is keyed by sink.
abbrev pub SinkSet : Type 0
SinkSet = LogSink → Bool

abbrev pub has_sink : LogSink → List LogSink → Bool
has_sink sink = any (same_sink sink)

-- The inner loop: `sinks.add(sink)` for the sinks of a route.
abbrev pub add_sinks : SinkSet → List LogSink → SinkSet
add_sinks set sinks sink = set sink || has_sink sink sinks

-- The loop over the routes.
unfoldable pub collect_sinks : StoredLogV1 → SinkSet → List LogRouteV1 → SinkSet
collect_sinks log set [] = set
collect_sinks log set (route ∷ routes) =
    collect_sinks log (if log_matches_route log route then add_sinks set route.sinks else set)
      routes

-- The logs by sink: a sink without logs is absent.
abbrev pub Grouped : Type 0
Grouped = LogSink → Option (List StoredLogV1)

-- `(grouped[sink] ??= []).push(log)` for the sinks of the set.
abbrev pub push_log : Grouped → SinkSet → StoredLogV1 → Grouped
push_log grouped set log sink =
    if set sink then some (or_else (grouped sink) [] ++ log ∷ []) else grouped sink

-- The loop over the logs.
unfoldable pub route_from : Grouped → List StoredLogV1 → List LogRouteV1 → Grouped
unfolding collect_sinks
route_from grouped [] routes = grouped
route_from grouped (log ∷ logs) routes =
    route_from (push_log grouped (collect_sinks log (λ sink. false) routes) log) logs routes

unfoldable pub route_logs : List StoredLogV1 → List LogRouteV1 → Grouped
unfolding route_from
route_logs logs routes = route_from (λ sink. none) logs routes

unfoldable pub default_log_routes : LogLevel → List LogRouteV1
default_log_routes server_alert_level =
    record {
      match_fields = record { source = none; min_level = none; event = none };
      sinks = store ∷ [];
    }
    ∷ record {
      match_fields = record {
        source = some server;
        min_level = some server_alert_level;
        event = none;
      };
      sinks = slack ∷ [];
    }
    ∷ record {
      match_fields = record { source = some browser; min_level = some error; event = none };
      sinks = slack ∷ [];
    }
    ∷ []
