-- ===== src/Worker/Memory/Logs/Tests.antt =====
-- Two logs, one of which comes again with another text.
use app_health.Prelude.{ℕ, ◌≡◌, refl, min, true, [], ◌∷◌, none, some, length, filter, all, map}
use app_health.Js.Strings.{Text, codes, join}
use app_health.Js.Strings.Sorting.{text_leb}
use app_health.Js.Maps.{Dict, get, set}
use app_health.Js.Sorting.{insert_by, sort_by, ordered}
use app_health.Contracts.Routing.{LogLevel, info, warn, server, log_level_at_least}
use app_health.Worker.Memory.{scope_prefix, item_key}
use app_health.Worker.Memory.Pages.{no_older}
use app_health.Worker.Memory.Logs.{
  LogEventV1, SourcedLog, LogListQuery, record_logs, is_listed, log_precedes, listed_logs,
  list_logs,
}
use app_health.Worker.Memory.Logs.Listing.{time_of, record_logs_keeps, listed_logs_lem}

abbrev log : (id : Text) (timestamp : ℕ) → LogLevel → LogEventV1
log id timestamp level = record {
  log_id = id;
  timestamp = timestamp;
  event = codes "signup";
  level = level;
  title = none;
  description = none;
  icon = none;
  props = [];
}

abbrev shop : Text
shop = codes "shop"

abbrev live : Text
live = codes "live"

abbrev stored : Dict SourcedLog
stored = record_logs [] shop live (log (codes "a") 10 info ∷ log (codes "b") 20 warn ∷ []) server

abbrev query : LogListQuery
query = record { min_level = info; source = none; event = none; limit = 5; now = some 100 }

logs : Unit {0}
unfolding join get set insert_by sort_by log_level_at_least scope_prefix item_key record_logs
    is_listed log_precedes listed_logs list_logs
logs = tt

abbrev id_of : SourcedLog → Text
id_of stored' = stored'.log.log_id

list_logs-stored :
    map id_of (list_logs text_leb 0 stored shop live query) ≡ codes "b" ∷ codes "a" ∷ []
unfolding logs
list_logs-stored = refl

abbrev first : SourcedLog
first = record { log = log (codes "a") 10 info; source = server }

first_kept :
    get
      (item_key shop live (codes "a"))
      (record_logs stored shop live (log (codes "a") 99 warn ∷ []) server)
    ≡ some first
first_kept =
    record_logs_keeps stored shop live (log (codes "a") 99 warn ∷ []) server
      (item_key shop live (codes "a")) first (unfold logs in refl)

first_page :
    (all (is_listed shop live query 100) (listed_logs text_leb 0 stored shop live query) ≡ true)
    × (length (listed_logs text_leb 0 stored shop live query)
        ≡ min 5 (length (filter (is_listed shop live query 100) stored)))
    × (ordered
          (log_precedes text_leb)
          (no_older time_of)
          (listed_logs text_leb 0 stored shop live query)
        ≡ true)
first_page = listed_logs_lem text_leb 0 stored shop live query
