-- ===== src/Worker/Memory/Logs.antt =====
-- The log repository.
pub mod Listing
mod Tests
use app_health.Prelude.{
  ℕ, ◌+◌, ◌*◌, Bool, true, false, not, ◌&&◌, ◌||◌, List, [], ◌∷◌, Option, none, some, or_else,
  is_some, leb, ltb, ◌==◌, if◌then◌else◌, filter, take, map,
}
use app_health.Js.{Value}
use app_health.Js.Strings.{Text, same_text, starts_with}
use app_health.Js.Maps.{Dict, get, set, values}
use app_health.Js.Sorting.{sort_by}
use app_health.Contracts.Routing.{LogLevel, LogSource, same_source, log_level_at_least}
use app_health.Worker.Memory.{scope_prefix, item_key}

pub record LogEventV1 : Type 0 where
  pub log_id : Text
  pub timestamp : ℕ
  pub event : Text
  pub level : LogLevel
  pub title : Option Text
  pub description : Option Text
  pub icon : Option Text
  pub props : Dict Value

-- `{ ...log, source }`
pub record SourcedLog : Type 0 where
  pub log : LogEventV1
  pub source : LogSource

pub record LogListQuery : Type 0 where
  pub min_level : LogLevel
  pub source : Option LogSource
  pub event : Option Text
  pub limit : ℕ
  pub now : Option ℕ

abbrev pub log_retention_ms : ℕ
log_retention_ms = 30 * 86400000

unfoldable pub record_logs :
    Dict SourcedLog → (app_id env_id : Text) → List LogEventV1 → LogSource → Dict SourcedLog
record_logs stored app_id env_id [] source = stored
record_logs stored app_id env_id (log ∷ logs) source =
    let key = item_key app_id env_id log.log_id in
    let new = set key (record { log = log; source = source }) stored in
    record_logs (if is_some (get key stored) then stored else new) app_id env_id logs source

-- `wanted === undefined || …`
abbrev pub wants {ℓ} : {A : Type ℓ} → Option A → (A → Bool) → Bool
wants none test = true
wants (some a) test = test a

-- The filter of `listLogs`, on an entry of the map.
unfoldable pub is_listed :
    (app_id env_id : Text) → LogListQuery → (reference : ℕ) → Text × SourcedLog → Bool
is_listed app_id env_id query reference (key, stored) =
    starts_with (scope_prefix app_id env_id) key
    && leb reference (stored.log.timestamp + log_retention_ms)
    && leb stored.log.timestamp (reference + 5 * 60 * 1000)
    && log_level_at_least stored.log.level query.min_level
    && wants query.source (λ source. same_source stored.source source)
    && wants query.event (λ event. same_text stored.log.event event)

-- The comparison: `a` stands before `b`, or they are equal. `locale_leb a b` is `a.localeCompare(b) <= 0`.
unfoldable pub log_precedes :
    (locale_leb : Text → Text → Bool) → Text × SourcedLog → Text × SourcedLog → Bool
log_precedes locale_leb (key, left) (key', right) =
    if right.log.timestamp == left.log.timestamp
    then locale_leb right.log.log_id left.log.log_id
    else ltb right.log.timestamp left.log.timestamp

-- The entries of the logs that `listLogs` returns. `clock` is `Date.now()`.
unfoldable pub listed_logs :
    (locale_leb : Text → Text → Bool) (clock : ℕ)
    → Dict SourcedLog
    → (app_id env_id : Text) → LogListQuery
    → List (Text × SourcedLog)
listed_logs locale_leb clock stored app_id env_id query = take query.limit (
    sort_by (log_precedes locale_leb)
      (filter (is_listed app_id env_id query (or_else query.now clock)) stored))

-- The source drops the keys before it sorts, which the comparison does not read.
unfoldable pub list_logs :
    (locale_leb : Text → Text → Bool) (clock : ℕ)
    → Dict SourcedLog
    → (app_id env_id : Text) → LogListQuery
    → List SourcedLog
unfolding listed_logs
list_logs locale_leb clock stored app_id env_id query =
    values (listed_logs locale_leb clock stored app_id env_id query)
