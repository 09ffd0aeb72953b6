-- ===== src/Worker/Memory/Logs/Listing.antt =====
-- That a log is stored once and never changed, and what a listing holds.
use app_health.Prelude.{
  ℕ, ◌≡◌, refl, sym, ap, ◌∙◌, min, Bool, true, false, List, [], ◌∷◌, some, or_else, is_some, ltb,
  ◌==◌, if◌then◌else◌, filter, length, all, arith, Bool-cases, inl, inr,
}
use app_health.Js.Strings.{Text, same_text}
use app_health.Js.Strings.Equality.{same_text→eq}
use app_health.Js.Maps.{Dict, get, set, get-set}
use app_health.Js.Sorting.{ordered}
use app_health.Contracts.Routing.{LogSource}
use app_health.Worker.Memory.{item_key}
use app_health.Worker.Memory.Pages.{no_older, page_lem}
use app_health.Worker.Memory.Logs.{
  LogEventV1, SourcedLog, LogListQuery, record_logs, is_listed, log_precedes, listed_logs,
}

abbrev pub time_of : Text × SourcedLog → ℕ
time_of (key, stored) = stored.log.timestamp

precedes_newer :
    (locale_leb : Text → Text → Bool) (x y : Text × SourcedLog)
    → log_precedes locale_leb x y ≡ true
    → no_older time_of x y ≡ true
unfolding log_precedes
precedes_newer locale_leb (key, left) (key', right) h =
    elim (Bool-cases (right.log.timestamp == left.log.timestamp)) [
      | inl same ↦ ground arith
      | inr differ ↦
          let newer : ltb right.log.timestamp left.log.timestamp ≡ true = rw differ at h in
          ground arith
    ]

follows_older :
    (locale_leb : Text → Text → Bool) (x y : Text × SourcedLog)
    → log_precedes locale_leb x y ≡ false
    → no_older time_of y x ≡ true
unfolding log_precedes
follows_older locale_leb (key, left) (key', right) h =
    elim (Bool-cases (right.log.timestamp == left.log.timestamp)) [
      | inl same ↦ ground arith
      | inr differ ↦
          let older : ltb right.log.timestamp left.log.timestamp ≡ false = rw differ at h in
          ground arith
    ]

-- A listing holds logs that match the query only, as many as its limit lets, the newest first,
-- however the runtime compares ids.
pub listed_logs_lem :
    (locale_leb : Text → Text → Bool) (clock : ℕ) (stored : Dict SourcedLog) (app_id env_id : Text)
    (query : LogListQuery)
    → (all
          (is_listed app_id env_id query (or_else query.now clock))
          (listed_logs locale_leb clock stored app_id env_id query)
        ≡ true)
      × (length (listed_logs locale_leb clock stored app_id env_id query)
          ≡ min query.limit
              (length (filter (is_listed app_id env_id query (or_else query.now clock)) stored)))
      × (ordered
            (log_precedes locale_leb)
            (no_older time_of)
            (listed_logs locale_leb clock stored app_id env_id query)
          ≡ true)
unfolding listed_logs
listed_logs_lem locale_leb clock stored app_id env_id query =
    page_lem (log_precedes locale_leb) (is_listed app_id env_id query (or_else query.now clock))
      time_of (λ x y h. precedes_newer locale_leb x y h) (λ x y h. follows_older locale_leb x y h)
      query.limit stored

record_logs_cons :
    (stored : Dict SourcedLog) (app_id env_id : Text) (log : LogEventV1) (logs : List LogEventV1)
    (source : LogSource)
    → record_logs stored app_id env_id (log ∷ logs) source
      ≡ record_logs
          (let key = item_key app_id env_id log.log_id in
            if is_some (get key stored)
            then stored
            else set key (record { log = log; source = source }) stored)
          app_id
          env_id
          logs
          source
unfolding record_logs
record_logs_cons stored app_id env_id log logs source = refl

-- A log that is stored stays as it is, whatever is recorded under its id later.
pub record_logs_keeps :
    (stored : Dict SourcedLog) (app_id env_id : Text) (logs : List LogEventV1) (source : LogSource)
    (key : Text) (kept : SourcedLog)
    → get key stored ≡ some kept
    → get key (record_logs stored app_id env_id logs source) ≡ some kept
record_logs_keeps stored app_id env_id [] source key kept h = unfold record_logs in h
record_logs_keeps stored app_id env_id (log ∷ logs) source key kept h =
    let its_key = item_key app_id env_id log.log_id in
    let new : SourcedLog = record { log = log; source = source } in
    rw (record_logs_cons stored app_id env_id log logs source)
      (elim (Bool-cases (is_some (get its_key stored))) [
        | inl there ↦ rw there (record_logs_keeps stored app_id env_id logs source key kept h)
        | inr missing ↦
            let other : same_text key its_key ≡ false = elim (Bool-cases (same_text key its_key)) [
              | inr differ ↦ differ
              | inl same ↦
                  let found : get its_key stored ≡ some kept =
                    ap (λ k. get k stored) (sym (same_text→eq key its_key same)) ∙ h in
                  let impossible : true ≡ false = rw found at missing in ground arith
            ] in
            rw missing (
              record_logs_keeps (set its_key new stored) app_id env_id logs source key kept
                (rw (get-set key its_key new stored, other) h))
      ])
