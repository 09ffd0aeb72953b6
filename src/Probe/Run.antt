-- ===== src/Probe/Run.antt =====
-- apps/probe/src/run.ts and the logs of emit.ts: one scheduled run over all journeys, after their
-- measurement.
pub mod Journeys
pub mod Queue
mod Tests
use Prim.Native.String.{String}
use app_health.Prelude.{
  ℕ, ◌+◌, ◌-◌, Bool, true, false, List, [], ◌∷◌, ◌++◌, map, Option, none, some, or_else,
  if◌then◌else◌, length, drop, all, count_if,
}
use app_health.Js.Strings.{Text, same_text}
use app_health.Probe.Incident.{
  Outcome, JourneyStatus, healthy, degraded, failing, JourneyState, Transition, is_healthy,
  is_failing, advance,
}

pub data FailureKind : Type 0 where
  dns connect tls timeout network incomplete body_too_large http content_type parse semantic asset :
      FailureKind

-- What `measureJourney` found, and what `uuid()` gives for the incident and for the log.
pub record Measured : Type 0 where
  project : Text
  journey : Text
  outcome : Outcome
  failure : Option FailureKind
  new_id : String
  log_id : String

-- `journeyKey`
abbrev pub journey_key : Measured → Text
journey_key m = m.project ++ b'/' ∷ m.journey

pub data LogLevel : Type 0 where
  debug info warn error : LogLevel

pub data LogEvent : Type 0 where
  journey_failed journey_degraded journey_recovered probe_heartbeat : LogEvent

pub record HeartbeatCounts : Type 0 where
  journeys : ℕ
  healthy_count : ℕ
  degraded_count : ℕ
  failing_count : ℕ
  vantage_offline : Bool
  pending_logs : ℕ

-- The props of a log: those of a transition that say which incident of which journey it is, or
-- those of a heartbeat.
pub data Props : Type 0 where
  transition_props : (project journey : Text) → Transition → Outcome → Option FailureKind → Props
  heartbeat_props : (interval_seconds : ℕ) → HeartbeatCounts → Props

pub record ProbeLog : Type 0 where
  log_id : String
  timestamp : ℕ
  event : LogEvent
  level : LogLevel
  props : Props

-- `EVENT_FOR`
abbrev pub event_for : JourneyStatus → LogEvent × LogLevel
event_for failing = (journey_failed, error)
event_for degraded = (journey_degraded, warn)
event_for healthy = (journey_recovered, info)

unfoldable pub transition_log : Transition → Measured → ℕ → ProbeLog
transition_log transition m now = record {
  log_id = m.log_id;
  timestamp = now;
  event = (event_for transition.status).0;
  level = (event_for transition.status).1;
  props = transition_props m.project m.journey transition m.outcome m.failure;
}

unfoldable pub heartbeat_log :
    (interval_seconds : ℕ) → HeartbeatCounts → (now : ℕ) (log_id : String) → ProbeLog
heartbeat_log interval_seconds counts now log_id = record {
  log_id = log_id;
  timestamp = now;
  event = probe_heartbeat;
  level = debug;
  props = heartbeat_props interval_seconds counts;
}

-- A record by key.
abbrev pub Journeys : Type 0
Journeys = Text → Option JourneyState

abbrev pub set_journey : Journeys → Text → JourneyState → Journeys
set_journey journeys key state k = if same_text k key then some state else journeys k

pub record ProbeState : Type 0 where
  journeys : Journeys
  pending : List ProbeLog

abbrev pub max_pending_logs : ℕ
max_pending_logs = 90

-- `emptyState`
abbrev pub empty_state : ProbeState
empty_state = record { journeys = λ key. none; pending = [] }

-- `NETWORK_FAILURES.has`
abbrev pub is_network_failure : Option FailureKind → Bool
is_network_failure (some dns) = true
is_network_failure (some connect) = true
is_network_failure (some network) = true
is_network_failure _ = false

unfoldable pub vantage_offline : List Measured → Bool
vantage_offline = all (λ m. is_network_failure m.failure)

-- `logs.push`, where there is a transition
abbrev pub push_transition : Option Transition → Measured → ℕ → List ProbeLog → List ProbeLog
push_transition none m now logs = logs
push_transition (some transition) m now logs = transition_log transition m now ∷ logs

-- The loop over the observations: the journeys after it, and the logs in order.
unfoldable pub advance_all : ℕ → Journeys → List Measured → Journeys × List ProbeLog
advance_all now journeys [] = (journeys, [])
advance_all now journeys (m ∷ ms) =
    let (state, transition) = advance (journeys (journey_key m)) m.outcome now m.new_id in
    let (after, logs) = advance_all now (set_journey journeys (journey_key m) state) ms in
    (after, push_transition transition m now logs)

-- `slice(-n)` for n above 0
unfoldable pub last : ℕ → List ProbeLog → List ProbeLog
last n logs = drop (length logs - n) logs

abbrev pub status_of : Journeys → Text → JourneyStatus
status_of journeys key = elim (journeys key) [ none ↦ healthy | some state ↦ state.status ]

abbrev pub is_degraded : JourneyStatus → Bool
is_degraded degraded = true
is_degraded _ = false

-- The counts of a heartbeat: `countStatuses` and what `runProbes` adds.
unfoldable pub count_statuses :
    Journeys → List Text → (offline : Bool) (pending_logs : ℕ) → HeartbeatCounts
count_statuses journeys keys offline pending_logs =
    let statuses = map (status_of journeys) keys in
    record {
      journeys = length keys;
      healthy_count = count_if is_healthy statuses;
      degraded_count = count_if is_degraded statuses;
      failing_count = count_if is_failing statuses;
      vantage_offline = offline;
      pending_logs = pending_logs;
    }

-- One scheduled run: when it started, what it measured, and how delivery of a batch ends.
pub record Run : Type 0 where
  started_at : ℕ
  interval_seconds : ℕ
  measured : List Measured
  heartbeat_id : String
  delivers : List ProbeLog → Bool

-- The observations that count in the run.
unfoldable pub observed : Run → List Measured
unfolding vantage_offline
observed run = if vantage_offline run.measured then [] else run.measured

-- The logs that wait for delivery in the run.
unfoldable pub queued_logs : ProbeState → Run → List ProbeLog
unfolding last advance_all observed
queued_logs previous run =
    last max_pending_logs
      (previous.pending ++ (advance_all run.started_at previous.journeys (observed run)).1)

-- What is given to `deliver`.
unfoldable pub batch : ProbeState → Run → List ProbeLog
unfolding queued_logs heartbeat_log count_statuses vantage_offline
batch previous run =
    let queued = queued_logs previous run in
    let journeys = (advance_all run.started_at previous.journeys (observed run)).0 in
    let counts =
      count_statuses journeys (map journey_key run.measured) (vantage_offline run.measured)
        (length queued) in
    queued ++ heartbeat_log run.interval_seconds counts run.started_at run.heartbeat_id ∷ []

-- `runProbes`, the state to persist.
unfoldable pub run_probes : ProbeState → Run → ProbeState
unfolding batch
run_probes previous run = record {
  journeys = (advance_all run.started_at previous.journeys (observed run)).0;
  pending = if run.delivers (batch previous run) then [] else queued_logs previous run;
}

-- Successive runs.
unfoldable pub run_history : ProbeState → List Run → ProbeState
unfolding run_probes
run_history state [] = state
run_history state (run ∷ runs) = run_history (run_probes state run) runs
