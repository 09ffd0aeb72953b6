-- ===== src/Probe/Run/Journeys.antt =====
-- The state of each journey, over one run and over successive runs.
use app_health.Prelude.{
  ℕ, suc, ◌+◌, ◌≡◌, Bool, List, [], ◌∷◌, ◌++◌, map, if◌then◌else◌, length, count_if, arith,
}
use app_health.Js.Strings.{Text, same_text}
use app_health.Probe.Incident.{
  JourneyStatus, healthy, degraded, failing, Observation, is_healthy, is_failing,
}
use app_health.Probe.Run.{
  Measured, Journeys, Run, journey_key, observed, count_statuses, status_of, is_degraded,
}

-- The observations of one journey among those of a run.
abbrev pub history : ℕ → Text → List Measured → List Observation
history now key [] = []
history now key (m ∷ ms) =
    let rest = history now key ms in
    if same_text key (journey_key m)
    then record { outcome = m.outcome; now = now; new_id = m.new_id } ∷ rest
    else rest

-- The observations of one journey in runs whose vantage was online.
abbrev pub whole_history : Text → List Run → List Observation
whole_history key [] = []
whole_history key (run ∷ runs) = history run.started_at key (observed run) ++ whole_history key runs

-- Each journey is counted once in a heartbeat.
pub count_statuses-total :
    (journeys : Journeys) (keys : List Text) (offline : Bool) (pending_logs : ℕ)
    → let c = count_statuses journeys keys offline pending_logs in
      c.healthy_count + c.degraded_count + c.failing_count ≡ length keys
unfolding count_statuses
count_statuses-total journeys [] offline pending_logs = omega arith
count_statuses-total journeys (key ∷ keys) offline pending_logs =
    let rest = count_statuses-total journeys keys offline pending_logs in
    counted (status_of journeys key) (map (status_of journeys) keys) (length keys) rest
  where
    counted :
        (status : JourneyStatus) (statuses : List JourneyStatus) (n : ℕ)
        → count_if is_healthy statuses
            + count_if is_degraded statuses
            + count_if is_failing statuses
          ≡ n
        → count_if is_healthy (status ∷ statuses)
            + count_if is_degraded (status ∷ statuses)
            + count_if is_failing (status ∷ statuses)
          ≡ suc n
    counted healthy statuses n h = omega (arith, h)
    counted degraded statuses n h = omega (arith, h)
    counted failing statuses n h = omega (arith, h)
