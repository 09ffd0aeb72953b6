-- ===== src/Probe/Incident/Tests.antt =====
-- One journey: two slow runs open an incident, a failure escalates it, two good runs close it.
use app_health.Prelude.{ℕ, ◌≡◌, refl, true, List, [], ◌∷◌, none, some, or_else}
use app_health.Probe.Incident.{
  Outcome, ok, slow, failed, healthy, degraded, failing, opened, escalated, recovered,
  healthy_state, Observation, replay,
}
use app_health.Probe.Incident.Lifecycle.{Lifecycle, view, replay-Lifecycle}
use app_health.Probe.Incident.Streaks.{
  demands, status_of, replay_hysteresis, trailing, is_ok, is_bad, replay_streaks,
}

abbrev at : ℕ → Outcome → Observation
at now outcome = record { outcome = outcome; now = now; new_id = "inc-1" }

abbrev history : List Observation
history = at 10 ok ∷ at 20 slow ∷ at 30 slow ∷ at 40 failed ∷ at 50 ok ∷ at 60 ok ∷ []

replay_test :
    (replay none history).1
    ≡ record { kind = opened; status = degraded; incident_id = "inc-1"; opened_at = 30 }
      ∷ record { kind = escalated; status = failing; incident_id = "inc-1"; opened_at = 30 }
      ∷ record { kind = recovered; status = healthy; incident_id = "inc-1"; opened_at = 30 }
      ∷ []
unfolding replay
replay_test = refl

replay-Lifecycle_example :
    Lifecycle (view none) (replay none history).1 (view (replay none history).0)
replay-Lifecycle_example = replay-Lifecycle none history tt

replay_hysteresis_example :
    demands failed ok (status_of (replay none (at 40 failed ∷ at 50 ok ∷ [])).0) ≡ true
replay_hysteresis_example = replay_hysteresis none (at 40 failed) (at 50 ok)

replay_streaks_example :
    let t = or_else (replay (some healthy_state) history).0 healthy_state in
    (t.good_streak ≡ trailing is_ok 0 history) × (t.bad_streak ≡ trailing is_bad 0 history)
replay_streaks_example = replay_streaks healthy_state history
