-- ===== src/Probe/Incident/Streaks.antt =====
-- The hysteresis: what the last two outcomes alone decide, and what the streaks count.
use Prim.Native.String.{String}
use app_health.Prelude.{
  ℕ, ◌+◌, ◌≡◌, refl, Bool, true, false, not, List, [], ◌∷◌, Option, some, arith, or_else,
  if◌then◌else◌,
}
use app_health.Probe.Incident.{
  Outcome, ok, slow, failed, JourneyStatus, JourneyState, healthy_state, is_healthy, is_failing,
  advance, Observation, replay,
}

-- What two successive outcomes demand of the status after them.
abbrev pub demands : Outcome → Outcome → JourneyStatus → Bool
demands ok ok status = is_healthy status
demands _ failed status = is_failing status
demands slow slow status = not (is_healthy status)
demands failed slow status = not (is_healthy status)
demands _ _ status = true

abbrev pub status_of : Option JourneyState → JourneyStatus
status_of s = (or_else s healthy_state).status

-- Two good runs close any incident, two bad ones leave one open, and a failed run leaves a failing
-- one, whatever the state before.
pub replay_hysteresis :
    (previous : Option JourneyState) (a b : Observation)
    → demands a.outcome b.outcome (status_of (replay previous (a ∷ b ∷ [])).0) ≡ true
unfolding replay
replay_hysteresis previous a b = ground arith

-- The runs of one kind at the end of a history that `n` of them precede.
unfoldable pub trailing : (Outcome → Bool) → ℕ → List Observation → ℕ
trailing counts n [] = n
trailing counts n (o ∷ os) = trailing counts (if counts o.outcome then n + 1 else 0) os

abbrev pub is_ok : Outcome → Bool
is_ok ok = true
is_ok _ = false

abbrev pub is_bad : Outcome → Bool
is_bad o = not (is_ok o)

advance_streaks :
    (s : JourneyState) (outcome : Outcome) (now : ℕ) (new_id : String)
    → let t = (advance (some s) outcome now new_id).0 in
      (t.good_streak ≡ (if is_ok outcome then s.good_streak + 1 else 0))
      × (t.bad_streak ≡ (if is_bad outcome then s.bad_streak + 1 else 0))
unfolding advance
advance_streaks s ok now new_id = ground arith
advance_streaks s slow now new_id = ground arith
advance_streaks s failed now new_id = ground arith

-- The two streaks count the good and the bad runs at the end of the history, across the opening and
-- the closing of incidents, so that at most one of them is not zero after a run.
pub replay_streaks :
    (s : JourneyState) (os : List Observation)
    → let t = or_else (replay (some s) os).0 healthy_state in
      (t.good_streak ≡ trailing is_ok s.good_streak os)
      × (t.bad_streak ≡ trailing is_bad s.bad_streak os)
unfolding replay trailing
replay_streaks s [] = (refl, refl)
replay_streaks s (o ∷ os) =
    let (g, b) = advance_streaks s o.outcome o.now o.new_id in
    rw (← g, ← b) (replay_streaks (advance (some s) o.outcome o.now o.new_id).0 os)
