-- ===== src/Probe/Incident.antt =====
-- apps/probe/src/incident.ts: the state of one journey, advanced by one observation.
pub mod Lifecycle
pub mod Streaks
mod Tests
use Prim.Native.String.{String}
use app_health.Prelude.{
  ℕ, ◌+◌, Bool, true, false, not, ◌||◌, List, [], ◌∷◌, Option, none, some, ltb, if◌then◌else◌,
  or_else,
}

pub data Outcome : Type 0 where
  ok slow failed : Outcome

pub data JourneyStatus : Type 0 where
  healthy degraded failing : JourneyStatus

pub record JourneyState : Type 0 where
  pub status : JourneyStatus
  pub bad_streak : ℕ
  pub good_streak : ℕ
  pub incident_id : Option String
  pub opened_at : Option ℕ
  pub last_observed_at : Option ℕ
  pub last_outcome : Option Outcome

pub data Kind : Type 0 where
  opened escalated recovered : Kind

pub record Transition : Type 0 where
  pub kind : Kind
  pub status : JourneyStatus
  pub incident_id : String
  pub opened_at : ℕ

abbrev pub slow_runs_to_open : ℕ
slow_runs_to_open = 2

abbrev pub healthy_runs_to_recover : ℕ
healthy_runs_to_recover = 2

-- `HEALTHY`
abbrev pub healthy_state : JourneyState
healthy_state = record {
  status = healthy;
  bad_streak = 0;
  good_streak = 0;
  incident_id = none;
  opened_at = none;
  last_observed_at = none;
  last_outcome = none;
}

abbrev pub is_healthy : JourneyStatus → Bool
is_healthy healthy = true
is_healthy _ = false

abbrev pub is_failing : JourneyStatus → Bool
is_failing failing = true
is_failing _ = false

-- `new_id` is what `newId()` gives where it is called.
unfoldable pub open_incident :
    JourneyState → JourneyStatus → ℕ → String → JourneyState × Option Transition
open_incident state status now new_id =
    let id = or_else state.incident_id new_id in
    let at = or_else state.opened_at now in
    (
      record state { status = status; incident_id = some id; opened_at = some at },
      some (record {
        kind = if is_healthy state.status then opened else escalated;
        status = status;
        incident_id = id;
        opened_at = at;
      }),
    )

-- The branch of `advance` for an outcome that is ok.
unfoldable pub advance_ok : JourneyState → ℕ → String → JourneyState × Option Transition
advance_ok prior now new_id =
    let state = record prior {
      bad_streak = 0;
      good_streak = prior.good_streak + 1;
      last_observed_at = some now;
      last_outcome = some ok;
    } in
    if is_healthy prior.status || ltb state.good_streak healthy_runs_to_recover
    then (state, none)
    else (
      record healthy_state { good_streak = state.good_streak; last_observed_at = some now },
      some (record {
        kind = recovered;
        status = healthy;
        incident_id = or_else prior.incident_id new_id;
        opened_at = or_else prior.opened_at now;
      }),
    )

-- The rest of `advance`: one more bad run, failed or slow.
unfoldable pub advance_bad : JourneyState → Outcome → ℕ → String → JourneyState × Option Transition
unfolding open_incident
advance_bad prior outcome now new_id =
    let state = record prior {
      bad_streak = prior.bad_streak + 1;
      good_streak = 0;
      last_observed_at = some now;
      last_outcome = some outcome;
    } in
    elim outcome [
      | failed ↦
          if is_failing prior.status then (state, none) else open_incident state failing now new_id
      | _ ↦
          if not (is_healthy prior.status) || ltb state.bad_streak slow_runs_to_open
          then (state, none)
          else open_incident state degraded now new_id
    ]

unfoldable pub advance :
    Option JourneyState → Outcome → ℕ → String → JourneyState × Option Transition
unfolding advance_ok advance_bad
advance previous outcome now new_id =
    let prior = or_else previous healthy_state in
    elim outcome [ ok ↦ advance_ok prior now new_id | bad ↦ advance_bad prior bad now new_id ]

-- One observation: what came out, when, and the id that a new incident would get.
pub record Observation : Type 0 where
  pub outcome : Outcome
  pub now : ℕ
  pub new_id : String

-- Successive runs of one journey: the last state, and the transitions in order.
unfoldable pub replay :
    Option JourneyState → List Observation → Option JourneyState × List Transition
unfolding advance
replay previous [] = (previous, [])
replay previous (o ∷ os) =
    let (state, transition) = advance previous o.outcome o.now o.new_id in
    let (final, later) = replay (some state) os in
    (final, elim transition [ none ↦ later | some t ↦ t ∷ later ])
