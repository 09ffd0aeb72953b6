-- ===== src/Probe/Incident/Lifecycle.antt =====
-- An incident opens once, may escalate once, and closes under the id that it opened with.
use Prim.Native.String.{String}
use app_health.Prelude.{
  ℕ, ◌+◌, ◌≡◌, refl, false, List, [], ◌∷◌, Option, none, some, or_else, if_elim, ltb,
}
use app_health.Probe.Incident.{
  Outcome, ok, slow, failed, JourneyStatus, healthy, degraded, failing, JourneyState, opened,
  escalated, recovered, Transition, is_healthy, advance, advance_ok, advance_bad, Observation,
  replay,
}

-- The incident of a journey as an observer sees it: none, or one with its id, its start and whether
-- it has been reported as failing.
pub data Incident : Type 0 where
  quiet : Incident
  ongoing : (id : String) (since : ℕ) (status : JourneyStatus) → Incident

-- What a transition may report, and what it makes of the incident.
pub data Reports : Incident → Option Transition → Incident → Type 0 where
  silent : (i : Incident) → Reports i none i
  opens :
      (id : String) (since : ℕ) (status : JourneyStatus) (i : Incident) (t : Option Transition)
      → is_healthy status ≡ false
      → i ≡ ongoing id since status
      → t ≡ some (record { kind = opened; status = status; incident_id = id; opened_at = since })
      → Reports quiet t i
  escalates :
      (id : String) (since : ℕ) (i j : Incident) (t : Option Transition)
      → i ≡ ongoing id since degraded
      → j ≡ ongoing id since failing
      → t
        ≡ some (record { kind = escalated; status = failing; incident_id = id; opened_at = since })
      → Reports i t j
  closes :
      (id : String) (since : ℕ) (status : JourneyStatus) (i : Incident) (t : Option Transition)
      → i ≡ ongoing id since status
      → t
        ≡ some (record { kind = recovered; status = healthy; incident_id = id; opened_at = since })
      → Reports i t quiet

abbrev view_of : JourneyStatus → Option String → Option ℕ → Incident
view_of healthy id since = quiet
view_of status (some id) (some since) = ongoing id since status
view_of status _ _ = quiet

abbrev pub view : Option JourneyState → Incident
view none = quiet
view (some s) = view_of s.status s.incident_id s.opened_at

-- An open incident has its id and its start, and a healthy journey has neither.
abbrev Identified : JourneyStatus → Option String → Option ℕ → Type 0
Identified healthy id since = (id ≡ none) × (since ≡ none)
Identified status (some id) (some since) = Unit {0}
Identified status _ _ = ⊥

abbrev pub IsIdentified : Option JourneyState → Type 0
IsIdentified none = Unit {0}
IsIdentified (some s) = Identified s.status s.incident_id s.opened_at

-- A step from the incident `i` to the new state and transition.
abbrev pub Steps : Incident → JourneyState × Option Transition → Type 0
Steps i (s, t) = Reports i t (view (some s)) × IsIdentified (some s)

module _ (bad good : ℕ) (at : Option ℕ) (last : Option Outcome) (now : ℕ) (new_id : String) where
  abbrev state_of : JourneyStatus → Option String → Option ℕ → JourneyState
  state_of status id since = record {
    status = status;
    bad_streak = bad;
    good_streak = good;
    incident_id = id;
    opened_at = since;
    last_observed_at = at;
    last_outcome = last;
  }

  advance_ok-Steps :
      (status : JourneyStatus) (id : Option String) (since : Option ℕ)
      → Identified status id since
      → Steps (view_of status id since) (advance_ok (state_of status id since) now new_id)
  unfolding advance_ok
  advance_ok-Steps healthy id since h = (silent quiet, h)
  advance_ok-Steps degraded (some id) (some since) h =
      if_elim (Steps (ongoing id since degraded)) (ltb (good + 1) 2) (λ e. (silent _, tt))
        (λ e. (closes id since degraded _ _ refl refl, (refl, refl)))
  advance_ok-Steps failing (some id) (some since) h =
      if_elim (Steps (ongoing id since failing)) (ltb (good + 1) 2) (λ e. (silent _, tt))
        (λ e. (closes id since failing _ _ refl refl, (refl, refl)))
  advance_ok-Steps degraded none since h = absurd h
  advance_ok-Steps degraded (some id) none h = absurd h
  advance_ok-Steps failing none since h = absurd h
  advance_ok-Steps failing (some id) none h = absurd h

  advance_slow-Steps :
      (status : JourneyStatus) (id : Option String) (since : Option ℕ)
      → Identified status id since
      → Steps (view_of status id since) (advance_bad (state_of status id since) slow now new_id)
  unfolding advance_bad
  advance_slow-Steps healthy id since h =
      if_elim (Steps quiet) (ltb (bad + 1) 2) (λ e. (silent _, h))
        (λ e. (opens (or_else id new_id) (or_else since now) degraded _ _ refl refl refl, tt))
  advance_slow-Steps degraded (some id) (some since) h = (silent _, tt)
  advance_slow-Steps failing (some id) (some since) h = (silent _, tt)
  advance_slow-Steps degraded none since h = absurd h
  advance_slow-Steps degraded (some id) none h = absurd h
  advance_slow-Steps failing none since h = absurd h
  advance_slow-Steps failing (some id) none h = absurd h

  advance_failed-Steps :
      (status : JourneyStatus) (id : Option String) (since : Option ℕ)
      → Identified status id since
      → Steps (view_of status id since) (advance_bad (state_of status id since) failed now new_id)
  unfolding advance_bad
  advance_failed-Steps healthy id since h =
      (opens (or_else id new_id) (or_else since now) failing _ _ refl refl refl, tt)
  advance_failed-Steps degraded (some id) (some since) h =
      (escalates id since _ _ _ refl refl refl, tt)
  advance_failed-Steps failing (some id) (some since) h = (silent _, tt)
  advance_failed-Steps degraded none since h = absurd h
  advance_failed-Steps degraded (some id) none h = absurd h
  advance_failed-Steps failing none since h = absurd h
  advance_failed-Steps failing (some id) none h = absurd h

advance-Steps :
    (previous : Option JourneyState) (outcome : Outcome) (now : ℕ) (new_id : String)
    → IsIdentified previous
    → Steps (view previous) (advance previous outcome now new_id)
unfolding advance
advance-Steps none ok now new_id h = (silent _, (refl, refl))
advance-Steps none slow now new_id h = (silent _, (refl, refl))
advance-Steps none failed now new_id h = (opens new_id now failing _ _ refl refl refl, tt)
advance-Steps (some s) ok now new_id h =
    advance_ok-Steps s.bad_streak s.good_streak s.last_observed_at s.last_outcome now new_id
      s.status s.incident_id s.opened_at h
advance-Steps (some s) slow now new_id h =
    advance_slow-Steps s.bad_streak s.good_streak s.last_observed_at s.last_outcome now new_id
      s.status s.incident_id s.opened_at h
advance-Steps (some s) failed now new_id h =
    advance_failed-Steps s.bad_streak s.good_streak s.last_observed_at s.last_outcome now new_id
      s.status s.incident_id s.opened_at h

-- The transitions of a journey, in order, take one incident to another.
pub data Lifecycle : Incident → List Transition → Incident → Type 0 where
  done : (i : Incident) → Lifecycle i [] i
  quietly :
      {i j k : Incident} {ts : List Transition}
      → Reports i none j
      → Lifecycle j ts k
      → Lifecycle i ts k
  reporting :
      {i j k : Incident} {t : Transition} {ts : List Transition}
      → Reports i (some t) j
      → Lifecycle j ts k
      → Lifecycle i (t ∷ ts) k

Lifecycle-step :
    {i j k : Incident} {ts : List Transition} (t : Option Transition)
    → Reports i t j
    → Lifecycle j ts k
    → Lifecycle i (elim t [ none ↦ ts | some u ↦ u ∷ ts ]) k
Lifecycle-step none r l = quietly r l
Lifecycle-step (some t) r l = reporting r l

-- Whatever the outcomes, the transitions of a journey follow the life of an incident: it opens only
-- where none is open, escalates only from degraded to failing, and closes only under the id and the
-- start that it opened with; and the state at the end is that of the incident which they leave.
pub replay-Lifecycle :
    (previous : Option JourneyState) (os : List Observation)
    → IsIdentified previous
    → Lifecycle (view previous) (replay previous os).1 (view (replay previous os).0)
unfolding replay
replay-Lifecycle previous [] h = done _
replay-Lifecycle previous (o ∷ os) h =
    let (r, next) = advance-Steps previous o.outcome o.now o.new_id h in
    Lifecycle-step _ r
      (replay-Lifecycle (some (advance previous o.outcome o.now o.new_id).0) os next)
