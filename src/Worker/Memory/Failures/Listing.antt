-- ===== src/Worker/Memory/Failures/Listing.antt =====
-- That only failures are stored, and what a listing holds.
use app_health.Prelude.{
  ℕ, ◌≡◌, refl, min, Bool, true, false, List, [], ◌∷◌, leb, ltb, ◌==◌, if◌then◌else◌, filter,
  length, all, arith, Bool-cases, inl, inr,
}
use app_health.Js.Strings.{Text}
use app_health.Js.Maps.{Dict, set, values, all-set}
use app_health.Js.Sorting.{ordered}
use app_health.Worker.Memory.{item_key}
use app_health.Worker.Memory.Pages.{no_older, page_lem}
use app_health.Worker.Memory.Failures.{
  EventV1, record_failures, is_listed, event_precedes, listed_failures,
}

abbrev pub is_failure : EventV1 → Bool
is_failure event = leb 400 event.status_code

abbrev pub time_of : Text × EventV1 → ℕ
time_of (key, event) = event.timestamp

record_failures_cons :
    (stored : Dict EventV1) (app_id env_id : Text) (event : EventV1) (events : List EventV1)
    → record_failures stored app_id env_id (event ∷ events)
      ≡ record_failures
          (if leb 400 event.status_code
            then set (item_key app_id env_id event.event_id) event stored
            else stored)
          app_id
          env_id
          events
unfolding record_failures
record_failures_cons stored app_id env_id event events = refl

-- Only events with a status of at least 400 are stored as failures.
pub all-record_failures :
    (stored : Dict EventV1) (app_id env_id : Text) (events : List EventV1)
    → all is_failure (values stored) ≡ true
    → all is_failure (values (record_failures stored app_id env_id events)) ≡ true
all-record_failures stored app_id env_id [] h = unfold record_failures in h
all-record_failures stored app_id env_id (event ∷ events) h =
    let key = item_key app_id env_id event.event_id in
    rw (record_failures_cons stored app_id env_id event events)
      (elim (Bool-cases (leb 400 event.status_code)) [
        | inl failed ↦ rw failed (
            all-record_failures (set key event stored) app_id env_id events
              (all-set is_failure key event stored failed h))
        | inr fine ↦ rw fine (all-record_failures stored app_id env_id events h)
      ])

precedes_newer :
    (locale_leb : Text → Text → Bool) (x y : Text × EventV1)
    → event_precedes locale_leb x y ≡ true
    → no_older time_of x y ≡ true
unfolding event_precedes
precedes_newer locale_leb (key, left) (key', right) h =
    elim (Bool-cases (right.timestamp == left.timestamp)) [
      | inl same ↦ ground arith
      | inr differ ↦
          let newer : ltb right.timestamp left.timestamp ≡ true = rw differ at h in ground arith
    ]

follows_older :
    (locale_leb : Text → Text → Bool) (x y : Text × EventV1)
    → event_precedes locale_leb x y ≡ false
    → no_older time_of y x ≡ true
unfolding event_precedes
follows_older locale_leb (key, left) (key', right) h =
    elim (Bool-cases (right.timestamp == left.timestamp)) [
      | inl same ↦ ground arith
      | inr differ ↦
          let older : ltb right.timestamp left.timestamp ≡ false = rw differ at h in ground arith
    ]

-- A listing holds failures of the environment since the time asked for only, as many as the limit
-- lets, the newest first.
pub listed_failures_lem :
    (locale_leb : Text → Text → Bool) (stored : Dict EventV1) (app_id env_id : Text)
    (from limit : ℕ)
    → (all
          (is_listed app_id env_id from)
          (listed_failures locale_leb stored app_id env_id from limit)
        ≡ true)
      × (length (listed_failures locale_leb stored app_id env_id from limit)
          ≡ min limit (length (filter (is_listed app_id env_id from) stored)))
      × (ordered
            (event_precedes locale_leb)
            (no_older time_of)
            (listed_failures locale_leb stored app_id env_id from limit)
          ≡ true)
unfolding listed_failures
listed_failures_lem locale_leb stored app_id env_id from limit =
    page_lem (event_precedes locale_leb) (is_listed app_id env_id from) time_of
      (λ x y h. precedes_newer locale_leb x y h) (λ x y h. follows_older locale_leb x y h) limit
      stored
