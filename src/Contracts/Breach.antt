-- ===== src/Contracts/Breach.antt =====
-- packages/contracts/src/performance.ts, evaluateSustainedBreach: when slow windows are an incident.
pub mod Laws
mod Tests
use app_health.Prelude.{
  ℕ, ◌-◌, Bool, true, false, ◌&&◌, not, List, [], ◌∷◌, ◌++◌, Option, none, some, or_else, ltb, leb,
  ◌==◌, if◌then◌else◌, length, drop, all, any, count_if,
}

-- One window of measurement, its percentile in whole milliseconds.
pub record Window : Type 0 where
  samples : ℕ
  value : ℕ

pub data PerformanceBreachState : Type 0 where
  breach ok insufficient : PerformanceBreachState

abbrev pub min_alert_window_samples : ℕ
min_alert_window_samples = 30

abbrev pub breach_windows_required : ℕ
breach_windows_required = 3

abbrev pub breach_windows_lookback : ℕ
breach_windows_lookback = 4

abbrev pub recovery_clean_windows : ℕ
recovery_clean_windows = 4

-- `slice(-n)` for n above 0
unfoldable pub latest : ℕ → List Window → List Window
latest n windows = drop (length windows - n) windows

abbrev pub is_sufficient : Window → Bool
is_sufficient window = leb min_alert_window_samples window.samples

abbrev pub is_clean : ℕ → Window → Bool
is_clean budget window = is_sufficient window && leb window.value budget

abbrev pub is_breach : ℕ → Window → Bool
is_breach budget window = is_sufficient window && ltb budget window.value

unfoldable pub recovered : List Window → ℕ → Bool
recovered windows budget =
    let clean = latest recovery_clean_windows windows in
    (length clean == recovery_clean_windows) && all (is_clean budget) clean

abbrev pub was_breach : Option PerformanceBreachState → Bool
was_breach (some breach) = true
was_breach _ = false

unfoldable pub evaluate_sustained_breach :
    List Window → ℕ → Option PerformanceBreachState → PerformanceBreachState
evaluate_sustained_breach windows budget previous =
    let recent = latest breach_windows_lookback windows in
    if was_breach previous
    then (if recovered windows budget then ok else breach)
    else if leb breach_windows_required (count_if (is_breach budget) recent)
    then breach
    else if recovered windows budget
    then ok
    else if not (any is_sufficient recent)
    then insufficient
    else or_else previous insufficient

-- The verdict after each further window, given the one before.
unfoldable pub monitor :
    ℕ → List Window → Option PerformanceBreachState → List Window → Option PerformanceBreachState
unfolding evaluate_sustained_breach
monitor budget seen previous [] = previous
monitor budget seen previous (window ∷ windows) =
    let now = seen ++ window ∷ [] in
    monitor budget now (some (evaluate_sustained_breach now budget previous)) windows
