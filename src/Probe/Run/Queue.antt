-- ===== src/Probe/Run/Queue.antt =====
-- The logs that wait for delivery, from one run to the next.
use app_health.Prelude.{
  ℕ, ◌+◌, ◌-◌, ◌≤◌, ◌≡◌, refl, sym, ap, ◌∙◌, Bool, true, false, List, [], ◌∷◌, ◌++◌, if◌then◌else◌,
  length, length-append, drop, length-drop, drop-append, drop-drop, arith,
}
use app_health.Probe.Run.{
  ProbeLog, ProbeState, Run, last, max_pending_logs, empty_state, advance_all, observed,
  queued_logs, batch, run_probes, run_history,
}

-- The transitions of one run, as logs.
abbrev pub new_logs : ProbeState → Run → List ProbeLog
new_logs state run = (advance_all run.started_at state.journeys (observed run)).1

-- All transitions since the last run that delivered its batch, after those that wait already.
unfoldable pub undelivered : List ProbeLog → ProbeState → List Run → List ProbeLog
undelivered waiting state [] = waiting
undelivered waiting state (run ∷ runs) =
    undelivered (if run.delivers (batch state run) then [] else waiting ++ new_logs state run)
      (run_probes state run) runs

length-last : (n : ℕ) (logs : List ProbeLog) → length (last n logs) ≤ n
unfolding last
length-last n logs = omega (arith, length-drop (length logs - n) logs)

-- What was forgotten before stays forgotten.
last-append : (n : ℕ) (old new : List ProbeLog) → last n (last n old ++ new) ≡ last n (old ++ new)
unfolding last
last-append n old new =
    let d = length old - n in
    let kept = drop-append d old new (omega arith) in
    let count : length (drop d old ++ new) - n + d ≡ length (old ++ new) - n =
      omega (arith, length-append (drop d old) new, length-append old new, length-drop d old) in
    ap (drop (length (drop d old ++ new) - n)) (sym kept)
    ∙ drop-drop d (length (drop d old ++ new) - n) (length (old ++ new) - n) (old ++ new)
        (omega (arith, count))

run_probes_pending :
    (state : ProbeState) (run : Run)
    → (run_probes state run).pending ≡ (
        if run.delivers (batch state run)
        then []
        else last max_pending_logs (state.pending ++ new_logs state run))
unfolding run_probes queued_logs
run_probes_pending state run = refl

waiting_after :
    (waiting : List ProbeLog) (state : ProbeState) (runs : List Run)
    → state.pending ≡ last max_pending_logs waiting
    → (run_history state runs).pending ≡ last max_pending_logs (undelivered waiting state runs)
unfolding run_history undelivered
waiting_after waiting state [] h = h
waiting_after waiting state (run ∷ runs) h =
    waiting_after (if run.delivers (batch state run) then [] else waiting ++ new_logs state run)
      (run_probes state run) runs
      (run_probes_pending state run ∙ pushed (run.delivers (batch state run)))
  where
    pushed :
        (delivered : Bool)
        → (if delivered then [] else last max_pending_logs (state.pending ++ new_logs state run))
          ≡ last max_pending_logs (if delivered then [] else waiting ++ new_logs state run)
    pushed true = unfold last in refl
    pushed false =
        ap (λ logs. last max_pending_logs (logs ++ new_logs state run)) h
        ∙ last-append max_pending_logs waiting (new_logs state run)

-- What waits after successive runs is the latest 90 of the transitions that were not delivered: no
-- transition is lost but the oldest, and those only beyond 90; none is delivered and kept.
pub run_history-pending :
    (runs : List Run)
    → (run_history empty_state runs).pending
      ≡ last max_pending_logs (undelivered [] empty_state runs)
run_history-pending runs = waiting_after [] empty_state runs (unfold last in refl)

one_more :
    (n : ℕ) (logs : List ProbeLog) (log : ProbeLog)
    → length logs ≤ n
    → length (logs ++ log ∷ []) ≤ n + 1
one_more n logs log h = omega (arith, length-append logs (log ∷ []))

-- At any time at most 90 logs wait, and a batch that is given to delivery has at most 91.
pub run_history_bounds :
    (runs : List Run) (run : Run)
    → (length (run_history empty_state runs).pending ≤ max_pending_logs)
      × (length (batch (run_history empty_state runs) run) ≤ max_pending_logs + 1)
unfolding batch queued_logs
run_history_bounds runs run =
    let state = run_history empty_state runs in
    let few : length state.pending ≤ max_pending_logs =
      rw (run_history-pending runs)
        (length-last max_pending_logs (undelivered [] empty_state runs)) in
    let queued = last max_pending_logs (state.pending ++ new_logs state run) in
    (
      few,
      one_more max_pending_logs queued _
          (length-last max_pending_logs (state.pending ++ new_logs state run)),
    )
