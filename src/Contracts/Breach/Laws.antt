-- ===== src/Contracts/Breach/Laws.antt =====
-- What opens an incident, what keeps it open and what closes it.
use app_health.Prelude.{
  ℕ, zero, suc, ◌-◌, ◌≤◌, ◌≡◌, refl, sym, ◌∙◌, Bool, true, false, ◌&&◌, List, [], ◌∷◌, ◌++◌, Option,
  some, ◌==◌, if◌then◌else◌, length, length-append, drop, all, any, count_if, arith, and_parts,
  or_parts, Bool-cases, inl, inr,
}
use app_health.Contracts.Breach.{
  Window, PerformanceBreachState, breach, ok, insufficient, latest, is_sufficient, is_clean,
  is_breach, recovered, was_breach, evaluate_sustained_breach, monitor, breach_windows_lookback,
  recovery_clean_windows,
}

no_breaches :
    (budget : ℕ) (ws : List Window)
    → all (is_clean budget) ws ≡ true
    → count_if (is_breach budget) ws ≡ 0
no_breaches budget [] h = refl
no_breaches budget (w ∷ ws) h =
    let (clean, rest) = and_parts (is_clean budget w) (all (is_clean budget) ws) h in
    ground (arith, no_breaches budget ws rest)

and_false : (b : Bool) → (b && false) ≡ false
and_false true = refl
and_false false = refl

no_evidence :
    (budget : ℕ) (ws : List Window)
    → any is_sufficient ws ≡ false
    → count_if (is_breach budget) ws ≡ 0
no_evidence budget [] h = refl
no_evidence budget (w ∷ ws) h =
    let (few, rest) = or_parts (is_sufficient w) (any is_sufficient ws) h in
    ground (arith, no_evidence budget ws rest)

no_recovery :
    (budget : ℕ) (ws : List Window)
    → any is_sufficient ws ≡ false
    → ((length ws == recovery_clean_windows) && all (is_clean budget) ws) ≡ false
no_recovery budget [] h = ground arith
no_recovery budget (w ∷ ws) h =
    let (few, rest) = or_parts (is_sufficient w) (any is_sufficient ws) h in
    rw few (and_false (length (w ∷ ws) == recovery_clean_windows))

recovered-clean :
    (windows : List Window) (budget : ℕ)
    → recovered windows budget ≡ true
    → all (is_clean budget) (latest breach_windows_lookback windows) ≡ true
unfolding recovered
recovered-clean windows budget h =
    let clean = latest recovery_clean_windows windows in
    (and_parts (length clean == recovery_clean_windows) (all (is_clean budget) clean) h).1

recovered-insufficient :
    (windows : List Window) (budget : ℕ)
    → any is_sufficient (latest breach_windows_lookback windows) ≡ false
    → recovered windows budget ≡ false
unfolding recovered
recovered-insufficient windows budget h =
    no_recovery budget (latest recovery_clean_windows windows) h

-- The order of the tests in the code does not matter to a recovery.
recovered-ok :
    (windows : List Window) (budget : ℕ) (previous : Option PerformanceBreachState)
    → recovered windows budget ≡ true
    → evaluate_sustained_breach windows budget previous ≡ ok
unfolding evaluate_sustained_breach
recovered-ok windows budget previous h =
    let calm =
      no_breaches budget (latest breach_windows_lookback windows)
        (recovered-clean windows budget h) in
    elim (Bool-cases (was_breach previous)) [
      | inl open_incident ↦ rw (open_incident, h) refl
      | inr closed ↦ rw (closed, calm, h) refl
    ]

drop_seen : (seen last : List Window) → drop (length seen) (seen ++ last) ≡ last
drop_seen [] last = refl
drop_seen (w ∷ seen) last = drop_seen seen last

-- A window that has at least 30 samples and is within the budget.
abbrev pub IsCalm : ℕ → Window → Type 0
IsCalm budget window = (30 ≤ window.samples) × (window.value ≤ budget)

IsCalm-clean : (budget : ℕ) (window : Window) → IsCalm budget window → is_clean budget window ≡ true
IsCalm-clean budget window (enough, low) = ground (arith, enough, low)

recovered_four :
    (seen : List Window) (a b c d : Window) (budget : ℕ)
    → IsCalm budget a
    → IsCalm budget b
    → IsCalm budget c
    → IsCalm budget d
    → recovered (seen ++ a ∷ b ∷ c ∷ d ∷ []) budget ≡ true
unfolding recovered latest
recovered_four seen a b c d budget ha hb hc hd =
    let few : length (seen ++ a ∷ b ∷ c ∷ d ∷ []) - recovery_clean_windows ≡ length seen =
      omega (arith, length-append seen (a ∷ b ∷ c ∷ d ∷ [])) in
    rw
      (
        few,
        drop_seen seen (a ∷ b ∷ c ∷ d ∷ []),
        IsCalm-clean budget a ha,
        IsCalm-clean budget b hb,
        IsCalm-clean budget c hc,
        IsCalm-clean budget d hd,
      )
      refl

-- After four windows of at least 30 samples each and none above the budget, whatever came before
-- them, the verdict is ok, and an open incident is closed.
pub four_calm_windows-ok :
    (seen : List Window) (a b c d : Window) (budget : ℕ) (previous : Option PerformanceBreachState)
    → IsCalm budget a
    → IsCalm budget b
    → IsCalm budget c
    → IsCalm budget d
    → evaluate_sustained_breach (seen ++ a ∷ b ∷ c ∷ d ∷ []) budget previous ≡ ok
four_calm_windows-ok seen a b c d budget previous ha hb hc hd =
    recovered-ok (seen ++ a ∷ b ∷ c ∷ d ∷ []) budget previous
      (recovered_four seen a b c d budget ha hb hc hd)

-- Where none of the latest four windows has enough samples, an open incident stays open and no
-- earlier verdict ok is kept.
pub insufficient_lem :
    (windows : List Window) (budget : ℕ) (previous : Option PerformanceBreachState)
    → any is_sufficient (latest breach_windows_lookback windows) ≡ false
    → evaluate_sustained_breach windows budget previous
      ≡ (if was_breach previous then breach else insufficient)
unfolding evaluate_sustained_breach
insufficient_lem windows budget previous h =
    let calm = no_evidence budget (latest breach_windows_lookback windows) h in
    let stays = recovered-insufficient windows budget h in
    elim (Bool-cases (was_breach previous)) [
      | inl open_incident ↦ rw (open_incident, stays) refl
      | inr closed ↦ rw (closed, calm, stays, h) refl
    ]

drop_last :
    (p : Window → Bool) (k : ℕ) (seen : List Window) (w : Window)
    → k ≤ length seen
    → all p (drop k (seen ++ w ∷ [])) ≡ true
    → p w ≡ true
drop_last p zero [] w h a = (and_parts (p w) true a).0
drop_last p zero (s ∷ seen) w h a =
    drop_last p zero seen w (omega arith) (and_parts (p s) (all p (seen ++ w ∷ [])) a).1
drop_last p (suc k) [] w h a = ground arith
drop_last p (suc k) (s ∷ seen) w h a = drop_last p k seen w (omega arith) a

not_recovered :
    (budget : ℕ) (seen : List Window) (w : Window)
    → is_clean budget w ≡ false
    → recovered (seen ++ w ∷ []) budget ≡ false
unfolding recovered latest
not_recovered budget seen w dirty =
    let from = length (seen ++ w ∷ []) - recovery_clean_windows in
    let clean = drop from (seen ++ w ∷ []) in
    elim (Bool-cases (all (is_clean budget) clean)) [
      | inl all_clean ↦
          let few : from ≤ length seen = omega (arith, length-append seen (w ∷ [])) in
          let impossible : true ≡ false =
            sym (drop_last (is_clean budget) from seen w few all_clean) ∙ dirty in
          ground arith
      | inr some_dirty ↦ rw some_dirty (and_false (length clean == recovery_clean_windows))
    ]

-- An open incident stays open as long as no window is clean, however many come.
pub monitor-breach :
    (budget : ℕ) (seen windows : List Window)
    → any (is_clean budget) windows ≡ false
    → monitor budget seen (some breach) windows ≡ some breach
unfolding monitor
monitor-breach budget seen [] h = refl
monitor-breach budget seen (w ∷ windows) h =
    let (dirty, rest) = or_parts (is_clean budget w) (any (is_clean budget) windows) h in
    rw (not_recovered budget seen w dirty) (monitor-breach budget (seen ++ w ∷ []) windows rest)
