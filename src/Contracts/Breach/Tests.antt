-- ===== src/Contracts/Breach/Tests.antt =====
-- A route with a budget of 500 ms.
use app_health.Prelude.{◌≡◌, refl, List, [], ◌∷◌, none, some, arith, if◌then◌else◌}
use app_health.Contracts.Breach.{
  Window, breach, ok, insufficient, latest, recovered, was_breach, evaluate_sustained_breach,
  monitor,
}
use app_health.Contracts.Breach.Laws.{
  IsCalm, four_calm_windows-ok, insufficient_lem, monitor-breach,
}

abbrev fast : Window
fast = record { samples = 40; value = 300 }

abbrev slow : Window
slow = record { samples = 40; value = 900 }

abbrev quiet : Window
quiet = record { samples = 5; value = 900 }

abbrev calm : List Window
calm = slow ∷ fast ∷ fast ∷ fast ∷ fast ∷ []

monitor-opens : monitor 500 [] none (slow ∷ fast ∷ slow ∷ slow ∷ []) ≡ some breach
unfolding monitor evaluate_sustained_breach recovered latest
monitor-opens = refl

fast-IsCalm : IsCalm 500 fast
fast-IsCalm = (omega arith, omega arith)

four_calm_windows-ok_example : evaluate_sustained_breach calm 500 (some breach) ≡ ok
four_calm_windows-ok_example =
    four_calm_windows-ok (slow ∷ []) fast fast fast fast 500 (some breach) fast-IsCalm fast-IsCalm
      fast-IsCalm fast-IsCalm

too_few :
    evaluate_sustained_breach (quiet ∷ quiet ∷ []) 500 (some ok)
    ≡ (if was_breach (some ok) then breach else insufficient)
unfolding latest
too_few = insufficient_lem (quiet ∷ quiet ∷ []) 500 (some ok) refl

monitor-breach_example : monitor 500 calm (some breach) (quiet ∷ slow ∷ quiet ∷ []) ≡ some breach
monitor-breach_example = monitor-breach 500 calm (quiet ∷ slow ∷ quiet ∷ []) refl
