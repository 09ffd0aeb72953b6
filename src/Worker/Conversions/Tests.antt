-- ===== src/Worker/Conversions/Tests.antt =====
-- A funnel of two steps and three sessions.
use app_health.Prelude.{ℕ, ◌≤◌, ◌≡◌, refl, true, List, [], ◌∷◌, none, some, arith}
use app_health.Js.{boolean}
use app_health.Js.Strings.{Text, codes}
use app_health.Js.Maps.{get, set}
use app_health.Worker.Conversions.{
  page_view, event, Fact, page, named, Funnel, same_value, step_matches, eligible_progress,
  reach_step, visit_step, visit_steps, visit_facts, session_progress, count_sessions, funnel_counts,
  session_groups, funnel_result,
}
use app_health.Worker.Conversions.Funnels.{count_at, tally, gets_to, funnel_counts_fall}

abbrev visit : Text → ℕ → Fact
visit path at = record {
  session_hash = some (codes "s");
  occurred_at = at;
  event_type = page_view;
  path = some path;
  name = none;
  properties = [];
}

abbrev signup : ℕ → Fact
signup at = record {
  session_hash = some (codes "s");
  occurred_at = at;
  event_type = event;
  path = none;
  name = some (codes "signup");
  properties = (codes "paid", boolean true) ∷ [];
}

abbrev funnel : Funnel
funnel = record {
  steps = page (codes "/docs/*") ∷ named (codes "signup") (some (codes "paid", boolean true)) ∷ [];
  window_ms = 1000;
  in_segments = λ fact. true;
}

abbrev sessions : List (List Fact)
sessions =
    (visit (codes "/docs/a") 10 ∷ signup 500 ∷ [])
    ∷ (visit (codes "/docs") 10 ∷ signup 2000 ∷ [])
    ∷ (signup 10 ∷ [])
    ∷ []

conversions : Unit {0}
unfolding get same_value step_matches eligible_progress reach_step visit_step visit_steps
    visit_facts session_progress count_sessions funnel_counts session_groups funnel_result set
conversions = tt

funnel_counts-sessions : funnel_counts funnel sessions ≡ 2 ∷ 1 ∷ []
unfolding conversions
funnel_counts-sessions = refl

funnel_result-one : funnel_result funnel (visit (codes "/docs/a") 10 ∷ signup 500 ∷ []) ≡ 1 ∷ 1 ∷ []
unfolding conversions
funnel_result-one = refl

session_progress-first :
    session_progress funnel (visit (codes "/docs/a") 10 ∷ signup 500 ∷ [])
    ≡ (true ∷ true ∷ [], some 490)
unfolding conversions
session_progress-first = refl

funnel_counts_fall_example :
    (count_at (funnel_counts funnel sessions) 0 ≡ tally (gets_to funnel 0) sessions)
    × (count_at (funnel_counts funnel sessions) 1 ≡ tally (gets_to funnel 1) sessions)
    × (count_at (funnel_counts funnel sessions) 1 ≤ count_at (funnel_counts funnel sessions) 0)
funnel_counts_fall_example = funnel_counts_fall funnel sessions 0 (omega arith)
