-- ===== src/Worker/Conversions.antt =====
-- apps/worker/src/conversion-evaluator.ts: how far sessions get in a funnel.
pub mod Reaching
pub mod Funnels
mod Tests
use app_health.Prelude.{
  ℕ, zero, suc, ◌+◌, ◌-◌, ◌*◌, ◌^◌, min, Bool, true, false, not, ◌&&◌, ◌||◌, List, [], ◌∷◌, ◌++◌,
  Option, none, some, or_else, is_some, leb, ltb, ◌==◌, if◌then◌else◌, length, take, drop, map,
  get_elem?, update,
}
use app_health.Js.{Value, undefined, null, other, boolean, number, string}
use app_health.Js.Numbers.{Num, nan, infinite, finite}
use app_health.Js.Strings.{Text, codes, same_text, starts_with}
use app_health.Js.Maps.{Dict, get, set, values}

pub data EventType : Type 0 where
  page_view event identify revenue : EventType

-- Of a `ConversionFact`, what the funnel reads.
pub record Fact : Type 0 where
  pub session_hash : Option Text
  pub occurred_at : ℕ
  pub event_type : EventType
  pub path : Option Text
  pub name : Option Text
  pub properties : Dict Value

pub data AnalysisStep : Type 0 where
  page : (target : Text) → AnalysisStep
  named : (target : Text) → Option (Text × Value) → AnalysisStep

-- `===` on numbers: a zero equals the other zero.
abbrev pub same_number : Num → Num → Bool
same_number (finite n m s) (finite n' m' s') =
    m * 2 ^ s' == m' * 2 ^ s && (m == 0 || (n && n') || (not n && not n'))
same_number (infinite n) (infinite n') = (n && n') || (not n && not n')
same_number _ _ = false

-- `===`, which no two objects pass here.
unfoldable pub same_value : Value → Value → Bool
same_value (string a) (string b) = same_text a b
same_value (number a) (number b) = same_number a b
same_value (boolean a) (boolean b) = (a && b) || (not a && not b)
same_value null null = true
same_value undefined undefined = true
same_value _ _ = false

-- `step.target.endsWith('/*')`
abbrev pub is_wildcard : Text → Bool
is_wildcard target =
    leb 2 (length target) && same_text (drop (length target - 2) target) (codes "/*")

-- A path against the target of a page step.
abbrev pub path_matches : Text → Text → Bool
path_matches path target =
    let prefix = take (length target - 2) target in
    if is_wildcard target
    then same_text path prefix || starts_with (prefix ++ b'/' ∷ []) path
    else same_text path target

abbrev pub is_page_view : EventType → Bool
is_page_view page_view = true
is_page_view _ = false

abbrev pub is_named_type : EventType → Bool
is_named_type event = true
is_named_type revenue = true
is_named_type _ = false

-- `!event.path` is true of an empty path too.
abbrev pub page_matches : Option Text → Text → Bool
page_matches none target = false
page_matches (some []) target = false
page_matches (some (c ∷ path)) target = path_matches (c ∷ path) target

abbrev pub name_matches : Option Text → Text → Bool
name_matches none target = false
name_matches (some name) target = same_text name target

abbrev pub property_matches : Dict Value → Option (Text × Value) → Bool
property_matches properties none = true
property_matches properties (some (property, equals)) =
    same_value (or_else (get property properties) undefined) equals

unfoldable pub step_matches : Fact → AnalysisStep → Bool
unfolding same_value
step_matches fact (page target) = is_page_view fact.event_type && page_matches fact.path target
step_matches fact (named target property) =
    is_named_type fact.event_type
    && name_matches fact.name target
    && property_matches fact.properties property

pub record Progress : Type 0 where
  pub start : ℕ
  pub last : ℕ

-- What the loop of `sessionProgress` keeps. There is no time stamp before the first fact. The facts
-- come in the order of time, so that no time runs backwards in a subtraction.
pub record Walk : Type 0 where
  pub states : List (Option Progress)
  pub previous : List (Option Progress)
  pub reached : List Bool
  pub elapsed : Option ℕ
  pub timestamp : Option ℕ

-- A funnel's definition, with the test of both segments.
pub record Funnel : Type 0 where
  pub steps : List AnalysisStep
  pub window_ms : ℕ
  pub in_segments : Fact → Bool

-- `previous[step - 1]`
abbrev pub prior_of : ℕ → List (Option Progress) → Option Progress
prior_of zero previous = none
prior_of (suc step) previous = or_else (get_elem? previous step) none

unfoldable pub eligible_progress : Funnel → Fact → ℕ → Option Progress → Bool
eligible_progress funnel fact zero prior = funnel.in_segments fact
eligible_progress funnel fact (suc step) none = false
eligible_progress funnel fact (suc step) (some prior) =
    leb (fact.occurred_at - prior.start) funnel.window_ms

abbrev pub start_of : ℕ → ℕ → Option Progress → ℕ
start_of step now none = now
start_of step now (some prior) = if step == 0 then now else prior.start

-- `!states[step] || states[step].start <= start`
abbrev pub restarts : Option Progress → ℕ → Bool
restarts none start = true
restarts (some state) start = leb state.start start

abbrev pub shorter : Option ℕ → ℕ → Option ℕ
shorter none time = some time
shorter (some elapsed) time = some (min elapsed time)

-- The inner loop's body for an eligible step.
unfoldable pub reach_step : Funnel → Fact → ℕ → Option Progress → Walk → Walk
reach_step funnel fact step prior walk =
    let start = start_of step fact.occurred_at prior in
    let state : Progress = record { start = start; last = fact.occurred_at } in
    record walk {
      states =
          if restarts (or_else (get_elem? walk.states step) none) start
          then update step (λ old. some state) walk.states
          else walk.states;
      reached = update step (λ old. true) walk.reached;
      elapsed =
          if suc step == length funnel.steps
          then shorter walk.elapsed (fact.occurred_at - start)
          else walk.elapsed;
    }

abbrev pub matches_at : Fact → Option AnalysisStep → Bool
matches_at fact none = false
matches_at fact (some step) = step_matches fact step

unfoldable pub visit_step : Funnel → Fact → ℕ → Walk → Walk
unfolding eligible_progress reach_step
visit_step funnel fact step walk =
    let prior = prior_of step walk.previous in
    if matches_at fact (get_elem? funnel.steps step) && eligible_progress funnel fact step prior
    then reach_step funnel fact step prior walk
    else walk

-- The inner loop, from the last of so many steps down to the first.
unfoldable pub visit_steps : Funnel → Fact → ℕ → Walk → Walk
unfolding visit_step
visit_steps funnel fact zero walk = walk
visit_steps funnel fact (suc step) walk =
    visit_steps funnel fact step (visit_step funnel fact step walk)

abbrev pub is_at : Option ℕ → ℕ → Bool
is_at none time = false
is_at (some t) time = t == time

-- What a new time stamp does.
abbrev pub advance_to : ℕ → Walk → Walk
advance_to now walk =
    if is_at walk.timestamp now
    then walk
    else record walk { previous = walk.states; timestamp = some now }

unfoldable pub visit_facts : Funnel → List Fact → Walk → Walk
unfolding visit_steps
visit_facts funnel [] walk = walk
visit_facts funnel (fact ∷ facts) walk =
    visit_facts funnel facts
      (visit_steps funnel fact (length funnel.steps) (advance_to fact.occurred_at walk))

abbrev pub no_progress : AnalysisStep → Option Progress
no_progress step = none

abbrev pub not_reached : AnalysisStep → Bool
not_reached step = false

unfoldable pub session_progress : Funnel → List Fact → List Bool × Option ℕ
unfolding visit_facts
session_progress funnel facts =
    let start : Walk = record {
      states = map no_progress funnel.steps;
      previous = map no_progress funnel.steps;
      reached = map not_reached funnel.steps;
      elapsed = none;
      timestamp = none;
    } in
    let walk = visit_facts funnel facts start in (walk.reached, walk.elapsed)

-- `!fact.context.session_hash` is true of an empty hash too.
abbrev pub group_fact : Dict (List Fact) → Option Text → Fact → Dict (List Fact)
group_fact groups none fact = groups
group_fact groups (some []) fact = groups
group_fact groups (some (c ∷ hash)) fact =
    set (c ∷ hash) (or_else (get (c ∷ hash) groups) [] ++ fact ∷ []) groups

unfoldable pub session_groups : Dict (List Fact) → List Fact → Dict (List Fact)
session_groups groups [] = groups
session_groups groups (fact ∷ facts) =
    session_groups (group_fact groups fact.session_hash fact) facts

-- `if (reached) counts[index]++` over the steps.
abbrev pub count_reached : List ℕ → List Bool → List ℕ
count_reached [] reached = []
count_reached (n ∷ ns) [] = n ∷ ns
count_reached (n ∷ ns) (true ∷ reached) = (n + 1) ∷ count_reached ns reached
count_reached (n ∷ ns) (false ∷ reached) = n ∷ count_reached ns reached

-- The loop of `funnelResult` over the sessions.
unfoldable pub count_sessions : Funnel → List ℕ → List (List Fact) → List ℕ
unfolding session_progress
count_sessions funnel counts [] = counts
count_sessions funnel counts (facts ∷ sessions) =
    let (reached, elapsed) = session_progress funnel facts in
    count_sessions funnel (count_reached counts reached) sessions

abbrev pub no_sessions : AnalysisStep → ℕ
no_sessions step = 0

unfoldable pub funnel_counts : Funnel → List (List Fact) → List ℕ
unfolding count_sessions
funnel_counts funnel sessions = count_sessions funnel (map no_sessions funnel.steps) sessions

-- The counts of `funnelResult`, for the facts of all sessions.
unfoldable pub funnel_result : Funnel → List Fact → List ℕ
unfolding session_groups funnel_counts
funnel_result funnel facts = funnel_counts funnel (values (session_groups [] facts))
