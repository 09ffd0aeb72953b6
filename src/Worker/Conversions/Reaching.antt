-- ===== src/Worker/Conversions/Reaching.antt =====
-- That a session reaches no step of a funnel without the one before.
use app_health.Prelude.{
  ℕ, zero, suc, ◌<◌, ◌≡◌, refl, sym, ◌∙◌, ◌⊎◌, Bool, true, false, ◌&&◌, List, [], ◌∷◌, Option, none,
  some, or_else, is_some, subst, length, length-update, map, get_elem?, update, arith, inl, inr,
  and_parts, if_elim,
}
use app_health.Worker.Conversions.{
  Fact, AnalysisStep, Progress, Walk, Funnel, prior_of, eligible_progress, start_of, restarts,
  reach_step, matches_at, visit_step, visit_steps, is_at, advance_to, visit_facts, no_progress,
  not_reached, session_progress,
}

abbrev pub reached_at : List Bool → ℕ → Bool
reached_at reached i = or_else (get_elem? reached i) false

abbrev pub state_at : List (Option Progress) → ℕ → Option Progress
state_at states i = or_else (get_elem? states i) none

pub record IsClosed (walk : Walk) : Type 0 where
  pub sizes : length walk.states ≡ length walk.reached
  pub held : (i : ℕ) → is_some (state_at walk.states i) ≡ true → reached_at walk.reached i ≡ true
  pub kept : (i : ℕ) → is_some (state_at walk.previous i) ≡ true → reached_at walk.reached i ≡ true
  pub closed : (i : ℕ) → reached_at walk.reached (suc i) ≡ true → reached_at walk.reached i ≡ true

reached_in_range :
    (reached : List Bool) (i : ℕ)
    → i < length reached
    → reached_at (update i (λ old. true) reached) i ≡ true
reached_in_range [] i h = ground arith
reached_in_range (b ∷ bs) zero h = refl
reached_in_range (b ∷ bs) (suc i) h = reached_in_range bs i (omega arith)

reached_more :
    (reached : List Bool) (i j : ℕ)
    → reached_at reached j ≡ true
    → reached_at (update i (λ old. true) reached) j ≡ true
reached_more [] i j h = h
reached_more (b ∷ bs) zero zero h = refl
reached_more (b ∷ bs) zero (suc j) h = h
reached_more (b ∷ bs) (suc i) zero h = h
reached_more (b ∷ bs) (suc i) (suc j) h = reached_more bs i j h

-- What is reached after a step was marked was so before, or is that step.
reached_only :
    (reached : List Bool) (i j : ℕ)
    → reached_at (update i (λ old. true) reached) j ≡ true
    → (reached_at reached j ≡ true) ⊎ (j ≡ i)
reached_only [] i j h = inl h
reached_only (b ∷ bs) zero zero h = inr refl
reached_only (b ∷ bs) zero (suc j) h = inl h
reached_only (b ∷ bs) (suc i) zero h = inl h
reached_only (b ∷ bs) (suc i) (suc j) h = elim (reached_only bs i j h) [
  | inl before ↦ inl before
  | inr same ↦ inr (omega (arith, same))
]

-- A state that is there after one was put in was there before, or is that one, within range.
state_only :
    (states : List (Option Progress)) (i j : ℕ) (p : Progress)
    → is_some (state_at (update i (λ old. some p) states) j) ≡ true
    → (is_some (state_at states j) ≡ true) ⊎ ((j ≡ i) × (i < length states))
state_only [] i j p h = inl h
state_only (s ∷ ss) zero zero p h = inr (refl, omega arith)
state_only (s ∷ ss) zero (suc j) p h = inl h
state_only (s ∷ ss) (suc i) zero p h = inl h
state_only (s ∷ ss) (suc i) (suc j) p h = elim (state_only ss i j p h) [
  | inl before ↦ inl before
  | inr (same, within) ↦ inr (omega (arith, same), omega (arith, within))
]

prior_reached :
    (funnel : Funnel) (fact : Fact) (step : ℕ) (walk : Walk)
    → IsClosed walk
    → eligible_progress funnel fact (suc step) (prior_of (suc step) walk.previous) ≡ true
    → reached_at walk.reached step ≡ true
unfolding eligible_progress
prior_reached funnel fact step walk c h = c.kept step (there (state_at walk.previous step) h)
  where
    there :
        (o : Option Progress) → eligible_progress funnel fact (suc step) o ≡ true → is_some o ≡ true
    there none k = ground arith
    there (some p) k = refl

reach_step-IsClosed :
    (funnel : Funnel) (fact : Fact) (step : ℕ) (walk : Walk)
    → eligible_progress funnel fact step (prior_of step walk.previous) ≡ true
    → IsClosed walk
    → IsClosed (reach_step funnel fact step (prior_of step walk.previous) walk)
unfolding reach_step
reach_step-IsClosed funnel fact step walk may c =
    let start = start_of step fact.occurred_at (prior_of step walk.previous) in
    let state : Progress = record { start = start; last = fact.occurred_at } in
    let again = restarts (state_at walk.states step) start in
    record {
      sizes =
          if_elim
            (λ (ss : List (Option Progress)).
              length ss ≡ length (update step (λ old. true) walk.reached))
            again
            (λ h.
              length-update step (λ old. some state) walk.states
              ∙ (c.sizes ∙ sym (length-update step (λ old. true) walk.reached)))
            (λ h. c.sizes ∙ sym (length-update step (λ old. true) walk.reached));
      held = λ i.
          if_elim
            (λ (ss : List (Option Progress)).
              is_some (state_at ss i) ≡ true
              → reached_at (update step (λ old. true) walk.reached) i ≡ true)
            again (λ h there. put_in i state there)
            (λ h there. reached_more walk.reached step i (c.held i there));
      kept = λ i there. reached_more walk.reached step i (c.kept i there);
      closed = λ i there. elim (reached_only walk.reached step (suc i) there) [
        | inl before ↦ reached_more walk.reached step i (c.closed i before)
        | inr its ↦ reached_more walk.reached step i (first_of i its)
      ];
    }
  where
    put_in :
        (i : ℕ) (state : Progress)
        → is_some (state_at (update step (λ old. some state) walk.states) i) ≡ true
        → reached_at (update step (λ old. true) walk.reached) i ≡ true
    put_in i state there = elim (state_only walk.states step i state there) [
      | inl before ↦ reached_more walk.reached step i (c.held i before)
      | inr (same, within) ↦
          rw same (reached_in_range walk.reached step (omega (arith, within, c.sizes)))
    ]

    first_of : (i : ℕ) → suc i ≡ step → reached_at walk.reached i ≡ true
    first_of i its = prior_reached funnel fact i walk c (
        subst (λ s. eligible_progress funnel fact s (prior_of s walk.previous) ≡ true) (sym its)
          may)

visit_step-IsClosed :
    (funnel : Funnel) (fact : Fact) (step : ℕ) (walk : Walk)
    → IsClosed walk
    → IsClosed (visit_step funnel fact step walk)
unfolding visit_step
visit_step-IsClosed funnel fact step walk c =
    let prior = prior_of step walk.previous in
    if_elim (λ (w : Walk). IsClosed w)
      (matches_at fact (get_elem? funnel.steps step) && eligible_progress funnel fact step prior)
      (λ h.
        reach_step-IsClosed funnel fact step walk
          (and_parts (matches_at fact (get_elem? funnel.steps step))
            (eligible_progress funnel fact step prior) h).1
          c)
      (λ h. c)

visit_steps-IsClosed :
    (funnel : Funnel) (fact : Fact) (steps : ℕ) (walk : Walk)
    → IsClosed walk
    → IsClosed (visit_steps funnel fact steps walk)
unfolding visit_steps
visit_steps-IsClosed funnel fact zero walk c = c
visit_steps-IsClosed funnel fact (suc step) walk c =
    visit_steps-IsClosed funnel fact step (visit_step funnel fact step walk)
      (visit_step-IsClosed funnel fact step walk c)

advance_to-IsClosed : (now : ℕ) (walk : Walk) → IsClosed walk → IsClosed (advance_to now walk)
advance_to-IsClosed now walk c =
    if_elim (λ (w : Walk). IsClosed w) (is_at walk.timestamp now) (λ same. c)
      (λ new. record { sizes = c.sizes; held = c.held; kept = c.held; closed = c.closed })

visit_facts-IsClosed :
    (funnel : Funnel) (facts : List Fact) (walk : Walk)
    → IsClosed walk
    → IsClosed (visit_facts funnel facts walk)
unfolding visit_facts
visit_facts-IsClosed funnel [] walk c = c
visit_facts-IsClosed funnel (fact ∷ facts) walk c =
    visit_facts-IsClosed funnel facts
      (visit_steps funnel fact (length funnel.steps) (advance_to fact.occurred_at walk))
      (visit_steps-IsClosed funnel fact (length funnel.steps) (advance_to fact.occurred_at walk)
        (advance_to-IsClosed fact.occurred_at walk c))

nothing_reached : (steps : List AnalysisStep) (i : ℕ) → reached_at (map not_reached steps) i ≡ false
nothing_reached [] i = refl
nothing_reached (s ∷ ss) zero = refl
nothing_reached (s ∷ ss) (suc i) = nothing_reached ss i

nothing_held :
    (steps : List AnalysisStep) (i : ℕ) → is_some (state_at (map no_progress steps) i) ≡ false
nothing_held [] i = refl
nothing_held (s ∷ ss) zero = refl
nothing_held (s ∷ ss) (suc i) = nothing_held ss i

no_progress_sizes :
    (steps : List AnalysisStep) → length (map no_progress steps) ≡ length (map not_reached steps)
no_progress_sizes [] = refl
no_progress_sizes (s ∷ ss) = omega (arith, no_progress_sizes ss)

-- A session that reaches a step of a funnel has reached the step before.
pub session_progress_closed :
    (funnel : Funnel) (facts : List Fact) (i : ℕ)
    → reached_at (session_progress funnel facts).0 (suc i) ≡ true
    → reached_at (session_progress funnel facts).0 i ≡ true
unfolding session_progress
session_progress_closed funnel facts i h =
    let start : Walk = record {
      states = map no_progress funnel.steps;
      previous = map no_progress funnel.steps;
      reached = map not_reached funnel.steps;
      elapsed = none;
      timestamp = none;
    } in
    let nothing : (j : ℕ)
        → is_some (state_at start.states j) ≡ true
        → reached_at start.reached j ≡ true =
      λ j there.
        (let impossible : true ≡ false = sym there ∙ nothing_held funnel.steps j in ground arith) in
    let c : IsClosed start = record {
      sizes = no_progress_sizes funnel.steps;
      held = nothing;
      kept = nothing;
      closed = λ j there.
          (let impossible : true ≡ false = sym there ∙ nothing_reached funnel.steps (suc j) in
            ground arith);
    } in
    (visit_facts-IsClosed funnel facts start c).closed i h
