-- ===== src/Worker/Conversions/Funnels.antt =====
-- What the counts of a funnel's steps are.
use app_health.Prelude.{
  ℕ, zero, suc, ◌+◌, ◌≤◌, ◌<◌, ◌≡◌, refl, Bool, true, false, List, [], ◌∷◌, or_else, length, map,
  get_elem?, arith, Bool-cases, inl, inr,
}
use app_health.Worker.Conversions.{
  Fact, AnalysisStep, Funnel, session_progress, count_reached, count_sessions, no_sessions,
  funnel_counts,
}
use app_health.Worker.Conversions.Reaching.{reached_at, session_progress_closed}

abbrev pub count_at : List ℕ → ℕ → ℕ
count_at counts i = or_else (get_elem? counts i) 0

-- Whether the session gets to the step.
abbrev pub gets_to : Funnel → ℕ → List Fact → Bool
gets_to funnel i facts = reached_at (session_progress funnel facts).0 i

abbrev pub one_if : Bool → ℕ
one_if true = 1
one_if false = 0

-- How many sessions pass the test.
abbrev pub tally : (List Fact → Bool) → List (List Fact) → ℕ
tally p [] = 0
tally p (facts ∷ sessions) = one_if (p facts) + tally p sessions

length-count_reached :
    (counts : List ℕ) (reached : List Bool) → length (count_reached counts reached) ≡ length counts
length-count_reached [] reached = refl
length-count_reached (n ∷ ns) [] = refl
length-count_reached (n ∷ ns) (true ∷ bs) = omega (arith, length-count_reached ns bs)
length-count_reached (n ∷ ns) (false ∷ bs) = omega (arith, length-count_reached ns bs)

count_at-count_reached :
    (counts : List ℕ) (reached : List Bool) (i : ℕ)
    → i < length counts
    → count_at (count_reached counts reached) i ≡ count_at counts i + one_if (reached_at reached i)
count_at-count_reached [] reached i h = ground arith
count_at-count_reached (n ∷ ns) [] i h = omega arith
count_at-count_reached (n ∷ ns) (true ∷ bs) zero h = refl
count_at-count_reached (n ∷ ns) (false ∷ bs) zero h = omega arith
count_at-count_reached (n ∷ ns) (true ∷ bs) (suc i) h = count_at-count_reached ns bs i (omega arith)
count_at-count_reached (n ∷ ns) (false ∷ bs) (suc i) h =
    count_at-count_reached ns bs i (omega arith)

count_at-count_sessions :
    (funnel : Funnel) (counts : List ℕ) (sessions : List (List Fact)) (i : ℕ)
    → i < length counts
    → count_at (count_sessions funnel counts sessions) i
      ≡ count_at counts i + tally (gets_to funnel i) sessions
unfolding count_sessions
count_at-count_sessions funnel counts [] i h = omega arith
count_at-count_sessions funnel counts (facts ∷ sessions) i h =
    let reached = (session_progress funnel facts).0 in
    let size = length-count_reached counts reached in
    let rest =
      count_at-count_sessions funnel (count_reached counts reached) sessions i
        (omega (arith, h, size)) in
    let here = count_at-count_reached counts reached i h in omega (arith, rest, here)

no_counts : (steps : List AnalysisStep) (i : ℕ) → count_at (map no_sessions steps) i ≡ 0
no_counts [] i = refl
no_counts (s ∷ ss) zero = refl
no_counts (s ∷ ss) (suc i) = no_counts ss i

length-no_sessions : (steps : List AnalysisStep) → length (map no_sessions steps) ≡ length steps
length-no_sessions [] = refl
length-no_sessions (s ∷ ss) = omega (arith, length-no_sessions ss)

fewer :
    (p q : List Fact → Bool)
    → ((facts : List Fact) → p facts ≡ true → q facts ≡ true)
    → (ss : List (List Fact)) → tally p ss ≤ tally q ss
fewer p q weaker [] = omega arith
fewer p q weaker (facts ∷ ss) =
    let rest = fewer p q weaker ss in
    elim (Bool-cases (p facts)) [
      | inl holds ↦ rw (holds, weaker facts holds) (omega (arith, rest))
      | inr fails ↦ elim (Bool-cases (q facts)) [
        | inl other ↦ rw (fails, other) (omega (arith, rest))
        | inr neither ↦ rw (fails, neither) (omega (arith, rest))
      ]
    ]

-- The count of each step of a funnel is the number of sessions that get to it, and no step has more
-- sessions than the one before: a drop-off is never negative.
pub funnel_counts_fall :
    (funnel : Funnel) (sessions : List (List Fact)) (i : ℕ)
    → suc i < length funnel.steps
    → (count_at (funnel_counts funnel sessions) i ≡ tally (gets_to funnel i) sessions)
      × (count_at (funnel_counts funnel sessions) (suc i) ≡ tally (gets_to funnel (suc i)) sessions)
      × (count_at (funnel_counts funnel sessions) (suc i)
          ≤ count_at (funnel_counts funnel sessions) i)
unfolding funnel_counts
funnel_counts_fall funnel sessions i h =
    let zeros = map no_sessions funnel.steps in
    let size = length-no_sessions funnel.steps in
    let here = count_at-count_sessions funnel zeros sessions i (omega (arith, h, size)) in
    let next = count_at-count_sessions funnel zeros sessions (suc i) (omega (arith, h, size)) in
    let nothing = no_counts funnel.steps i in
    let nothing' = no_counts funnel.steps (suc i) in
    let few =
      fewer (gets_to funnel (suc i)) (gets_to funnel i)
        (λ facts got. session_progress_closed funnel facts i got) sessions in
    (
      omega (arith, here, nothing),
      omega (arith, next, nothing'),
      omega (arith, here, nothing, next, nothing', few),
    )
