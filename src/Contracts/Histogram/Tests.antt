-- ===== src/Contracts/Histogram/Tests.antt =====
-- A legacy histogram with three requests in the bin that straddles 2000 ms.
use app_health.Prelude.{ℕ, ◌≡◌, refl, List, [], ◌∷◌, some, length, sum}
use app_health.Contracts.Histogram.{
  legacy_v1, normalize_latency_histogram, normalize_from, normalize_latency_histogram_index,
}
use app_health.Contracts.Histogram.Totals.{normalize_latency_histogram-total}

abbrev legacy : List ℕ
legacy = 4 ∷ 0 ∷ 0 ∷ 0 ∷ 0 ∷ 0 ∷ 0 ∷ 0 ∷ 1 ∷ 3 ∷ 2 ∷ 0 ∷ 0 ∷ 0 ∷ 0 ∷ 0 ∷ []

abbrev current : List ℕ
current = 4 ∷ 0 ∷ 0 ∷ 0 ∷ 0 ∷ 0 ∷ 0 ∷ 0 ∷ 1 ∷ 0 ∷ 5 ∷ 0 ∷ 0 ∷ 0 ∷ 0 ∷ 0 ∷ []

normalize_latency_histogram-legacy : normalize_latency_histogram legacy legacy_v1 ≡ some current
unfolding normalize_latency_histogram normalize_from normalize_latency_histogram_index
normalize_latency_histogram-legacy = refl

normalize_latency_histogram-total_example :
    (after : List ℕ) × (normalize_latency_histogram legacy legacy_v1 ≡ some after)
    × (length after ≡ 16)
    × (sum after ≡ sum legacy)
normalize_latency_histogram-total_example = normalize_latency_histogram-total legacy legacy_v1 refl
