-- ===== src/Worker/Memory/Buckets/Latency.antt =====
-- Which bin of the histogram a duration falls into.
use app_health.Prelude.{ℕ, suc, ◌+◌, ◌≤◌, ◌<◌, List, [], ◌∷◌, ltb, arith, length, if_elim}
use app_health.Contracts.Histogram.{latency_bucket_bounds_ms}
use app_health.Worker.Memory.Buckets.{index_from, histogram_index}

index_from_bound :
    (duration_ms : ℕ) (bounds : List ℕ) (idx : ℕ)
    → index_from duration_ms bounds idx ≤ idx + length bounds
unfolding index_from
index_from_bound duration_ms [] idx = omega arith
index_from_bound duration_ms (bound ∷ bounds) idx =
    if_elim (λ (i : ℕ). i ≤ idx + suc (length bounds)) (ltb bound duration_ms)
      (λ over. omega (arith, index_from_bound duration_ms bounds (suc idx))) (λ within. omega arith)

-- Every duration has a bin.
pub histogram_index_bound : (duration_ms : ℕ) → histogram_index duration_ms < 16
unfolding histogram_index
histogram_index_bound duration_ms =
    omega (arith, index_from_bound duration_ms latency_bucket_bounds_ms 0)
