-- ===== src/Contracts/Histogram.antt =====
-- packages/contracts/src/constants.ts: histograms of latency, legacy ones brought to today's bins.
pub mod Totals
mod Tests
use app_health.Prelude.{
  ℕ, zero, suc, ◌+◌, Bool, true, false, not, ◌&&◌, List, [], ◌∷◌, Option, none, some, ◌>>=◌, ltb,
  ◌==◌, if◌then◌else◌, length,
}

abbrev pub legacy_latency_bucket_bounds_ms : List ℕ
legacy_latency_bucket_bounds_ms =
    1 ∷ 5 ∷ 10 ∷ 25 ∷ 50 ∷ 100 ∷ 250 ∷ 500 ∷ 1000 ∷ 2000 ∷ 4000 ∷ 8000 ∷ 16000 ∷ 32000 ∷ 64000 ∷ []

abbrev pub latency_bucket_bounds_ms : List ℕ
latency_bucket_bounds_ms =
    1 ∷ 5 ∷ 10 ∷ 25 ∷ 50 ∷ 100 ∷ 250 ∷ 500 ∷ 1000 ∷ 1999 ∷ 4000 ∷ 8000 ∷ 16000 ∷ 32000 ∷ 64000 ∷ []

pub data LatencyHistogramSchema : Type 0 where
  legacy_v1 latency_v2 : LatencyHistogramSchema

abbrev pub is_legacy : LatencyHistogramSchema → Bool
is_legacy legacy_v1 = true
is_legacy latency_v2 = false

unfoldable pub normalize_latency_histogram_index : ℕ → LatencyHistogramSchema → Option ℕ
normalize_latency_histogram_index index schema =
    if ltb (length latency_bucket_bounds_ms) index
    then none
    else if is_legacy schema && (index == 9)
    then some 10
    else some index

-- `histogram[index] += count`
abbrev pub add_at : List ℕ → ℕ → ℕ → List ℕ
add_at [] index count = []
add_at (n ∷ ns) zero count = (n + count) ∷ ns
add_at (n ∷ ns) (suc index) count = n ∷ add_at ns index count

-- The loop over the counts, from an index on.
unfoldable pub normalize_from : List ℕ → ℕ → List ℕ → LatencyHistogramSchema → Option (List ℕ)
unfolding normalize_latency_histogram_index
normalize_from normalized index [] schema = some normalized
normalize_from normalized index (count ∷ counts) schema = do
  target ← normalize_latency_histogram_index index schema
  normalize_from (add_at normalized target count) (suc index) counts schema

abbrev pub empty_histogram : List ℕ
empty_histogram = 0 ∷ 0 ∷ 0 ∷ 0 ∷ 0 ∷ 0 ∷ 0 ∷ 0 ∷ 0 ∷ 0 ∷ 0 ∷ 0 ∷ 0 ∷ 0 ∷ 0 ∷ 0 ∷ []

unfoldable pub normalize_latency_histogram : List ℕ → LatencyHistogramSchema → Option (List ℕ)
unfolding normalize_from
normalize_latency_histogram histogram schema =
    if not (length histogram == length latency_bucket_bounds_ms + 1)
    then none
    else normalize_from empty_histogram 0 histogram schema
