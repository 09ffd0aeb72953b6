-- ===== src/Contracts/Histogram/Totals.antt =====
-- That bringing a histogram to today's bins loses no count.
use app_health.Prelude.{
  ℕ, zero, suc, ◌+◌, ◌≤◌, ◌<◌, ◌≡◌, refl, false, ◌&&◌, List, [], ◌∷◌, some, ltb, ◌==◌, length, sum,
  arith, Bool-cases, inl, inr,
}
use app_health.Contracts.Histogram.{
  LatencyHistogramSchema, is_legacy, normalize_latency_histogram_index, add_at, normalize_from,
  empty_histogram, normalize_latency_histogram,
}

pub length-add_at : (ns : List ℕ) (index count : ℕ) → length (add_at ns index count) ≡ length ns
length-add_at [] index count = refl
length-add_at (n ∷ ns) zero count = refl
length-add_at (n ∷ ns) (suc index) count = omega (arith, length-add_at ns index count)

pub sum-add_at :
    (ns : List ℕ) (index count : ℕ)
    → index < length ns
    → sum (add_at ns index count) ≡ sum ns + count
sum-add_at [] index count h = omega arith
sum-add_at (n ∷ ns) zero count h = omega arith
sum-add_at (n ∷ ns) (suc index) count h = omega (arith, sum-add_at ns index count (omega arith))

-- Every index of a histogram has a bin, and that is within today's bins.
index_within :
    (index : ℕ) (schema : LatencyHistogramSchema)
    → index < 16
    → (target : ℕ) × (normalize_latency_histogram_index index schema ≡ some target) × (target < 16)
unfolding normalize_latency_histogram_index
index_within index schema h =
    let low : ltb 15 index ≡ false = ground arith in
    elim (Bool-cases (is_legacy schema && (index == 9))) [
      | inl straddles ↦ (10, rw (low, straddles) refl, omega arith)
      | inr stays ↦ (index, rw (low, stays) refl, h)
    ]

sum-normalize_from :
    (normalized : List ℕ) (index : ℕ) (counts : List ℕ) (schema : LatencyHistogramSchema)
    → length normalized ≡ 16
    → index + length counts ≤ 16
    → (after : List ℕ) × (normalize_from normalized index counts schema ≡ some after)
      × (length after ≡ 16)
      × (sum after ≡ sum normalized + sum counts)
unfolding normalize_from
sum-normalize_from normalized index [] schema size within = (normalized, refl, size, omega arith)
sum-normalize_from normalized index (count ∷ counts) schema size within =
    let (target, e, small) = index_within index schema (omega arith) in
    let kept = length-add_at normalized target count in
    let added = sum-add_at normalized target count (omega arith) in
    let (after, e', size', total) =
      sum-normalize_from (add_at normalized target count) (suc index) counts schema (omega arith)
        (omega arith) in
    (after, rw e e', size', omega arith)

-- A histogram of sixteen bins, of either schema, is always accepted; the result has as many bins and
-- the same total count.
pub normalize_latency_histogram-total :
    (histogram : List ℕ) (schema : LatencyHistogramSchema)
    → length histogram ≡ 16
    → (after : List ℕ) × (normalize_latency_histogram histogram schema ≡ some after)
      × (length after ≡ 16)
      × (sum after ≡ sum histogram)
unfolding normalize_latency_histogram
normalize_latency_histogram-total histogram schema size =
    let (after, e, size', total) =
      sum-normalize_from empty_histogram 0 histogram schema refl (omega arith) in
    (after, rw size e, size', omega arith)
