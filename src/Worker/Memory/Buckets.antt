-- ===== src/Worker/Memory/Buckets.antt =====
-- The bucket repository: counts of requests by minute, method and route.
pub mod Totals
pub mod Latency
pub mod Keying
mod Tests
use app_health.Prelude.{
  ℕ, zero, suc, ◌+◌, ◌*◌, ◌/◌, ◌%◌, max, Bool, true, false, not, ◌&&◌, ◌||◌, List, [], ◌∷◌, ◌++◌,
  Option, none, some, is_some, or_else, leb, ltb, if◌then◌else◌, filter,
}
use app_health.Js.Strings.{Text, same_text, join}
use app_health.Js.Numbers.Decimal.{decimal}
use app_health.Js.Maps.{Dict, get, set, values}
use app_health.Contracts.Histogram.{latency_bucket_bounds_ms, empty_histogram, add_at}

pub record BucketV1 : Type 0 where
  pub app_id : Text
  pub environment_id : Text
  pub bucket_start : ℕ
  pub method : Text
  pub route : Text
  pub request_count : ℕ
  pub error_count : ℕ
  pub duration_sum_ms : ℕ
  pub response_bytes_sum : Option ℕ
  pub response_bytes_measured : Option ℕ
  pub last_seen : Option ℕ
  -- Whether the field is there; when it is, it is `true`.
  pub upstream_sampled : Bool
  pub histogram : List ℕ

-- An event as `upsertEvents` takes it.
pub record MeasuredEvent : Type 0 where
  pub timestamp : ℕ
  pub method : Text
  pub route : Text
  pub status_code : ℕ
  pub duration_ms : ℕ
  pub response_bytes : Option ℕ
  pub upstream_sampled : Bool

-- The argument of `upsertBucket`.
pub record BucketInput : Type 0 where
  pub app_id : Text
  pub environment_id : Text
  pub bucket_start : ℕ
  pub method : Text
  pub route : Text
  pub status_is_error : Bool
  pub duration_ms : ℕ
  pub timestamp : ℕ
  pub upstream_sampled : Bool
  pub response_bytes : Option ℕ

abbrev pub bucket_ms : ℕ
bucket_ms = 60 * 1000

abbrev pub is_error_status : ℕ → Bool
is_error_status status = leb 500 status

-- The loop of `histogramIndex`, from the bounds that are left.
unfoldable pub index_from : ℕ → List ℕ → ℕ → ℕ
index_from duration_ms [] idx = idx
index_from duration_ms (bound ∷ bounds) idx =
    let next = index_from duration_ms bounds (suc idx) in
    if ltb bound duration_ms then next else idx

unfoldable pub histogram_index : ℕ → ℕ
unfolding index_from
histogram_index duration_ms = index_from duration_ms latency_bucket_bounds_ms 0

-- `${appId}|${envId}|${bucketStart}|${method}|${route}`
unfoldable pub bucket_key : (app_id env_id : Text) (bucket_start : ℕ) (method route : Text) → Text
bucket_key app_id env_id bucket_start method route =
    join b'|' (app_id ∷ env_id ∷ decimal bucket_start ∷ method ∷ route ∷ [])

abbrev pub input_key : BucketInput → Text
input_key input =
    bucket_key input.app_id input.environment_id input.bucket_start input.method input.route

abbrev pub count_error : Bool → ℕ
count_error true = 1
count_error false = 0

-- `(sum ?? 0) + bytes` where the event has its bytes
abbrev pub add_bytes : Option ℕ → Option ℕ → Option ℕ
add_bytes stored none = stored
add_bytes stored (some bytes) = some (or_else stored 0 + bytes)

abbrev pub add_measured : Option ℕ → Option ℕ → Option ℕ
add_measured stored none = stored
add_measured stored (some bytes) = some (or_else stored 0 + 1)

abbrev pub later_seen : Option ℕ → ℕ → Option ℕ
later_seen none timestamp = some timestamp
later_seen (some seen) timestamp = if ltb seen timestamp then some timestamp else some seen

-- The branch of `upsertBucket` for a bucket that exists.
unfoldable pub add_to_bucket : BucketV1 → BucketInput → BucketV1
unfolding histogram_index
add_to_bucket existing input = record existing {
  request_count = existing.request_count + 1;
  error_count = existing.error_count + count_error input.status_is_error;
  duration_sum_ms = existing.duration_sum_ms + input.duration_ms;
  response_bytes_sum = add_bytes existing.response_bytes_sum input.response_bytes;
  response_bytes_measured = add_measured existing.response_bytes_measured input.response_bytes;
  last_seen = later_seen existing.last_seen input.timestamp;
  histogram = add_at existing.histogram (histogram_index input.duration_ms) 1;
  upstream_sampled = existing.upstream_sampled || input.upstream_sampled;
}

abbrev pub first_measured : Option ℕ → Option ℕ
first_measured none = none
first_measured (some bytes) = some 1

-- The other branch. In an empty histogram, setting a count to 1 adds 1 to it.
unfoldable pub first_in_bucket : BucketInput → BucketV1
unfolding histogram_index
first_in_bucket input = record {
  app_id = input.app_id;
  environment_id = input.environment_id;
  bucket_start = input.bucket_start;
  method = input.method;
  route = input.route;
  request_count = 1;
  error_count = count_error input.status_is_error;
  duration_sum_ms = input.duration_ms;
  response_bytes_sum = input.response_bytes;
  response_bytes_measured = first_measured input.response_bytes;
  last_seen = some input.timestamp;
  upstream_sampled = input.upstream_sampled;
  histogram = add_at empty_histogram (histogram_index input.duration_ms) 1;
}

abbrev pub upserted : Option BucketV1 → BucketInput → BucketV1
upserted none input = first_in_bucket input
upserted (some existing) input = add_to_bucket existing input

unfoldable pub upsert_bucket : Dict BucketV1 → BucketInput → Dict BucketV1
upsert_bucket buckets input =
    let key = input_key input in set key (upserted (get key buckets) input) buckets

abbrev pub event_input : (app_id env_id : Text) → MeasuredEvent → BucketInput
event_input app_id env_id event = record {
  app_id = app_id;
  environment_id = env_id;
  bucket_start = (event.timestamp / bucket_ms) * bucket_ms;
  method = event.method;
  route = event.route;
  status_is_error = is_error_status event.status_code;
  duration_ms = event.duration_ms;
  timestamp = event.timestamp;
  upstream_sampled = event.upstream_sampled;
  response_bytes = event.response_bytes;
}

unfoldable pub upsert_events :
    Dict BucketV1 → (app_id env_id : Text) → List MeasuredEvent → Dict BucketV1
unfolding upsert_bucket
upsert_events buckets app_id env_id [] = buckets
upsert_events buckets app_id env_id (event ∷ events) =
    upsert_events (upsert_bucket buckets (event_input app_id env_id event)) app_id env_id events

abbrev pub is_in_range : (app_id env_id : Text) (from to : ℕ) → BucketV1 → Bool
is_in_range app_id env_id from to bucket =
    same_text bucket.app_id app_id
    && same_text bucket.environment_id env_id
    && leb from bucket.bucket_start
    && leb bucket.bucket_start to

unfoldable pub query_buckets : Dict BucketV1 → (app_id env_id : Text) (from to : ℕ) → List BucketV1
query_buckets buckets app_id env_id from to =
    filter (is_in_range app_id env_id from to) (values buckets)
