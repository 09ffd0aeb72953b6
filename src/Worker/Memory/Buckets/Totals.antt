-- ===== src/Worker/Memory/Buckets/Totals.antt =====
-- That the buckets hold each event once, in the bucket of its own key.
use app_health.Prelude.{
  ℕ, ◌+◌, ◌≡◌, refl, ap, Bool, true, false, ◌&&◌, List, [], ◌∷◌, Option, none, some, or_else, leb,
  ◌==◌, if◌then◌else◌, arith, Bool-cases, inl, inr, and_parts4, and_true4, length, sum, all,
}
use app_health.Js.Strings.{Text, same_text}
use app_health.Js.Strings.Equality.{same_text→eq}
use app_health.Js.Maps.{Dict, get, values, get-set, all-set, all-get}
use app_health.Contracts.Histogram.{empty_histogram}
use app_health.Contracts.Histogram.Totals.{length-add_at, sum-add_at}
use app_health.Worker.Memory.Buckets.{
  BucketV1, MeasuredEvent, BucketInput, histogram_index, input_key, count_error, add_measured,
  first_measured, add_to_bucket, first_in_bucket, upserted, upsert_bucket, event_input,
  is_error_status, upsert_events,
}
use app_health.Worker.Memory.Buckets.Latency.{histogram_index_bound}

-- What a bucket that may be there counts.
abbrev pub requests : Option BucketV1 → ℕ
requests none = 0
requests (some b) = b.request_count

abbrev pub errors : Option BucketV1 → ℕ
errors none = 0
errors (some b) = b.error_count

abbrev pub duration : Option BucketV1 → ℕ
duration none = 0
duration (some b) = b.duration_sum_ms

-- What the events of the key weigh together.
abbrev pub weigh : (app_id env_id key : Text) → (MeasuredEvent → ℕ) → List MeasuredEvent → ℕ
weigh app_id env_id key weight [] = 0
weigh app_id env_id key weight (event ∷ events) =
    (if same_text key (input_key (event_input app_id env_id event)) then weight event else 0)
    + weigh app_id env_id key weight events

get-upsert_bucket :
    (k : Text) (buckets : Dict BucketV1) (input : BucketInput)
    → get k (upsert_bucket buckets input) ≡ (
        if same_text k (input_key input)
        then some (upserted (get (input_key input) buckets) input)
        else get k buckets)
unfolding upsert_bucket
get-upsert_bucket k buckets input =
    get-set k (input_key input) (upserted (get (input_key input) buckets) input) buckets

upsert_events_cons :
    (buckets : Dict BucketV1) (app_id env_id : Text) (event : MeasuredEvent)
    (events : List MeasuredEvent)
    → upsert_events buckets app_id env_id (event ∷ events)
      ≡ upsert_events (upsert_bucket buckets (event_input app_id env_id event)) app_id env_id events
unfolding upsert_events
upsert_events_cons buckets app_id env_id event events = refl

-- A measure of buckets to which each event adds its weight.
weigh-upsert_events :
    (measure : Option BucketV1 → ℕ) (weight : MeasuredEvent → ℕ) (app_id env_id : Text)
    → ((o : Option BucketV1) (event : MeasuredEvent)
        → measure (some (upserted o (event_input app_id env_id event))) ≡ measure o + weight event)
    → (buckets : Dict BucketV1) (events : List MeasuredEvent) (key : Text)
    → measure (get key (upsert_events buckets app_id env_id events))
      ≡ measure (get key buckets) + weigh app_id env_id key weight events
weigh-upsert_events measure weight app_id env_id adds buckets [] key =
    unfold upsert_events in omega arith
weigh-upsert_events measure weight app_id env_id adds buckets (event ∷ events) key =
    let input = event_input app_id env_id event in
    let after =
      weigh-upsert_events measure weight app_id env_id adds (upsert_bucket buckets input) events
        key in
    let looked_up = get-upsert_bucket key buckets input in
    rw (upsert_events_cons buckets app_id env_id event events)
      (elim (Bool-cases (same_text key (input_key input))) [
        | inr other ↦
            let same : get key (upsert_bucket buckets input) ≡ get key buckets =
              rw other at looked_up in
            let same' = ap measure same in rw other (omega (arith, after, same'))
        | inl its_own ↦
            let same : get key (upsert_bucket buckets input)
                ≡ some (upserted (get (input_key input) buckets) input) =
              rw its_own at looked_up in
            let that : measure (get key buckets) ≡ measure (get (input_key input) buckets) =
              ap (λ k. measure (get k buckets)) (same_text→eq key (input_key input) its_own) in
            let same' = ap measure same in
            let added = adds (get (input_key input) buckets) event in
            rw its_own (omega (arith, after, same', added, that))
      ])

-- After any events, the bucket of a key counts the events of that key that came in, the errors among
-- them and the sum of their durations, on top of what it held.
pub upsert_events_counts :
    (buckets : Dict BucketV1) (app_id env_id : Text) (events : List MeasuredEvent) (key : Text)
    → (requests (get key (upsert_events buckets app_id env_id events))
        ≡ requests (get key buckets) + weigh app_id env_id key (λ event. 1) events)
      × (errors (get key (upsert_events buckets app_id env_id events))
          ≡ errors (get key buckets)
            + weigh app_id env_id key
                (λ event. count_error (is_error_status event.status_code))
                events)
      × (duration (get key (upsert_events buckets app_id env_id events))
          ≡ duration (get key buckets)
            + weigh app_id env_id key (λ event. event.duration_ms) events)
upsert_events_counts buckets app_id env_id events key = (
  weigh-upsert_events requests (λ event. 1) app_id env_id (λ o event. one o event) buckets events
      key,
  weigh-upsert_events errors (λ event. count_error (is_error_status event.status_code)) app_id
      env_id (λ o event. failed o event) buckets events key,
  weigh-upsert_events duration (λ event. event.duration_ms) app_id env_id
      (λ o event. lasted o event) buckets events key,
)
  where
    one :
        (o : Option BucketV1) (event : MeasuredEvent)
        → requests (some (upserted o (event_input app_id env_id event))) ≡ requests o + 1
    one none event = unfold first_in_bucket in refl
    one (some b) event = unfold add_to_bucket in refl

    failed :
        (o : Option BucketV1) (event : MeasuredEvent)
        → errors (some (upserted o (event_input app_id env_id event)))
          ≡ errors o + count_error (is_error_status event.status_code)
    failed none event = unfold first_in_bucket in omega arith
    failed (some b) event = unfold add_to_bucket in refl

    lasted :
        (o : Option BucketV1) (event : MeasuredEvent)
        → duration (some (upserted o (event_input app_id env_id event)))
          ≡ duration o + event.duration_ms
    lasted none event = unfold first_in_bucket in omega arith
    lasted (some b) event = unfold add_to_bucket in refl

-- A bucket adds up: sixteen bins that hold each request once, and no more errors or measured
-- responses than requests.
unfoldable pub adds_up : BucketV1 → Bool
adds_up b =
    length b.histogram == 16
    && sum b.histogram == b.request_count
    && leb b.error_count b.request_count
    && leb (or_else b.response_bytes_measured 0) b.request_count

adds_up-upserted :
    (o : Option BucketV1) (input : BucketInput)
    → ((b : BucketV1) → o ≡ some b → adds_up b ≡ true)
    → adds_up (upserted o input) ≡ true
unfolding adds_up first_in_bucket add_to_bucket
adds_up-upserted none input h =
    let bin = histogram_index_bound input.duration_ms in
    let size = length-add_at empty_histogram (histogram_index input.duration_ms) 1 in
    let total = sum-add_at empty_histogram (histogram_index input.duration_ms) 1 bin in
    rw (size, total) (counted input.status_is_error input.response_bytes)
  where
    counted :
        (failed : Bool) (bytes : Option ℕ)
        → (leb (count_error failed) 1 && leb (or_else (first_measured bytes) 0) 1) ≡ true
    counted true none = refl
    counted true (some n) = refl
    counted false none = refl
    counted false (some n) = refl
adds_up-upserted (some b) input h =
    let at = histogram_index input.duration_ms in
    let bin = histogram_index_bound input.duration_ms in
    let after = add_to_bucket b input in
    let (size, total, failed, measured) =
      and_parts4 (length b.histogram == 16) (sum b.histogram == b.request_count)
        (leb b.error_count b.request_count)
        (leb (or_else b.response_bytes_measured 0) b.request_count) (h b refl) in
    let size' = length-add_at b.histogram at 1 in
    let total' = sum-add_at b.histogram at 1 (ground arith) in
    and_true4 (length after.histogram == 16) (sum after.histogram == after.request_count)
      (leb after.error_count after.request_count)
      (leb (or_else after.response_bytes_measured 0) after.request_count) (rw size' size)
      (rw total' (ground arith)) (failures input.status_is_error failed)
      (measures input.response_bytes measured)
  where
    failures :
        (failed : Bool)
        → leb b.error_count b.request_count ≡ true
        → leb (b.error_count + count_error failed) (b.request_count + 1) ≡ true
    failures true h = ground arith
    failures false h = ground arith

    measures :
        (bytes : Option ℕ)
        → leb (or_else b.response_bytes_measured 0) b.request_count ≡ true
        → leb (or_else (add_measured b.response_bytes_measured bytes) 0) (b.request_count + 1)
          ≡ true
    measures none k = ground arith
    measures (some n) k = ground arith

adds_up-upsert_bucket :
    (buckets : Dict BucketV1) (input : BucketInput)
    → all adds_up (values buckets) ≡ true
    → all adds_up (values (upsert_bucket buckets input)) ≡ true
unfolding upsert_bucket
adds_up-upsert_bucket buckets input h =
    let key = input_key input in
    let o = get key buckets in
    all-set adds_up key (upserted o input) buckets
      (adds_up-upserted o input (λ b there. all-get adds_up key b buckets there h)) h

-- Events leave every bucket adding up: the sixteen bins of its histogram hold each of its requests
-- once, and it has no more errors or measured responses than requests.
pub adds_up-upsert_events :
    (buckets : Dict BucketV1) (app_id env_id : Text) (events : List MeasuredEvent)
    → all adds_up (values buckets) ≡ true
    → all adds_up (values (upsert_events buckets app_id env_id events)) ≡ true
adds_up-upsert_events buckets app_id env_id [] h = unfold upsert_events in h
adds_up-upsert_events buckets app_id env_id (event ∷ events) h =
    let input = event_input app_id env_id event in
    rw (upsert_events_cons buckets app_id env_id event events) (
      adds_up-upsert_events (upsert_bucket buckets input) app_id env_id events
        (adds_up-upsert_bucket buckets input h))
