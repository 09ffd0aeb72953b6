-- ===== src/Worker/Memory/Buckets/Tests.antt =====
-- Three events in two buckets.
use app_health.Prelude.{ℕ, ◌≡◌, refl, true, false, List, [], ◌∷◌, Option, none, some, length, all}
use app_health.Js.Strings.{Text, codes, join}
use app_health.Js.Numbers.Decimal.{digits, decimal}
use app_health.Js.Maps.{get, set, values}
use app_health.Worker.Memory.Buckets.{
  MeasuredEvent, index_from, histogram_index, bucket_key, add_to_bucket, first_in_bucket,
  upsert_bucket, upsert_events, query_buckets,
}
use app_health.Worker.Memory.Buckets.Totals.{
  requests, errors, duration, adds_up, upsert_events_counts, adds_up-upsert_events,
}
use app_health.Worker.Memory.Buckets.Keying.{bucket_key-injective}

abbrev shop : Text
shop = codes "shop"

abbrev live : Text
live = codes "live"

abbrev measured : (timestamp status duration_ms : ℕ) → Option ℕ → MeasuredEvent
measured timestamp status duration_ms bytes = record {
  timestamp = timestamp;
  method = codes "GET";
  route = codes "/orders";
  status_code = status;
  duration_ms = duration_ms;
  response_bytes = bytes;
  upstream_sampled = false;
}

abbrev events : List MeasuredEvent
events =
    measured 60001 200 12 (some 300)
    ∷ measured 119000 503 2500 none
    ∷ measured 120000 200 1 none
    ∷ []

buckets : Unit {0}
unfolding digits decimal join get set index_from histogram_index bucket_key add_to_bucket
    first_in_bucket upsert_bucket upsert_events query_buckets adds_up
buckets = tt

abbrev first_key : Text
first_key = bucket_key shop live 60000 (codes "GET") (codes "/orders")

query_buckets-upsert_events :
    length (query_buckets (upsert_events [] shop live events) shop live 60000 60000) ≡ 1
unfolding buckets
query_buckets-upsert_events = refl

upsert_events_counts_example :
    (requests (get first_key (upsert_events [] shop live events)) ≡ 2)
    × (errors (get first_key (upsert_events [] shop live events)) ≡ 1)
    × (duration (get first_key (upsert_events [] shop live events)) ≡ 2512)
unfolding buckets
upsert_events_counts_example = upsert_events_counts [] shop live events first_key

still_adding_up : all adds_up (values (upsert_events [] shop live events)) ≡ true
still_adding_up = adds_up-upsert_events [] shop live events refl

abbrev minute : ℕ
minute = 60000

same_key :
    (shop ≡ shop)
    × (live ≡ live)
    × (minute ≡ minute)
    × (codes "GET" ≡ codes "GET")
    × (codes "/a|b" ≡ codes "/a|b")
same_key =
    bucket_key-injective shop live 60000 (codes "GET") (codes "/a|b") shop live 60000 (codes "GET")
      (codes "/a|b") refl refl refl refl refl refl refl
