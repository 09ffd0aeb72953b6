-- ===== src/Worker/Memory/Failures/Tests.antt =====
-- Three events of which two fail.
use app_health.Prelude.{ℕ, ◌≡◌, refl, min, true, [], ◌∷◌, none, length, filter, all, map}
use app_health.Js.Strings.{Text, codes, join}
use app_health.Js.Strings.Sorting.{text_leb}
use app_health.Js.Maps.{Dict, get, set, values}
use app_health.Js.Sorting.{insert_by, sort_by, ordered}
use app_health.Worker.Memory.{scope_prefix, item_key}
use app_health.Worker.Memory.Pages.{no_older}
use app_health.Worker.Memory.Failures.{
  EventV1, FailureEventV1, record_failures, is_listed, event_precedes, listed_failures,
  list_failures,
}
use app_health.Worker.Memory.Failures.Listing.{
  is_failure, time_of, all-record_failures, listed_failures_lem,
}

abbrev event : (id : Text) (timestamp status : ℕ) → EventV1
event id timestamp status = record {
  event_id = id;
  timestamp = timestamp;
  method = codes "GET";
  route = codes "/orders";
  status_code = status;
  duration_ms = 5;
  response_bytes = none;
  release = none;
}

abbrev shop : Text
shop = codes "shop"

abbrev live : Text
live = codes "live"

abbrev stored : Dict EventV1
stored =
    record_failures [] shop live
      (event (codes "a") 10 404 ∷ event (codes "b") 20 200 ∷ event (codes "c") 30 500 ∷ [])

failures : Unit {0}
unfolding join get set insert_by sort_by scope_prefix item_key record_failures is_listed
    event_precedes listed_failures list_failures
failures = tt

abbrev id_of : FailureEventV1 → Text
id_of failure = failure.failure_id

list_failures-stored :
    map id_of (list_failures text_leb stored shop live 0 10) ≡ codes "c" ∷ codes "a" ∷ []
unfolding failures
list_failures-stored = refl

only_failures :
    all is_failure (values (record_failures stored shop live (event (codes "d") 40 503 ∷ [])))
    ≡ true
only_failures =
    all-record_failures stored shop live (event (codes "d") 40 503 ∷ []) (unfold failures in refl)

first_page :
    (all (is_listed shop live 0) (listed_failures text_leb stored shop live 0 1) ≡ true)
    × (length (listed_failures text_leb stored shop live 0 1)
        ≡ min 1 (length (filter (is_listed shop live 0) stored)))
    × (ordered
          (event_precedes text_leb)
          (no_older time_of)
          (listed_failures text_leb stored shop live 0 1)
        ≡ true)
first_page = listed_failures_lem text_leb stored shop live 0 1
