-- ===== src/Worker/CacheSummary/Tests.antt =====
-- Three rows: one that counts, one that comes again, and one that a browser sent.
use app_health.Prelude.{ℕ, ◌≡◌, refl, true, List, [], ◌∷◌, ◌++◌, Option, none, some}
use app_health.Js.{Value, number, string}
use app_health.Js.Numbers.{of_ℕ}
use app_health.Js.Strings.{Text, codes, join, split}
use app_health.Js.Maps.{Dict, get, set}
use app_health.Contracts.Routing.{LogSource, server, browser}
use app_health.Worker.CacheSummary.{read_counts, add_counts, adds_up, is_faulty, read_summary}
use app_health.Worker.CacheSummary.Versions.{digit_run, is_numbered, is_version, public_version}
use app_health.Worker.CacheSummary.Aggregate.{
  Aggregate, CacheSummaryRow, object, new_aggregate, add_cohort, add_cohorts, version_key,
  add_version, add_summary, add_row, add_rows,
}
use app_health.Worker.CacheSummary.Sums.{accounted, is_balanced, add_rows-accounted}

abbrev amount : Text → ℕ → Text × Value
amount name n = (name, number (of_ℕ n))

abbrev four : Text → (hits misses bypasses eligible : ℕ) → Dict Value
four prefix hits misses bypasses eligible =
    amount (prefix ++ codes "hits") hits
    ∷ amount (prefix ++ codes "misses") misses
    ∷ amount (prefix ++ codes "bypasses") bypasses
    ∷ amount (prefix ++ codes "eligible") eligible
    ∷ []

abbrev props : Dict Value
props =
    (codes "scope", string (codes "worker_executed"))
    ∷ amount (codes "started_at") 100
    ∷ amount (codes "ended_at") 200
    ∷ (codes "version", string (codes "v1.2.3"))
    ∷ (codes "version_source", string (codes "app_health_release"))
    ∷ (four [] 5 3 0 8
        ++ four (codes "unknown_") 1 1 0 2
        ++ four (codes "declared_publisher_") 4 2 0 6
        ++ four (codes "declared_diagnostic_") 0 0 0 0)

abbrev row : Text → LogSource → CacheSummaryRow
row id source = record { log_id = id; timestamp = 150; source = source; props = object props }

abbrev rows : List CacheSummaryRow
rows = row (codes "a") server ∷ row (codes "a") server ∷ row (codes "b") browser ∷ []

abbrev no_parse : Text → Option (Dict Value)
no_parse text = none

abbrev result : Option Aggregate → Aggregate
result none = new_aggregate 0 0
result (some agg) = agg

cache_summary : Unit {0}
unfolding get set join split read_counts add_counts adds_up is_faulty read_summary digit_run
    is_numbered is_version public_version add_cohort add_cohorts version_key add_version add_summary
    add_row add_rows is_balanced
cache_summary = tt

abbrev summed : Aggregate
summed = result (add_rows no_parse (new_aggregate 0 1000) rows)

hits-summed : summed.total.counts.hits ≡ 5
unfolding cache_summary
hits-summed = refl

other_source-summed : summed.other_source ≡ 1
unfolding cache_summary
other_source-summed = refl

public_version-sha :
    public_version (codes "not a version") (codes "app_health_release") ≡ codes "other"
unfolding cache_summary
public_version-sha = refl

add_rows-accounted_example : (is_balanced summed ≡ true) × (accounted summed ≡ 3)
unfolding cache_summary
add_rows-accounted_example = add_rows-accounted no_parse 0 1000 rows summed refl
