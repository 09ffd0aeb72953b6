-- ===== src/Worker/CacheSummary.antt =====
-- apps/worker/src/cache-summary-aggregate.ts: the sums of the summaries that caches log.
pub mod Versions
pub mod Aggregate
pub mod Sums
mod Tests
use app_health.Prelude.{
  ℕ, zero, suc, ◌+◌, ◌*◌, ◌^◌, ◌-◌, min, max, Bool, true, false, not, ◌&&◌, ◌||◌, List, [], ◌∷◌,
  ◌++◌, Option, none, some, ◌>>=◌, or_else, is_some, leb, ltb, ◌==◌, if◌then◌else◌, length, any,
}
use app_health.Js.{Value, undefined, number, string}
use app_health.Js.Numbers.{Num, is_integer, is_negative, magnitude}
use app_health.Js.Strings.{Text, codes, same_text}
use app_health.Js.Maps.{Dict, get, set}
use Versions.{public_version}

pub record Counts : Type 0 where
  pub hits : ℕ
  pub misses : ℕ
  pub bypasses : ℕ
  pub eligible : ℕ

-- A percentage is the two sides of its division.
pub record Bucket : Type 0 where
  pub counts : Counts
  pub rows : ℕ
  pub eligible_hit_percent : Option (ℕ × ℕ)

-- `Record<Cohort, Bucket>`, and the counts by cohort.
pub record ByCohort (A : Type 0) : Type 0 where
  pub unknown : A
  pub declared_publisher : A
  pub declared_diagnostic : A

pub record VersionBucket : Type 0 where
  pub bucket : Bucket
  pub version : Text
  pub version_source : Text
  pub cohorts : ByCohort Bucket

abbrev pub no_counts : Counts
no_counts = record { hits = 0; misses = 0; bypasses = 0; eligible = 0 }

abbrev pub empty_bucket : Bucket
empty_bucket = record { counts = no_counts; rows = 0; eligible_hit_percent = none }

abbrev pub cohort_buckets : ByCohort Bucket
cohort_buckets = record {
  unknown = empty_bucket;
  declared_publisher = empty_bucket;
  declared_diagnostic = empty_bucket;
}

abbrev pub max_safe_integer : ℕ
max_safe_integer = 2 ^ 53 - 1

-- `integer`, with the number that it is
abbrev pub read_integer : Value → Option ℕ
read_integer (number x) =
    if is_integer x && not (is_negative x) && leb (magnitude x) max_safe_integer
    then some (magnitude x)
    else none
read_integer _ = none

abbrev pub property : Dict Value → Text → Value
property props key = or_else (get key props) undefined

unfoldable pub read_counts : Dict Value → (prefix : Text) → Option Counts
read_counts props prefix = do
  hits ← read_integer (property props (prefix ++ codes "hits"))
  misses ← read_integer (property props (prefix ++ codes "misses"))
  bypasses ← read_integer (property props (prefix ++ codes "bypasses"))
  eligible ← read_integer (property props (prefix ++ codes "eligible"))
  some (record { hits = hits; misses = misses; bypasses = bypasses; eligible = eligible })

-- `target[key] + value[key]`, `none` where it throws
abbrev pub safe_sum : ℕ → ℕ → Option ℕ
safe_sum a b = if ltb max_safe_integer (a + b) then none else some (a + b)

unfoldable pub add_counts : Counts → Counts → Option Counts
add_counts target value = do
  hits ← safe_sum target.hits value.hits
  misses ← safe_sum target.misses value.misses
  bypasses ← safe_sum target.bypasses value.bypasses
  eligible ← safe_sum target.eligible value.eligible
  some (record { hits = hits; misses = misses; bypasses = bypasses; eligible = eligible })

abbrev pub add_to : Bucket → Counts → Option Bucket
add_to target value =
    add_counts target.counts value >>= λ counts. some (record target { counts = counts })

abbrev pub finish : Bucket → Bucket
finish target = record target {
  eligible_hit_percent =
      if target.counts.eligible == 0
      then none
      else some (100 * target.counts.hits, target.counts.eligible);
}

pub record ParsedSummary : Type 0 where
  pub started_at : ℕ
  pub ended_at : ℕ
  pub overall : Counts
  pub by_cohort : ByCohort Counts
  pub version : Text
  pub version_source : Text

abbrev pub read_text : Value → Option Text
read_text (string s) = some s
read_text _ = none

abbrev pub is_version_source : Text → Bool
is_version_source source = any (same_text source) (
    codes "app_health_release" ∷ codes "reader_source" ∷ codes "cache_build" ∷ codes "unknown" ∷ [])

abbrev pub sum_of : (Counts → ℕ) → ByCohort Counts → ℕ
sum_of key by = key by.unknown + key by.declared_publisher + key by.declared_diagnostic

unfoldable pub adds_up : Counts → ByCohort Counts → Bool
adds_up overall by =
    sum_of (λ c. c.hits) by == overall.hits
    && sum_of (λ c. c.misses) by == overall.misses
    && sum_of (λ c. c.bypasses) by == overall.bypasses
    && sum_of (λ c. c.eligible) by == overall.eligible

-- The tests on what was read.
unfoldable pub is_faulty : (scope : Text) → ParsedSummary → Bool
unfolding adds_up
is_faulty scope s =
    not (same_text scope (codes "worker_executed"))
    || ltb s.ended_at s.started_at
    || ltb 128 (length s.version)
    || not (is_version_source s.version_source)
    || not (adds_up s.overall s.by_cohort)

abbrev pub checked : (scope : Text) → ParsedSummary → Option ParsedSummary
checked scope s = if is_faulty scope s then none else some s

-- The fields are read one by one here; the source reads the counts first, which changes nothing.
unfoldable pub read_summary : Dict Value → Option ParsedSummary
unfolding read_counts is_faulty
read_summary value = do
  scope ← read_text (property value (codes "scope"))
  started_at ← read_integer (property value (codes "started_at"))
  ended_at ← read_integer (property value (codes "ended_at"))
  overall ← read_counts value []
  unknown ← read_counts value (codes "unknown_")
  publisher ← read_counts value (codes "declared_publisher_")
  diagnostic ← read_counts value (codes "declared_diagnostic_")
  version ← read_text (property value (codes "version"))
  version_source ← read_text (property value (codes "version_source"))
  checked scope (record {
    started_at = started_at;
    ended_at = ended_at;
    overall = overall;
    by_cohort = record {
      unknown = unknown;
      declared_publisher = publisher;
      declared_diagnostic = diagnostic;
    };
    version = version;
    version_source = version_source;
  })
