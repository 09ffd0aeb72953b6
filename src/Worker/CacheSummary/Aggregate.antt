-- ===== src/Worker/CacheSummary/Aggregate.antt =====
-- `CacheSummaryAggregate`: rows are added one by one.
use app_health.Prelude.{
  ℕ, ◌+◌, min, max, Bool, not, ◌||◌, List, [], ◌∷◌, ◌++◌, Option, none, some, ◌>>=◌, or_else, ltb,
  if◌then◌else◌, any,
}
use app_health.Js.Strings.{Text, same_text, join}
use app_health.Js.{Value}
use app_health.Js.Maps.{Dict, get, set}
use app_health.Contracts.Routing.{LogSource, server, same_source}
use app_health.Worker.CacheSummary.{
  Counts, Bucket, ByCohort, VersionBucket, ParsedSummary, empty_bucket, cohort_buckets, add_to,
  finish, read_summary,
}
use app_health.Worker.CacheSummary.Versions.{public_version}

-- `props` of a row: an object, a text, or something else.
pub data Props : Type 0 where
  object : Dict Value → Props
  text : Text → Props
  neither : Props

pub record CacheSummaryRow : Type 0 where
  pub log_id : Text
  pub timestamp : ℕ
  pub source : LogSource
  pub props : Props

pub record Aggregate : Type 0 where
  pub start : ℕ
  pub end : ℕ
  pub seen : List Text
  pub versions : Dict VersionBucket
  pub total : Bucket
  pub cohorts : ByCohort Bucket
  pub malformed : ℕ
  pub cross_boundary : ℕ
  pub other_source : ℕ
  pub duplicates : ℕ
  pub earliest : Option ℕ
  pub latest : Option ℕ

abbrev pub new_aggregate : (start end : ℕ) → Aggregate
new_aggregate start end = record {
  start = start;
  end = end;
  seen = [];
  versions = [];
  total = empty_bucket;
  cohorts = cohort_buckets;
  malformed = 0;
  cross_boundary = 0;
  other_source = 0;
  duplicates = 0;
  earliest = none;
  latest = none;
}

-- `parse` is `JSON.parse` where that gives an object that is no array.
abbrev pub decode_props : (parse : Text → Option (Dict Value)) → Props → Option (Dict Value)
decode_props parse (object props) = some props
decode_props parse (text raw) = parse raw
decode_props parse neither = none

abbrev pub sooner : Option ℕ → ℕ → Option ℕ
sooner none at = some at
sooner (some earliest) at = some (min earliest at)

abbrev pub later : Option ℕ → ℕ → Option ℕ
later none at = some at
later (some latest) at = some (max latest at)

-- `Object.values(counts).some((count) => count > 0)`
abbrev pub has_counts : Counts → Bool
has_counts c = ltb 0 c.hits || ltb 0 c.misses || ltb 0 c.bypasses || ltb 0 c.eligible

abbrev pub count_row : Bucket → Bucket
count_row bucket = record bucket { rows = bucket.rows + 1 }

-- What the loop over the cohorts does to the bucket of one.
unfoldable pub add_cohort : Bucket → Counts → Option Bucket
add_cohort bucket counts =
    add_to bucket counts >>= λ added. some (if has_counts counts then count_row added else added)

unfoldable pub add_cohorts : ByCohort Bucket → ByCohort Counts → Option (ByCohort Bucket)
unfolding add_cohort
add_cohorts cohorts by = do
  unknown ← add_cohort cohorts.unknown by.unknown
  publisher ← add_cohort cohorts.declared_publisher by.declared_publisher
  diagnostic ← add_cohort cohorts.declared_diagnostic by.declared_diagnostic
  some (record {
    unknown = unknown;
    declared_publisher = publisher;
    declared_diagnostic = diagnostic;
  })

abbrev pub new_version : (label source : Text) → VersionBucket
new_version label source = record {
  bucket = empty_bucket;
  version = label;
  version_source = source;
  cohorts = cohort_buckets;
}

-- `${summary.versionSource}\u0000${versionLabel}`
unfoldable pub version_key : (source label : Text) → Text
version_key source label = join 0 (source ∷ label ∷ [])

unfoldable pub add_version : VersionBucket → ParsedSummary → Option VersionBucket
unfolding add_cohorts
add_version version summary = do
  bucket ← add_to version.bucket summary.overall
  cohorts ← add_cohorts version.cohorts summary.by_cohort
  some (record version { bucket = count_row bucket; cohorts = cohorts })

-- The rest of `add` for a summary that counts, `none` where a sum throws.
unfoldable pub add_summary : Aggregate → ParsedSummary → Option Aggregate
unfolding add_version
add_summary agg summary = do
  let label = public_version summary.version summary.version_source
  let key = version_key summary.version_source label
  total ← add_to agg.total summary.overall
  version ←
      add_version (or_else (get key agg.versions) (new_version label summary.version_source))
        summary
  cohorts ← add_cohorts agg.cohorts summary.by_cohort
  some (record agg {
    total = count_row total;
    earliest = sooner agg.earliest summary.started_at;
    latest = later agg.latest summary.ended_at;
    versions = set key version agg.versions;
    cohorts = cohorts;
  })

abbrev pub add_parsed : Aggregate → Option ParsedSummary → Option Aggregate
add_parsed agg none = some (record agg { malformed = agg.malformed + 1 })
add_parsed agg (some summary) =
    if ltb summary.started_at agg.start || ltb agg.end summary.ended_at
    then some (record agg { cross_boundary = agg.cross_boundary + 1 })
    else add_summary agg summary

module _ (parse : Text → Option (Dict Value)) where
  unfoldable pub add_row : Aggregate → CacheSummaryRow → Option Aggregate
  add_row agg row =
      let noted : Aggregate = record agg { seen = agg.seen ++ row.log_id ∷ [] } in
      if any (same_text row.log_id) agg.seen
      then some (record agg { duplicates = agg.duplicates + 1 })
      else if not (same_source row.source server)
      then some (record noted { other_source = agg.other_source + 1 })
      else add_parsed noted (decode_props parse row.props >>= read_summary)

  unfoldable pub add_rows : Aggregate → List CacheSummaryRow → Option Aggregate
  unfolding add_row
  add_rows agg [] = some agg
  add_rows agg (row ∷ rows) = add_row agg row >>= λ after. add_rows after rows

abbrev pub finish_cohorts : ByCohort Bucket → ByCohort Bucket
finish_cohorts cohorts = record {
  unknown = finish cohorts.unknown;
  declared_publisher = finish cohorts.declared_publisher;
  declared_diagnostic = finish cohorts.declared_diagnostic;
}

abbrev pub finish_version : VersionBucket → VersionBucket
finish_version version = record version {
  bucket = finish version.bucket;
  cohorts = finish_cohorts version.cohorts;
}
