-- ===== src/Worker/CacheSummary/Sums.antt =====
-- That every row is accounted for, and that the cohorts sum up to the total.
use app_health.Prelude.{
  ℕ, ◌+◌, ◌≡◌, refl, Bool, true, not, ◌||◌, List, [], ◌∷◌, ◌++◌, Option, none, some, ◌>>=◌, ltb,
  ◌==◌, any, length, arith, Bool-cases, Option-cases, inl, inr, bound, returned, not_refused,
  or_parts, not-false, and_parts4, and_true4,
}
use app_health.Js.Strings.{Text, codes, same_text}
use app_health.Js.{Value}
use app_health.Js.Maps.{Dict}
use app_health.Contracts.Routing.{server, same_source}
use app_health.Worker.CacheSummary.{
  Counts, Bucket, ByCohort, ParsedSummary, safe_sum, max_safe_integer, add_counts, add_to, sum_of,
  adds_up, is_version_source, read_text, read_integer, property, read_counts, read_summary,
  is_faulty, checked,
}
use app_health.Worker.CacheSummary.Aggregate.{
  CacheSummaryRow, Aggregate, new_aggregate, decode_props, has_counts, add_cohort, add_cohorts,
  add_version, add_summary, add_parsed, add_row, add_rows,
}

-- One count is the sum of two, key by key.
record IsSum (a b c : Counts) : Type 0 where
  hits : c.hits ≡ a.hits + b.hits
  misses : c.misses ≡ a.misses + b.misses
  bypasses : c.bypasses ≡ a.bypasses + b.bypasses
  eligible : c.eligible ≡ a.eligible + b.eligible

safe_sum_eq : (a b c : ℕ) → safe_sum a b ≡ some c → c ≡ a + b
safe_sum_eq a b c h =
    let (small, e) = not_refused (ltb max_safe_integer (a + b)) h in
    returned (λ x. x ≡ a + b) e refl

add_counts-IsSum : (a b c : Counts) → add_counts a b ≡ some c → IsSum a b c
unfolding add_counts
add_counts-IsSum a b c h =
    let (hits, e1, h1) = bound (safe_sum a.hits b.hits) h in
    let (misses, e2, h2) = bound (safe_sum a.misses b.misses) h1 in
    let (bypasses, e3, h3) = bound (safe_sum a.bypasses b.bypasses) h2 in
    let (eligible, e4, h4) = bound (safe_sum a.eligible b.eligible) h3 in
    returned (λ (x : Counts). IsSum a b x) h4
      (record {
        hits = safe_sum_eq a.hits b.hits hits e1;
        misses = safe_sum_eq a.misses b.misses misses e2;
        bypasses = safe_sum_eq a.bypasses b.bypasses bypasses e3;
        eligible = safe_sum_eq a.eligible b.eligible eligible e4;
      })

add_to-IsSum :
    (bucket : Bucket) (counts : Counts) (after : Bucket)
    → add_to bucket counts ≡ some after
    → IsSum bucket.counts counts after.counts × (after.rows ≡ bucket.rows)
add_to-IsSum bucket counts after h =
    let (c, e, h') = bound (add_counts bucket.counts counts) h in
    returned (λ (x : Bucket). IsSum bucket.counts counts x.counts × (x.rows ≡ bucket.rows)) h'
      (add_counts-IsSum bucket.counts counts c e, refl)

add_cohort-IsSum :
    (bucket : Bucket) (counts : Counts) (after : Bucket)
    → add_cohort bucket counts ≡ some after
    → IsSum bucket.counts counts after.counts
unfolding add_cohort
add_cohort-IsSum bucket counts after h =
    let (added, e, h') = bound (add_to bucket counts) h in
    let (s, rows) = add_to-IsSum bucket counts added e in
    elim (Bool-cases (has_counts counts)) [
      | inl some_counts ↦
          returned (λ (x : Bucket). IsSum bucket.counts counts x.counts) (rw some_counts at h') s
      | inr no_counts' ↦
          returned (λ (x : Bucket). IsSum bucket.counts counts x.counts) (rw no_counts' at h') s
    ]

abbrev counts_of : ByCohort Bucket → ByCohort Counts
counts_of cohorts = record {
  unknown = cohorts.unknown.counts;
  declared_publisher = cohorts.declared_publisher.counts;
  declared_diagnostic = cohorts.declared_diagnostic.counts;
}

-- A total and cohorts that sum up to it, and a summary of which the same is true, give such again.
still_adds_up :
    (total overall after : Counts) (cohorts cohorts' : ByCohort Bucket) (by : ByCohort Counts)
    → adds_up total (counts_of cohorts) ≡ true
    → adds_up overall by ≡ true
    → IsSum total overall after
    → IsSum cohorts.unknown.counts by.unknown cohorts'.unknown.counts
    → IsSum cohorts.declared_publisher.counts by.declared_publisher
        cohorts'.declared_publisher.counts
    → IsSum cohorts.declared_diagnostic.counts by.declared_diagnostic
        cohorts'.declared_diagnostic.counts
    → adds_up after (counts_of cohorts') ≡ true
unfolding adds_up
still_adds_up total overall after cohorts cohorts' by h k s u p d =
    let (h1, h2, h3, h4) =
      and_parts4 (sum_of (λ c. c.hits) (counts_of cohorts) == total.hits)
        (sum_of (λ c. c.misses) (counts_of cohorts) == total.misses)
        (sum_of (λ c. c.bypasses) (counts_of cohorts) == total.bypasses)
        (sum_of (λ c. c.eligible) (counts_of cohorts) == total.eligible) h in
    let (k1, k2, k3, k4) =
      and_parts4 (sum_of (λ c. c.hits) by == overall.hits)
        (sum_of (λ c. c.misses) by == overall.misses)
        (sum_of (λ c. c.bypasses) by == overall.bypasses)
        (sum_of (λ c. c.eligible) by == overall.eligible) k in
    and_true4 (sum_of (λ c. c.hits) (counts_of cohorts') == after.hits)
      (sum_of (λ c. c.misses) (counts_of cohorts') == after.misses)
      (sum_of (λ c. c.bypasses) (counts_of cohorts') == after.bypasses)
      (sum_of (λ c. c.eligible) (counts_of cohorts') == after.eligible)
      (ground (arith, h1, k1, s.hits, u.hits, p.hits, d.hits))
      (ground (arith, h2, k2, s.misses, u.misses, p.misses, d.misses))
      (ground (arith, h3, k3, s.bypasses, u.bypasses, p.bypasses, d.bypasses))
      (ground (arith, h4, k4, s.eligible, u.eligible, p.eligible, d.eligible))

adds_up-checked :
    (scope : Text) (s t : ParsedSummary)
    → checked scope s ≡ some t
    → adds_up t.overall t.by_cohort ≡ true
unfolding is_faulty
adds_up-checked scope s t h =
    let (passes, it) = not_refused (is_faulty scope s) h in
    let scoped = not (same_text scope (codes "worker_executed")) in
    let ordered = ltb s.ended_at s.started_at in
    let long = ltb 128 (length s.version) in
    let odd = not (is_version_source s.version_source) in
    let off = not (adds_up s.overall s.by_cohort) in
    let (others, sums) = or_parts (scoped || ordered || long || odd) off passes in
    returned (λ (x : ParsedSummary). adds_up x.overall x.by_cohort ≡ true) it
      (not-false (adds_up s.overall s.by_cohort) sums)

adds_up-read_summary :
    (value : Dict Value) (s : ParsedSummary)
    → read_summary value ≡ some s
    → adds_up s.overall s.by_cohort ≡ true
unfolding read_summary
adds_up-read_summary value s h =
    let (scope, e1, h1) = bound (read_text (property value (codes "scope"))) h in
    let (started, e2, h2) = bound (read_integer (property value (codes "started_at"))) h1 in
    let (ended, e3, h3) = bound (read_integer (property value (codes "ended_at"))) h2 in
    let (overall, e4, h4) = bound (read_counts value []) h3 in
    let (unknown, e5, h5) = bound (read_counts value (codes "unknown_")) h4 in
    let (publisher, e6, h6) = bound (read_counts value (codes "declared_publisher_")) h5 in
    let (diagnostic, e7, h7) = bound (read_counts value (codes "declared_diagnostic_")) h6 in
    let (version, e8, h8) = bound (read_text (property value (codes "version"))) h7 in
    let (source, e9, h9) = bound (read_text (property value (codes "version_source"))) h8 in
    let made : ParsedSummary = record {
      started_at = started;
      ended_at = ended;
      overall = overall;
      by_cohort = record {
        unknown = unknown;
        declared_publisher = publisher;
        declared_diagnostic = diagnostic;
      };
      version = version;
      version_source = source;
    } in
    adds_up-checked scope made s h9

-- The rows that contributed, and those left out for each reason.
abbrev pub accounted : Aggregate → ℕ
accounted agg =
    agg.total.rows + agg.malformed + agg.cross_boundary + agg.other_source + agg.duplicates

unfoldable pub is_balanced : Aggregate → Bool
is_balanced agg = adds_up agg.total.counts (counts_of agg.cohorts)

abbrev Step : Aggregate → Aggregate → Type 0
Step agg after = (is_balanced after ≡ true) × (accounted after ≡ accounted agg + 1)

add_summary-Step :
    (agg : Aggregate) (s : ParsedSummary) (after : Aggregate)
    → is_balanced agg ≡ true
    → adds_up s.overall s.by_cohort ≡ true
    → add_summary agg s ≡ some after
    → Step agg after
unfolding add_summary add_cohorts is_balanced
add_summary-Step agg s after good whole h =
    let (total, e1, h1) = bound (add_to agg.total s.overall) h in
    let (version, e2, h2) = bound (add_version _ s) h1 in
    let (cohorts, e3, h3) = bound (add_cohorts agg.cohorts s.by_cohort) h2 in
    let (u, f1, g1) = bound (add_cohort agg.cohorts.unknown s.by_cohort.unknown) e3 in
    let (p, f2, g2) =
      bound (add_cohort agg.cohorts.declared_publisher s.by_cohort.declared_publisher) g1 in
    let (d, f3, g3) =
      bound (add_cohort agg.cohorts.declared_diagnostic s.by_cohort.declared_diagnostic) g2 in
    let new : ByCohort Bucket = record {
      unknown = u;
      declared_publisher = p;
      declared_diagnostic = d;
    } in
    let (sum_total, rows) = add_to-IsSum agg.total s.overall total e1 in
    let balanced : adds_up total.counts (counts_of new) ≡ true =
      still_adds_up agg.total.counts s.overall total.counts agg.cohorts new s.by_cohort good whole
        sum_total (add_cohort-IsSum agg.cohorts.unknown s.by_cohort.unknown u f1)
        (add_cohort-IsSum agg.cohorts.declared_publisher s.by_cohort.declared_publisher p f2)
        (add_cohort-IsSum agg.cohorts.declared_diagnostic s.by_cohort.declared_diagnostic d f3) in
    let balanced' : adds_up total.counts (counts_of cohorts) ≡ true =
      returned (λ (x : ByCohort Bucket). adds_up total.counts (counts_of x) ≡ true) g3 balanced in
    returned (λ (x : Aggregate). Step agg x) h3 (balanced', omega (arith, rows))

module _ (parse : Text → Option (Dict Value)) where
  add_parsed-Step :
      (agg noted : Aggregate) (o : Option (Dict Value)) (after : Aggregate)
      → is_balanced noted ≡ true
      → accounted noted ≡ accounted agg
      → add_parsed noted (o >>= read_summary) ≡ some after
      → Step agg after
  unfolding is_balanced
  add_parsed-Step agg noted none after good same h =
      returned (λ (x : Aggregate). Step agg x) h (good, omega (arith, same))
  add_parsed-Step agg noted (some value) after good same h =
      elim (Option-cases (read_summary value)) [
        | inl bad ↦
            returned (λ (x : Aggregate). Step agg x) (rw bad at h) (good, omega (arith, same))
        | inr (s, read) ↦
            elim (Bool-cases (ltb s.started_at noted.start || ltb noted.end s.ended_at)) [
              | inl crosses ↦
                  returned (λ (x : Aggregate). Step agg x) (rw (read, crosses) at h)
                    (good, omega (arith, same))
              | inr within ↦
                  let (balanced, counted) =
                    add_summary-Step noted s after good (adds_up-read_summary value s read)
                      (rw (read, within) at h) in
                  (balanced, omega (arith, counted, same))
            ]
      ]

  add_row-Step :
      (agg : Aggregate) (row : CacheSummaryRow) (after : Aggregate)
      → is_balanced agg ≡ true
      → add_row parse agg row ≡ some after
      → Step agg after
  unfolding add_row is_balanced
  add_row-Step agg row after good h =
      let noted : Aggregate = record agg { seen = agg.seen ++ row.log_id ∷ [] } in
      elim (Bool-cases (any (same_text row.log_id) agg.seen)) [
        | inl again ↦ returned (λ (x : Aggregate). Step agg x) (rw again at h) (good, omega arith)
        | inr new ↦ elim (Bool-cases (not (same_source row.source server))) [
          | inl elsewhere ↦
              returned (λ (x : Aggregate). Step agg x) (rw (new, elsewhere) at h)
                (good, omega arith)
          | inr here ↦
              add_parsed-Step agg noted (decode_props parse row.props) after good refl
                (rw (new, here) at h)
        ]
      ]

  rows_step :
      (agg : Aggregate) (rows : List CacheSummaryRow) (after : Aggregate)
      → is_balanced agg ≡ true
      → add_rows parse agg rows ≡ some after
      → (is_balanced after ≡ true) × (accounted after ≡ accounted agg + length rows)
  unfolding add_rows
  rows_step agg [] after good h =
      returned (λ (x : Aggregate). (is_balanced x ≡ true) × (accounted x ≡ accounted agg + 0)) h
        (good, omega arith)
  rows_step agg (row ∷ rows) after good h =
      let (next, e, h') = bound (add_row parse agg row) h in
      let (good', one) = add_row-Step agg row next good e in
      let (balanced, counted) = rows_step next rows after good' h' in
      (balanced, omega (arith, one, counted))

-- When no sum left the safe integers, every row is counted once: it contributed, or it was left out
-- for one reason; and the counts of the cohorts sum up to the totals.
pub add_rows-accounted :
    (parse : Text → Option (Dict Value)) (start end : ℕ) (rows : List CacheSummaryRow)
    (after : Aggregate)
    → add_rows parse (new_aggregate start end) rows ≡ some after
    → (is_balanced after ≡ true) × (accounted after ≡ length rows)
add_rows-accounted parse start end rows after h =
    let start_good : is_balanced (new_aggregate start end) ≡ true =
      unfold is_balanced adds_up in refl in
    let (balanced, counted) = rows_step parse (new_aggregate start end) rows after start_good h in
    (balanced, omega (arith, counted))
