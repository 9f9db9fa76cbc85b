-- ===== src/Metrics/Compare.antt =====
-- internal/domain/metrics/compare.go, and MetricSummary and RunMetrics of collector.go. A float64 is
-- a value of the type F, and its arithmetic is the record Floats. The counts of the summary are
-- natural numbers, since they count the metrics. The times, which Compare does not set, are left out.
pub mod Keys
use hatchet_workflow.Base.{
  ℕ, suc, String, Bool, true, false, List, [], ◌∷◌, ◌++◌, map, Option, none, some, lookup, insert,
  any, if◌then◌else◌, ◌==◌,
}

-- float64: its operations and its constants 0 and 100.
pub record Floats (F : Type 0) : Type 0 where
  pub zero : F
  pub hundred : F
  pub sub : F → F → F
  pub mul : F → F → F
  pub div : F → F → F
  pub abs : F → F
  pub lt : F → F → Bool
  pub eq : F → F → Bool

pub record MetricSummary (F : Type 0) : Type 0 where
  pub key : String
  pub name : String
  pub unit : String
  pub avg : F
  pub min : F
  pub max : F
  pub last : F

pub record RunMetrics (F : Type 0) : Type 0 where
  pub run_id : String
  pub metrics : List (MetricSummary F)

-- The texts "better", "worse" and "same".
pub data Verdict : Type 0 where
  better worse same : Verdict

pub record MetricDiff (F : Type 0) : Type 0 where
  pub key : String
  pub name : String
  pub unit : String
  pub avg_a : F
  pub avg_b : F
  pub max_a : F
  pub max_b : F
  pub diff_avg_pct : F
  pub diff_max_pct : F
  pub verdict : Verdict

pub record ComparisonVerdict : Type 0 where
  pub better_count : ℕ
  pub worse_count : ℕ
  pub same_count : ℕ

pub record Comparison (F : Type 0) : Type 0 where
  pub run_a : String
  pub run_b : String
  pub metrics : List (MetricDiff F)
  pub summary : ComparisonVerdict

abbrev is_in : String → List String → Bool
is_in key keys = any (λ k. k == key) keys

-- higherIsBetter[key]
higher_is_better : String → Bool
higher_is_better key = is_in key ("db_qps" ∷ "stroppy_ops" ∷ [])

-- lowerIsBetter[key]
lower_is_better : String → Bool
lower_is_better key = is_in key (
    "db_latency_p99" ∷ "db_repl_lag" ∷ "cpu_usage" ∷ "memory_usage" ∷ "stroppy_latency_p99"
    ∷ "stroppy_errors" ∷ [])

-- The body of the two loops that collect the keys; `seen` holds the keys so far.
add_key : List String → String → List String
add_key keys key = if is_in key keys then keys else keys ++ key ∷ []

add_keys : {F : Type 0} → List String → List (MetricSummary F) → List String
unfolding add_key
add_keys keys [] = keys
add_keys keys (m ∷ ms) = add_keys (add_key keys m.key) ms

-- indexByKey: a later metric with the same key replaces an earlier one.
index_from :
    {F : Type 0}
    → List (String × MetricSummary F)
    → List (MetricSummary F)
    → List (String × MetricSummary F)
unfolding insert
index_from idx [] = idx
index_from idx (m ∷ ms) = index_from (insert m.key m idx) ms

index_by_key : {F : Type 0} → RunMetrics F → List (String × MetricSummary F)
unfolding index_from
index_by_key rm = index_from [] rm.metrics

count : ComparisonVerdict → Verdict → ComparisonVerdict
count s better = record s { better_count = suc s.better_count }
count s worse = record s { worse_count = suc s.worse_count }
count s same = record s { same_count = suc s.same_count }

module _ {F : Type 0} (fl : Floats F) where
  -- (b - a) / a * 100
  pct_diff : F → F → F
  pct_diff a b =
      if fl.eq a fl.zero
      then (if fl.eq b fl.zero then fl.zero else fl.hundred)
      else fl.mul (fl.div (fl.sub b a) a) fl.hundred

  verdict : String → F → F → Verdict
  unfolding higher_is_better lower_is_better
  verdict key diff_pct threshold =
      let increased = fl.lt fl.zero diff_pct in
      if fl.lt (fl.abs diff_pct) threshold
      then same
      else if higher_is_better key
      then (if increased then better else worse)
      else if lower_is_better key
      then (if increased then worse else better)
      else if increased
      then worse
      else better

  -- The metric of a key, and the zero value for a missing one.
  metric_of : List (String × MetricSummary F) → String → MetricSummary F
  unfolding lookup
  metric_of idx key = elim (lookup key idx) [
    | some m ↦ m
    | none ↦ record {
      key = "";
      name = "";
      unit = "";
      avg = fl.zero;
      min = fl.zero;
      max = fl.zero;
      last = fl.zero;
    }
  ]

  -- The diff of one key.
  diff_of : F → String → MetricSummary F → MetricSummary F → MetricDiff F
  unfolding pct_diff verdict
  diff_of threshold key ma mb = record {
    key = key;
    name = if ma.name == "" then mb.name else ma.name;
    unit = if ma.name == "" then mb.unit else ma.unit;
    avg_a = ma.avg;
    avg_b = mb.avg;
    max_a = ma.max;
    max_b = mb.max;
    diff_avg_pct = pct_diff ma.avg mb.avg;
    diff_max_pct = pct_diff ma.max mb.max;
    verdict = verdict key (pct_diff ma.avg mb.avg) threshold;
  }

  -- The loop over the keys.
  compare_keys :
      (idx_a idx_b : List (String × MetricSummary F))
      → F
      → List String
      → Comparison F
      → Comparison F
  unfolding metric_of diff_of count
  compare_keys idx_a idx_b threshold [] comp = comp
  compare_keys idx_a idx_b threshold (key ∷ keys) comp =
      let diff = diff_of threshold key (metric_of idx_a key) (metric_of idx_b key) in
      compare_keys idx_a idx_b threshold keys (record comp {
        metrics = comp.metrics ++ diff ∷ [];
        summary = count comp.summary diff.verdict;
      })

  -- Compare
  unfoldable pub compare : RunMetrics F → RunMetrics F → F → Comparison F
  unfolding index_by_key add_keys compare_keys
  compare a b threshold =
      compare_keys (index_by_key a) (index_by_key b) threshold
        (add_keys (add_keys [] a.metrics) b.metrics)
        (record {
          run_a = a.run_id;
          run_b = b.run_id;
          metrics = [];
          summary = record { better_count = 0; worse_count = 0; same_count = 0 };
        })
