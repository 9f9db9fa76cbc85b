-- ===== src/Metrics/Samples.antt =====
-- Two small runs, compared, with the theorems about internal/domain/metrics at these inputs.
use hatchet_workflow.Base.{
  ℕ, ◌-◌, ◌*◌, ◌/◌, String, ◌≡◌, refl, [], ◌∷◌, map, Memᴰ, ◌⊎◌, ◌↔◌, ltb, eqb, lookup, insert,
}
use hatchet_workflow.Metrics.Compare.{Floats, MetricSummary, RunMetrics, compare}
use hatchet_workflow.Metrics.Compare.Keys.{Tallies, AreDistinct, compare-counts, compare-keys}

-- Whole numbers in place of floats.
abbrev whole : Floats ℕ
whole = record {
  zero = 0;
  hundred = 100;
  sub = ◌-◌;
  mul = ◌*◌;
  div = ◌/◌;
  abs = λ a. a;
  lt = ltb;
  eq = eqb;
}

abbrev metric : String → ℕ → MetricSummary ℕ
metric key avg = record {
  key = key;
  name = key;
  unit = "";
  avg = avg;
  min = 0;
  max = avg;
  last = avg;
}

abbrev run_a : RunMetrics ℕ
run_a = record { run_id = "a"; metrics = metric "db_qps" 100 ∷ metric "cpu_usage" 10 ∷ [] }

abbrev run_b : RunMetrics ℕ
run_b = record { run_id = "b"; metrics = metric "cpu_usage" 20 ∷ metric "errors" 1 ∷ [] }

compared_keys :
    map (λ d. d.key) (compare whole run_a run_b 5).metrics ≡ "db_qps" ∷ "cpu_usage" ∷ "errors" ∷ []
unfolding compare insert lookup
compared_keys = refl

compare-counts_example : Tallies (compare whole run_a run_b 5)
compare-counts_example = compare-counts whole run_a run_b 5

compare-keys_example :
    AreDistinct (map (λ d. d.key) (compare whole run_a run_b 5).metrics)
    × ((k : String)
        → Memᴰ k (map (λ d. d.key) (compare whole run_a run_b 5).metrics)
          ↔ (Memᴰ k (map (λ m. m.key) run_a.metrics) ⊎ Memᴰ k (map (λ m. m.key) run_b.metrics)))
compare-keys_example = compare-keys whole run_a run_b 5
