-- ===== src/Metrics/Compare/Keys.antt =====
-- internal/domain/metrics/compare.go: which metrics a comparison lists, and its counts.
use hatchet_workflow.Base.{
  ap, Bool, false, if◌then◌else◌, append_assoc, append_nil, map-append, ℕ, ◌+◌, String, true, ◌≡◌,
  refl, sym, ◌∙◌, List, [], ◌∷◌, ◌++◌, map, Memᴰ, Memᴰ-cons, ◌⊎◌, inl, inr, ⊎_elim, ◌↔◌, ◌==◌,
  arith, eq_iff, Bool-cases, subst,
}
use hatchet_workflow.Metrics.Compare.{
  Floats, MetricSummary, RunMetrics, Verdict, better, worse, same, MetricDiff, ComparisonVerdict,
  Comparison, is_in, add_key, add_keys, index_by_key, count, metric_of, diff_of, compare_keys,
  compare,
}

abbrev pub is_better : Verdict → Bool
is_better better = true
is_better worse = false
is_better same = false

abbrev pub is_worse : Verdict → Bool
is_worse better = false
is_worse worse = true
is_worse same = false

abbrev pub is_same : Verdict → Bool
is_same better = false
is_same worse = false
is_same same = true

-- The number of metrics listed whose verdict passes the test.
abbrev pub number_of : {F : Type 0} → (Verdict → Bool) → List (MetricDiff F) → ℕ
number_of test [] = 0
number_of test (d ∷ ds) = (if test d.verdict then 1 else 0) + number_of test ds

number_of-append :
    {F : Type 0} (test : Verdict → Bool) (ds : List (MetricDiff F)) (d : MetricDiff F)
    → number_of test (ds ++ d ∷ []) ≡ number_of test ds + (if test d.verdict then 1 else 0)
number_of-append test [] d = omega arith
number_of-append test (e ∷ ds) d = let ih = number_of-append test ds d in omega (arith, ih)

-- The summary counts the metrics listed by their verdicts.
pub record Tallies {F : Type 0} (comp : Comparison F) : Type 0 where
  pub betters : comp.summary.better_count ≡ number_of is_better comp.metrics
  pub worses : comp.summary.worse_count ≡ number_of is_worse comp.metrics
  pub sames : comp.summary.same_count ≡ number_of is_same comp.metrics

count-betters :
    (s : ComparisonVerdict) (v : Verdict)
    → (count s v).better_count ≡ s.better_count + (if is_better v then 1 else 0)
unfolding count
count-betters s better = omega arith
count-betters s worse = omega arith
count-betters s same = omega arith

count-worses :
    (s : ComparisonVerdict) (v : Verdict)
    → (count s v).worse_count ≡ s.worse_count + (if is_worse v then 1 else 0)
unfolding count
count-worses s better = omega arith
count-worses s worse = omega arith
count-worses s same = omega arith

count-sames :
    (s : ComparisonVerdict) (v : Verdict)
    → (count s v).same_count ≡ s.same_count + (if is_same v then 1 else 0)
unfolding count
count-sames s better = omega arith
count-sames s worse = omega arith
count-sames s same = omega arith

-- One more metric, counted by its verdict.
count-Tallies :
    {F : Type 0} (comp : Comparison F) (d : MetricDiff F)
    → Tallies comp
    → Tallies
        (record comp { metrics = comp.metrics ++ d ∷ []; summary = count comp.summary d.verdict })
count-Tallies comp d t = record {
  betters =
      count-betters comp.summary d.verdict
      ∙ (ap (λ n. n + (if is_better d.verdict then 1 else 0)) t.betters
          ∙ sym (number_of-append is_better comp.metrics d));
  worses =
      count-worses comp.summary d.verdict
      ∙ (ap (λ n. n + (if is_worse d.verdict then 1 else 0)) t.worses
          ∙ sym (number_of-append is_worse comp.metrics d));
  sames =
      count-sames comp.summary d.verdict
      ∙ (ap (λ n. n + (if is_same d.verdict then 1 else 0)) t.sames
          ∙ sym (number_of-append is_same comp.metrics d));
}

-- The texts of the list differ.
abbrev pub AreDistinct : List String → Type 0
AreDistinct [] = Unit
AreDistinct (x ∷ xs) = (¬ Memᴰ x xs) × AreDistinct xs

Memᴰ-append : {A : Type 0} (a : A) (xs ys : List A) → Memᴰ a (xs ++ ys) ↔ (Memᴰ a xs ⊎ Memᴰ a ys)
Memᴰ-append a [] ys = (inr, ⊎_elim (λ m. elim m [ ]) (λ m. m))
Memᴰ-append a (x ∷ xs) ys =
    let (to, from) = Memᴰ-append a xs ys in
    (
      λ m. elim ((Memᴰ-cons a x (xs ++ ys)).0 m) [
        | inl e ↦ inl (Memᴰ.head e)
        | inr later ↦ ⊎_elim (λ l. inl (Memᴰ.tail l)) inr (to later)
      ],
      ⊎_elim
          (λ m. elim ((Memᴰ-cons a x xs).0 m) [
            | inl e ↦ Memᴰ.head e
            | inr later ↦ Memᴰ.tail (from (inl later))
          ])
          (λ m. Memᴰ.tail (from (inr m))),
    )

is_in-Memᴰ : (key : String) (keys : List String) → (is_in key keys ≡ true) ↔ Memᴰ key keys
is_in-Memᴰ key [] = (λ h. cc, λ m. elim m [ ])
is_in-Memᴰ key (k ∷ keys) = elim (Bool-cases (k == key)) [
  | inl e ↦ (λ _. Memᴰ.head (sym ((eq_iff k key).0 e)), λ _. rw (e) refl)
  | inr e ↦
      let (to, from) = is_in-Memᴰ key keys in
      (
        λ h. Memᴰ.tail (to (rw (e) at h)),
        λ m. elim ((Memᴰ-cons key k keys).0 m) [
          | inl same_key ↦ ground (arith, eq_iff k key)
          | inr later ↦ rw (e) (from later)
        ],
      )
]

-- One more key at the end of a list that lacks it.
AreDistinct-append :
    (keys : List String) (key : String)
    → AreDistinct keys
    → ¬ Memᴰ key keys
    → AreDistinct (keys ++ key ∷ [])
AreDistinct-append [] key u fresh = ((λ m. elim m [ ]), tt)
AreDistinct-append (k ∷ keys) key u fresh = (
  λ m. elim ((Memᴰ-append k keys (key ∷ [])).0 m) [
    | inl old ↦ u.0 old
    | inr new ↦ elim ((Memᴰ-cons k key []).0 new) [
      | inl e ↦ fresh (Memᴰ.head (sym e))
      | inr none_left ↦ elim none_left [ ]
    ]
  ],
  AreDistinct-append keys key u.1 (λ m. fresh (Memᴰ.tail m)),
)

add_key-AreDistinct :
    (keys : List String) (key : String) → AreDistinct keys → AreDistinct (add_key keys key)
unfolding add_key
add_key-AreDistinct keys key u = elim (Bool-cases (is_in key keys)) [
  | inl e ↦ rw (e) u
  | inr e ↦ rw (e) (AreDistinct-append keys key u (λ m. let e' = (is_in-Memᴰ key keys).1 m in cc))
]

add_key-Memᴰ :
    (keys : List String) (key k : String) → Memᴰ k (add_key keys key) ↔ (Memᴰ k keys ⊎ (k ≡ key))
unfolding add_key
add_key-Memᴰ keys key k = elim (Bool-cases (is_in key keys)) [
  | inl e ↦
      rw (e)
        (inl, ⊎_elim (λ m. m) (λ s. subst (λ z. Memᴰ z keys) (sym s) ((is_in-Memᴰ key keys).0 e)))
  | inr e ↦
      let (to, from) = Memᴰ-append k keys (key ∷ []) in
      rw (e) (
        λ m. ⊎_elim inl (λ n. inr (only n)) (to m),
        ⊎_elim (λ m. from (inl m)) (λ s. from (inr (Memᴰ.head s))),
      )
]
  where
    only : Memᴰ k (key ∷ []) → k ≡ key
    only n = ⊎_elim (λ e. e) (λ m. elim m [ ]) ((Memᴰ-cons k key []).0 n)

module _ {F : Type 0} where
  add_keys-AreDistinct :
      (keys : List String) (ms : List (MetricSummary F))
      → AreDistinct keys
      → AreDistinct (add_keys keys ms)
  unfolding add_keys
  add_keys-AreDistinct keys [] u = u
  add_keys-AreDistinct keys (m ∷ ms) u =
      add_keys-AreDistinct (add_key keys m.key) ms (add_key-AreDistinct keys m.key u)

  add_keys-Memᴰ :
      (keys : List String) (ms : List (MetricSummary F)) (k : String)
      → Memᴰ k (add_keys keys ms) ↔ (Memᴰ k keys ⊎ Memᴰ k (map (λ m. m.key) ms))
  unfolding add_keys
  add_keys-Memᴰ keys [] k = (inl, ⊎_elim (λ m. m) (λ m. elim m [ ]))
  add_keys-Memᴰ keys (m ∷ ms) k =
      let (to, from) = add_keys-Memᴰ (add_key keys m.key) ms k in
      let (there, back) = add_key-Memᴰ keys m.key k in
      (
        λ h.
            ⊎_elim (λ now. ⊎_elim inl (λ e. inr (Memᴰ.head e)) (there now))
              (λ later. inr (Memᴰ.tail later)) (to h),
        ⊎_elim (λ old. from (inl (back (inl old))))
            (λ new.
              ⊎_elim (λ e. from (inl (back (inr e)))) (λ later. from (inr later))
                ((Memᴰ-cons k m.key (map (λ x. x.key) ms)).0 new)),
      )

module _ {F : Type 0} (fl : Floats F) where
  compare_keys-Tallies :
      (ia ib : List (String × MetricSummary F)) (threshold : F) (keys : List String)
      (comp : Comparison F)
      → Tallies comp
      → Tallies (compare_keys fl ia ib threshold keys comp)
  unfolding compare_keys
  compare_keys-Tallies ia ib t [] comp h = h
  compare_keys-Tallies ia ib t (key ∷ keys) comp h =
      let diff = diff_of fl t key (metric_of fl ia key) (metric_of fl ib key) in
      compare_keys-Tallies ia ib t keys _ (count-Tallies comp diff h)

  compare_keys-keys :
      (ia ib : List (String × MetricSummary F)) (threshold : F) (keys : List String)
      (comp : Comparison F)
      → map (λ d. d.key) (compare_keys fl ia ib threshold keys comp).metrics
        ≡ map (λ d. d.key) comp.metrics ++ keys
  unfolding compare_keys diff_of
  compare_keys-keys ia ib t [] comp = sym (append_nil _)
  compare_keys-keys ia ib t (key ∷ keys) comp =
      let diff = diff_of fl t key (metric_of fl ia key) (metric_of fl ib key) in
      compare_keys-keys ia ib t keys (record comp {
        metrics = comp.metrics ++ diff ∷ [];
        summary = count comp.summary diff.verdict;
      })
      ∙ rw (
        map-append (λ (d : MetricDiff F). d.key) comp.metrics (diff ∷ []),
        append_assoc (map (λ (d : MetricDiff F). d.key) comp.metrics) (key ∷ []) keys,
      )

  -- In the summary of a comparison the number of better metrics is the number of metrics listed with
  -- the verdict better, and likewise for the worse ones and for those that are the same.
  pub compare-counts : (a b : RunMetrics F) (threshold : F) → Tallies (compare fl a b threshold)
  unfolding compare
  compare-counts a b threshold =
      compare_keys-Tallies (index_by_key a) (index_by_key b) threshold
        (add_keys (add_keys [] a.metrics) b.metrics) _
        (record { betters = refl; worses = refl; sames = refl })

  -- The metrics listed have distinct keys, and a key is listed exactly when one of the two runs has
  -- a metric with that key.
  pub compare-keys :
      (a b : RunMetrics F) (threshold : F)
      → AreDistinct (map (λ d. d.key) (compare fl a b threshold).metrics)
        × ((k : String)
            → Memᴰ k (map (λ d. d.key) (compare fl a b threshold).metrics)
              ↔ (Memᴰ k (map (λ m. m.key) a.metrics) ⊎ Memᴰ k (map (λ m. m.key) b.metrics)))
  unfolding compare
  compare-keys a b threshold =
      let keys = add_keys (add_keys [] a.metrics) b.metrics in
      let listed : map (λ d. d.key) (compare fl a b threshold).metrics ≡ keys =
        compare_keys-keys (index_by_key a) (index_by_key b) threshold keys _ in
      (
        rw (listed) (
            add_keys-AreDistinct (add_keys [] a.metrics) b.metrics
              (add_keys-AreDistinct [] a.metrics tt)),
        λ k.
            let (to, from) = add_keys-Memᴰ (add_keys [] a.metrics) b.metrics k in
            let (there, back) = add_keys-Memᴰ [] a.metrics k in
            rw (listed) (
              λ m. ⊎_elim (λ l. ⊎_elim (λ n. elim n [ ]) inl (there l)) inr (to m),
              ⊎_elim (λ m. from (inl (back (inr m)))) (λ m. from (inr m)),
            ),
      )
