-- ===== src/Probes/Validity/Llm.antt =====
-- That the points of the LLM endpoints are made.
use spark_signals.Prelude.{
  ℕ, ◌+◌, ◌-◌, String, ◌≡◌, refl, true, Option, none, some, List, [], ◌∷◌, ◌++◌, map_or, All,
  All-append, arith, Result, ok, err,
}
use spark_signals.Prelude.Optional.{◌>>=◌}
use spark_signals.Order.{text_ord, pair_ord}
use spark_signals.BTreeMap.{BTreeMap, get}
use spark_signals.Float.{F64}
use spark_signals.Schema.{MetricPoint, Quality, metric_name_allowed, attribute_name_allowed}
use spark_signals.Schema.Point.{gauge}
use spark_signals.Points.{Points, made}
use spark_signals.Points.Made.{
  IsMade, AllMade, gauge-IsMade, unavailable-IsMade, counter_delta-IsMade, attributed-IsMade,
  IsMade-mono, map_or-IsMade,
}
use spark_signals.Probes.Config.{MetricNames, LlmEndpointConfig, resolved_names}
use spark_signals.Probes.Llm.{
  Baseline, Baselines, LlmProbe, Visit, TokenCounter, token_counters, decorate, decorated,
  metric_value, capacity_point, both_unavailable, not_above, growth, value_points, count_tokens,
  count_all, generation_points, answer_points, failure_points, result_points, collect_endpoint,
  collect_endpoints, collect_llm,
}
use spark_signals.Probes.Fetch.{fetch_endpoint}

-- The points of the list have no attributes yet.
abbrev AllPlain : Points → Type 0
AllPlain points = All (IsMade 0) points

decorate-IsMade :
    (config : LlmEndpointConfig) (point : Option MetricPoint)
    → IsMade 0 point
    → IsMade 24 (decorate config point)
unfolding decorate attribute_name_allowed
decorate-IsMade config point m =
    let labelled =
      attributed-IsMade 1 "llm.backend" _ _ refl
        (attributed-IsMade 0 "llm.endpoint.id" config.id point refl m) in
    map_or-IsMade 24 config.served_model_id _ _ (IsMade-mono 2 24 _ (omega arith) labelled)
      (λ model.
        IsMade-mono 3 24 _ (omega arith) (attributed-IsMade 2 "llm.model.id" model _ refl labelled))

decorated-AllMade :
    (config : LlmEndpointConfig) (points : Points)
    → AllPlain points
    → AllMade (decorated config points)
decorated-AllMade config [] a = tt
decorated-AllMade config (point ∷ points) (m, a) =
    (decorate-IsMade config point m, decorated-AllMade config points a)

metric_value-IsMade :
    (metrics : BTreeMap String F64) (source : Option String) (name unit : String)
    → metric_name_allowed name ≡ true
    → IsMade 0 (metric_value metrics source name unit)
unfolding metric_value
metric_value-IsMade metrics source name unit h =
    map_or-IsMade 0 (source >>= λ n. get n metrics) _ _ (unavailable-IsMade _ _ _ _ _ h)
      (λ value. gauge-IsMade _ _ _ _ _ h)

capacity_point-IsMade : (capacity : Option ℕ) → IsMade 0 (capacity_point capacity)
unfolding capacity_point metric_name_allowed
capacity_point-IsMade none = (refl, omega arith, tt)
capacity_point-IsMade (some tokens) = (refl, omega arith, tt)

-- A counter whose metrics are in the catalogue.
abbrev IsNamed : TokenCounter → Type 0
IsNamed c = (metric_name_allowed c.metric_name ≡ true) × (metric_name_allowed c.rate_name ≡ true)

both_unavailable-AllPlain :
    (c : TokenCounter) (quality : Quality) (code : String)
    → IsNamed c
    → AllPlain (both_unavailable c quality code)
unfolding both_unavailable
both_unavailable-AllPlain c quality code (h, k) =
    (unavailable-IsMade _ _ _ _ _ h, (unavailable-IsMade _ _ _ _ _ k, tt))

points_of_baseline :
    (c : TokenCounter) (value : F64) (now : ℕ) (previous : Option Baseline)
    → IsNamed c
    → AllPlain (
        map_or previous
          (both_unavailable c Quality.stale "BASELINE_INITIALIZING")
          (growth c value now))
unfolding growth
points_of_baseline c value now none h = both_unavailable-AllPlain c _ _ h
points_of_baseline c value now (some old) (h, k) =
    (counter_delta-IsMade _ _ _ _ h, (gauge-IsMade _ _ _ _ _ k, tt))

count_tokens-AllPlain :
    (id : String) (now : ℕ) (baselines : Baselines) (c : TokenCounter) (found : Option F64)
    → IsNamed c
    → AllPlain (count_tokens id now baselines c found).1
unfolding count_tokens value_points
count_tokens-AllPlain id now baselines c none h = both_unavailable-AllPlain c _ _ h
count_tokens-AllPlain id now baselines c (some value) h =
    points_of_baseline c value now (get (id, c.metric_name) baselines >>= not_above value) h

count_all-AllPlain :
    (metrics : BTreeMap String F64) (id : String) (counted : String → ℕ) (baselines : Baselines)
    (counters : List TokenCounter)
    → All IsNamed counters
    → AllPlain (count_all metrics id counted baselines counters).1
unfolding count_all
count_all-AllPlain metrics id counted baselines [] a = tt
count_all-AllPlain metrics id counted baselines (c ∷ counters) (h, a) =
    let step =
      count_tokens id (counted c.metric_name) baselines c
        (c.source_name >>= λ name. get name metrics) in
    All-append (IsMade 0) step.1 (count_all metrics id counted step.0 counters).1
      (count_tokens-AllPlain id _ baselines c (c.source_name >>= λ name. get name metrics) h)
      (count_all-AllPlain metrics id counted step.0 counters a)

failure_points-AllPlain : (age : ℕ) (code : String) → AllPlain (failure_points age code)
unfolding failure_points metric_name_allowed
failure_points-AllPlain age code =
    ((refl, omega arith, tt), ((refl, omega arith, tt), ((refl, omega arith, tt), tt)))

answer_points-AllPlain :
    (metrics : BTreeMap String F64) (names : MetricNames) → AllPlain (answer_points metrics names)
unfolding answer_points metric_name_allowed
answer_points-AllPlain metrics names = (
  (refl, omega arith, tt),
  (
    (refl, omega arith, tt),
    (
      (refl, omega arith, tt),
      (
        metric_value-IsMade metrics names.uptime "spark.llm.uptime" "s" refl,
        (
          metric_value-IsMade metrics names.running "spark.llm.requests.running" "{request}" refl,
          (
            metric_value-IsMade metrics names.queued "spark.llm.requests.queued" "{request}" refl,
            tt,
          ),
        ),
      ),
    ),
  ),
)

generation_points-AllPlain :
    (metrics : BTreeMap String F64) (name : Option String)
    → AllPlain (generation_points metrics name)
unfolding generation_points metric_name_allowed
generation_points-AllPlain metrics name = found_points (name >>= λ n. get n metrics)
  where
    found_points :
        (found : Option F64)
        → AllPlain (
            made
              (λ value.
                gauge "spark.llm.tokens.generation.rate" value "{token}/s" Quality.measured
                  "prometheus")
              found)
    found_points none = tt
    found_points (some value) = ((refl, omega arith, tt), tt)

token_counters-AllNamed : (names : MetricNames) → All IsNamed (token_counters names)
unfolding metric_name_allowed
token_counters-AllNamed names = ((refl, refl), ((refl, refl), tt))

result_points-AllPlain :
    (config : LlmEndpointConfig) (visit : Visit) (probe : LlmProbe)
    (result : Result (BTreeMap String F64) String)
    → AllPlain (result_points config visit probe result).1
unfolding result_points
result_points-AllPlain config visit probe (err code) =
    failure_points-AllPlain
      (map_or (get config.id probe.last_success) (visit.now - probe.started)
        (λ last. visit.now - last))
      code
result_points-AllPlain config visit probe (ok metrics) =
    let names = resolved_names config in
    let counters =
      count_all metrics config.id visit.counted probe.baselines (token_counters names) in
    All-append (IsMade 0) (answer_points metrics names ++ counters.1)
      (generation_points metrics names.generation_rate)
      (All-append (IsMade 0) (answer_points metrics names) counters.1
        (answer_points-AllPlain metrics names)
        (count_all-AllPlain metrics config.id visit.counted probe.baselines (token_counters names)
          (token_counters-AllNamed names)))
      (generation_points-AllPlain metrics names.generation_rate)

collect_endpoints-AllMade :
    (visits : ℕ → Visit) (index : ℕ) (configs : List LlmEndpointConfig) (probe : LlmProbe)
    → AllMade (collect_endpoints visits index configs probe).1
unfolding collect_endpoints collect_endpoint
collect_endpoints-AllMade visits index [] probe = tt
collect_endpoints-AllMade visits index (config ∷ configs) probe =
    let step = collect_endpoint config (visits index) probe in
    let result = fetch_endpoint (visits index).send config in
    All-append (IsMade 24) step.1 (collect_endpoints visits (index + 1) configs step.0).1
      (decorated-AllMade config
        (capacity_point config.context_capacity
          ∷ (result_points config (visits index) probe result).1)
        (
          capacity_point-IsMade config.context_capacity,
          result_points-AllPlain config (visits index) probe result,
        ))
      (collect_endpoints-AllMade visits (index + 1) configs step.0)

pub collect_llm-AllMade :
    (visits : ℕ → Visit) (probe : LlmProbe) → AllMade (collect_llm visits probe).1
unfolding collect_llm
collect_llm-AllMade visits probe = collect_endpoints-AllMade visits 0 probe.endpoints probe
