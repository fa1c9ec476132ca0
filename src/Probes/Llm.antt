-- ===== src/Probes/Llm.antt =====
-- crates/spark-probes/src/lib.rs, `LlmProbe`. A collection meets each endpoint once: the answer of its
-- client and the times that `Instant::now` yields, in nanoseconds, are given by the place of the
-- endpoint.
use spark_signals.Prelude.{
  ℕ, ◌+◌, ◌-◌, String, Option, none, some, List, [], ◌∷◌, ◌++◌, map_or, Result, ok, err,
  if◌then◌else◌,
}
use spark_signals.Prelude.Optional.{◌>>=◌}
use spark_signals.Order.{text_ord, pair_ord}
use spark_signals.BTreeMap.{BTreeMap, get, insert}
use spark_signals.Float.{F64, zero_f64, one_f64, from_u64, lt, le}
use spark_signals.Float.Arithmetic.{sub, div}
use spark_signals.Float.Duration.{as_secs_f64}
use spark_signals.Schema.{MetricPoint, Quality}
use spark_signals.Schema.Point.{gauge, counter_delta, unavailable}
use spark_signals.Points.{Points, attributed, made}
use spark_signals.Probes.Config.{as_str, MetricNames, LlmEndpointConfig, resolved_names}
use spark_signals.Probes.Fetch.{Response, fetch_endpoint}

pub record Baseline : Type 0 where
  pub value : F64
  pub observed : ℕ

abbrev pub Baselines : Type 0
Baselines = BTreeMap (String × String) Baseline

pub record LlmProbe : Type 0 where
  pub endpoints : List LlmEndpointConfig
  pub baselines : Baselines
  pub started : ℕ
  pub last_success : BTreeMap String ℕ

-- `LlmProbe::new`, of endpoints whose clients could be built
abbrev pub new_probe : ℕ → List LlmEndpointConfig → LlmProbe
new_probe now configs = record {
  endpoints = configs;
  baselines = [];
  started = now;
  last_success = [];
}

pub record Visit : Type 0 where
  pub send : String → Response
  pub now : ℕ
  -- the time at which a counter is looked at
  pub counted : String → ℕ

-- the closure `decorate`
unfoldable pub decorate : LlmEndpointConfig → Option MetricPoint → Option MetricPoint
unfolding attributed
decorate config point =
    let labelled =
      attributed "llm.backend" (as_str config.backend)
        (attributed "llm.endpoint.id" config.id point) in
    map_or config.served_model_id labelled (λ model. attributed "llm.model.id" model labelled)

-- the points of the list, each decorated
abbrev pub decorated : LlmEndpointConfig → Points → Points
decorated config [] = []
decorated config (point ∷ points) = decorate config point ∷ decorated config points

-- `metric_value`
unfoldable pub metric_value :
    BTreeMap String F64 → Option String → String → String → Option MetricPoint
unfolding gauge unavailable get
metric_value metrics source_name output_name unit =
    map_or (source_name >>= λ name. get name metrics)
      (unavailable output_name unit Quality.unsupported "prometheus" "METRIC_NOT_EXPOSED")
      (λ value. gauge output_name value unit Quality.measured "prometheus")

unfoldable pub capacity_point : Option ℕ → Option MetricPoint
unfolding gauge unavailable from_u64
capacity_point capacity =
    map_or capacity
      (unavailable "spark.llm.context.capacity" "{token}" Quality.unsupported "config"
        "CONTEXT_CAPACITY_NOT_CONFIGURED")
      (λ tokens.
        gauge "spark.llm.context.capacity" (from_u64 tokens) "{token}" Quality.measured "config")

-- a counter of tokens with its rate and its name at the endpoint
pub record TokenCounter : Type 0 where
  pub metric_name : String
  pub rate_name : String
  pub source_name : Option String

abbrev pub token_counters : MetricNames → List TokenCounter
token_counters names =
    record {
      metric_name = "spark.llm.tokens.input";
      rate_name = "spark.llm.tokens.prefill.rate";
      source_name = names.input_tokens;
    }
    ∷ record {
      metric_name = "spark.llm.tokens.output";
      rate_name = "spark.llm.tokens.generation.rate";
      source_name = names.output_tokens;
    }
    ∷ []

unfoldable pub both_unavailable : TokenCounter → Quality → String → Points
unfolding unavailable
both_unavailable c quality code =
    unavailable c.metric_name "{token}" quality "prometheus" code
    ∷ unavailable c.rate_name "{token}/s" quality "prometheus" code
    ∷ []

-- `previous.filter(|old| value >= old.value)`
abbrev pub not_above : F64 → Baseline → Option Baseline
unfolding le
not_above value old = if le old.value value then some old else none

-- the points of a counter that has grown since the baseline
unfoldable pub growth : TokenCounter → F64 → ℕ → Baseline → Points
unfolding gauge counter_delta sub div lt as_secs_f64
growth c value now previous =
    let elapsed = as_secs_f64 (now - previous.observed) in
    let delta = sub value previous.value in
    counter_delta c.metric_name delta "{token}" "prometheus"
    ∷ gauge c.rate_name (if lt zero_f64 elapsed then div delta elapsed else zero_f64) "{token}/s"
        Quality.derived "prometheus"
    ∷ []

unfoldable pub value_points : TokenCounter → F64 → ℕ → Option Baseline → Points
unfolding both_unavailable growth not_above
value_points c value now previous =
    map_or (previous >>= not_above value) (both_unavailable c Quality.stale "BASELINE_INITIALIZING")
      (growth c value now)

-- the body of the loop over the counters
unfoldable pub count_tokens :
    String → ℕ → Baselines → TokenCounter → Option F64 → Baselines × Points
unfolding value_points both_unavailable get insert
count_tokens id now baselines c none =
    (baselines, both_unavailable c Quality.unsupported "METRIC_NOT_EXPOSED")
count_tokens id now baselines c (some value) =
    let key : String × String = (id, c.metric_name) in
    (
      insert key (record { value = value; observed = now }) baselines,
      value_points c value now (get key baselines),
    )

unfoldable pub count_all :
    BTreeMap String F64 → String → (String → ℕ) → Baselines → List TokenCounter → Baselines × Points
unfolding count_tokens get
count_all metrics id counted baselines [] = (baselines, [])
count_all metrics id counted baselines (c ∷ counters) =
    let (next, points) =
      count_tokens id (counted c.metric_name) baselines c
        (c.source_name >>= λ name. get name metrics) in
    let (last, more) = count_all metrics id counted next counters in (last, points ++ more)

unfoldable pub generation_points : BTreeMap String F64 → Option String → Points
unfolding gauge get
generation_points metrics name =
    made
      (λ value.
        gauge "spark.llm.tokens.generation.rate" value "{token}/s" Quality.measured "prometheus")
      (name >>= λ n. get n metrics)

-- the points of an endpoint that answered, before those of its counters
unfoldable pub answer_points : BTreeMap String F64 → MetricNames → Points
unfolding gauge metric_value
answer_points metrics names =
    gauge "spark.llm.response.age" zero_f64 "s" Quality.derived "http"
    ∷ gauge "spark.llm.collection.errors" zero_f64 "{error}" Quality.measured "http"
    ∷ gauge "spark.llm.available" one_f64 "1" Quality.measured "http"
    ∷ metric_value metrics names.uptime "spark.llm.uptime" "s"
    ∷ metric_value metrics names.running "spark.llm.requests.running" "{request}"
    ∷ metric_value metrics names.queued "spark.llm.requests.queued" "{request}"
    ∷ []

-- the points of an endpoint that did not answer
unfoldable pub failure_points : ℕ → String → Points
unfolding gauge unavailable as_secs_f64
failure_points age code =
    gauge "spark.llm.response.age" (as_secs_f64 age) "s" Quality.derived "http"
    ∷ gauge "spark.llm.collection.errors" one_f64 "{error}" Quality.measured "http"
    ∷ unavailable "spark.llm.available" "1" Quality.error "http" code
    ∷ []

-- the `match result` of `collect`
unfoldable pub result_points :
    LlmEndpointConfig → Visit → LlmProbe → Result (BTreeMap String F64) String → LlmProbe × Points
unfolding answer_points count_all generation_points failure_points resolved_names get insert
result_points config visit probe (ok metrics) =
    let names = resolved_names config in
    let (baselines, counters) =
      count_all metrics config.id visit.counted probe.baselines (token_counters names) in
    (
      record probe {
        baselines = baselines;
        last_success = insert config.id visit.now probe.last_success;
      },
      answer_points metrics names ++ counters ++ generation_points metrics names.generation_rate,
    )
result_points config visit probe (err code) =
    let age =
      map_or (get config.id probe.last_success) (visit.now - probe.started)
        (λ last. visit.now - last) in
    (probe, failure_points age code)

-- the body of the loop of `collect`
unfoldable pub collect_endpoint : LlmEndpointConfig → Visit → LlmProbe → LlmProbe × Points
unfolding decorate capacity_point result_points fetch_endpoint
collect_endpoint config visit probe =
    let (next, points) = result_points config visit probe (fetch_endpoint visit.send config) in
    (next, decorated config (capacity_point config.context_capacity ∷ points))

unfoldable pub collect_endpoints :
    (ℕ → Visit) → ℕ → List LlmEndpointConfig → LlmProbe → LlmProbe × Points
unfolding collect_endpoint
collect_endpoints visits index [] probe = (probe, [])
collect_endpoints visits index (config ∷ configs) probe =
    let (next, points) = collect_endpoint config (visits index) probe in
    let (last, more) = collect_endpoints visits (index + 1) configs next in (last, points ++ more)

-- `LlmProbe::collect`
unfoldable pub collect_llm : (ℕ → Visit) → LlmProbe → LlmProbe × Points
unfolding collect_endpoints
collect_llm visits probe = collect_endpoints visits 0 probe.endpoints probe
