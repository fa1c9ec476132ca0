-- ===== src/Tests/Probes.antt =====
-- The probes at concrete answers.
use spark_signals.Prelude.{
  ℕ, ◌≡◌, refl, String, true, none, some, List, [], ◌∷◌, Option, if◌then◌else◌,
}
use spark_signals.Order.{text_ord, pair_ord, option_ord, ◌==◌}
use spark_signals.BTreeMap.{get}
use spark_signals.Float.{from_u64}
use spark_signals.Probes.{
  Backend, ServiceConfig, LlmEndpointConfig, Response, no_names, resolved_names,
}
use spark_signals.Probes.Parse.{parse_prometheus, parse_u64_properties, series_line}
use spark_signals.Probes.Llm.{Visit, new_probe, collect_llm}
use spark_signals.Probes.Services.{collect_services}
use spark_signals.Probes.Totals.{values_of, sum, get-parse_prometheus}
use spark_signals.Prelude.Optional.{filter_map}
use spark_signals.Text.Split.{lines}
use spark_signals.Probes.History.{after}
use spark_signals.Points.Batch.{IsAcceptable}
use spark_signals.Probes.Validity.Batch.{collect_llm-IsAcceptable, collect_services-IsAcceptable}

abbrev exposition : String
exposition =
    "# HELP ignored\nsglang:num_running_reqs{model_name=\"a\"} 2\nsglang:num_running_reqs{model_name=\"b\"} 3\nsglang:prompt_tokens_total 1.2e3\n"

summed_series : get "sglang:num_running_reqs" (parse_prometheus exposition) ≡ some (from_u64 5)
unfolding parse_prometheus get from_u64
summed_series = refl

exponent : get "sglang:prompt_tokens_total" (parse_prometheus exposition) ≡ some (from_u64 1200)
unfolding parse_prometheus get from_u64
exponent = refl

-- A label value with a space hides the value of its series.
spaced_label : parse_prometheus "up{model=\"a b\"} 1\n" ≡ []
unfolding parse_prometheus
spaced_label = refl

cgroup_events :
    parse_u64_properties "low 1\nhigh 2\noom_kill 3\n"
    ≡ ("high", 2) ∷ ("low", 1) ∷ ("oom_kill", 3) ∷ []
unfolding parse_u64_properties
cgroup_events = refl

abbrev endpoint : LlmEndpointConfig
endpoint = record {
  id = "x";
  backend = Backend.sglang;
  base_url = "http://localhost/";
  served_model_id = none;
  context_capacity = some 4096;
  auth_header_file = none;
  tls_ca_file = none;
  metrics_path = "/metrics";
  metric_names = record no_names { running = some "custom_running" };
}

overridden : (resolved_names endpoint).running ≡ some "custom_running"
unfolding resolved_names
overridden = refl

abbrev answering : ℕ → Visit
answering place = record {
  send = λ url. Response.answered true (some exposition);
  now = 2000000000;
  counted = λ metric. 2000000001;
}

abbrev failing : ℕ → Visit
failing place = record {
  send = λ url. Response.unreachable;
  now = 5000000000;
  counted = λ metric. 0;
}

get-parse_prometheus_example :
    get "sglang:num_running_reqs" (parse_prometheus exposition)
    ≡ sum (values_of "sglang:num_running_reqs" (filter_map series_line (lines exposition)))
get-parse_prometheus_example = get-parse_prometheus exposition "sglang:num_running_reqs"

collect_llm-IsAcceptable_example :
    IsAcceptable (collect_llm answering (new_probe 0 (endpoint ∷ []))).1
collect_llm-IsAcceptable_example = collect_llm-IsAcceptable answering (new_probe 0 (endpoint ∷ []))

abbrev read : String → Option String
read path =
    if path == "/sys/fs/cgroup/a.slice/memory.events" then some "low 1\noom_kill 3\n" else none

abbrev show : String → Option String
show name = some "ActiveState=active\nMainPID=7\nControlGroup=/a.slice\n"

abbrev units : List ServiceConfig
units = record { name = "a.service" } ∷ []

collect_services-IsAcceptable_example : IsAcceptable (collect_services read show units []).1
collect_services-IsAcceptable_example = collect_services-IsAcceptable read show units []

abbrev visits : List (ℕ → Visit)
visits = failing ∷ answering ∷ []

-- The failure leaves the value of the collection before it.
remembered :
    get ("x", "spark.llm.tokens.input") (after 0 (endpoint ∷ []) visits).baselines
    ≡ some (record { value = from_u64 1200; observed = 2000000001 })
unfolding get collect_llm from_u64
remembered = refl
