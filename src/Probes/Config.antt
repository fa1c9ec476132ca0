-- ===== src/Probes/Config.antt =====
-- crates/spark-probes/src/lib.rs: the configuration. TOML decoding is a parameter.
use spark_signals.Prelude.{ℕ, String, Option, none, some, List, Result, ok_or, ◌>>=◌}
use spark_signals.Prelude.Optional.{or_later}

pub data Backend : Type 0 where
  sglang vllm llama_cpp openai custom : Backend

-- `Backend::as_str`
abbrev pub as_str : Backend → String
as_str Backend.sglang = "sglang"
as_str Backend.vllm = "vllm"
as_str Backend.llama_cpp = "llama_cpp"
as_str Backend.openai = "openai"
as_str Backend.custom = "custom"

pub record MetricNames : Type 0 where
  pub running : Option String
  pub queued : Option String
  pub input_tokens : Option String
  pub output_tokens : Option String
  pub generation_rate : Option String
  pub uptime : Option String

abbrev pub no_names : MetricNames
no_names = record {
  running = none;
  queued = none;
  input_tokens = none;
  output_tokens = none;
  generation_rate = none;
  uptime = none;
}

pub record ServiceConfig : Type 0 where
  pub name : String

pub record LlmEndpointConfig : Type 0 where
  pub id : String
  pub backend : Backend
  pub base_url : String
  pub served_model_id : Option String
  pub context_capacity : Option ℕ
  pub auth_header_file : Option String
  pub tls_ca_file : Option String
  pub metrics_path : String
  pub metric_names : MetricNames

pub record AgentConfig : Type 0 where
  pub hardware_capabilities_dir : Option String
  pub signal_policies_dir : Option String
  pub service : List ServiceConfig
  pub llm : List LlmEndpointConfig

pub data ConfigError : Type 0 where
  reading parsing : ConfigError

-- `AgentConfig::load`, of what reading the file yields
unfoldable pub load : (String → Option AgentConfig) → Option String → Result AgentConfig ConfigError
load from_str file = do
  raw ← ok_or file ConfigError.reading
  ok_or (from_str raw) ConfigError.parsing

abbrev pub default_names : Backend → MetricNames
default_names Backend.sglang = record {
  running = some "sglang:num_running_reqs";
  queued = some "sglang:num_queue_reqs";
  input_tokens = some "sglang:prompt_tokens_total";
  output_tokens = some "sglang:generation_tokens_total";
  generation_rate = some "sglang:gen_throughput";
  uptime = none;
}
default_names Backend.vllm = record {
  running = some "vllm:num_requests_running";
  queued = some "vllm:num_requests_waiting";
  input_tokens = some "vllm:prompt_tokens_total";
  output_tokens = some "vllm:generation_tokens_total";
  generation_rate = none;
  uptime = none;
}
default_names Backend.llama_cpp = record {
  running = some "llamacpp:requests_processing";
  queued = some "llamacpp:requests_deferred";
  input_tokens = some "llamacpp:prompt_tokens_total";
  output_tokens = some "llamacpp:tokens_predicted_total";
  generation_rate = some "llamacpp:predicted_tokens_seconds";
  uptime = none;
}
default_names Backend.openai = no_names
default_names Backend.custom = no_names

-- `resolved_names`
unfoldable pub resolved_names : LlmEndpointConfig → MetricNames
resolved_names config =
    let names = config.metric_names in
    let defaults = default_names config.backend in
    record {
      running = or_later names.running defaults.running;
      queued = or_later names.queued defaults.queued;
      input_tokens = or_later names.input_tokens defaults.input_tokens;
      output_tokens = or_later names.output_tokens defaults.output_tokens;
      generation_rate = or_later names.generation_rate defaults.generation_rate;
      uptime = or_later names.uptime defaults.uptime;
    }
