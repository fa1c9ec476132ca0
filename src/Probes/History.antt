-- ===== src/Probes/History.antt =====
-- What an LLM probe has kept after a history of collections.
use spark_signals.Prelude.{
  ℕ, ◌+◌, String, ◌≡◌, Option, none, some, List, [], ◌∷◌, Result, ok, err, if◌then◌else◌,
}
use spark_signals.Prelude.Optional.{◌>>=◌, map_some, or_later}
use spark_signals.Order.{◌==◌, text_ord, pair_ord}
use spark_signals.BTreeMap.{BTreeMap, get}
use spark_signals.Float.{F64}
use spark_signals.Probes.Config.{LlmEndpointConfig, resolved_names}
use spark_signals.Probes.Fetch.{fetch_endpoint}
use spark_signals.Probes.Llm.{
  Baseline, LlmProbe, new_probe, Visit, TokenCounter, token_counters, collect_llm,
}

-- What an endpoint showed of a counter at a visit.
abbrev shown_of : BTreeMap String F64 → ℕ → TokenCounter → Option Baseline
shown_of metrics now c =
    map_some (λ value. record { value = value; observed = now })
      (c.source_name >>= λ name. get name metrics)

abbrev pub shown_by :
    BTreeMap String F64 → (String → ℕ) → String → List TokenCounter → Option Baseline
shown_by metrics counted metric [] = none
shown_by metrics counted metric (c ∷ counters) =
    or_later (shown_by metrics counted metric counters)
      (if c.metric_name == metric then shown_of metrics (counted c.metric_name) c else none)

abbrev pub answer_shows :
    LlmEndpointConfig → Visit → String → Result (BTreeMap String F64) String → Option Baseline
answer_shows config visit metric (err code) = none
answer_shows config visit metric (ok metrics) =
    shown_by metrics visit.counted metric (token_counters (resolved_names config))

abbrev pub success_of : Visit → Result (BTreeMap String F64) String → Option ℕ
success_of visit (err code) = none
success_of visit (ok metrics) = some visit.now

-- Of the endpoints with an id, from the place on: what the last of them showed of a metric, and when the
-- last of them that answered did.
abbrev pub shown : (ℕ → Visit) → String → String → ℕ → List LlmEndpointConfig → Option Baseline
shown visits id metric index [] = none
shown visits id metric index (config ∷ configs) =
    or_later (shown visits id metric (index + 1) configs) (
      if config.id == id
      then answer_shows config (visits index) metric (fetch_endpoint (visits index).send config)
      else none)

abbrev pub success : (ℕ → Visit) → String → ℕ → List LlmEndpointConfig → Option ℕ
success visits id index [] = none
success visits id index (config ∷ configs) = or_later (success visits id (index + 1) configs) (
    if config.id == id
    then success_of (visits index) (fetch_endpoint (visits index).send config)
    else none)

-- The latest of the readings of a history, which is given latest first.
abbrev pub latest {ℓ} : {A : Type ℓ} → ((ℕ → Visit) → Option A) → List (ℕ → Visit) → Option A
latest reading [] = none
latest reading (visits ∷ history) = or_later (reading visits) (latest reading history)

IsKept : (ℕ → Visit) → ℕ → List LlmEndpointConfig → LlmProbe → LlmProbe → String → String → Type 0
IsKept visits index configs probe next id metric =
    (get (id, metric) next.baselines
      ≡ or_later (shown visits id metric index configs) (get (id, metric) probe.baselines))
    × (get id next.last_success
        ≡ or_later (success visits id index configs) (get id probe.last_success))
    × (next.endpoints ≡ probe.endpoints)

-- The probe after a history of collections, which is given latest first.
abbrev pub after : ℕ → List LlmEndpointConfig → List (ℕ → Visit) → LlmProbe
after started configs [] = new_probe started configs
after started configs (visits ∷ history) = (collect_llm visits (after started configs history)).0
