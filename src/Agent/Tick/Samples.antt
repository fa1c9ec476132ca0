-- ===== src/Agent/Tick/Samples.antt =====
-- The points of one tick with those that the agent adds.
use spark_signals.Prelude.{
  ℕ, ◌+◌, String, Bool, true, false, Option, List, [], ◌∷◌, ◌++◌, Result, ok, ok_or, ◌>>=◌,
  if◌then◌else◌,
}
use spark_signals.Prelude.Optional.{map_some}
use spark_signals.Float.{from_u64}
use spark_signals.Float.Duration.{as_secs_f64}
use spark_signals.Schema.{MetricPoint, Attributes, Quality}
use spark_signals.Schema.Point.{gauge}
use spark_signals.Agent.Ages as Ages
use spark_signals.Agent.Discovery as Discovery
use spark_signals.Agent.Tick.State.{Setting, Agent, TickError, panicked}

-- What the collectors, the clocks and the other tasks yield during a tick; times are in nanoseconds.
pub record Inputs : Type 0 where
  -- `reconnects` at the start of the tick, and when its point is made
  pub reconnects : ℕ
  pub reconnects_later : ℕ
  pub host_inventory : Attributes
  pub nvidia_inventory : Attributes
  -- the inventories when they are published at the end
  pub host_inventory_later : Attributes
  pub nvidia_inventory_later : Attributes
  pub system : List MetricPoint
  pub network : List MetricPoint
  pub storage : List MetricPoint
  pub nvidia : List MetricPoint
  pub service : List MetricPoint
  pub llm : List MetricPoint
  -- `Instant::now` when the age of a collector is observed
  pub now : String → ℕ
  -- `started.elapsed()` for the point and for the publications, and `llm_started.elapsed()`
  pub elapsed : ℕ
  pub duration : ℕ
  pub llm_elapsed : ℕ

-- the lists that are published
pub record Samples : Type 0 where
  pub system : List MetricPoint
  pub network : List MetricPoint
  pub storage : List MetricPoint
  pub nvidia : List MetricPoint

abbrev pub is_failure : Quality → Bool
is_failure Quality.error = true
is_failure Quality.measured = false
is_failure Quality.derived = false
is_failure Quality.estimated = false
is_failure Quality.unsupported = false
is_failure Quality.stale = false

-- `.filter(|point| point.quality == Quality::Error).count()`
unfoldable pub count_errors : List MetricPoint → ℕ
count_errors [] = 0
count_errors (point ∷ points) =
    if is_failure point.quality then count_errors points + 1 else count_errors points

-- `error_count`
abbrev pub error_count : Inputs → List MetricPoint → ℕ
unfolding count_errors
error_count inputs storage =
    count_errors (inputs.system ++ inputs.network ++ storage ++ inputs.nvidia)

-- the points that the agent adds to those of the system, before the age
unfoldable pub agent_points : ℕ → ℕ → ℕ → ℕ → List (Option MetricPoint)
unfolding gauge as_secs_f64 from_u64
agent_points elapsed errors reconnects dropped =
    gauge "spark.agent.collection.duration" (as_secs_f64 elapsed) "s" Quality.measured "agent"
    ∷ gauge "spark.agent.collection.errors" (from_u64 errors) "{error}" Quality.measured "agent"
    ∷ gauge "spark.agent.nats.reconnects" (from_u64 reconnects) "{reconnect}" Quality.measured
        "agent"
    ∷ gauge "spark.agent.events.dropped" (from_u64 dropped) "{event}" Quality.measured "agent"
    ∷ []

-- the points, or the panic of a constructor
abbrev pub all_or_panicked : List (Option MetricPoint) → Result (List MetricPoint) TickError
all_or_panicked [] = ok []
all_or_panicked (point ∷ points) = do
  first ← ok_or point panicked
  rest ← all_or_panicked points
  ok (first ∷ rest)

module _ (s : Setting) where
  -- `collector_ages.observe(domain, &points)`
  unfoldable pub age :
      Inputs → String → List MetricPoint → Agent s → Result (Agent s × MetricPoint) TickError
  unfolding Ages.observe as_secs_f64
  age inputs domain points agent = do
    let (ages, point) =
        Ages.observe as_secs_f64 (inputs.now domain) domain points agent.collector_ages
    made ← ok_or point panicked
    ok (record agent { collector_ages = ages }, made)

  -- the points of the storage with their age, if they are due
  unfoldable pub storage_sample :
      Inputs → Bool → List MetricPoint → Agent s → Result (Agent s × List MetricPoint) TickError
  unfolding age
  storage_sample inputs false points agent = ok (agent, points)
  storage_sample inputs true points agent = do
    (next, point) ← age inputs "storage" points agent
    ok (next, points ++ point ∷ [])

  -- `tracker.observe(points)`, if signals are discovered
  unfoldable pub discover : List MetricPoint → Agent s → Agent s
  unfolding Discovery.observe
  discover points agent = record agent {
    discovery = map_some (λ tracker. Discovery.observe tracker points) agent.discovery;
  }

  -- the ages and the points of the agent
  unfoldable pub collected :
      Inputs → Bool → List MetricPoint → Agent s → Result (Agent s × Samples) TickError
  collected inputs medium_due storage_points agent = do
    (a, system_age) ← age inputs "system" inputs.system agent
    (b, network_age) ← age inputs "network" inputs.network a
    (c, storage) ← storage_sample inputs medium_due storage_points b
    (last, nvidia_age) ← age inputs "nvidia" inputs.nvidia c
    own ← all_or_panicked (
        agent_points inputs.elapsed (error_count inputs storage_points) inputs.reconnects_later
          agent.outbox.dropped)
    ok (
      last,
      record {
        system = inputs.system ++ own ++ system_age ∷ [];
        network = inputs.network ++ network_age ∷ [];
        storage = storage;
        nvidia = inputs.nvidia ++ nvidia_age ∷ [];
      },
    )

  -- the four observations of `tracker`
  unfoldable pub discover_all : Samples → Agent s → Agent s
  unfolding discover
  discover_all samples agent =
      discover samples.nvidia
        (discover samples.storage (discover samples.network (discover samples.system agent)))
