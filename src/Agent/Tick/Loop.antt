-- ===== src/Agent/Tick/Loop.antt =====
-- One tick of the main loop, the reload on SIGHUP, and what ends the loop.
use spark_signals.Prelude.{
  ℕ, zero, suc, ◌+◌, ◌*◌, ◌^◌, ◌-◌, ◌/◌, ◌%◌, min, String, Bool, true, false, ◌||◌, Option, none,
  some, List, [], ◌∷◌, ◌++◌, Result, ok, ◌>>=◌, ltb, eqb, map_or, if◌then◌else◌,
}
use spark_signals.Schema.{MetricPoint, Attributes, agent_status}
use spark_signals.Agent.Policy.{SignalEmitter}
use spark_signals.Agent.Discovery.{DiscoveryTracker, DiscoverySummary, GeneratedPolicy, output}
use spark_signals.Agent.Publish.{EnvelopeFactory, from_secs}
use spark_signals.Agent.Ages.{new_ages}
use spark_signals.Agent.Tick.State.{
  Setting, Agent, TickError, publish_signal, detect_events, publish_sample,
}
use spark_signals.Agent.Tick.Reports.{
  report_reconnects, report_inventory, publish_inventory, report_xids, report_degraded,
  report_services,
}
use spark_signals.Agent.Tick.Samples.{
  Inputs, Samples, error_count, age, collected, discover, discover_all,
}

-- the arguments of the cadences, in seconds
pub record Cadence : Type 0 where
  pub once : Bool
  pub interval_seconds : ℕ
  pub medium_interval_seconds : ℕ
  pub slow_interval_seconds : ℕ

-- `a.div_ceil(b)` for a `b` that is not 0
abbrev pub div_ceil : ℕ → ℕ → ℕ
div_ceil a b = if eqb (a % b) 0 then a / b else a / b + 1

-- `a.is_multiple_of(b)`
abbrev pub is_multiple_of : ℕ → ℕ → Bool
is_multiple_of a zero = eqb a 0
is_multiple_of a (suc b) = eqb (a % suc b) 0

-- `duration.saturating_mul(3)`
abbrev pub three_times : ℕ → ℕ
three_times duration = min (duration * 3) (2 ^ 64 * 10 ^ 9 - 1)

abbrev pub interval : Cadence → ℕ
interval cadence = from_secs cadence.interval_seconds

abbrev pub medium_due : Cadence → ℕ → Bool
medium_due cadence tick_count =
    eqb tick_count 1
    || is_multiple_of tick_count (div_ceil cadence.medium_interval_seconds cadence.interval_seconds)

abbrev pub slow_due : Cadence → ℕ → Bool
slow_due cadence tick_count =
    is_multiple_of tick_count (div_ceil cadence.slow_interval_seconds cadence.interval_seconds)

module _ (s : Setting) where
  -- the variables before the loop, from those that were made before
  abbrev pub new_agent :
      s.queue.Events
      → EnvelopeFactory
      → SignalEmitter
      → Option DiscoveryTracker
      → ℕ
      → Attributes
      → Agent s
  new_agent events factory emitter discovery now nvidia_inventory = record {
    state = [];
    outbox = record { events = events; dropped = 0; printed = [] };
    factory = factory;
    emitter = emitter;
    discovery = discovery;
    collector_ages = new_ages now;
    system_health_states = [];
    service_states = [];
    collector_had_errors = false;
    reported_reconnects = 0;
    reported_dropped_events = 0;
    tick_count = 0;
    last_nvidia_inventory = nvidia_inventory;
  }

  -- the three calls of `detect_system_events`
  unfoldable pub detect_all :
      Inputs → Bool → List MetricPoint → Agent s → Result (Agent s) TickError
  unfolding detect_events
  detect_all inputs medium storage agent = do
    system ← detect_events s inputs.system agent
    network ← detect_events s inputs.network system
    if medium then detect_events s storage network else ok network

  -- the publications of the four samples
  unfoldable pub publish_storage :
      Cadence → Bool → List MetricPoint → ℕ → Agent s → Result (Agent s) TickError
  unfolding publish_sample
  publish_storage cadence medium points duration agent =
      if medium
      then publish_sample s "sample.storage" points duration
          (three_times (from_secs cadence.medium_interval_seconds)) agent
      else ok agent

  unfoldable pub publish_samples :
      Cadence → Bool → Samples → ℕ → Agent s → Result (Agent s) TickError
  unfolding publish_sample publish_storage
  publish_samples cadence medium samples duration agent = do
    let valid_for = three_times (interval cadence)
    a ← publish_sample s "sample.system" samples.system duration valid_for agent
    b ← publish_sample s "sample.network" samples.network duration valid_for a
    c ← publish_storage cadence medium samples.storage duration b
    publish_sample s "sample.nvidia" samples.nvidia duration valid_for c

  -- a sample of the medium cadence, after its age and its observation
  unfoldable pub medium_sample :
      Inputs → String → String → List MetricPoint → ℕ → Agent s → Result (Agent s) TickError
  unfolding age discover publish_sample
  medium_sample inputs domain suffix points duration agent = do
    (next, point) ← age s inputs domain points agent
    let sample = points ++ point ∷ []
    publish_sample s suffix sample duration (from_secs 30) (discover s sample next)

  -- `if args.once || medium_due { .. }`
  unfoldable pub medium_cycle : Inputs → Agent s → Result (Agent s) TickError
  unfolding report_services medium_sample
  medium_cycle inputs agent = do
    a ← report_services s inputs.service agent
    b ← medium_sample inputs "service" "sample.service" inputs.service 0 a
    medium_sample inputs "llm" "sample.llm" inputs.llm inputs.llm_elapsed b

  -- `if tick_count.is_multiple_of(slow_ticks) { .. }`
  unfoldable pub slow_cycle : Cadence → ℕ → Inputs → Agent s → Result (Agent s) TickError
  unfolding publish_inventory
  slow_cycle cadence tick_count inputs agent =
      if slow_due cadence tick_count
      then publish_inventory s inputs.host_inventory_later inputs.nvidia_inventory_later agent
      else ok agent

  -- the body of the loop after the tick of the ticker
  unfoldable pub tick : Cadence → Inputs → Agent s → Result (Agent s) TickError
  tick cadence inputs agent = do
    let count = min (agent.tick_count + 1) (2 ^ 64 - 1)
    let medium = medium_due cadence count
    let storage = if medium then inputs.storage else []
    a ← report_reconnects s inputs.reconnects (record agent { tick_count = count })
    b ← report_inventory s inputs.host_inventory inputs.nvidia_inventory a
    c ← report_xids s inputs.nvidia b
    d ← detect_all inputs medium storage c
    (e, samples) ← collected s inputs medium storage d
    f ← publish_samples cadence medium samples inputs.duration (discover_all s samples e)
    g ← report_degraded s (ltb 0 (error_count inputs storage)) f
    h ← if cadence.once || medium then medium_cycle inputs g else ok g
    slow_cycle cadence count inputs h

  -- what `AgentConfig::load` and what follows it yield on SIGHUP, and the inventories then
  pub record Reloaded : Type 0 where
    pub emitter : SignalEmitter
    pub nvidia_inventory : Attributes
    pub host_inventory : Attributes

  -- the reload on SIGHUP, if there is a configuration path
  unfoldable pub reload_agent : Option Reloaded → Agent s → Result (Agent s) TickError
  unfolding publish_inventory
  reload_agent none agent = ok agent
  reload_agent (some next) agent =
      publish_inventory s next.host_inventory next.nvidia_inventory
        (record agent { emitter = next.emitter; last_nvidia_inventory = next.nvidia_inventory })

  -- the publications before the loop
  unfoldable pub announce : String → Attributes → Attributes → Agent s → Result (Agent s) TickError
  unfolding publish_signal publish_inventory
  announce version host nvidia agent = do
    next ← publish_signal s "status.agent" (agent_status true version) 0 (from_secs 10) agent
    publish_inventory s host nvidia next

  -- what the loop waits for: a tick, or the signal with what the reload yields
  pub data LoopEvent : Type 0 where
    ticked : (inputs : Inputs) → LoopEvent
    signalled : (next : Option Reloaded) → LoopEvent

  -- the loop, as long as nothing ends it
  unfoldable pub run_loop : Cadence → List LoopEvent → Agent s → Result (Agent s) TickError
  run_loop cadence [] agent = ok agent
  run_loop cadence (ticked inputs ∷ more) agent = do
    next ← tick cadence inputs agent
    run_loop cadence more next
  run_loop cadence (signalled loaded ∷ more) agent = do
    next ← reload_agent loaded agent
    run_loop cadence more next

  -- how a tick ends
  pub data Outcome : Type 0 where
    again finished : Outcome
    discovered : (policies : List GeneratedPolicy) (summary : DiscoverySummary) → Outcome
    -- "discovery state ended unexpectedly"
    no_tracker : Outcome

  -- the end of the loop's body: whether the deadline of the discovery has passed
  unfoldable pub outcome : Cadence → Bool → Agent s → Outcome
  unfolding output
  outcome cadence deadline_passed agent =
      if cadence.once
      then finished
      else if deadline_passed
      then map_or agent.discovery no_tracker
          (λ tracker. discovered (output tracker).0 (output tracker).1)
      else again
