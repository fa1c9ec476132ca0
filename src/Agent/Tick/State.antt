-- ===== src/Agent/Tick/State.antt =====
-- What the main loop of the agent keeps, and its two ways of sending. The publisher's task takes events
-- from the queue between ticks.
use spark_signals.Prelude.{ℕ, String, Bool, Option, none, some, List, Result, ok, err, ◌>>=◌}
use spark_signals.BTreeMap.{BTreeMap}
use spark_signals.Float.Parse.{parse_f64}
use spark_signals.Schema.{MetricPoint, Attributes, Envelope, Signal, metric_batch}
use spark_signals.Agent.Policy.{SignalEmitter, filter}
use spark_signals.Agent.Discovery.{DiscoveryTracker}
use spark_signals.Agent.Ages.{CollectorAges}
use spark_signals.Agent.Events.{detect_system_events}
use spark_signals.Agent.Publish.{
  Publication, EnvelopeFactory, Reading, build, from_secs, PublishError, Queue, Outbox,
  publish_state, send_event,
}

-- what does not change: the JSON encoder, the queue, the clock and the arguments
pub record Setting : Type 1 where
  pub to_vec : Envelope → Option (List ℕ)
  pub queue : Queue
  pub clock : ℕ → Reading
  pub site : String
  pub node : String
  pub stdout : Bool
  pub publish : Bool

-- the variables of `main` that the loop changes
pub record Agent (s : Setting) : Type 0 where
  pub state : BTreeMap String Publication
  pub outbox : Outbox s.to_vec s.queue
  pub factory : EnvelopeFactory
  pub emitter : SignalEmitter
  pub discovery : Option DiscoveryTracker
  pub collector_ages : CollectorAges
  pub system_health_states : BTreeMap String ℕ
  pub service_states : BTreeMap String Bool
  pub collector_had_errors : Bool
  pub reported_reconnects : ℕ
  pub reported_dropped_events : ℕ
  pub tick_count : ℕ
  pub last_nvidia_inventory : Attributes

-- a `?` of the loop, or a panic of a constructor
pub data TickError : Type 0 where
  publishing : (reason : PublishError) → TickError
  panicked : TickError

abbrev pub or_publishing {ℓ} : {T : Type ℓ} → Result T PublishError → Result T TickError
or_publishing (err reason) = err (publishing reason)
or_publishing (ok value) = ok value

module _ (s : Setting) where
  -- `publish_state(.., suffix, factory.build(signal, duration, valid_for), ..)?`
  unfoldable pub publish_signal : String → Signal → ℕ → ℕ → Agent s → Result (Agent s) TickError
  unfolding build publish_state
  publish_signal suffix signal duration valid_for agent = do
    let (factory, envelope) = build s.clock agent.factory signal duration valid_for
    state ← or_publishing (publish_state s.to_vec agent.state s.site s.node suffix envelope)
    ok (record agent { state = state; factory = factory })

  -- `send_event(.., factory.build(signal, Duration::ZERO, Duration::from_mins(1)), ..)?`
  unfoldable pub send_alert : Signal → Agent s → Result (Agent s) TickError
  unfolding build send_event
  send_alert signal agent = do
    let (factory, envelope) = build s.clock agent.factory signal 0 (from_secs 60)
    outbox ←
        or_publishing
          (send_event s.to_vec s.queue agent.outbox s.site s.node envelope s.stdout s.publish)
    ok (record agent { outbox = outbox; factory = factory })

  unfoldable pub alert_if : Option Signal → Agent s → Result (Agent s) TickError
  unfolding send_alert
  alert_if none agent = ok agent
  alert_if (some signal) agent = send_alert signal agent

  -- `detect_system_events(..)?`
  unfoldable pub detect_events : List MetricPoint → Agent s → Result (Agent s) TickError
  unfolding detect_system_events
  detect_events points agent = do
    after ← or_publishing (
        detect_system_events parse_f64 s.to_vec s.queue s.clock s.site s.node s.stdout s.publish
          (record {
            states = agent.system_health_states;
            outbox = agent.outbox;
            factory = agent.factory;
          })
          points)
    ok (record agent {
      system_health_states = after.states;
      outbox = after.outbox;
      factory = after.factory;
    })

  -- the publication of a sample that the emitter has filtered
  unfoldable pub publish_sample :
      String → List MetricPoint → ℕ → ℕ → Agent s → Result (Agent s) TickError
  unfolding publish_signal filter
  publish_sample suffix points duration valid_for agent =
      let (emitter, kept) = filter agent.emitter points in
      publish_signal suffix (metric_batch kept) duration valid_for
        (record agent { emitter = emitter })
