-- ===== src/Tests/Loop.antt =====
-- The main loop of the agent at concrete inputs.
use spark_signals.Prelude.{
  ◌≡◌, refl, String, Bool, true, false, none, some, List, [], ◌∷◌, arith, map,
}
use spark_signals.Float.{F64, zero_f64, one_f64}
use spark_signals.Schema.{MetricPoint, InstrumentKind, Quality, Attributes}
use spark_signals.Agent.Policy.{fresh}
use spark_signals.Agent.Tick.{
  Setting, Agent, Inputs, Cadence, LoopEvent, ticked, signalled, new_agent, run_loop, slow_due,
  medium_due, judge_service,
}
use spark_signals.Agent.Tick.Numbering.{IsNumbered}
use spark_signals.Agent.Tick.Progress.{Returns}
use spark_signals.Agent.Tick.Always.{run_loop-Returns}
use spark_signals.Agent.Tick.Activity.{states_after, expected, judge_service-expected}
use spark_signals.Tests.Agent.{to_vec, clock, factory, queue}

abbrev setting : Setting
setting = record {
  to_vec = to_vec;
  queue = queue;
  clock = clock;
  site = "lab";
  node = "spark-1";
  stdout = true;
  publish = true;
}

abbrev point_of : String → F64 → Quality → Attributes → MetricPoint
point_of name value quality attributes = record {
  name = name;
  instrument = InstrumentKind.gauge;
  value = some value;
  unit = "1";
  quality = quality;
  source = "test";
  attributes = attributes;
  error_code = none;
}

abbrev unit_is : F64 → MetricPoint
unit_is value =
    point_of "spark.service.active" value Quality.measured (("systemd.unit", "a.service") ∷ [])

abbrev inputs_of : F64 → List MetricPoint → Inputs
inputs_of activity nvidia = record {
  reconnects = 1;
  reconnects_later = 1;
  host_inventory = ("os.type", "linux") ∷ [];
  nvidia_inventory = [];
  host_inventory_later = [];
  nvidia_inventory_later = [];
  system = point_of "system.uptime" one_f64 Quality.measured [] ∷ [];
  network = [];
  storage = [];
  nvidia = nvidia;
  service = unit_is activity ∷ [];
  llm = [];
  now = λ domain. 2000000000;
  elapsed = 1000000;
  duration = 2000000;
  llm_elapsed = 0;
}

abbrev cadence : Cadence
cadence = record {
  once = false;
  interval_seconds = 2;
  medium_interval_seconds = 2;
  slow_interval_seconds = 10;
}

abbrev start : Agent setting
start = new_agent setting [] factory (fresh []) none 0 []

abbrev xid : MetricPoint
xid = point_of "nvidia.gpu.xid.count" one_f64 Quality.error []

abbrev happenings : List (LoopEvent setting)
happenings =
    ticked (inputs_of one_f64 (xid ∷ []))
    ∷ signalled (some (record { emitter = fresh []; nvidia_inventory = []; host_inventory = [] }))
    ∷ signalled none
    ∷ ticked (inputs_of zero_f64 [])
    ∷ []

run_loop-Returns_example : Returns (IsNumbered setting) (run_loop setting cadence happenings start)
run_loop-Returns_example =
    run_loop-Returns setting (λ envelope. (envelope.sequence ∷ [], refl)) cadence happenings start
      (tt, (omega arith, (tt, tt)))

-- The unit was active and is not any more.
judge_service-expected_example :
    (judge_service (states_after (unit_is one_f64 ∷ [])) (unit_is zero_f64)).1
    ≡ expected (unit_is one_f64 ∷ []) (unit_is zero_f64)
judge_service-expected_example = judge_service-expected (unit_is one_f64 ∷ []) (unit_is zero_f64)

cadences :
    map {B = Bool × Bool}
      (λ n. (medium_due (record cadence { medium_interval_seconds = 5 }) n, slow_due cadence n))
      (1 ∷ 2 ∷ 3 ∷ 5 ∷ [])
    ≡ (true, false) ∷ (false, false) ∷ (true, false) ∷ (false, true) ∷ []
cadences = refl
