-- ===== src/Schema/Types.antt =====
-- `MetricPoint`, `Envelope` and what they hold. The integers are `u64` values.
use spark_signals.Prelude.{ℕ, ◌≡◌, arith, String, Bool, Option, List}
use spark_signals.Order.{Ord, ord_by, nat_ord}
use spark_signals.BTreeMap.{BTreeMap}
use spark_signals.Float.{F64}

pub data Quality : Type 0 where
  measured derived estimated unsupported error stale : Quality

abbrev rank : Quality → ℕ
rank measured = 0
rank derived = 1
rank estimated = 2
rank unsupported = 3
rank error = 4
rank stale = 5

pub rank-injective : (x y : Quality) → rank x ≡ rank y → x ≡ y
rank-injective measured y h = ground arith
rank-injective derived y h = ground arith
rank-injective estimated y h = ground arith
rank-injective unsupported y h = ground arith
rank-injective error y h = ground arith
rank-injective stale y h = ground arith

instance abbrev pub quality_ord : Ord Quality
quality_ord = ord_by rank rank-injective

pub data InstrumentKind : Type 0 where
  gauge counter_delta histogram_observation : InstrumentKind

abbrev pub Attributes : Type 0
Attributes = BTreeMap String String

pub record MetricPoint : Type 0 where
  pub name : String
  pub instrument : InstrumentKind
  pub value : Option F64
  pub unit : String
  pub quality : Quality
  pub source : String
  pub attributes : Attributes
  pub error_code : Option String

pub record Node : Type 0 where
  pub site : String
  pub id : String
  pub host_name : String

pub data Severity : Type 0 where
  info warning error critical : Severity

pub data Signal : Type 0 where
  metric_batch : (points : List MetricPoint) → Signal
  inventory : (attributes : Attributes) → Signal
  agent_status : (online : Bool) → (version : String) → Signal
  health_event :
      (severity : Severity) → (code message : String) → (attributes : Attributes) → Signal

pub record Envelope : Type 0 where
  pub schema : String
  pub node : Node
  pub boot_id : String
  pub sequence : ℕ
  pub observed_at : String
  pub monotonic_ns : ℕ
  pub collection_duration_ms : ℕ
  pub valid_for_ms : ℕ
  pub signal : Signal
