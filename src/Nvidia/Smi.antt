-- ===== src/Nvidia/Smi.antt =====
-- crates/spark-nvidia/src/lib.rs: the points from the output of nvidia-smi, when there is no NVML.
use spark_signals.Prelude.{
  ℕ, ◌+◌, String, Bool, true, false, Option, List, [], ◌∷◌, ◌++◌, map, map_or,
}
use spark_signals.Order.{◌==◌, nat_ord}
use spark_signals.Float.Parse.{parse_f64}
use spark_signals.Text.Split.{lines, split, trim}
use spark_signals.Text.Decimal.{to_decimal}
use spark_signals.Schema.{MetricPoint, Quality}
use spark_signals.Schema.Point as Point
use spark_signals.Points.{Points, attributed}
use spark_signals.Nvidia.Points.{unavailable}

-- `parse_smi_value`
unfoldable pub parse_smi_value : String → String → String → Option MetricPoint
unfolding Point.gauge Point.unavailable parse_f64
parse_smi_value name unit field =
    map_or (parse_f64 field)
      (Point.unavailable name unit Quality.unsupported "nvidia-smi" "NVSMI_NOT_SUPPORTED")
      (λ value. Point.gauge name value unit Quality.measured "nvidia-smi")

-- the closure `decorate`
unfoldable pub decorate_gpu : String → ℕ → Option MetricPoint → Option MetricPoint
unfolding attributed to_decimal
decorate_gpu id index point =
    attributed "gpu.index" (to_decimal index) (attributed "gpu.id" id point)

unfoldable pub clock_value : String → String → Option MetricPoint
unfolding parse_smi_value attributed
clock_value field clock =
    attributed "clock.domain" clock (parse_smi_value "nvidia.gpu.clock.frequency" "MHz" field)

-- the points of the six values of a line
abbrev pub smi_points : String → String → String → String → String → String → Points
unfolding parse_smi_value clock_value
smi_points gpu memory temperature power graphics clock =
    parse_smi_value "nvidia.gpu.utilization" "%" gpu
    ∷ parse_smi_value "nvidia.gpu.memory_controller.utilization" "%" memory
    ∷ parse_smi_value "nvidia.gpu.temperature" "Cel" temperature
    ∷ parse_smi_value "nvidia.gpu.power.draw" "W" power
    ∷ clock_value graphics "graphics"
    ∷ clock_value clock "memory"
    ∷ []

-- the points of a line, if it has seven fields
unfoldable pub field_points : ℕ → List String → Points
unfolding parse_smi_value decorate_gpu clock_value
field_points index (id ∷ gpu ∷ memory ∷ temperature ∷ power ∷ graphics ∷ clock ∷ []) =
    map (decorate_gpu id index) (smi_points gpu memory temperature power graphics clock)
field_points index _ = []

unfoldable pub line_points : ℕ → List String → Points
unfolding field_points split trim
line_points index [] = []
line_points index (line ∷ more) =
    field_points index (map trim (split (λ c. c == b',') line)) ++ line_points (index + 1) more

-- `parse_smi_csv`
unfoldable pub parse_smi_csv : String → Points
unfolding line_points lines
parse_smi_csv raw = line_points 0 (lines raw)

-- what running nvidia-smi yields: whether its status is a success, and its output
pub data SmiOutput : Type 0 where
  not_started : SmiOutput
  ended : (success : Bool) (stdout : String) → SmiOutput

-- `collect_smi_fallback`
unfoldable pub collect_smi_fallback : SmiOutput → Points
unfolding parse_smi_csv unavailable
collect_smi_fallback not_started =
    unavailable "nvidia.gpu.utilization" "%" "NVML_AND_NVSMI_UNAVAILABLE" ∷ []
collect_smi_fallback (ended false stdout) =
    unavailable "nvidia.gpu.utilization" "%" "NVSMI_QUERY_FAILED" ∷ []
collect_smi_fallback (ended true stdout) = parse_smi_csv stdout
