-- ===== src/Nvidia/Validity/Smi.antt =====
-- That the points from nvidia-smi are made.
use spark_signals.Prelude.{
  ℕ, ◌+◌, String, ◌≡◌, refl, true, false, Option, List, [], ◌∷◌, map, All, All-append, arith,
}
use spark_signals.Text.Decimal.{to_decimal}
use spark_signals.Text.Split.{lines, split, trim}
use spark_signals.Order.{◌==◌, nat_ord, text_ord}
use spark_signals.Float.Parse.{parse_f64}
use spark_signals.Schema.{MetricPoint, Quality, metric_name_allowed, attribute_name_allowed}
use spark_signals.Schema.Point as Point
use spark_signals.Points.{Points, attributed}
use spark_signals.Points.Made.{
  IsMade, AllMade, gauge-IsMade, unavailable-IsMade, attributed-IsMade, IsMade-mono, map_or-IsMade,
  plain,
}
use spark_signals.Nvidia.Points.{unavailable}
use spark_signals.Nvidia.Smi.{
  SmiOutput, not_started, ended, parse_smi_value, decorate_gpu, clock_value, smi_points,
  field_points, line_points, parse_smi_csv, collect_smi_fallback,
}

-- Points with at most one attribute.
abbrev pub AllLabelled : Points → Type 0
AllLabelled points = All (IsMade 1) points

pub labelled : (point : Option MetricPoint) → IsMade 0 point → IsMade 1 point
labelled point m = IsMade-mono 0 1 point (omega arith) m

pub decorate_gpu-AllMade :
    (id : String) (index : ℕ) (points : Points)
    → AllLabelled points
    → AllMade (map (decorate_gpu id index) points)
unfolding decorate_gpu attribute_name_allowed
decorate_gpu-AllMade id index [] a = tt
decorate_gpu-AllMade id index (point ∷ points) (m, a) = (
  IsMade-mono 3 24 (decorate_gpu id index point) (omega arith) (
      attributed-IsMade 2 "gpu.index" (to_decimal index) (attributed "gpu.id" id point) refl
        (attributed-IsMade 1 "gpu.id" id point refl m)),
  decorate_gpu-AllMade id index points a,
)

parse_smi_value-IsMade :
    (name unit field : String)
    → metric_name_allowed name ≡ true
    → IsMade 0 (parse_smi_value name unit field)
unfolding parse_smi_value
parse_smi_value-IsMade name unit field h =
    map_or-IsMade 0 (parse_f64 field) _ _ (unavailable-IsMade _ _ _ _ _ h)
      (λ value. gauge-IsMade _ _ _ _ _ h)

clock_value-IsMade : (field clock : String) → IsMade 1 (clock_value field clock)
unfolding clock_value metric_name_allowed attribute_name_allowed
clock_value-IsMade field clock =
    attributed-IsMade 0 "clock.domain" clock
      (parse_smi_value "nvidia.gpu.clock.frequency" "MHz" field) refl
      (parse_smi_value-IsMade "nvidia.gpu.clock.frequency" "MHz" field refl)

-- A point of nvidia-smi with a name of the catalogue.
smi_value :
    (name unit field : String)
    → metric_name_allowed name ≡ true
    → IsMade 1 (parse_smi_value name unit field)
smi_value name unit field h =
    labelled (parse_smi_value name unit field) (parse_smi_value-IsMade name unit field h)

field_points-AllMade : (index : ℕ) (fields : List String) → AllMade (field_points index fields)
unfolding field_points metric_name_allowed
field_points-AllMade index (id ∷ gpu ∷ memory ∷ temperature ∷ power ∷ graphics ∷ clock ∷ []) =
    decorate_gpu-AllMade id index (smi_points gpu memory temperature power graphics clock) (
      smi_value "nvidia.gpu.utilization" "%" gpu refl,
      (
        smi_value "nvidia.gpu.memory_controller.utilization" "%" memory refl,
        (
          smi_value "nvidia.gpu.temperature" "Cel" temperature refl,
          (
            smi_value "nvidia.gpu.power.draw" "W" power refl,
            (clock_value-IsMade graphics "graphics", (clock_value-IsMade clock "memory", tt)),
          ),
        ),
      ),
    )
field_points-AllMade index _ = tt

line_points-AllMade : (index : ℕ) (texts : List String) → AllMade (line_points index texts)
unfolding line_points
line_points-AllMade index [] = tt
line_points-AllMade index (line ∷ more) =
    let fields = map trim (split (λ c. c == b',') line) in
    All-append (IsMade 24) (field_points index fields) (line_points (index + 1) more)
      (field_points-AllMade index fields) (line_points-AllMade (index + 1) more)

-- A point of the utilization that could not be read.
pub no_utilization : (code : String) → IsMade 24 (unavailable "nvidia.gpu.utilization" "%" code)
unfolding unavailable metric_name_allowed
no_utilization code =
    plain (Point.unavailable "nvidia.gpu.utilization" "%" Quality.unsupported "nvml" code)
      (unavailable-IsMade "nvidia.gpu.utilization" "%" Quality.unsupported "nvml" code refl)

pub collect_smi_fallback-AllMade : (smi : SmiOutput) → AllMade (collect_smi_fallback smi)
unfolding collect_smi_fallback parse_smi_csv
collect_smi_fallback-AllMade not_started = (no_utilization _, tt)
collect_smi_fallback-AllMade (ended false stdout) = (no_utilization _, tt)
collect_smi_fallback-AllMade (ended true stdout) = line_points-AllMade 0 (lines stdout)
