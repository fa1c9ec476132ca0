-- ===== src/Nvidia/Points.antt =====
-- crates/spark-nvidia/src/lib.rs: the constructors of its points.
use Prim.Native.Char.{Char, code}
use Prim.Native.String as Text
use Prim.Native.String.{char_at}
use spark_signals.Prelude.{◌-◌, String, Bool, Option, Result, ok, err, if◌then◌else◌}
use spark_signals.Text.{is_ascii_lowercase}
use spark_signals.Float.{F64}
use spark_signals.Schema.{MetricPoint, Quality}
use spark_signals.Schema.Point as Point

-- `gauge`
unfoldable pub gauge : String → F64 → String → Option MetricPoint
unfolding Point.gauge
gauge name value unit = Point.gauge name value unit Quality.measured "nvml"

-- `unavailable`
unfoldable pub unavailable : String → String → String → Option MetricPoint
unfolding Point.unavailable
unavailable name unit code = Point.unavailable name unit Quality.unsupported "nvml" code

abbrev uppercase : Char → Char
uppercase c =
    if is_ascii_lowercase (code c) then char_at "ABCDEFGHIJKLMNOPQRSTUVWXYZ" (code c - b'a') else c

unfoldable pub to_ascii_uppercase : String → String
to_ascii_uppercase Text.[] = Text.[]
to_ascii_uppercase (Text.◌∷◌ c text) = Text.◌∷◌ (uppercase c) (to_ascii_uppercase text)

-- `NvmlError`: whether it is `NotSupported`, and what `{:?}` prints of it
pub record NvmlError : Type 0 where
  pub is_not_supported : Bool
  pub debug : String

-- `nvml_unavailable`
unfoldable pub nvml_unavailable : String → String → NvmlError → Option MetricPoint
unfolding Point.unavailable to_ascii_uppercase
nvml_unavailable name unit error =
    Point.unavailable name unit
      (if error.is_not_supported then Quality.unsupported else Quality.error) "nvml"
      (to_ascii_uppercase (Text.◌++◌ "NVML_" error.debug))

-- the point of a value, or of the error that it met
unfoldable pub measured_or {ℓ} :
    {A : Type ℓ} → String → String → (A → F64) → Result A NvmlError → Option MetricPoint
unfolding gauge nvml_unavailable
measured_or name unit value (ok answer) = gauge name (value answer) unit
measured_or name unit value (err error) = nvml_unavailable name unit error
