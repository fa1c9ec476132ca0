-- ===== src/Points.antt =====
-- The lists of points that the collectors make, one after the other. Making a point panics if its name
-- is outside the catalogue, which is `none` here.
pub mod Made
pub mod Batch
use spark_signals.Prelude.{String, Option, none, some, List, [], ◌∷◌, ◌++◌}
use spark_signals.Prelude.Optional.{map_some}
use spark_signals.Schema.{MetricPoint}
use spark_signals.Schema.Point as Point

abbrev pub Points : Type 0
Points = List (Option MetricPoint)

-- `point.with_attribute(key, value)`
unfoldable pub attributed : String → String → Option MetricPoint → Option MetricPoint
attributed key value point = map_some (Point.with_attribute key value) point

-- The points of the entries, one entry after the other.
abbrev pub each {ℓ} : {A : Type ℓ} → (A → Points) → List A → Points
each points [] = []
each points (entry ∷ entries) = points entry ++ each points entries

-- a point that is made or not
abbrev pub made {ℓ} : {A : Type ℓ} → (A → Option MetricPoint) → Option A → Points
made point none = []
made point (some value) = point value ∷ []
