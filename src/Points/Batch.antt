-- ===== src/Points/Batch.antt =====
-- The batch that a list of points becomes, and whether the decoder takes it.
use Prim.Native.String.{len}
use spark_signals.Prelude.{◌≤◌, ◌≡◌, ◌↔◌, refl, true, none, some, List, [], ◌∷◌, All, ok}
use spark_signals.Prelude.Optional.{collect_all}
use spark_signals.Schema.{
  MetricPoint, Attributes, metric_batch, check_signal, metric_name_allowed, attribute_name_allowed,
  max_attribute_value_bytes,
}
use spark_signals.Schema.Validity.{IsBounded, check_signal_iff}
use spark_signals.Points.{Points}
use spark_signals.Points.Made.{HasKnownNames, IsMade, AllMade}

-- A point that has catalogue names and at most 24 attributes.
abbrev pub IsKnown : MetricPoint → Type 0
IsKnown point = IsMade 24 (some point)

-- The values of the attributes have at most 256 bytes.
abbrev pub HasShortValues : MetricPoint → Type 0
HasShortValues point = All (λ e. len e.1 ≤ max_attribute_value_bytes) point.attributes

pub collected :
    (points : Points)
    → AllMade points
    → (list : List MetricPoint) × (collect_all points ≡ some list) × All IsKnown list
collected [] a = ([], refl, tt)
collected (none ∷ points) a = absurd a.0
collected (some point ∷ points) (m, a) =
    let (list, e, k) = collected points a in (point ∷ list, rw e refl, (m, k))

entries-IsBounded :
    (m : Attributes)
    → HasKnownNames m
    → All (λ e. (attribute_name_allowed e.0 ≡ true) × (len e.1 ≤ max_attribute_value_bytes)) m
      ↔ All (λ e. len e.1 ≤ max_attribute_value_bytes) m
entries-IsBounded [] h = (λ a. tt, λ a. tt)
entries-IsBounded (e ∷ m) h =
    let (to, from) = entries-IsBounded m h.1 in (λ a. (a.0.1, to a.1), λ a. ((h.0, a.0), from a.1))

points-IsBounded :
    (list : List MetricPoint)
    → All IsKnown list
    → All (λ p. IsBounded p.attributes) list ↔ All HasShortValues list
points-IsBounded [] k = (λ a. tt, λ a. tt)
points-IsBounded (p ∷ list) ((name, few, names), k) =
    let (to, from) = entries-IsBounded p.attributes names in
    let (more, less) = points-IsBounded list k in
    (λ a. (to a.0.1, more a.1), λ a. ((few, from a.0), less a.1))

names_known :
    (list : List MetricPoint) → All IsKnown list → All (λ p. metric_name_allowed p.name ≡ true) list
names_known [] k = tt
names_known (p ∷ list) (m, k) = (m.0, names_known list k)

pub batch_accepted_iff :
    (list : List MetricPoint)
    → All IsKnown list
    → (check_signal (metric_batch list) ≡ ok tt) ↔ All HasShortValues list
batch_accepted_iff list k =
    let (to, from) = check_signal_iff (metric_batch list) in
    let (more, less) = points-IsBounded list k in
    (λ h. more (to h).1, λ a. from (names_known list k, less a))

-- The list of points is made without a panic, with catalogue names and at most 24 attributes each, and
-- the decoder takes the batch of them exactly if no attribute's value has more than 256 bytes.
abbrev pub IsAcceptable : Points → Type 0
IsAcceptable points =
    (list : List MetricPoint) × (collect_all points ≡ some list)
    × All IsKnown list
    × ((check_signal (metric_batch list) ≡ ok tt) ↔ All HasShortValues list)

pub acceptable : (points : Points) → AllMade points → IsAcceptable points
acceptable points made =
    let (list, e, known) = collected points made in (list, e, known, batch_accepted_iff list known)
