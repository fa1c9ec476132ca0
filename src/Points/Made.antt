-- ===== src/Points/Made.antt =====
-- Lists of points in which no constructor panicked, with catalogue names.
use spark_signals.Prelude.{
  ℕ, suc, ◌+◌, ◌≤◌, String, ◌≡◌, true, false, Bool, Option, none, some, List, [], ◌∷◌, length, map,
  map_or, All, All-append, arith, if◌then◌else◌,
}
use spark_signals.Order.{text_ord}
use spark_signals.BTreeMap.{insert}
use spark_signals.Float.{F64}
use spark_signals.Schema.{
  MetricPoint, Attributes, Quality, metric_name_allowed, attribute_name_allowed,
}
use spark_signals.Schema.Point as Point
use spark_signals.Points.{Points, attributed, each, made}

-- Attributes with catalogue names.
abbrev pub HasKnownNames : Attributes → Type 0
HasKnownNames m = All (λ e. attribute_name_allowed e.0 ≡ true) m

-- A point that was made, with a catalogue name and at most so many attributes, with catalogue names.
abbrev pub IsMade : ℕ → Option MetricPoint → Type 0
IsMade n none = ⊥
IsMade n (some p) =
    (metric_name_allowed p.name ≡ true) × (length p.attributes ≤ n) × HasKnownNames p.attributes

pub gauge-IsMade :
    (name : String) (value : F64) (unit : String) (quality : Quality) (source : String)
    → metric_name_allowed name ≡ true
    → IsMade 0 (Point.gauge name value unit quality source)
unfolding Point.gauge
gauge-IsMade name value unit quality source h = rw h (h, omega arith, tt)

pub unavailable-IsMade :
    (name unit : String) (quality : Quality) (source code : String)
    → metric_name_allowed name ≡ true
    → IsMade 0 (Point.unavailable name unit quality source code)
unfolding Point.unavailable
unavailable-IsMade name unit quality source code h = rw h (h, omega arith, tt)

pub counter_delta-IsMade :
    (name : String) (value : F64) (unit source : String)
    → metric_name_allowed name ≡ true
    → IsMade 0 (Point.counter_delta name value unit source)
unfolding Point.counter_delta
counter_delta-IsMade name value unit source h = rw h (h, omega arith, tt)

HasKnownNames-insert :
    (key value : String) (m : Attributes)
    → attribute_name_allowed key ≡ true
    → HasKnownNames m
    → HasKnownNames (insert key value m)
unfolding insert
HasKnownNames-insert key value [] h a = (h, tt)
HasKnownNames-insert key value ((k, v) ∷ m) h a =
    ground (arith, HasKnownNames-insert key value m h a.1)

length-insert-le :
    (key value : String) (m : Attributes) → length (insert key value m) ≤ suc (length m)
unfolding insert
length-insert-le key value [] = omega arith
length-insert-le key value ((k, v) ∷ m) = ground (arith, length-insert-le key value m)

pub attributed-IsMade :
    (n : ℕ) (key value : String) (point : Option MetricPoint)
    → attribute_name_allowed key ≡ true
    → IsMade n point
    → IsMade (n + 1) (attributed key value point)
unfolding attributed Point.with_attribute
attributed-IsMade n key value none h m = m
attributed-IsMade n key value (some p) h (name, few, names) = (
  name,
  omega (arith, few, length-insert-le key value p.attributes),
  HasKnownNames-insert key value p.attributes h names,
)

pub IsMade-mono : (n k : ℕ) (point : Option MetricPoint) → n ≤ k → IsMade n point → IsMade k point
IsMade-mono n k none le m = m
IsMade-mono n k (some p) le (name, few, names) = (name, omega (arith, few, le), names)

pub map_or-IsMade {ℓ} :
    {A : Type ℓ} (n : ℕ) (found : Option A) (point : Option MetricPoint)
    (make : A → Option MetricPoint)
    → IsMade n point
    → ((value : A) → IsMade n (make value))
    → IsMade n (map_or found point make)
map_or-IsMade n none point make h k = h
map_or-IsMade n (some value) point make h k = k value

pub either {ℓ κ} :
    {A : Type ℓ} (P : A → Type κ) (test : Bool) (x y : A) → P x → P y → P (if test then x else y)
either P true x y h k = h
either P false x y h k = k

-- A point without attributes.
pub plain : (point : Option MetricPoint) → IsMade 0 point → IsMade 24 point
plain point m = IsMade-mono 0 24 point (omega arith) m

-- Points that were all made, with at most 24 attributes each.
abbrev pub AllMade : Points → Type 0
AllMade points = All (IsMade 24) points

pub each-AllMade {ℓ} :
    {A : Type ℓ} (points : A → Points) (entries : List A)
    → ((entry : A) → AllMade (points entry))
    → AllMade (each points entries)
each-AllMade points [] h = tt
each-AllMade points (entry ∷ entries) h =
    All-append (IsMade 24) (points entry) (each points entries) (h entry)
      (each-AllMade points entries h)

pub made-AllMade {ℓ} :
    {A : Type ℓ} (point : A → Option MetricPoint) (value : Option A)
    → ((value : A) → IsMade 24 (point value))
    → AllMade (made point value)
made-AllMade point none h = tt
made-AllMade point (some value) h = (h value, tt)

pub map-AllMade {ℓ κ} :
    {A : Type ℓ} (P : A → Type κ) (point : A → Option MetricPoint) (rows : List A)
    → All P rows
    → ((row : A) → P row → IsMade 24 (point row))
    → AllMade (map point rows)
map-AllMade P point [] a h = tt
map-AllMade P point (row ∷ rows) a h = (h row a.0, map-AllMade P point rows a.1 h)

pub map_or-AllMade {ℓ} :
    {A : Type ℓ} (found : Option A) (points : A → Points)
    → ((value : A) → AllMade (points value))
    → AllMade (map_or found [] points)
map_or-AllMade none points h = tt
map_or-AllMade (some value) points h = h value
