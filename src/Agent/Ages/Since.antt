-- ===== src/Agent/Ages/Since.antt =====
-- Since when a collector has had no reading.
use spark_signals.Prelude.{
  ℕ, ◌-◌, String, ◌≡◌, refl, ap, ◌∙◌, ◌&&◌, Option, none, some, List, [], ◌∷◌, unwrap_or, map_or,
  if◌then◌else◌, arith,
}
use spark_signals.Order.{◌==◌, text_ord}
use spark_signals.BTreeMap.{get, insert, get-insert}
use spark_signals.Float.{F64}
use spark_signals.Schema.{MetricPoint, Quality, InstrumentKind, metric_name_allowed}
use spark_signals.Schema.Point.{gauge, with_attribute}
use spark_signals.Agent.Ages.Tracker.{CollectorAges, new_ages, succeeded, observe}
use spark_signals.Points.{attributed}

-- A call of `observe`: its time, its domain and its points.
pub record Observation : Type 0 where
  pub now : ℕ
  pub domain : String
  pub points : List MetricPoint

-- The time of the last observation of a domain that had a reading, or the start. The observations
-- are given latest first.
abbrev pub since : ℕ → List Observation → String → ℕ
since started [] domain = started
since started (o ∷ history) domain =
    let before = since started history domain in
    if o.domain == domain && succeeded o.points then o.now else before

-- The point that tells the age of a domain.
abbrev pub age_point : String → F64 → MetricPoint
age_point domain age = record {
  name = "spark.agent.collector.age";
  instrument = InstrumentKind.gauge;
  value = some age;
  unit = "s";
  quality = Quality.derived;
  source = "agent";
  attributes = ("collector.domain", domain) ∷ [];
  error_code = none;
}

point_of_age :
    (domain : String) (age : F64)
    → attributed "collector.domain" domain
        (gauge "spark.agent.collector.age" age "s" Quality.derived "agent")
      ≡ some (age_point domain age)
unfolding gauge with_attribute insert metric_name_allowed attributed
point_of_age domain age = refl

elapsed :
    (found : Option ℕ) (now start : ℕ)
    → map_or found (now - start) (λ last. now - last) ≡ now - unwrap_or found start
elapsed none now start = refl
elapsed (some last) now start = refl

module _ (as_secs_f64 : ℕ → F64) where
  -- The ages after a history.
  abbrev pub after : ℕ → List Observation → CollectorAges
  after started [] = new_ages started
  after started (o ∷ history) =
      (observe as_secs_f64 o.now o.domain o.points (after started history)).0

  started-after :
      (started : ℕ) (history : List Observation) → (after started history).started ≡ started
  unfolding observe
  started-after started [] = refl
  started-after started (o ∷ history) = started-after started history

  last-after :
      (started : ℕ) (history : List Observation) (domain : String)
      → unwrap_or (get domain (after started history).last_success) started
        ≡ since started history domain
  unfolding observe get
  last-after started [] domain = refl
  last-after started (o ∷ history) domain =
      let before = last-after started history domain in
      let ages = (after started history).last_success in
      let put = get-insert o.domain domain o.now ages in ground (arith, before, put)

  -- The age that is reported of a domain is the time since its last observation that had a reading,
  -- the current one included, or since the start if there was none; the point's name is in the
  -- catalogue, so that its constructor does not panic.
  pub observe-since :
      (started : ℕ) (history : List Observation) (o : Observation)
      → (observe as_secs_f64 o.now o.domain o.points (after started history)).1
        ≡ some (age_point o.domain (as_secs_f64 (o.now - since started (o ∷ history) o.domain)))
  unfolding observe
  observe-since started history o =
      let begun = started-after started history in
      let last = last-after started (o ∷ history) o.domain in
      let ages = (observe as_secs_f64 o.now o.domain o.points (after started history)).0 in
      let age =
        elapsed (get o.domain ages.last_success) o.now (after started history).started
        ∙ ap (λ x. o.now - unwrap_or (get o.domain ages.last_success) x) begun
        ∙ ap (λ x. o.now - x) last in
      point_of_age o.domain _ ∙ ap (λ x. some (age_point o.domain (as_secs_f64 x))) age
