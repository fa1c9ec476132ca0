-- ===== src/Bridge/Receive/Measured.antt =====
-- What is exported of valid points: names of the catalogues alone.
use Prim.Native.String.{len}
use spark_signals.Prelude.{
  Bool, false, none, ◌≤◌, String, ◌≡◌, refl, ap, ◌∙◌, true, ◌||◌, Option, some, List, [], ◌∷◌, map,
  any, All, All-append, arith,
}
use spark_signals.Order.{◌==◌, text_ord}
use spark_signals.Float.{F64}
use spark_signals.Schema.{
  MetricPoint, Envelope, Attributes, metric_name_allowed, attribute_name_allowed,
  max_attribute_value_bytes,
}
use spark_signals.Schema.Validity.{IsBounded}
use spark_signals.Bridge.UnavailableLog.{LogRecord}
use spark_signals.Bridge.UnavailableLog.Conversion.{IsSafe, AllSafe, emit-AllSafe}
use spark_signals.Bridge.Instruments.{
  Instruments, Export, measurement, log, record_value, record_point, record_points,
}
use spark_signals.Bridge.Instruments.Lasting.{
  IsWellNamed, IsMeasured, accepted, attributes_of, record_value-Recorded, record_point-Recorded,
}

-- The names that a measurement has of its own.
abbrev pub measurement_names : List String
measurement_names =
    "host.name" ∷ "host.id" ∷ "spark.site" ∷ "spark.node.id" ∷ "spark.signal.boot_id"
    ∷ "measurement.quality" ∷ "measurement.source" ∷ []

abbrev IsKnown : String × String → Type 0
IsKnown e = (any (λ k. k == e.0) measurement_names || attribute_name_allowed e.0) ≡ true

abbrev pub IsCatalogued : Export → Type 0
IsCatalogued (measurement kind i value attributes) =
    (metric_name_allowed i.name ≡ true) × (accepted kind value ≡ true) × All IsKnown attributes
IsCatalogued (log entry) = All IsSafe entry.attributes

IsKnown-attributes :
    (m : Attributes)
    → All (λ e. (attribute_name_allowed e.0 ≡ true) × (len e.1 ≤ max_attribute_value_bytes)) m
    → All IsKnown m
IsKnown-attributes [] a = tt
IsKnown-attributes (e ∷ m) a = (ground arith, IsKnown-attributes m a.1)

measured_names :
    (envelope : Envelope) (point : MetricPoint)
    → IsBounded point.attributes
    → All IsKnown (attributes_of envelope point)
measured_names envelope point b =
    (refl, (refl, (refl, (refl, (refl, (refl, (refl, IsKnown-attributes point.attributes b.1)))))))

logs-IsCatalogued : (logs : List LogRecord) → AllSafe logs → All IsCatalogued (map log logs)
logs-IsCatalogued [] a = tt
logs-IsCatalogued (entry ∷ logs) a = (a.0, logs-IsCatalogued logs a.1)

of_point :
    (accepts : Bool) (state : Instruments) (envelope : Envelope) (point : MetricPoint) (value : F64)
    (recorded : Instruments × List Export)
    → metric_name_allowed point.name ≡ true
    → IsBounded point.attributes
    → accepted point.instrument value ≡ accepts
    → IsMeasured point.instrument accepts state envelope point value recorded
    → All IsCatalogued recorded.1
of_point true state envelope point value recorded n b ok_value (i, e, named, registered) =
    rw e ((ap metric_name_allowed named ∙ n, ok_value, measured_names envelope point b), tt)
of_point false state envelope point value recorded n b rejected (e, same) = rw e tt

of_value :
    (value : Option F64) (state : Instruments) (envelope : Envelope) (point : MetricPoint)
    → IsWellNamed state
    → metric_name_allowed point.name ≡ true
    → IsBounded point.attributes
    → All IsCatalogued (record_value value state envelope point).1
of_value none state envelope point w n b =
    logs-IsCatalogued _ (emit-AllSafe state.unavailable_logs envelope point)
of_value (some value) state envelope point w n b =
    of_point (accepted point.instrument value) state envelope point value _ n b refl
      (record_value-Recorded state envelope point (some value) w).exported

record_point-IsCatalogued :
    (state : Instruments) (envelope : Envelope) (point : MetricPoint)
    → IsWellNamed state
    → metric_name_allowed point.name ≡ true
    → IsBounded point.attributes
    → All IsCatalogued (record_point state envelope point).1
unfolding record_point
record_point-IsCatalogued state envelope point w n b =
    of_value point.value state envelope point w n b

pub record_points-IsCatalogued :
    (state : Instruments) (envelope : Envelope) (points : List MetricPoint)
    → IsWellNamed state
    → All (λ point. metric_name_allowed point.name ≡ true) points
    → All (λ point. IsBounded point.attributes) points
    → IsWellNamed (record_points state envelope points).0
      × All IsCatalogued (record_points state envelope points).1
unfolding record_points
record_points-IsCatalogued state envelope [] w n b = (w, tt)
record_points-IsCatalogued state envelope (point ∷ points) w n b =
    let named = (record_point-Recorded state envelope point w).named in
    let first = record_point-IsCatalogued state envelope point w n.0 b.0 in
    let (last, rest) =
      record_points-IsCatalogued (record_point state envelope point).0 envelope points named n.1
        b.1 in
    (last, All-append IsCatalogued (record_point state envelope point).1 _ first rest)
