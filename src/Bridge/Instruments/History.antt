-- ===== src/Bridge/Instruments/History.antt =====
-- Which points are logged as unavailable, against the history of the points that were recorded: an
-- unsupported capability is logged once until it has a value again.
use spark_signals.Prelude.{
  ◌≡◌, refl, sym, ap, subst, ◌∙◌, Bool, false, not, ◌||◌, ◌&&◌, Option, none, some, List, [], ◌∷◌,
  ◌++◌, map, is_some, arith, if◌then◌else◌, Bool-cases, inl, inr,
}
use spark_signals.Order.{◌==◌, eq_refl, text_ord, pair_ord, list_ord, nat_ord}
use spark_signals.BTreeMap.{contains, get, get-remove, contains-insert}
use spark_signals.Float.{F64}
use spark_signals.Schema.{MetricPoint, Envelope, quality_ord, unsupported, InstrumentKind}
use spark_signals.Bridge.UnavailableLog.{
  UnavailableCapabilityKey, capability_key_ord, capability_key, LogRecord, UnavailableLogEmitter,
  emit_log, convert, emit, observe_available,
}
use spark_signals.Bridge.Instruments.Recorder.{
  Instruments, new, Export, measurement, log, measure, record_value, record_point, record_points,
}

-- Whether a capability was unsupported since it last had a value; the history is latest first.
abbrev pub pending : List MetricPoint → UnavailableCapabilityKey → Bool
pending [] k = false
pending (p ∷ history) k =
    let before = pending history k in
    if capability_key p == k
    then not (is_some p.value) && (p.quality == unsupported || before)
    else before

-- The log records for a point after a history.
abbrev pub expected : List MetricPoint → Envelope → MetricPoint → List LogRecord
expected history envelope point =
    if is_some point.value
      || (point.quality == unsupported && pending history (capability_key point))
    then []
    else emit_log (convert envelope point)

abbrev pub expected_all : List MetricPoint → Envelope → List MetricPoint → List LogRecord
expected_all history envelope [] = []
expected_all history envelope (point ∷ points) =
    expected history envelope point ++ expected_all (point ∷ history) envelope points

-- The log records among the exports.
abbrev pub logs_of : List Export → List LogRecord
logs_of [] = []
logs_of (measurement kind instrument value attributes ∷ exports) = logs_of exports
logs_of (log entry ∷ exports) = entry ∷ logs_of exports

logs_of-append : (xs ys : List Export) → logs_of (xs ++ ys) ≡ logs_of xs ++ logs_of ys
logs_of-append [] ys = refl
logs_of-append (measurement kind instrument value attributes ∷ xs) ys = logs_of-append xs ys
logs_of-append (log entry ∷ xs) ys = ap (λ l. entry ∷ l) (logs_of-append xs ys)

logs_of-map : (logs : List LogRecord) → logs_of (map log logs) ≡ logs
logs_of-map [] = refl
logs_of-map (entry ∷ logs) = ap (λ l. entry ∷ l) (logs_of-map logs)

-- Measuring logs nothing, and leaves the set of unsupported capabilities alone.
measure-logs :
    (kind : InstrumentKind) (state : Instruments) (envelope : Envelope) (point : MetricPoint)
    (value : F64)
    → (logs_of (measure kind state envelope point value).1 ≡ [])
      × ((measure kind state envelope point value).0.unavailable_logs ≡ state.unavailable_logs)
unfolding measure
measure-logs InstrumentKind.gauge state envelope point value = (refl, refl)
measure-logs InstrumentKind.counter_delta state envelope point value = ground arith
measure-logs InstrumentKind.histogram_observation state envelope point value = (refl, refl)

-- The emitter holds the capabilities that are pending.
abbrev Tracks : List MetricPoint → UnavailableLogEmitter → Type 0
Tracks history emitter =
    (k : UnavailableCapabilityKey) → contains k emitter.unsupported_capabilities ≡ pending history k

emit-Tracks :
    (history : List MetricPoint) (emitter : UnavailableLogEmitter) (envelope : Envelope)
    (point : MetricPoint)
    → Tracks history emitter
    → point.value ≡ none
    → ((emit emitter envelope point).1 ≡ expected history envelope point)
      × Tracks (point ∷ history) (emit emitter envelope point).0
unfolding emit
emit-Tracks history emitter envelope point t h = (
  rw (h, sym (t (capability_key point))) (ground arith),
  λ k. rw h (
      ground
        (arith, t k, contains-insert (capability_key point) k tt emitter.unsupported_capabilities)),
)

available-Tracks :
    (history : List MetricPoint) (emitter : UnavailableLogEmitter) (point : MetricPoint)
    (value : F64)
    → Tracks history emitter
    → point.value ≡ some value
    → Tracks (point ∷ history) (observe_available emitter point)
unfolding observe_available contains
available-Tracks history emitter point value t h k =
    rw (h, get-remove)
      (elim (Bool-cases (capability_key point == k)) [ inl e ↦ rw e refl | inr e ↦ rw e (t k) ])

record_value-Tracks :
    (history : List MetricPoint) (state : Instruments) (envelope : Envelope) (point : MetricPoint)
    (value : Option F64)
    → Tracks history state.unavailable_logs
    → point.value ≡ value
    → (logs_of (record_value value state envelope point).1 ≡ expected history envelope point)
      × Tracks (point ∷ history) (record_value value state envelope point).0.unavailable_logs
record_value-Tracks history state envelope point none t h =
    let (logs, next) = emit-Tracks history state.unavailable_logs envelope point t h in
    (logs_of-map (emit state.unavailable_logs envelope point).1 ∙ logs, next)
record_value-Tracks history state envelope point (some value) t h =
    let available = record state {
      unavailable_logs = observe_available state.unavailable_logs point;
    } in
    let (logs, same) = measure-logs point.instrument available envelope point value in
    let next = available-Tracks history state.unavailable_logs point value t h in
    (rw (logs, h) refl, subst (Tracks (point ∷ history)) (sym same) next)

-- The points of a history, latest first, after further points.
abbrev pub recorded : List MetricPoint → List MetricPoint → List MetricPoint
recorded history [] = history
recorded history (point ∷ points) = recorded (point ∷ history) points

record_points-Tracks :
    (history : List MetricPoint) (state : Instruments) (envelope : Envelope)
    (points : List MetricPoint)
    → Tracks history state.unavailable_logs
    → (logs_of (record_points state envelope points).1 ≡ expected_all history envelope points)
      × Tracks (recorded history points) (record_points state envelope points).0.unavailable_logs
unfolding record_points record_point
record_points-Tracks history state envelope [] t = (refl, t)
record_points-Tracks history state envelope (point ∷ points) t =
    let (logs, next) = record_value-Tracks history state envelope point point.value t refl in
    let (rest, last) =
      record_points-Tracks (point ∷ history) (record_point state envelope point).0 envelope points
        next in
    (logs_of-append (record_point state envelope point).1 _ ∙ rw (logs, rest) refl, last)

-- The state after batches, each with its envelope.
abbrev pub after : Instruments → List (Envelope × List MetricPoint) → Instruments
after state [] = state
after state ((envelope, points) ∷ batches) = after (record_points state envelope points).0 batches

abbrev pub recorded_all : List MetricPoint → List (Envelope × List MetricPoint) → List MetricPoint
recorded_all history [] = history
recorded_all history ((envelope, points) ∷ batches) = recorded_all (recorded history points) batches

after-Tracks :
    (history : List MetricPoint) (state : Instruments)
    (batches : List (Envelope × List MetricPoint))
    → Tracks history state.unavailable_logs
    → Tracks (recorded_all history batches) (after state batches).unavailable_logs
after-Tracks history state [] t = t
after-Tracks history state ((envelope, points) ∷ batches) t =
    after-Tracks (recorded history points) (record_points state envelope points).0 batches
      (record_points-Tracks history state envelope points t).1

Tracks-new : Tracks [] new.unavailable_logs
unfolding contains get
Tracks-new k = refl

-- After any batches, the log records that a further batch exports are those that the history has it
-- log: a point without a value is logged if it converts, unless it is unsupported and an
-- unsupported point of its capability, by metric, source and attributes, came after the last one
-- with a value.
pub record_points-expected :
    (batches : List (Envelope × List MetricPoint)) (envelope : Envelope) (points : List MetricPoint)
    → logs_of (record_points (after new batches) envelope points).1
      ≡ expected_all (recorded_all [] batches) envelope points
record_points-expected batches envelope points =
    (record_points-Tracks (recorded_all [] batches) (after new batches) envelope points
      (after-Tracks [] new batches Tracks-new)).0

-- An unsupported point without a value that has been recorded is not logged when it comes again,
-- even in an envelope of another node, and even if the first could not be converted.
pub record_point-repeated :
    (state : Instruments) (first second : Envelope) (point : MetricPoint)
    → point.value ≡ none
    → point.quality ≡ unsupported
    → (record_point (record_point state first point).0 second point).1 ≡ []
unfolding record_point emit
record_point-repeated state first second point h q =
    rw (h, q)
      (rw
        (contains-insert (capability_key point) (capability_key point) tt
          state.unavailable_logs.unsupported_capabilities)
        (rw (eq_refl (capability_key point)) refl))
