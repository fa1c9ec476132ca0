-- ===== src/Bridge/Receive/Told.antt =====
-- That each payload has its effect in the receive loop.
use mathlib.Core.List.{Memᴰ}
use spark_signals.Prelude.{
  ℕ, String, ◌≡◌, refl, ap, Bool, true, false, Option, none, some, List, [], ◌∷◌, ◌++◌, map, All,
  Result, ok, err, arith, mem-append_left, mem-append_right, unwrap_or,
}
use spark_signals.BTreeMap.{get}
use spark_signals.Float.{F64}
use spark_signals.Schema.{
  MetricPoint, Envelope, Attributes, Signal, metric_batch, inventory, agent_status, health_event,
  DecodeError, decode_v1,
}
use spark_signals.Bridge.Instruments.{
  Instrument, Instruments, new, Export, measurement, record_value, record_point, record_points,
}
use spark_signals.Bridge.Instruments.Lasting.{
  IsWellNamed, accepted, attributes_of, IsMeasured, record_value-Recorded, record_point-Recorded,
}
use spark_signals.Bridge.Receive.Loop.{
  Effect, export, health, inventory_received, status_received, discarded, HealthLog, emit_health,
  dispatch, handle, receive, receive_all,
}

-- A value that is accepted is measured, on an instrument with the name of the point.
abbrev pub HasMeasurement : Bool → List Effect → Envelope → MetricPoint → F64 → Type 0
HasMeasurement true effects envelope point value =
    (i : Instrument) × (i.name ≡ point.name)
    × Memᴰ (export (measurement point.instrument i value (attributes_of envelope point))) effects
HasMeasurement false effects envelope point value = Unit

abbrev pub HasPoint : List Effect → Envelope → MetricPoint → Option F64 → Type 0
HasPoint effects envelope point none = Unit
HasPoint effects envelope point (some value) =
    HasMeasurement (accepted point.instrument value) effects envelope point value

abbrev pub HasPoints : List Effect → Envelope → List MetricPoint → Type 0
HasPoints effects envelope points =
    All (λ point. HasPoint effects envelope point point.value) points

HasMeasurement-mono :
    (b : Bool) (xs ys : List Effect) (envelope : Envelope) (point : MetricPoint) (value : F64)
    → ((e : Effect) → Memᴰ e xs → Memᴰ e ys)
    → HasMeasurement b xs envelope point value
    → HasMeasurement b ys envelope point value
HasMeasurement-mono true xs ys envelope point value f (i, n, m) = (i, n, f _ m)
HasMeasurement-mono false xs ys envelope point value f h = tt

HasPoint-mono :
    (value : Option F64) (xs ys : List Effect) (envelope : Envelope) (point : MetricPoint)
    → ((e : Effect) → Memᴰ e xs → Memᴰ e ys)
    → HasPoint xs envelope point value
    → HasPoint ys envelope point value
HasPoint-mono none xs ys envelope point f h = tt
HasPoint-mono (some value) xs ys envelope point f h =
    HasMeasurement-mono (accepted point.instrument value) xs ys envelope point value f h

HasPoints-mono :
    (points : List MetricPoint) (xs ys : List Effect) (envelope : Envelope)
    → ((e : Effect) → Memᴰ e xs → Memᴰ e ys)
    → HasPoints xs envelope points
    → HasPoints ys envelope points
HasPoints-mono [] xs ys envelope f h = tt
HasPoints-mono (point ∷ points) xs ys envelope f h = (
  HasPoint-mono point.value xs ys envelope point f h.0,
  HasPoints-mono points xs ys envelope f h.1,
)

measured_effect :
    (accepts : Bool) (state : Instruments) (envelope : Envelope) (point : MetricPoint) (value : F64)
    (recorded : Instruments × List Export)
    → IsMeasured point.instrument accepts state envelope point value recorded
    → HasMeasurement accepts (map export recorded.1) envelope point value
measured_effect true state envelope point value recorded (i, e, n, registered) =
    (i, n, rw e (Memᴰ.head refl))
measured_effect false state envelope point value recorded m = tt

recorded_effect :
    (value : Option F64) (state : Instruments) (envelope : Envelope) (point : MetricPoint)
    → IsWellNamed state
    → HasPoint (map export (record_value value state envelope point).1) envelope point value
recorded_effect none state envelope point w = tt
recorded_effect (some value) state envelope point w =
    measured_effect (accepted point.instrument value) state envelope point value _
      (record_value-Recorded state envelope point (some value) w).exported

exports_append : (xs ys : List Export) → map export (xs ++ ys) ≡ map export xs ++ map export ys
exports_append [] ys = refl
exports_append (x ∷ xs) ys = ap (λ l. export x ∷ l) (exports_append xs ys)

recorded_effects :
    (points : List MetricPoint) (state : Instruments) (envelope : Envelope)
    → IsWellNamed state
    → IsWellNamed (record_points state envelope points).0
      × HasPoints (map export (record_points state envelope points).1) envelope points
unfolding record_points record_point
recorded_effects [] state envelope w = (w, tt)
recorded_effects (point ∷ points) state envelope w =
    let named = (record_point-Recorded state envelope point w).named in
    let first = (record_point state envelope point).1 in
    let (last, rest) =
      recorded_effects points (record_point state envelope point).0 envelope named in
    let others = (record_points (record_point state envelope point).0 envelope points).1 in
    (
      last,
      (
        HasPoint-mono point.value (map export first) (map export (first ++ others)) envelope point
            (λ e m.
              rw (exports_append first others)
                (mem-append_left e (map export first) (map export others) m))
            (recorded_effect point.value state envelope point w),
        HasPoints-mono points (map export others) (map export (first ++ others)) envelope
            (λ e m.
              rw (exports_append first others)
                (mem-append_right e (map export first) (map export others) m))
            rest,
      ),
    )

module _ (from_slice : List ℕ → Option Envelope) (to_string : Attributes → Option String) where
  -- What the effects tell of a signal.
  abbrev pub TellsSignal : List Effect → Envelope → Signal → Type 0
  TellsSignal effects envelope (metric_batch points) = HasPoints effects envelope points
  TellsSignal effects envelope (health_event severity code message attributes) =
      (entry : HealthLog) × Memᴰ (health entry) effects
      × (entry.code ≡ code)
      × (entry.message ≡ message)
      × (entry.attributes ≡ unwrap_or (to_string attributes) "")
      × (entry.node_id ≡ envelope.node.id)
      × (entry.boot_id ≡ envelope.boot_id)
      × (entry.sequence ≡ envelope.sequence)
  TellsSignal effects envelope (inventory attributes) =
      Memᴰ
        (inventory_received envelope.node.host_name envelope.node.id
          (unwrap_or (to_string attributes) ""))
        effects
  TellsSignal effects envelope (agent_status online version) =
      Memᴰ (status_received envelope.node.host_name envelope.node.id online version) effects

  -- What the effects tell of a payload.
  abbrev pub Tells : List Effect → Result Envelope DecodeError → Type 0
  Tells effects (ok envelope) = TellsSignal effects envelope envelope.signal
  Tells effects (err reason) = Memᴰ (discarded reason) effects

  abbrev pub TellsAll : List Effect → List (List ℕ) → Type 0
  TellsAll effects payloads = All (λ payload. Tells effects (decode_v1 from_slice payload)) payloads

  TellsSignal-mono :
      (signal : Signal) (xs ys : List Effect) (envelope : Envelope)
      → ((e : Effect) → Memᴰ e xs → Memᴰ e ys)
      → TellsSignal xs envelope signal
      → TellsSignal ys envelope signal
  TellsSignal-mono (metric_batch points) xs ys envelope f h =
      HasPoints-mono points xs ys envelope f h
  TellsSignal-mono (health_event severity code message attributes) xs ys envelope f
        (entry, m, c, t, a, n, b, q) =
      (entry, f _ m, c, t, a, n, b, q)
  TellsSignal-mono (inventory attributes) xs ys envelope f h = f _ h
  TellsSignal-mono (agent_status online version) xs ys envelope f h = f _ h

  Tells-mono :
      (decoded : Result Envelope DecodeError) (xs ys : List Effect)
      → ((e : Effect) → Memᴰ e xs → Memᴰ e ys)
      → Tells xs decoded
      → Tells ys decoded
  Tells-mono (ok envelope) xs ys f h = TellsSignal-mono envelope.signal xs ys envelope f h
  Tells-mono (err reason) xs ys f h = f _ h

  TellsAll-mono :
      (payloads : List (List ℕ)) (xs ys : List Effect)
      → ((e : Effect) → Memᴰ e xs → Memᴰ e ys)
      → TellsAll xs payloads
      → TellsAll ys payloads
  TellsAll-mono [] xs ys f h = tt
  TellsAll-mono (payload ∷ payloads) xs ys f h =
      (Tells-mono (decode_v1 from_slice payload) xs ys f h.0, TellsAll-mono payloads xs ys f h.1)

  dispatched :
      (signal : Signal) (state : Instruments) (envelope : Envelope)
      → IsWellNamed state
      → IsWellNamed (dispatch from_slice to_string signal state envelope).0
        × TellsSignal (dispatch from_slice to_string signal state envelope).1 envelope signal
  unfolding emit_health
  dispatched (metric_batch points) state envelope w = recorded_effects points state envelope w
  dispatched (health_event severity code message attributes) state envelope w = (
    w,
    (
      emit_health from_slice to_string envelope severity code message attributes,
      Memᴰ.head refl,
      refl,
      refl,
      refl,
      refl,
      refl,
      refl,
    ),
  )
  dispatched (inventory attributes) state envelope w = (w, Memᴰ.head refl)
  dispatched (agent_status online version) state envelope w = (w, Memᴰ.head refl)

  handled :
      (state : Instruments) (decoded : Result Envelope DecodeError)
      → IsWellNamed state
      → IsWellNamed (handle from_slice to_string decoded state).0
        × Tells (handle from_slice to_string decoded state).1 decoded
  handled state (err reason) w = (w, Memᴰ.head refl)
  handled state (ok envelope) w = dispatched envelope.signal state envelope w

  told :
      (state : Instruments) (payloads : List (List ℕ))
      → IsWellNamed state
      → TellsAll (receive_all from_slice to_string state payloads).1 payloads
  unfolding receive_all receive
  told state [] w = tt
  told state (payload ∷ payloads) w =
      let (named, first) = handled state (decode_v1 from_slice payload) w in
      let (next, effects) = receive from_slice to_string state payload in
      let rest = (receive_all from_slice to_string next payloads).1 in
      (
        Tells-mono (decode_v1 from_slice payload) effects (effects ++ rest)
            (λ e m. mem-append_left e effects rest m) first,
        TellsAll-mono payloads rest (effects ++ rest) (λ e m. mem-append_right e effects rest m)
            (told next payloads named),
      )

  -- Of every payload that the bridge receives, something is told: it is discarded with the error of
  -- decoding, or of a batch each point with a value is measured with that value and its attributes
  -- on an instrument with its name, unless the value is a negative or undefined one of a counter; a
  -- health event is logged with its code, message, attributes, node, boot and sequence, an inventory
  -- with its attributes and a status with what it says, both with their node.
  pub receive_all-TellsAll :
      (payloads : List (List ℕ))
      → TellsAll (receive_all from_slice to_string new payloads).1 payloads
  unfolding get
  receive_all-TellsAll payloads = told new payloads (record {
    gauges = λ name i h. ground arith;
    counters = λ name i h. ground arith;
    histograms = λ name i h. ground arith;
  })
