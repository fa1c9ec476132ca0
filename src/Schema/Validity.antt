-- ===== src/Schema/Validity.antt =====
-- What `decode_v1` accepts, stated without it, and which error each rejected payload has.
use Prim.Native.String.{len}
use spark_signals.Prelude.{
  ℕ, ◌≤◌, ◌<◌, ◌≡◌, ◌↔◌, ◌⊎◌, ◌≢◌, refl, true, false, Option, none, some, List, [], ◌∷◌, length,
  All, all, any, not, ok, err, arith, leb, leb→le, ◌&&◌, Bool-cases, inl, inr, Option-cases,
}
use spark_signals.Order.{text_ord, eq_iff}
use spark_signals.Schema.Types.{
  MetricPoint, Envelope, Signal, Attributes, metric_batch, inventory, agent_status, health_event,
}
use spark_signals.Schema.Catalogue.{metric_name_allowed, attribute_name_allowed}
use spark_signals.Schema.Decode.{
  schema_v1, max_signal_bytes, max_attributes_per_signal_item, max_attribute_value_bytes,
  DecodeError, attributes_valid, check_signal, check_envelope, decode_v1,
}

-- At most 24 attributes, each with a catalogue name and a value of at most 256 bytes.
abbrev pub IsBounded : Attributes → Type 0
IsBounded attributes =
    (length attributes ≤ max_attributes_per_signal_item)
    × All (λ e. (attribute_name_allowed e.0 ≡ true) × (len e.1 ≤ max_attribute_value_bytes))
        attributes

abbrev pub IsValidSignal : Signal → Type 0
IsValidSignal (metric_batch points) =
    All (λ point. metric_name_allowed point.name ≡ true) points
    × All (λ point. IsBounded point.attributes) points
IsValidSignal (health_event severity code message attributes) = IsBounded attributes
IsValidSignal (inventory attributes) = Unit
IsValidSignal (agent_status online version) = Unit

all_entries :
    (m : Attributes)
    → (all (λ e. attribute_name_allowed e.0 && leb (len e.1) max_attribute_value_bytes) m ≡ true)
      ↔ All (λ e. (attribute_name_allowed e.0 ≡ true) × (len e.1 ≤ max_attribute_value_bytes)) m
all_entries [] = (λ h. tt, λ h. refl)
all_entries (e ∷ m) = ground (arith, all_entries m)

attributes_valid_iff : (m : Attributes) → (attributes_valid m ≡ true) ↔ IsBounded m
unfolding attributes_valid
attributes_valid_iff m = ground (arith, all_entries m)

names_ok :
    (points : List MetricPoint)
    → (any (λ point. not (metric_name_allowed point.name)) points ≡ false)
      ↔ All (λ point. metric_name_allowed point.name ≡ true) points
names_ok [] = (λ h. tt, λ h. refl)
names_ok (p ∷ points) = ground (arith, names_ok points)

bounds_ok :
    (points : List MetricPoint)
    → (any (λ point. not (attributes_valid point.attributes)) points ≡ false)
      ↔ All (λ point. IsBounded point.attributes) points
bounds_ok [] = (λ h. tt, λ h. refl)
bounds_ok (p ∷ points) = ground (arith, bounds_ok points, attributes_valid_iff p.attributes)

pub check_signal_iff : (s : Signal) → (check_signal s ≡ ok tt) ↔ IsValidSignal s
unfolding check_signal
check_signal_iff (metric_batch points) = ground (arith, names_ok points, bounds_ok points)
check_signal_iff (health_event severity code message attributes) =
    ground (arith, attributes_valid_iff attributes)
check_signal_iff (inventory attributes) = (λ h. tt, λ h. refl)
check_signal_iff (agent_status online version) = (λ h. tt, λ h. refl)

-- Attributes of the signal are not bounded, and this is all that is wrong with it.
abbrev pub HasBadAttributes : Signal → Type 0
HasBadAttributes (metric_batch points) =
    All (λ point. metric_name_allowed point.name ≡ true) points
    × ¬ All (λ point. IsBounded point.attributes) points
HasBadAttributes (health_event severity code message attributes) = ¬ IsBounded attributes
HasBadAttributes (inventory attributes) = ⊥
HasBadAttributes (agent_status online version) = ⊥

unknown_attribute_signal :
    (s : Signal) → check_signal s ≡ err DecodeError.unknown_attribute → HasBadAttributes s
unfolding check_signal
unknown_attribute_signal (metric_batch points) h =
    (ground (arith, names_ok points), λ a. ground (arith, (bounds_ok points).1 a))
unknown_attribute_signal (health_event severity code message attributes) h =
    λ b. ground (arith, (attributes_valid_iff attributes).1 b)
unknown_attribute_signal (inventory attributes) h = ground arith
unknown_attribute_signal (agent_status online version) h = ground arith

unknown_metric_signal :
    (s : Signal)
    → check_signal s ≡ err DecodeError.unknown_metric
    → (points : List MetricPoint) × (s ≡ metric_batch points)
      × ¬ All (λ point. metric_name_allowed point.name ≡ true) points
unfolding check_signal
unknown_metric_signal (metric_batch points) h =
    (points, refl, λ a. ground (arith, (names_ok points).1 a))
unknown_metric_signal (health_event severity code message attributes) h = ground arith
unknown_metric_signal (inventory attributes) h = cc
unknown_metric_signal (agent_status online version) h = cc

signal_errors :
    (s : Signal) (d : DecodeError)
    → check_signal s ≡ err d
    → (d ≡ DecodeError.unknown_metric) ⊎ (d ≡ DecodeError.unknown_attribute)
unfolding check_signal
signal_errors (metric_batch points) d h = ground arith
signal_errors (health_event severity code message attributes) d h = ground arith
signal_errors (inventory attributes) d h = cc
signal_errors (agent_status online version) d h = cc

check_envelope_ok :
    (e e' : Envelope)
    → check_envelope e ≡ ok e'
    → (e ≡ e') × (e.schema ≡ schema_v1) × IsValidSignal e.signal
unfolding check_envelope
check_envelope_ok e e' h = ground (arith, eq_iff e.schema schema_v1, check_signal_iff e.signal)

check_envelope_valid :
    (e : Envelope) → e.schema ≡ schema_v1 → IsValidSignal e.signal → check_envelope e ≡ ok e
unfolding check_envelope
check_envelope_valid e p v =
    ground (arith, eq_iff e.schema schema_v1, (check_signal_iff e.signal).1 v)

-- Why a payload is rejected, in the order in which the tests are made.
abbrev pub Reason : Option Envelope → List ℕ → DecodeError → Type 0
Reason read payload DecodeError.oversized = max_signal_bytes < length payload
Reason read payload DecodeError.malformed = (length payload ≤ max_signal_bytes) × (read ≡ none)
Reason read payload DecodeError.unsupported_schema =
    (length payload ≤ max_signal_bytes)
    × ((e : Envelope) × (read ≡ some e) × (e.schema ≢ schema_v1))
Reason read payload DecodeError.unknown_metric =
    (length payload ≤ max_signal_bytes)
    × ((e : Envelope) × (read ≡ some e)
        × (e.schema ≡ schema_v1)
        × ((points : List MetricPoint) × (e.signal ≡ metric_batch points)
            × ¬ All (λ point. metric_name_allowed point.name ≡ true) points))
Reason read payload DecodeError.unknown_attribute =
    (length payload ≤ max_signal_bytes)
    × ((e : Envelope) × (read ≡ some e) × (e.schema ≡ schema_v1) × HasBadAttributes e.signal)

check_envelope_error :
    (e : Envelope) (payload : List ℕ) (d : DecodeError)
    → length payload ≤ max_signal_bytes
    → check_envelope e ≡ err d
    → Reason (some e) payload d
unfolding check_envelope
check_envelope_error e payload DecodeError.oversized f h =
    ground (arith, signal_errors e.signal DecodeError.oversized)
check_envelope_error e payload DecodeError.malformed f h =
    ground (arith, signal_errors e.signal DecodeError.malformed)
check_envelope_error e payload DecodeError.unsupported_schema f h = (
  f,
  (
    e,
    refl,
    ground
        (arith, eq_iff e.schema schema_v1, signal_errors e.signal DecodeError.unsupported_schema),
  ),
)
check_envelope_error e payload DecodeError.unknown_metric f h =
    let same : e.schema ≡ schema_v1 = ground (arith, eq_iff e.schema schema_v1) in
    let bad : check_signal e.signal ≡ err DecodeError.unknown_metric = ground arith in
    (f, (e, refl, same, unknown_metric_signal e.signal bad))
check_envelope_error e payload DecodeError.unknown_attribute f h =
    let same : e.schema ≡ schema_v1 = ground (arith, eq_iff e.schema schema_v1) in
    let bad : check_signal e.signal ≡ err DecodeError.unknown_attribute = ground arith in
    (f, (e, refl, same, unknown_attribute_signal e.signal bad))

module _ (from_slice : List ℕ → Option Envelope) where
  -- A payload is decoded to an envelope exactly if it has at most 64 KiB, the decoder reads that
  -- envelope from it, the schema is v1, and the signal is valid: of a metric batch every name is in
  -- the catalogue of metrics; the attributes of every point of a batch, and those of a health event,
  -- are at most 24, each with a name of the catalogue of attributes and a value of at most 256
  -- bytes. Of an inventory or an agent status nothing is asked.
  pub decode_v1_iff :
      (payload : List ℕ) (e : Envelope)
      → (decode_v1 from_slice payload ≡ ok e) ↔ (
          (length payload ≤ max_signal_bytes)
          × (from_slice payload ≡ some e)
          × (e.schema ≡ schema_v1)
          × IsValidSignal e.signal)
  unfolding decode_v1
  decode_v1_iff payload e = (
    λ h. elim (Option-cases (from_slice payload)) [
      | inl p ↦ ground arith
      | inr (found, p) ↦ ground (arith, check_envelope_ok found e)
    ],
    λ (fits, p, q, v). ground (arith, check_envelope_valid e q v),
  )

  -- A payload is rejected as oversized only if it has more than 64 KiB. With any other error it has
  -- at most that, and: if it is malformed, the decoder reads no envelope; otherwise it reads one,
  -- whose schema is not v1 if the error is the schema, and is v1 if it is one of the last two. With
  -- an unknown metric the signal is a batch with a name that the catalogue lacks; with an unknown
  -- attribute it is a batch with known names or a health event, with attributes that are too many,
  -- too long or not in the catalogue.
  pub decode_v1-Reason :
      (payload : List ℕ) (d : DecodeError)
      → decode_v1 from_slice payload ≡ err d
      → Reason (from_slice payload) payload d
  unfolding decode_v1
  decode_v1-Reason payload d h = elim (Bool-cases (leb (length payload) max_signal_bytes)) [
    | inl fits ↦ elim (Option-cases (from_slice payload)) [
      | inl p ↦
          let same : d ≡ DecodeError.malformed = ground arith in
          rw (same, p) (leb→le _ _ fits, refl)
      | inr (e, p) ↦ rw p (check_envelope_error e payload d (leb→le _ _ fits) (ground arith))
    ]
    | inr big ↦ let same : d ≡ DecodeError.oversized = ground arith in rw same (ground arith)
  ]
