-- ===== src/Schema/Decode.antt =====
-- `decode_v1` and the limits of a signal. The JSON decoder (`serde_json::from_slice`) is a
-- parameter: a function from the bytes of a payload.
use Prim.Native.String.{len}
use spark_signals.Prelude.{
  ℕ, ◌*◌, String, Bool, Option, List, ◌&&◌, not, leb, all, any, length, Result, ok, ok_or, ensure,
  ◌>>=◌, ◌>>◌,
}
use spark_signals.Order.{◌==◌, text_ord}
use spark_signals.Schema.Types.{
  Envelope, Signal, Attributes, metric_batch, inventory, agent_status, health_event,
}
use spark_signals.Schema.Catalogue.{metric_name_allowed, attribute_name_allowed}

abbrev pub schema_v1 : String
schema_v1 = "spark.signal/v1"

abbrev pub max_signal_bytes : ℕ
max_signal_bytes = 64 * 1024

abbrev pub max_attributes_per_signal_item : ℕ
max_attributes_per_signal_item = 24

abbrev pub max_attribute_value_bytes : ℕ
max_attribute_value_bytes = 256

pub data DecodeError : Type 0 where
  oversized malformed unsupported_schema unknown_metric unknown_attribute : DecodeError

unfoldable pub attributes_valid : Attributes → Bool
attributes_valid attributes =
    leb (length attributes) max_attributes_per_signal_item
    && all (λ e. attribute_name_allowed e.0 && leb (len e.1) max_attribute_value_bytes) attributes

-- the `match &envelope.signal` of `decode_v1`
unfoldable pub check_signal : Signal → Result (Unit {0}) DecodeError
check_signal (metric_batch points) = do
  ensure (not (any (λ point. not (metric_name_allowed point.name)) points))
      DecodeError.unknown_metric
  ensure (not (any (λ point. not (attributes_valid point.attributes)) points))
      DecodeError.unknown_attribute
check_signal (health_event severity code message attributes) =
    ensure (attributes_valid attributes) DecodeError.unknown_attribute
check_signal (inventory attributes) = ok tt
check_signal (agent_status online version) = ok tt

-- `decode_v1` from the schema test on
unfoldable pub check_envelope : Envelope → Result Envelope DecodeError
check_envelope envelope = do
  ensure (envelope.schema == schema_v1) DecodeError.unsupported_schema
  check_signal envelope.signal
  ok envelope

module _ (from_slice : List ℕ → Option Envelope) where
  unfoldable pub decode_v1 : List ℕ → Result Envelope DecodeError
  decode_v1 payload = do
    ensure (leb (length payload) max_signal_bytes) DecodeError.oversized
    envelope ← ok_or (from_slice payload) DecodeError.malformed
    check_envelope envelope
