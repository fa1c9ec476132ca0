-- ===== src/Tests/Schema.antt =====
-- `decode_v1` at concrete payloads.
use spark_signals.Prelude.{ℕ, ◌≡◌, ◌↔◌, ◌≤◌, refl, Option, none, some, List, [], ◌∷◌, length, ok}
use spark_signals.Schema.{Envelope, Signal, decode_v1, DecodeError, schema_v1, max_signal_bytes}
use spark_signals.Schema.Validity.{IsValidSignal, Reason, decode_v1_iff, decode_v1-Reason}
use spark_signals.Tests.Data.{envelope_of, quiet, xid_79}
use spark_signals.Float.{one_f64}

-- a decoder that reads a batch from one byte and a foreign schema from two
abbrev read : List ℕ → Option Envelope
read [] = none
read (b ∷ []) = some (envelope_of (Signal.metric_batch (quiet ∷ xid_79 one_f64 ∷ [])))
read (b ∷ c ∷ bytes) =
    some (record (envelope_of (Signal.inventory [])) { schema = "spark.signal/v2" })

abbrev one_byte : List ℕ
one_byte = 1 ∷ []

abbrev two_bytes : List ℕ
two_bytes = 1 ∷ 2 ∷ []

abbrev batch : Envelope
batch = envelope_of (Signal.metric_batch (quiet ∷ xid_79 one_f64 ∷ []))

decode_v1_iff_example : (decode_v1 read one_byte ≡ ok batch) ↔ (
    (length one_byte ≤ max_signal_bytes)
    × (read one_byte ≡ some batch)
    × (batch.schema ≡ schema_v1)
    × IsValidSignal batch.signal)
decode_v1_iff_example = decode_v1_iff read one_byte batch

decode_v1-Reason_example : Reason (read two_bytes) two_bytes DecodeError.unsupported_schema
unfolding decode_v1 spark_signals.Schema.check_envelope
decode_v1-Reason_example = decode_v1-Reason read two_bytes DecodeError.unsupported_schema refl
