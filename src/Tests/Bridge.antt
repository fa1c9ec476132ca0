-- ===== src/Tests/Bridge.antt =====
-- The bridge at concrete points and payloads.
use spark_signals.Prelude.{ℕ, ◌≡◌, refl, String, Option, none, some, List, [], ◌∷◌, arith}
use spark_signals.BTreeMap.{get}
use spark_signals.Schema.{MetricPoint, Envelope, Quality, Signal, Attributes}
use spark_signals.Bridge.UnavailableLog.{emit}
use spark_signals.Bridge.UnavailableLog.Conversion.{AllSafe, emit-AllSafe}
use spark_signals.Bridge.Instruments.{new, record_point, record_points}
use spark_signals.Bridge.Instruments.History.{
  logs_of, after, recorded_all, expected_all, record_points-expected, record_point-repeated,
}
use spark_signals.Bridge.Instruments.Lasting.{IsWellNamed, Recorded, record_point-Recorded}
use spark_signals.Bridge.Receive.{receive_all}
use spark_signals.Bridge.Receive.Told.{TellsAll, receive_all-TellsAll}
use spark_signals.Tests.Data.{envelope_of, quiet, failed, xid_count}

abbrev missing : MetricPoint
missing = record (xid_count none Quality.unsupported) { error_code = some "NVML_NOT_SUPPORTED" }

abbrev batch : Envelope
batch = envelope_of (Signal.metric_batch (missing ∷ failed ∷ quiet ∷ missing ∷ []))

abbrev elsewhere : Envelope
elsewhere = record batch { node = record { site = "lab"; id = "spark-2"; host_name = "other" } }

emit-AllSafe_example : AllSafe (emit (record { unsupported_capabilities = [] }) batch failed).1
emit-AllSafe_example = emit-AllSafe (record { unsupported_capabilities = [] }) batch failed

record_points-expected_example :
    logs_of
      (record_points
        (after new ((batch, missing ∷ quiet ∷ []) ∷ []))
        batch
        (missing ∷ failed ∷ missing ∷ [])).1
    ≡ expected_all
        (recorded_all [] ((batch, missing ∷ quiet ∷ []) ∷ []))
        batch
        (missing ∷ failed ∷ missing ∷ [])
record_points-expected_example =
    record_points-expected ((batch, missing ∷ quiet ∷ []) ∷ []) batch
      (missing ∷ failed ∷ missing ∷ [])

record_point-repeated_example :
    (record_point (record_point new batch missing).0 elsewhere missing).1 ≡ []
record_point-repeated_example = record_point-repeated new batch elsewhere missing refl refl

new-IsWellNamed : IsWellNamed new
unfolding get
new-IsWellNamed = record {
  gauges = λ name i h. ground arith;
  counters = λ name i h. ground arith;
  histograms = λ name i h. ground arith;
}

record_point-Recorded_example : Recorded new batch quiet (record_point new batch quiet)
record_point-Recorded_example = record_point-Recorded new batch quiet new-IsWellNamed

-- a decoder that reads a batch from one byte
abbrev read : List ℕ → Option Envelope
read [] = none
read (b ∷ bytes) = some batch

abbrev to_string : Attributes → Option String
to_string attributes = some "{}"

abbrev payloads : List (List ℕ)
payloads = (1 ∷ []) ∷ [] ∷ (2 ∷ []) ∷ []

receive_all-TellsAll_example :
    TellsAll read to_string (receive_all read to_string new payloads).1 payloads
receive_all-TellsAll_example = receive_all-TellsAll read to_string payloads
