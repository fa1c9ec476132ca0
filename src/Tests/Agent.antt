-- ===== src/Tests/Agent.antt =====
-- The agent's events and publications at concrete states.
use mathlib.Core.List.{Memᴰ}
use spark_signals.Prelude.{
  ◌⊎◌, ℕ, ◌+◌, ◌≡◌, refl, String, true, false, Option, none, some, List, [], ◌∷◌, ◌++◌, length, ltb,
  Result, ok, err, arith, if◌then◌else◌,
}
use spark_signals.Float.{F64, zero_f64, one_f64}
use spark_signals.BTreeMap.{BTreeMap, get, insert}
use spark_signals.Schema.{MetricPoint, Envelope, Quality, InstrumentKind, Signal, decode_v1}
use spark_signals.Agent.Publish.{
  Publication, Reading, EnvelopeFactory, build, publication, PublishError, Queue, Outbox,
  send_event,
}
use spark_signals.Agent.Publish.Sending.{send_events, length-send_events, decode_v1-publication}
use spark_signals.Agent.Events.{Detector, raise, detect_system_events, judge, transition}
use spark_signals.Agent.Events.History.{
  detect, raise_all, expected_all, seen, detect_system_events-expected,
}
use spark_signals.Agent.Nats.{Client, publish_latest}
use spark_signals.Agent.Nats.Newest.{
  IsOrderly, Reached, HasAtLeast, publish_latest-IsOrderly, publish_latest-Reached,
}
use spark_signals.Tests.Data.{node, envelope_of}

-- an encoder that writes the sequence, and a decoder for one envelope
abbrev pub to_vec : Envelope → Option (List ℕ)
to_vec envelope = some (envelope.sequence ∷ [])

abbrev pub clock : ℕ → Reading
clock n = record { observed_at = "2026-01-01T00:00:00Z"; monotonic_ns = n }

abbrev pub factory : EnvelopeFactory
factory = record { node = node; boot_id = "boot-1"; readings = 0; sequence = 0 }

-- a queue of two publications
abbrev send_two : List Publication → Publication → Option (List Publication)
send_two events p = if ltb (length events) 2 then some (events ++ p ∷ []) else none

pub send_two-adds :
    (events next : List Publication) (p : Publication)
    → send_two events p ≡ some next
    → next ≡ events ++ p ∷ []
send_two-adds events next p h = ground arith

abbrev pub queue : Queue
queue = record {
  Events = List Publication;
  held = λ events. events;
  try_send = send_two;
  held_of_sent = send_two-adds;
}

abbrev outbox : Outbox to_vec queue
outbox = record { events = []; dropped = 0; printed = [] }

abbrev link : F64 → MetricPoint
link value = record {
  name = "system.network.link.up";
  instrument = InstrumentKind.gauge;
  value = some value;
  unit = "1";
  quality = Quality.measured;
  source = "sysfs";
  attributes = ("network.interface.name", "eth0") ∷ [];
  error_code = none;
}

abbrev parse : String → Option F64
parse text = none

abbrev State : Type 0
State = Detector parse to_vec queue clock "lab" "spark-1" false true

abbrev start : State
start = record { states = []; outbox = outbox; factory = factory }

abbrev value_or : State → Result State PublishError → State
value_or default (ok state) = state
value_or default (err reason) = default

abbrev run : State → List MetricPoint → State
run state points =
    value_or state
      (detect_system_events parse to_vec queue clock "lab" "spark-1" false true state points)

abbrev down : List MetricPoint
down = link zero_f64 ∷ []

abbrev again : List MetricPoint
again = link zero_f64 ∷ link one_f64 ∷ []

first_run :
    detect parse to_vec queue clock "lab" "spark-1" false true start down ≡ ok (run start down)
unfolding detect_system_events raise judge transition get spark_signals.Float.lt send_event
    publication
first_run = refl

second_run :
    detect parse to_vec queue clock "lab" "spark-1" false true (run start down) again
    ≡ ok (run (run start down) again)
unfolding detect_system_events raise judge transition get spark_signals.Float.lt send_event
    publication insert
second_run = refl

detect_system_events-expected_example :
    raise_all parse to_vec queue clock "lab" "spark-1" false true
      (run start down)
      (expected_all parse (seen parse [] down) again)
    ≡ ok (record (run (run start down) again) { states = (run start down).states })
detect_system_events-expected_example =
    detect_system_events-expected parse to_vec queue clock "lab" "spark-1" false true down again
      start (run start down) (run (run start down) again) refl first_run second_run

abbrev envelopes : List Envelope
envelopes =
    envelope_of (Signal.inventory [])
    ∷ envelope_of (Signal.inventory [])
    ∷ envelope_of (Signal.inventory [])
    ∷ []

abbrev or_outbox : Result (Outbox to_vec queue) PublishError → Outbox to_vec queue
or_outbox (ok outbox) = outbox
or_outbox (err reason) = outbox

abbrev after_events : Outbox to_vec queue
after_events = or_outbox (send_events to_vec queue outbox "lab" "spark-1" envelopes false true)

all_sent : send_events to_vec queue outbox "lab" "spark-1" envelopes false true ≡ ok after_events
unfolding send_event publication
all_sent = refl

length-send_events_example :
    length (queue.held after_events.events) + after_events.dropped
    ≡ length (queue.held outbox.events) + outbox.dropped + length envelopes
length-send_events_example =
    length-send_events to_vec queue outbox after_events "lab" "spark-1" envelopes false all_sent
      (omega arith)

abbrev built : Envelope
unfolding build
built = (build clock factory (Signal.inventory []) 0 0).1

abbrev read : List ℕ → Option Envelope
read bytes = some built

abbrev published : Publication
published = record { sequence = 1; subject = "spark.v1.lab.spark-1.inventory"; payload = 1 ∷ [] }

was_published : publication to_vec "lab" "spark-1" "inventory" built ≡ ok published
unfolding publication build built
was_published = refl

decode_v1-publication_example :
    (e : Envelope) × (decode_v1 read published.payload ≡ ok e)
    × (e.signal ≡ Signal.inventory [])
    × (e.node ≡ node)
    × (e.boot_id ≡ "boot-1")
    × (e.sequence ≡ 1)
    × (published.sequence ≡ e.sequence)
    × (published.subject ≡ "spark.v1.lab.spark-1.inventory")
unfolding built
decode_v1-publication_example =
    decode_v1-publication to_vec read clock factory (Signal.inventory []) 0 0 "lab" "spark-1"
      "inventory" published was_published (λ bytes h. refl) (omega arith) tt

abbrev older : Publication
older = record { sequence = 4; subject = "spark.v1.lab.spark-1.status.agent"; payload = [] }

abbrev latest : BTreeMap String Publication
latest = (older.subject, older) ∷ (published.subject, published) ∷ []

abbrev client : Client
client = record { publish = λ p. true; flush = true }

publish_latest-IsOrderly_example : IsOrderly [] (publish_latest client latest [])
publish_latest-IsOrderly_example = publish_latest-IsOrderly client latest []

round_succeeded : (publish_latest client latest []).is_ok ≡ true
unfolding publish_latest spark_signals.Agent.Nats.publish_sorted
    spark_signals.Agent.Nats.sort_by_sequence spark_signals.Agent.Nats.is_sent get insert
round_succeeded = refl

publish_latest-Reached_example :
    Reached [] published.subject published.sequence
    ⊎ HasAtLeast (publish_latest client latest []).published published.subject published.sequence
publish_latest-Reached_example =
    publish_latest-Reached client latest [] published.subject published round_succeeded
      (Memᴰ.tail (Memᴰ.head refl))
