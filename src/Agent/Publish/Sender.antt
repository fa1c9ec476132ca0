-- ===== src/Agent/Publish/Sender.antt =====
-- `EnvelopeFactory`, `publication`, `publish_state` and `send_event`. JSON encoding
-- (`serde_json::to_vec`) and the bounded queue of tokio are parameters, and the clock is one too:
-- what its n-th reading shows. Durations are in nanoseconds.
use spark_signals.Prelude.{
  ℕ, ◌+◌, ◌-◌, ◌*◌, ◌/◌, ◌%◌, ◌^◌, min, String, ◌≡◌, Bool, true, false, Option, none, some, List,
  [], ◌∷◌, ◌++◌, Result, ok, ok_or, ◌>>=◌,
}
use spark_signals.Order.{text_ord}
use spark_signals.Text.{concat}
use spark_signals.BTreeMap.{BTreeMap, insert}
use spark_signals.Schema.{Node, Envelope, Signal, schema_v1}

pub record Publication : Type 0 where
  pub sequence : ℕ
  pub subject : String
  pub payload : List ℕ

-- the wall clock as text, and the time since the start of the process
pub record Reading : Type 0 where
  pub observed_at : String
  pub monotonic_ns : ℕ

-- `process_start` is the clock's; `readings` counts how often it was read
pub record EnvelopeFactory : Type 0 where
  pub node : Node
  pub boot_id : String
  pub readings : ℕ
  pub sequence : ℕ

-- `u64::try_from(n).unwrap_or(u64::MAX)`
abbrev pub as_u64 : ℕ → ℕ
as_u64 n = min n (2 ^ 64 - 1)

abbrev pub as_millis : ℕ → ℕ
as_millis duration = duration / 10 ^ 6

abbrev pub from_secs : ℕ → ℕ
from_secs seconds = seconds * 10 ^ 9

-- `EnvelopeFactory::build`
unfoldable pub build : (ℕ → Reading) → EnvelopeFactory → Signal → ℕ → ℕ → EnvelopeFactory × Envelope
build clock factory signal duration valid_for =
    let sequence = as_u64 (factory.sequence + 1) in
    let now = clock factory.readings in
    (
      record factory { readings = factory.readings + 1; sequence = sequence },
      record {
        schema = schema_v1;
        node = factory.node;
        boot_id = factory.boot_id;
        sequence = sequence;
        observed_at = now.observed_at;
        monotonic_ns = as_u64 now.monotonic_ns;
        collection_duration_ms = as_u64 (as_millis duration);
        valid_for_ms = as_u64 (as_millis valid_for);
        signal = signal;
      },
    )

-- "serializing observation"
pub data PublishError : Type 0 where
  serializing : PublishError

abbrev pub subject_of : String → String → String → String
subject_of site node suffix = concat ("spark.v1." ∷ site ∷ "." ∷ node ∷ "." ∷ suffix ∷ [])

-- A bounded queue: `try_send` fails and leaves the queue as it is, or adds at the end.
pub record Queue : Type 1 where
  pub Events : Type 0
  pub held : Events → List Publication
  pub try_send : Events → Publication → Option Events
  pub held_of_sent :
      (events next : Events) (p : Publication)
      → try_send events p ≡ some next
      → held next ≡ held events ++ p ∷ []

module _ (to_vec : Envelope → Option (List ℕ)) where
  -- `publication`; the line that it prints, if any, is the payload
  unfoldable pub publication : String → String → String → Envelope → Result Publication PublishError
  publication site node suffix envelope = do
    payload ← ok_or (to_vec envelope) serializing
    ok (record {
      sequence = envelope.sequence;
      subject = subject_of site node suffix;
      payload = payload;
    })

  -- `publish_state`: the map of the watch channel after it
  unfoldable pub publish_state :
      BTreeMap String Publication
      → String
      → String
      → String
      → Envelope
      → Result (BTreeMap String Publication) PublishError
  publish_state state site node suffix envelope = do
    p ← publication site node suffix envelope
    ok (insert p.subject p state)

  module _ (queue : Queue) where
    -- the sender, the counter of dropped events and the lines printed
    pub record Outbox : Type 0 where
      pub events : queue.Events
      pub dropped : ℕ
      pub printed : List (List ℕ)

    abbrev pub print : Bool → List ℕ → List (List ℕ) → List (List ℕ)
    print true payload lines = lines ++ payload ∷ []
    print false payload lines = lines

    -- `if publish && sender.try_send(p).is_err() { dropped += 1 }`
    abbrev pub offer : Bool → Outbox → Publication → Option queue.Events → Outbox
    offer false outbox p sent = outbox
    offer true outbox p (some next) = record outbox { events = next }
    offer true outbox p none = record outbox { dropped = (outbox.dropped + 1) % 2 ^ 64 }

    -- `send_event`
    unfoldable pub send_event :
        Outbox → String → String → Envelope → Bool → Bool → Result Outbox PublishError
    send_event outbox site node envelope stdout publish = do
      p ← publication site node "event.health" envelope
      ok (
          offer publish (record outbox { printed = print stdout p.payload outbox.printed }) p
            (queue.try_send outbox.events p))
