-- ===== src/Agent/Tick/Numbering.antt =====
-- The numbers of the publications that the main loop sends, and that it always goes on.
use spark_signals.Prelude.{
  ℕ, ◌+◌, ◌^◌, ◌-◌, ◌≤◌, String, ◌≡◌, refl, sym, subst, Bool, true, false, Option, none, some, List,
  [], ◌∷◌, ◌++◌, All, All-append, ok, arith,
}
use spark_signals.Order.{text_ord}
use spark_signals.BTreeMap.{BTreeMap, insert, All-insert}
use spark_signals.Schema.{Envelope, Signal}
use spark_signals.Agent.Publish.{
  as_u64, Publication, EnvelopeFactory, build, from_secs, Outbox, publication, offer, print,
  publish_state, send_event, subject_of,
}
use spark_signals.Agent.Tick.State.{Setting, Agent, publish_signal, send_alert}

-- The JSON encoder yields bytes for every envelope.
abbrev pub IsTotal : Setting → Type 0
IsTotal s = (envelope : Envelope) → (payload : List ℕ) × (s.to_vec envelope ≡ some payload)

abbrev pub IsBelow : ℕ → Publication → Type 0
IsBelow n p = p.sequence ≤ n

abbrev pub IsAscending : List Publication → Type 0
IsAscending [] = Unit
IsAscending (p ∷ ps) = All (λ q. p.sequence ≤ q.sequence) ps × IsAscending ps

-- The events wait in the order of their numbers, which are at most that of the factory.
abbrev pub IsQueued : ℕ → List Publication → Type 0
IsQueued n ps = All (IsBelow n) ps × IsAscending ps

-- Each publication stands at its subject, and its number is at most that of the factory.
abbrev pub IsStored : ℕ → BTreeMap String Publication → Type 0
IsStored n state = All (λ e. (e.1.subject ≡ e.0) × IsBelow n e.1) state

all-IsBelow : (n k : ℕ) (ps : List Publication) → n ≤ k → All (IsBelow n) ps → All (IsBelow k) ps
all-IsBelow n k [] le a = tt
all-IsBelow n k (p ∷ ps) le (h, a) = (omega (arith, h, le), all-IsBelow n k ps le a)

pub IsStored-mono :
    (n k : ℕ) (m : BTreeMap String Publication) → n ≤ k → IsStored n m → IsStored k m
IsStored-mono n k [] le a = tt
IsStored-mono n k (e ∷ m) le ((h, b), a) = ((h, omega (arith, b, le)), IsStored-mono n k m le a)

IsAscending-append :
    (n : ℕ) (p : Publication) (ps : List Publication)
    → n ≤ p.sequence
    → IsQueued n ps
    → IsAscending (ps ++ p ∷ [])
IsAscending-append n p [] le q = (tt, tt)
IsAscending-append n p (r ∷ ps) le ((b, a), (c, d)) = (
  All-append (λ q. r.sequence ≤ q.sequence) ps (p ∷ []) c (omega (arith, b, le), tt),
  IsAscending-append n p ps le (a, d),
)

IsQueued-append :
    (n : ℕ) (p : Publication) (ps : List Publication)
    → n ≤ p.sequence
    → IsQueued n ps
    → IsQueued p.sequence (ps ++ p ∷ [])
IsQueued-append n p ps le (a, d) = (
  All-append (IsBelow p.sequence) ps (p ∷ []) (all-IsBelow n p.sequence ps le a) (omega arith, tt),
  IsAscending-append n p ps le (a, d),
)

sequence_grows : (n : ℕ) → n ≤ 2 ^ 64 - 1 → (n ≤ as_u64 (n + 1)) × (as_u64 (n + 1) ≤ 2 ^ 64 - 1)
sequence_grows n h = (omega (arith, h), omega arith)

IsQueued-mono : (n k : ℕ) (ps : List Publication) → n ≤ k → IsQueued n ps → IsQueued k ps
IsQueued-mono n k ps le (a, d) = (all-IsBelow n k ps le a, d)

module _ (s : Setting) where
  -- The number of the factory fits in 64 bits, and the queue is in order.
  abbrev pub IsSent : Outbox s.to_vec s.queue → EnvelopeFactory → Type 0
  IsSent outbox factory =
      (factory.sequence ≤ 2 ^ 64 - 1) × IsQueued factory.sequence (s.queue.held outbox.events)

  abbrev pub IsNumbered : Agent s → Type 0
  IsNumbered agent = IsStored agent.factory.sequence agent.state × IsSent agent.outbox agent.factory

  offer-IsQueued :
      (n : ℕ) (publish : Bool) (outbox : Outbox s.to_vec s.queue) (p : Publication)
      (sent : Option s.queue.Events)
      → s.queue.try_send outbox.events p ≡ sent
      → n ≤ p.sequence
      → IsQueued n (s.queue.held outbox.events)
      → IsQueued p.sequence (s.queue.held (offer s.to_vec s.queue publish outbox p sent).events)
  offer-IsQueued n false outbox p sent h le q = IsQueued-mono n p.sequence _ le q
  offer-IsQueued n true outbox p none h le q = IsQueued-mono n p.sequence _ le q
  offer-IsQueued n true outbox p (some next) h le q =
      subst (IsQueued p.sequence) (sym (s.queue.held_of_sent outbox.events next p h))
        (IsQueued-append n p (s.queue.held outbox.events) le q)

  module _ (total : IsTotal s) where
    -- An event that is sent.
    pub send-Returns :
        (outbox : Outbox s.to_vec s.queue) (factory : EnvelopeFactory) (signal : Signal)
        → IsSent outbox factory
        → (next : Outbox s.to_vec s.queue) × (send_event s.to_vec s.queue outbox s.site s.node
              (build s.clock factory signal 0 (from_secs 60)).1
              s.stdout
              s.publish
            ≡ ok next)
          × IsSent next (build s.clock factory signal 0 (from_secs 60)).0
          × (factory.sequence ≤ (build s.clock factory signal 0 (from_secs 60)).0.sequence)
    unfolding send_event publication build
    send-Returns outbox factory signal (bound, queued) =
        let envelope = (build s.clock factory signal 0 (from_secs 60)).1 in
        let (payload, e) = total envelope in
        let p : Publication = record {
          sequence = envelope.sequence;
          subject = subject_of s.site s.node "event.health";
          payload = payload;
        } in
        let printed = record outbox {
          printed = print s.to_vec s.queue s.stdout payload outbox.printed;
        } in
        let le : factory.sequence ≤ envelope.sequence = (sequence_grows factory.sequence bound).0 in
        (
          offer s.to_vec s.queue s.publish printed p (s.queue.try_send outbox.events p),
          rw e refl,
          (
            (sequence_grows factory.sequence bound).1,
            offer-IsQueued factory.sequence s.publish printed p _ refl le queued,
          ),
          le,
        )

    pub send_alert-Returns :
        (signal : Signal) (agent : Agent s)
        → IsNumbered agent
        → (next : Agent s) × (send_alert s signal agent ≡ ok next) × IsNumbered next
    unfolding send_alert build
    send_alert-Returns signal agent (stored, sent) =
        let (outbox, e, after, le) = send-Returns agent.outbox agent.factory signal sent in
        let factory = (build s.clock agent.factory signal 0 (from_secs 60)).0 in
        (
          record agent { outbox = outbox; factory = factory },
          rw e refl,
          (IsStored-mono agent.factory.sequence factory.sequence agent.state le stored, after),
        )

    pub publish_signal-Returns :
        (suffix : String) (signal : Signal) (duration valid_for : ℕ) (agent : Agent s)
        → IsNumbered agent
        → (next : Agent s) × (publish_signal s suffix signal duration valid_for agent ≡ ok next)
          × IsNumbered next
    unfolding publish_signal publish_state publication build
    publish_signal-Returns suffix signal duration valid_for agent (stored, (bound, queued)) =
        let (factory, envelope) = build s.clock agent.factory signal duration valid_for in
        let (payload, e) = total envelope in
        let subject = subject_of s.site s.node suffix in
        let p : Publication = record {
          sequence = envelope.sequence;
          subject = subject;
          payload = payload;
        } in
        let (le, below) = sequence_grows agent.factory.sequence bound in
        (
          record agent { state = insert subject p agent.state; factory = factory },
          rw e refl,
          (
            All-insert (λ e. (e.1.subject ≡ e.0) × IsBelow factory.sequence e.1) subject p
                agent.state (refl, omega arith)
                (IsStored-mono agent.factory.sequence factory.sequence agent.state le stored),
            (below, IsQueued-mono agent.factory.sequence factory.sequence _ le queued),
          ),
        )
