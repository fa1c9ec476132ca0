-- ===== src/Agent/Publish/Sending.antt =====
-- What becomes of the events that are sent, and of the envelopes that are published.
use spark_signals.Text.{concat}
use spark_signals.Prelude.{
  ℕ, min, ◌-◌, ◌+◌, ◌^◌, ◌≤◌, ◌<◌, String, ◌≡◌, refl, sym, ap, subst, ◌∙◌, Bool, true, Option, none,
  some, List, [], ◌∷◌, length, length-append, Result, ok, ok_or, ◌>>=◌, >>=-eq-ok, some_of_ok_or,
  arith,
}
use spark_signals.Schema.{Envelope, Signal, decode_v1, max_signal_bytes}
use spark_signals.Schema.Validity.{IsValidSignal, decode_v1_iff}
use spark_signals.Agent.Publish.Sender.{
  Publication, Reading, EnvelopeFactory, build, PublishError, subject_of, Queue, publication,
  Outbox, offer, print, send_event,
}

module _ (to_vec : Envelope → Option (List ℕ)) where
  made :
      (site node suffix : String) (envelope : Envelope) (p : Publication)
      → publication to_vec site node suffix envelope ≡ ok p
      → (to_vec envelope ≡ some p.payload)
        × (p.sequence ≡ envelope.sequence)
        × (p.subject ≡ subject_of site node suffix)
  unfolding publication
  made site node suffix envelope p h =
      let (payload, q, k) = >>=-eq-ok (ok_or (to_vec envelope) PublishError.serializing) _ h in
      let e : record {
        sequence = envelope.sequence;
        subject = subject_of site node suffix;
        payload = payload;
      }
          ≡ p =
        cc in
      (
        some_of_ok_or (to_vec envelope) PublishError.serializing q ∙ ap (λ x. some x.payload) e,
        ap (λ x. x.sequence) (sym e),
        ap (λ x. x.subject) (sym e),
      )

  -- What the agent publishes of a valid signal is decoded to the envelope that it built: with the
  -- signal, the node, the boot and the next sequence of the agent. The publication has that sequence
  -- and the subject of the site, the node and the suffix. It is assumed that reading gives back any
  -- bytes that are written of this envelope, and that the payload has at most 64 KiB.
  pub decode_v1-publication :
      (from_slice : List ℕ → Option Envelope) (clock : ℕ → Reading) (factory : EnvelopeFactory)
      (signal : Signal) (duration valid_for : ℕ) (site node suffix : String) (p : Publication)
      → publication to_vec site node suffix (build clock factory signal duration valid_for).1 ≡ ok p
      → ((bytes : List ℕ)
          → to_vec (build clock factory signal duration valid_for).1 ≡ some bytes
          → from_slice bytes ≡ some (build clock factory signal duration valid_for).1)
      → length p.payload ≤ max_signal_bytes
      → IsValidSignal signal
      → ((e : Envelope) × (decode_v1 from_slice p.payload ≡ ok e)
          × (e.signal ≡ signal)
          × (e.node ≡ factory.node)
          × (e.boot_id ≡ factory.boot_id)
          × (e.sequence ≡ min (factory.sequence + 1) (2 ^ 64 - 1))
          × (p.sequence ≡ e.sequence)
          × (p.subject ≡ concat ("spark.v1." ∷ site ∷ "." ∷ node ∷ "." ∷ suffix ∷ [])))
  unfolding build
  decode_v1-publication from_slice clock factory signal duration valid_for site node suffix p h r l
        v =
      let built = (build clock factory signal duration valid_for).1 in
      let (written, sequence, subject) = made site node suffix built p h in
      (
        built,
        (decode_v1_iff from_slice p.payload built).1 (l, r p.payload written, refl, v),
        refl,
        refl,
        refl,
        refl,
        sequence,
        subject,
      )

  module _ (queue : Queue) where
    -- Events sent one after the other.
    abbrev pub send_events :
        Outbox to_vec queue
        → String
        → String
        → List Envelope
        → Bool
        → Bool
        → Result (Outbox to_vec queue) PublishError
    send_events outbox site node [] stdout publish = ok outbox
    send_events outbox site node (envelope ∷ envelopes) stdout publish = do
      next ← send_event to_vec queue outbox site node envelope stdout publish
      send_events next site node envelopes stdout publish

    abbrev count : Outbox to_vec queue → ℕ
    count outbox = length (queue.held outbox.events) + outbox.dropped

    offer-count :
        (outbox : Outbox to_vec queue) (p : Publication) (sent : Option queue.Events)
        → queue.try_send outbox.events p ≡ sent
        → outbox.dropped + 1 < 2 ^ 64
        → (count (offer to_vec queue true outbox p sent) ≡ count outbox + 1)
          × ((offer to_vec queue true outbox p sent).dropped ≤ outbox.dropped + 1)
    offer-count outbox p none h l = omega (arith, l)
    offer-count outbox p (some next) h l = omega (
      arith,
      ap length (queue.held_of_sent outbox.events next p h),
      length-append (queue.held outbox.events) (p ∷ []),
    )

    send_event-count :
        (outbox next : Outbox to_vec queue) (site node : String) (envelope : Envelope)
        (stdout : Bool)
        → send_event to_vec queue outbox site node envelope stdout true ≡ ok next
        → outbox.dropped + 1 < 2 ^ 64
        → (count next ≡ count outbox + 1) × (next.dropped ≤ outbox.dropped + 1)
    unfolding send_event
    send_event-count outbox next site node envelope stdout h l =
        let (p, made_p, k) = >>=-eq-ok (publication to_vec site node "event.health" envelope) _ h in
        let printed = record outbox {
          printed = print to_vec queue stdout p.payload outbox.printed;
        } in
        let e : offer to_vec queue true printed p (queue.try_send outbox.events p) ≡ next = cc in
        subst
          (λ (o : Outbox to_vec queue).
            (count o ≡ count outbox + 1) × (o.dropped ≤ outbox.dropped + 1))
          e (offer-count printed p (queue.try_send outbox.events p) refl l)

    -- Every event that is sent is held by the queue or counted as dropped, unless the counter
    -- overflows.
    pub length-send_events :
        (outbox last : Outbox to_vec queue) (site node : String) (envelopes : List Envelope)
        (stdout : Bool)
        → send_events outbox site node envelopes stdout true ≡ ok last
        → outbox.dropped + length envelopes < 2 ^ 64
        → length (queue.held last.events) + last.dropped
          ≡ length (queue.held outbox.events) + outbox.dropped + length envelopes
    length-send_events outbox last site node [] stdout h l =
        let e : outbox ≡ last = cc in
        subst (λ (o : Outbox to_vec queue). count o ≡ count outbox + 0) e (omega arith)
    length-send_events outbox last site node (envelope ∷ envelopes) stdout h l =
        let (next, sent, k) =
          >>=-eq-ok (send_event to_vec queue outbox site node envelope stdout true) _ h in
        let (c, d) =
          send_event-count outbox next site node envelope stdout sent (omega (arith, l)) in
        let r = length-send_events next last site node envelopes stdout k (omega (arith, l, d)) in
        omega (arith, r, c)
