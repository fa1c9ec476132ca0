-- ===== src/Agent/Nats/Publisher.antt =====
-- `publish_latest`, and the inner loop of `nats_publisher`. The NATS client is a parameter: whether
-- it takes each publication, and whether it flushes. What it has taken is returned in order.
use spark_signals.Prelude.{
  ℕ, ◌+◌, ◌-◌, ◌^◌, ◌%◌, String, Bool, true, false, List, [], ◌∷◌, map, leb, ltb, is_some_and,
  if◌then◌else◌, min,
}
use spark_signals.Order.{text_ord}
use spark_signals.BTreeMap.{BTreeMap, get, insert}
use spark_signals.Agent.Publish.{Publication}

-- `sort_by_key`, which is stable
unfoldable pub insert_by_sequence : Publication → List Publication → List Publication
insert_by_sequence p [] = p ∷ []
insert_by_sequence p (q ∷ publications) = elim (ltb q.sequence p.sequence) [
  | true ↦ q ∷ insert_by_sequence p publications
  | false ↦ p ∷ q ∷ publications
]

unfoldable pub sort_by_sequence : List Publication → List Publication
unfolding insert_by_sequence
sort_by_sequence [] = []
sort_by_sequence (p ∷ publications) = insert_by_sequence p (sort_by_sequence publications)

-- `state.values()`
abbrev pub values : BTreeMap String Publication → List Publication
values state = map (λ e. e.1) state

-- the highest sequence sent for each subject
abbrev pub Sent : Type 0
Sent = BTreeMap String ℕ

-- `sent.get(subject).is_some_and(|sequence| *sequence >= publication.sequence)`
unfoldable pub is_sent : Sent → Publication → Bool
is_sent sent p = is_some_and (get p.subject sent) (λ sequence. leb p.sequence sequence)

-- what the client does with the calls of one round
pub record Client : Type 0 where
  pub publish : Publication → Bool
  pub flush : Bool

-- what one round did: the publications taken, `sent` after it, and whether it succeeded
pub record Round : Type 0 where
  pub published : List Publication
  pub sent : Sent
  pub is_ok : Bool

abbrev pub and_then : Publication → Round → Round
and_then p round = record round { published = p ∷ round.published }

-- the loop over the sorted publications, and the flush
unfoldable pub publish_sorted : Client → Sent → List Publication → Round
publish_sorted client sent [] = record { published = []; sent = sent; is_ok = client.flush }
publish_sorted client sent (p ∷ publications) = elim (is_sent sent p) [
  | true ↦ publish_sorted client sent publications
  | false ↦ elim (client.publish p) [
    | true ↦ and_then p (publish_sorted client (insert p.subject p.sequence sent) publications)
    | false ↦ record { published = []; sent = sent; is_ok = false }
  ]
]

unfoldable pub publish_latest : Client → BTreeMap String Publication → Sent → Round
publish_latest client state sent = publish_sorted client sent (sort_by_sequence (values state))

-- the state of a connection, and the counter that all connections share
pub record Connection : Type 0 where
  pub sent : Sent
  pub connected_events : ℕ
  pub reconnects : ℕ

-- what the loop of a connection waits for
pub data Wakeup : Type 0 where
  changed : (state : BTreeMap String Publication) → Wakeup
  event : (publication : Publication) → Wakeup
  connected : (state : BTreeMap String Publication) → Wakeup
  slow_consumer other : Wakeup

-- the publications taken, the state after it, and whether the loop goes on
pub record Turn : Type 0 where
  pub published : List Publication
  pub connection : Connection
  pub continues : Bool

abbrev pub republish : Client → BTreeMap String Publication → Connection → Turn
republish client state connection =
    let round = publish_latest client state connection.sent in
    record {
      published = round.published;
      connection = record connection { sent = round.sent };
      continues = round.is_ok;
    }

-- one round of the inner loop of `nats_publisher`
unfoldable pub handle : Client → Connection → Wakeup → Turn
handle client connection (changed state) = republish client state connection
handle client connection (event publication) = record {
  published = if client.publish publication then publication ∷ [] else [];
  connection = connection;
  continues = client.publish publication;
}
handle client connection (connected state) =
    let count = min (connection.connected_events + 1) (2 ^ 64 - 1) in
    republish client state (record {
      sent = [];
      connected_events = count;
      reconnects =
          if ltb 1 count then (connection.reconnects + 1) % 2 ^ 64 else connection.reconnects;
    })
handle client connection slow_consumer = record {
  published = [];
  connection = connection;
  continues = true;
}
handle client connection other = record {
  published = [];
  connection = connection;
  continues = true;
}
