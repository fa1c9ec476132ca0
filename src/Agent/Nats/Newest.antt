-- ===== src/Agent/Nats/Newest.antt =====
-- No value is published twice or after a newer one, and none is missed.
use mathlib.Core.List.{Memᴰ}
use spark_signals.Prelude.{
  ℕ, ◌≤◌, ◌⊎◌, String, ◌≡◌, refl, sym, subst, Bool, true, false, List, [], ◌∷◌, leb, ltb,
  is_none_or, is_some_and, arith, Bool-cases, inl, inr, mem-map,
}
use spark_signals.Order.{◌==◌, eq_iff, eq_refl, text_ord}
use spark_signals.BTreeMap.{BTreeMap, get, insert, get-insert}
use spark_signals.Agent.Publish.{Publication}
use spark_signals.Agent.Nats.Publisher.{
  insert_by_sequence, sort_by_sequence, values, Sent, is_sent, Client, Round, and_then,
  publish_sorted, publish_latest,
}

-- Each publication is newer than the last before it with its subject.
abbrev pub IsIncreasing : Sent → List Publication → Type 0
IsIncreasing sent [] = Unit
IsIncreasing sent (p ∷ publications) =
    (is_none_or (get p.subject sent) (λ sequence. ltb sequence p.sequence) ≡ true)
    × IsIncreasing (insert p.subject p.sequence sent) publications

-- What is sent after publications.
abbrev pub sent_after : Sent → List Publication → Sent
sent_after sent [] = sent
sent_after sent (p ∷ publications) = sent_after (insert p.subject p.sequence sent) publications

newer :
    (sent : Sent) (p : Publication)
    → is_sent sent p ≡ false
    → is_none_or (get p.subject sent) (λ sequence. ltb sequence p.sequence) ≡ true
unfolding is_sent
newer sent p h = ground arith

module _ (client : Client) (sent : Sent) (p : Publication) (publications : List Publication) where
  skipped :
      is_sent sent p ≡ true
      → publish_sorted client sent (p ∷ publications) ≡ publish_sorted client sent publications
  unfolding publish_sorted
  skipped h = rw (publish_sorted, h) refl

  taken :
      is_sent sent p ≡ false
      → client.publish p ≡ true
      → publish_sorted client sent (p ∷ publications)
        ≡ and_then p (publish_sorted client (insert p.subject p.sequence sent) publications)
  unfolding publish_sorted
  taken h q = rw (publish_sorted, h, q) refl

  stopped :
      is_sent sent p ≡ false
      → client.publish p ≡ false
      → publish_sorted client sent (p ∷ publications)
        ≡ record { published = []; sent = sent; is_ok = false }
  unfolding publish_sorted
  stopped h q = rw (publish_sorted, h, q) refl

-- What a round has published is increasing, and `sent` shows the last of it.
abbrev pub IsOrderly : Sent → Round → Type 0
IsOrderly sent round =
    IsIncreasing sent round.published × (round.sent ≡ sent_after sent round.published)

publish_sorted-IsOrderly :
    (client : Client) (sent : Sent) (publications : List Publication)
    → IsOrderly sent (publish_sorted client sent publications)
unfolding publish_sorted
publish_sorted-IsOrderly client sent [] = (tt, refl)
publish_sorted-IsOrderly client sent (p ∷ publications) = elim (Bool-cases (is_sent sent p)) [
  | inl h ↦
      subst (IsOrderly sent) (sym (skipped client sent p publications h))
        (publish_sorted-IsOrderly client sent publications)
  | inr h ↦ elim (Bool-cases (client.publish p)) [
    | inl q ↦
        let (rest, same) =
          publish_sorted-IsOrderly client (insert p.subject p.sequence sent) publications in
        subst (IsOrderly sent) (sym (taken client sent p publications h q))
          ((newer sent p h, rest), same)
    | inr q ↦ subst (IsOrderly sent) (sym (stopped client sent p publications h q)) (tt, refl)
  ]
]

-- At least `sequence` has been sent for a subject.
abbrev pub Reached : Sent → String → ℕ → Type 0
Reached sent subject sequence = is_some_and (get subject sent) (λ s. leb sequence s) ≡ true

Reached-insert :
    (sent : Sent) (p : Publication) (subject : String) (sequence : ℕ)
    → is_sent sent p ≡ false
    → Reached sent subject sequence
    → Reached (insert p.subject p.sequence sent) subject sequence
unfolding is_sent
Reached-insert sent p subject sequence h r =
    ground (arith, get-insert p.subject subject p.sequence sent, eq_iff p.subject subject)

publish_sorted-keeps :
    (client : Client) (subject : String) (sequence : ℕ) (sent : Sent)
    (publications : List Publication)
    → Reached sent subject sequence
    → Reached (publish_sorted client sent publications).sent subject sequence
unfolding publish_sorted
publish_sorted-keeps client subject sequence sent [] r = r
publish_sorted-keeps client subject sequence sent (p ∷ publications) r =
    let P : Round → Type 0 = λ (round : Round). Reached round.sent subject sequence in
    elim (Bool-cases (is_sent sent p)) [
      | inl h ↦
          subst P (sym (skipped client sent p publications h))
            (publish_sorted-keeps client subject sequence sent publications r)
      | inr h ↦ elim (Bool-cases (client.publish p)) [
        | inl q ↦ subst P (sym (taken client sent p publications h q)) (
            publish_sorted-keeps client subject sequence (insert p.subject p.sequence sent)
              publications (Reached-insert sent p subject sequence h r))
        | inr q ↦ subst P (sym (stopped client sent p publications h q)) r
      ]
    ]

Reached-head :
    (sent : Sent) (p : Publication)
    → Reached (insert p.subject p.sequence sent) p.subject p.sequence
Reached-head sent p = rw get-insert (rw (eq_refl p.subject) (ground arith))

-- The round succeeded, and all of the publications are reached.
abbrev Complete : List Publication → Round → Type 0
Complete publications round =
    round.is_ok ≡ true
    → (p : Publication) → Memᴰ p publications
    → Reached round.sent p.subject p.sequence

with_head :
    (q : Publication) (publications : List Publication) (round : Round)
    → Reached round.sent q.subject q.sequence
    → Complete publications round
    → Complete (q ∷ publications) round
with_head q publications round r c done p (Memᴰ.head e) =
    subst (λ (x : Publication). Reached round.sent x.subject x.sequence) (sym e) r
with_head q publications round r c done p (Memᴰ.tail m) = c done p m

publish_sorted-Complete :
    (client : Client) (sent : Sent) (publications : List Publication)
    → Complete publications (publish_sorted client sent publications)
unfolding publish_sorted is_sent
publish_sorted-Complete client sent [] = λ done p m. elim m [ ]
publish_sorted-Complete client sent (q ∷ publications) =
    let C = Complete (q ∷ publications) in
    elim (Bool-cases (is_sent sent q)) [
      | inl h ↦ subst C (sym (skipped client sent q publications h)) (
          with_head q publications (publish_sorted client sent publications)
            (publish_sorted-keeps client q.subject q.sequence sent publications h)
            (publish_sorted-Complete client sent publications))
      | inr h ↦ elim (Bool-cases (client.publish q)) [
        | inl k ↦
            let next = insert q.subject q.sequence sent in
            let round = publish_sorted client next publications in
            subst C (sym (taken client sent q publications h k)) (
              with_head q publications (and_then q round)
                (publish_sorted-keeps client q.subject q.sequence next publications
                  (Reached-head sent q))
                (publish_sorted-Complete client next publications))
        | inr k ↦ subst C (sym (stopped client sent q publications h k)) (λ done. cc)
      ]
    ]

placed :
    (q p x : Publication) (ps rest : List Publication) (b : Bool)
    → (Memᴰ q (p ∷ ps) → Memᴰ q rest)
    → Memᴰ q (p ∷ x ∷ ps)
    → Memᴰ q (elim b [ true ↦ x ∷ rest | false ↦ p ∷ x ∷ ps ])
placed q p x ps rest true f (Memᴰ.head e) = Memᴰ.tail (f (Memᴰ.head e))
placed q p x ps rest true f (Memᴰ.tail (Memᴰ.head e)) = Memᴰ.head e
placed q p x ps rest true f (Memᴰ.tail (Memᴰ.tail m)) = Memᴰ.tail (f (Memᴰ.tail m))
placed q p x ps rest false f m = m

mem-insert_by_sequence :
    (q p : Publication) (ps : List Publication)
    → (Memᴰ q (p ∷ ps))
    → Memᴰ q (insert_by_sequence p ps)
unfolding insert_by_sequence
mem-insert_by_sequence q p [] m = m
mem-insert_by_sequence q p (x ∷ ps) m =
    placed q p x ps (insert_by_sequence p ps) (ltb x.sequence p.sequence)
      (mem-insert_by_sequence q p ps) m

mem-sort_by_sequence :
    (q : Publication) (ps : List Publication) → Memᴰ q ps → Memᴰ q (sort_by_sequence ps)
unfolding sort_by_sequence
mem-sort_by_sequence q [] m = m
mem-sort_by_sequence q (p ∷ ps) (Memᴰ.head e) = mem-insert_by_sequence q p _ (Memᴰ.head e)
mem-sort_by_sequence q (p ∷ ps) (Memᴰ.tail m) =
    mem-insert_by_sequence q p _ (Memᴰ.tail (mem-sort_by_sequence q ps m))

-- A round publishes each value after the older ones of its subject and never twice, whatever the
-- client does.
pub publish_latest-IsOrderly :
    (client : Client) (state : BTreeMap String Publication) (sent : Sent)
    → IsOrderly sent (publish_latest client state sent)
unfolding publish_latest
publish_latest-IsOrderly client state sent =
    publish_sorted-IsOrderly client sent (sort_by_sequence (values state))

-- Among the publications is one with the subject, and with that sequence or a later one.
abbrev pub HasAtLeast : List Publication → String → ℕ → Type 0
HasAtLeast publications subject sequence =
    (q : Publication) × Memᴰ q publications × (q.subject ≡ subject) × (sequence ≤ q.sequence)

inserted :
    (sent : Sent) (p : Publication) (subject : String) (sequence : ℕ)
    → Reached (insert p.subject p.sequence sent) subject sequence
    → Reached sent subject sequence ⊎ ((p.subject ≡ subject) × (sequence ≤ p.sequence))
inserted sent p subject sequence r = elim (Bool-cases (p.subject == subject)) [
  | inl same ↦ inr (
    (eq_iff p.subject subject).0 same,
    ground (arith, get-insert p.subject subject p.sequence sent),
  )
  | inr other ↦ inl (ground (arith, get-insert p.subject subject p.sequence sent))
]

reached_by :
    (sent : Sent) (publications : List Publication) (subject : String) (sequence : ℕ)
    → Reached (sent_after sent publications) subject sequence
    → Reached sent subject sequence ⊎ HasAtLeast publications subject sequence
reached_by sent [] subject sequence r = inl r
reached_by sent (p ∷ publications) subject sequence r =
    elim (reached_by (insert p.subject p.sequence sent) publications subject sequence r) [
      | inl before ↦ elim (inserted sent p subject sequence before) [
        | inl old ↦ inl old
        | inr (same, enough) ↦ inr (p, Memᴰ.head refl, same, enough)
      ]
      | inr (q, m, same, enough) ↦ inr (q, Memᴰ.tail m, same, enough)
    ]

-- For every publication of the state, a round that succeeded has published this one or a newer one
-- with its subject, if none such was sent before the round.
pub publish_latest-Reached :
    (client : Client) (state : BTreeMap String Publication) (sent : Sent) (subject : String)
    (p : Publication)
    → (publish_latest client state sent).is_ok ≡ true
    → Memᴰ (subject, p) state
    → Reached sent p.subject p.sequence
      ⊎ HasAtLeast (publish_latest client state sent).published p.subject p.sequence
unfolding publish_latest
publish_latest-Reached client state sent subject p done m =
    let round = publish_sorted client sent (sort_by_sequence (values state)) in
    reached_by sent round.published p.subject p.sequence (
      subst (λ (s : Sent). Reached s p.subject p.sequence)
        (publish_sorted-IsOrderly client sent (sort_by_sequence (values state))).1
        (publish_sorted-Complete client sent (sort_by_sequence (values state)) done p
          (mem-sort_by_sequence p (values state) (mem-map (λ e. e.1) (subject, p) state m))))
