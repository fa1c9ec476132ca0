-- ===== src/Agent/Tick/Progress.antt =====
-- That the reports of a tick return, with the numbers of the publications in order.
use spark_signals.Prelude.{
  ℕ, ◌≤◌, String, ◌≡◌, refl, sym, subst, Bool, true, false, Option, none, some, List, [], ◌∷◌,
  Result, ok, ◌>>=◌, ltb, arith, if◌then◌else◌,
}
use spark_signals.Order.{◌==◌, text_ord, pair_ord, list_ord}
use spark_signals.BTreeMap.{extend}
use spark_signals.Float.Parse.{parse_f64}
use spark_signals.Schema.{MetricPoint, Attributes, Signal, inventory}
use spark_signals.Agent.Publish.{build, from_secs}
use spark_signals.Agent.Events.{Detector, judge, raise, detect_system_events}
use spark_signals.Agent.Tick.State.{
  Setting, Agent, send_alert, alert_if, detect_events, publish_sample,
}
use spark_signals.Agent.Tick.Reports.{
  is_xid, xid_event, degraded_event, differs, judge_service, events_dropped, reconnected,
  report_dropped, report_reconnects, publish_inventory, report_inventory, report_xids,
  report_degraded, report_services,
}
use spark_signals.Agent.Tick.Numbering.{
  IsTotal, IsNumbered, IsSent, IsStored-mono, send-Returns, send_alert-Returns,
  publish_signal-Returns,
}

-- The call returns a value of which the predicate holds.
abbrev pub Returns {ε} : {A : Type 0} {E : Type ε} → (A → Type 0) → Result A E → Type ε
Returns {A = A} I r = (a : A) × (r ≡ ok a) × I a

pub Returns-and_then {ε} :
    {A B : Type 0} {E : Type ε} (I : A → Type 0) (J : B → Type 0) (r : Result A E)
    (next : A → Result B E)
    → Returns I r
    → ((a : A) → I a → Returns J (next a))
    → Returns J (r >>= next)
Returns-and_then I J r next (a, e, i) h = subst (λ r. Returns J (r >>= next)) (sym e) (h a i)

pub Returns-branch {ε} :
    {A : Type 0} {E : Type ε} (I : A → Type 0) (test : Bool) (x y : Result A E)
    → Returns I x
    → Returns I y
    → Returns I (if test then x else y)
Returns-branch I true x y h k = h
Returns-branch I false x y h k = k

module _ (s : Setting) (total : IsTotal s) where
  pub alert_if-Returns :
      (event : Option Signal) (agent : Agent s)
      → IsNumbered s agent
      → Returns (IsNumbered s) (alert_if s event agent)
  unfolding alert_if
  alert_if-Returns none agent n = (agent, refl, n)
  alert_if-Returns (some signal) agent n = send_alert-Returns s total signal agent n

  pub report_dropped-Returns :
      (count : ℕ) (agent : Agent s)
      → IsNumbered s agent
      → Returns (IsNumbered s) (report_dropped s count agent)
  unfolding report_dropped
  report_dropped-Returns count agent n =
      let noted = record agent { reported_dropped_events = count } in
      Returns-branch (IsNumbered s) (ltb agent.reported_dropped_events count) _ _
        (send_alert-Returns s total events_dropped noted n) (agent, refl, n)

  pub report_reconnects-Returns :
      (count : ℕ) (agent : Agent s)
      → IsNumbered s agent
      → Returns (IsNumbered s) (report_reconnects s count agent)
  unfolding report_reconnects
  report_reconnects-Returns count agent n =
      let noted = record agent { reported_reconnects = count } in
      let dropped = agent.outbox.dropped in
      Returns-branch (IsNumbered s) (ltb agent.reported_reconnects count) _ _
        (Returns-and_then (IsNumbered s) (IsNumbered s) (send_alert s reconnected noted)
          (λ next. report_dropped s dropped next) (send_alert-Returns s total reconnected noted n)
          (λ next m. report_dropped-Returns dropped next m))
        (agent, refl, n)

  pub publish_inventory-Returns :
      (host nvidia : Attributes) (agent : Agent s)
      → IsNumbered s agent
      → Returns (IsNumbered s) (publish_inventory s host nvidia agent)
  unfolding publish_inventory
  publish_inventory-Returns host nvidia agent n =
      publish_signal-Returns s total "inventory" (inventory (extend host nvidia)) 0 (from_secs 120)
        agent n

  pub report_inventory-Returns :
      (host current : Attributes) (agent : Agent s)
      → IsNumbered s agent
      → Returns (IsNumbered s) (report_inventory s host current agent)
  unfolding report_inventory
  report_inventory-Returns host current agent n =
      Returns-branch (IsNumbered s) (current == agent.last_nvidia_inventory) _ _ (agent, refl, n)
        (publish_inventory-Returns host current (record agent { last_nvidia_inventory = current })
          n)

  pub report_xids-Returns :
      (points : List MetricPoint) (agent : Agent s)
      → IsNumbered s agent
      → Returns (IsNumbered s) (report_xids s points agent)
  unfolding report_xids
  report_xids-Returns [] agent n = (agent, refl, n)
  report_xids-Returns (point ∷ points) agent n =
      let event = if is_xid point then some (xid_event point) else none in
      Returns-and_then (IsNumbered s) (IsNumbered s) (alert_if s event agent)
        (λ next. report_xids s points next) (alert_if-Returns event agent n)
        (λ next m. report_xids-Returns points next m)

  pub report_degraded-Returns :
      (has_errors : Bool) (agent : Agent s)
      → IsNumbered s agent
      → Returns (IsNumbered s) (report_degraded s has_errors agent)
  unfolding report_degraded
  report_degraded-Returns has_errors agent n =
      Returns-branch (IsNumbered s) (differs has_errors agent.collector_had_errors) _ _
        (send_alert-Returns s total (degraded_event has_errors)
          (record agent { collector_had_errors = has_errors }) n)
        (agent, refl, n)

  pub report_services-Returns :
      (points : List MetricPoint) (agent : Agent s)
      → IsNumbered s agent
      → Returns (IsNumbered s) (report_services s points agent)
  unfolding report_services
  report_services-Returns [] agent n = (agent, refl, n)
  report_services-Returns (point ∷ points) agent n =
      let (states, event) = judge_service agent.service_states point in
      let judged = record agent { service_states = states } in
      Returns-and_then (IsNumbered s) (IsNumbered s) (alert_if s event judged)
        (λ next. report_services s points next) (alert_if-Returns event judged n)
        (λ next m. report_services-Returns points next m)

  abbrev Detecting : Type 0
  Detecting = Detector parse_f64 s.to_vec s.queue s.clock s.site s.node s.stdout s.publish

  -- The queue is in order, and the number of the factory has not fallen.
  abbrev IsAhead : ℕ → Detecting → Type 0
  IsAhead n detector = IsSent s detector.outbox detector.factory × (n ≤ detector.factory.sequence)

  raise-Returns :
      (n : ℕ) (detector : Detecting) (event : Option Signal)
      → IsAhead n detector
      → Returns
          (IsAhead n)
          (raise parse_f64 s.to_vec s.queue s.clock s.site s.node s.stdout s.publish detector event)
  unfolding raise
  raise-Returns n detector none a = (detector, refl, a)
  raise-Returns n detector (some signal) (sent, le) =
      let (outbox, e, after, grown) =
        send-Returns s total detector.outbox detector.factory signal sent in
      let factory = (build s.clock detector.factory signal 0 (from_secs 60)).0 in
      (
        record detector { outbox = outbox; factory = factory },
        rw e refl,
        (after, omega (arith, le, grown)),
      )

  detect_system_events-Returns :
      (n : ℕ) (points : List MetricPoint) (detector : Detecting)
      → IsAhead n detector
      → Returns (IsAhead n) (
          detect_system_events parse_f64 s.to_vec s.queue s.clock s.site s.node s.stdout s.publish
            detector points)
  unfolding detect_system_events
  detect_system_events-Returns n [] detector a = (detector, refl, a)
  detect_system_events-Returns n (point ∷ points) detector a =
      let (states, event) = judge parse_f64 detector.states point in
      Returns-and_then (IsAhead n) (IsAhead n) _ _
        (raise-Returns n (record detector { states = states }) event a)
        (λ next b. detect_system_events-Returns n points next b)

  pub detect_events-Returns :
      (points : List MetricPoint) (agent : Agent s)
      → IsNumbered s agent
      → Returns (IsNumbered s) (detect_events s points agent)
  unfolding detect_events
  detect_events-Returns points agent (stored, sent) =
      let detector : Detecting = record {
        states = agent.system_health_states;
        outbox = agent.outbox;
        factory = agent.factory;
      } in
      let (after, e, (later, le)) =
        detect_system_events-Returns agent.factory.sequence points detector (sent, omega arith) in
      (
        record agent {
          system_health_states = after.states;
          outbox = after.outbox;
          factory = after.factory;
        },
        rw e refl,
        (IsStored-mono agent.factory.sequence after.factory.sequence agent.state le stored, later),
      )

  pub publish_sample-Returns :
      (suffix : String) (points : List MetricPoint) (duration valid_for : ℕ) (agent : Agent s)
      → IsNumbered s agent
      → Returns (IsNumbered s) (publish_sample s suffix points duration valid_for agent)
  unfolding publish_sample
  publish_sample-Returns suffix points duration valid_for agent n =
      publish_signal-Returns s total suffix _ duration valid_for _ n
