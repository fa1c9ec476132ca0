-- ===== src/Agent/Events/History.antt =====
-- Which points raise an event: those whose level differs from the level that their subject had last,
-- where a subject that has not been seen is at the good level.
use spark_signals.Prelude.{
  ℕ, String, ◌≡◌, refl, sym, ap, subst, Bool, ◌&&◌, ◌||◌, not, Option, none, some, List, [], ◌∷◌,
  Result, ok, ◌>>=◌, >>=-eq-ok, if◌then◌else◌, is_some, unwrap_or, map_or, eqb, arith, Bool-cases,
  inl, inr,
}
use spark_signals.Order.{◌==◌, text_ord, nat_ord, option_ord}
use spark_signals.BTreeMap.{BTreeMap, get, get-insert}
use spark_signals.Float.{F64}
use spark_signals.Schema.{MetricPoint, Envelope, quality_ord, Signal}
use spark_signals.Agent.Publish.{Reading, build, from_secs, PublishError, Queue, send_event}
use spark_signals.Agent.Events.Detection.{
  Transition, transition, alert, oom_alert, is_oom_kill, follow, judge_value, judge, Detector,
  raise, detect_system_events,
}

module _ (parse : String → Option F64) where
  -- The transition of a point that is watched.
  abbrev pub watched_value : MetricPoint → Option F64 → Option Transition
  watched_value point none = none
  watched_value point (some value) =
      if is_oom_kill parse point value then none else transition parse point value

  abbrev pub watched : MetricPoint → Option Transition
  watched point = watched_value point point.value

  -- The level that a subject had last in a history, latest first.
  abbrev pub level_after : List MetricPoint → String → ℕ
  level_after [] key = 0
  level_after (p ∷ history) key =
      let before = level_after history key in
      map_or (watched p) before (λ t. if t.key == key then t.level else before)

  abbrev pub expected_value : List MetricPoint → MetricPoint → Option F64 → Option Signal
  expected_value history point none = none
  expected_value history point (some value) =
      if is_oom_kill parse point value
      then some (oom_alert parse point)
      else map_or (transition parse point value) none
          (λ t. if level_after history t.key == t.level then none else some (alert parse point t))

  -- The event for a point after a history.
  abbrev pub expected : List MetricPoint → MetricPoint → Option Signal
  expected history point = expected_value history point point.value

  -- The levels are those of the history.
  abbrev Tracks : List MetricPoint → BTreeMap String ℕ → Type 0
  Tracks history states = (key : String) → unwrap_or (get key states) 0 ≡ level_after history key

  quiet_iff :
      (previous : Option ℕ) (level : ℕ)
      → (previous == some level || not (is_some previous) && eqb level 0)
        ≡ (unwrap_or previous 0 == level)
  quiet_iff none level = ground arith
  quiet_iff (some p) level = ground arith

  follow-Tracks :
      (history : List MetricPoint) (states : BTreeMap String ℕ) (point : MetricPoint)
      (t : Option Transition)
      → Tracks history states
      → ((follow parse states point t).1
          ≡ map_or t none (λ x.
            if level_after history x.key == x.level then none else some (alert parse point x)))
        × ((key : String)
            → unwrap_or (get key (follow parse states point t).0) 0
              ≡ map_or t
                  (level_after history key)
                  (λ x. if x.key == key then x.level else level_after history key))
  follow-Tracks history states point none h = (refl, h)
  follow-Tracks history states point (some t) h = (
    rw (quiet_iff (get t.key states) t.level, h t.key) refl,
    λ key. rw get-insert (elim (Bool-cases (t.key == key)) [
      | inl same ↦ rw same refl
      | inr other ↦ rw other (h key)
    ]),
  )

  judge_value-Tracks :
      (history : List MetricPoint) (point : MetricPoint) (states : BTreeMap String ℕ)
      (value : Option F64)
      → Tracks history states
      → ((judge_value parse states point value).1 ≡ expected_value history point value)
        × ((key : String)
            → unwrap_or (get key (judge_value parse states point value).0) 0
              ≡ map_or
                  (watched_value point value)
                  (level_after history key)
                  (λ t. if t.key == key then t.level else level_after history key))
  judge_value-Tracks history point states none h = (refl, h)
  judge_value-Tracks history point states (some value) h =
      elim (Bool-cases (is_oom_kill parse point value)) [
        | inl kill ↦ rw kill (refl, h)
        | inr other ↦ rw other (follow-Tracks history states point (transition parse point value) h)
      ]

  judge-Tracks :
      (history : List MetricPoint) (point : MetricPoint) (states : BTreeMap String ℕ)
      → Tracks history states
      → ((judge parse states point).1 ≡ expected history point)
        × Tracks (point ∷ history) (judge parse states point).0
  unfolding judge
  judge-Tracks history point states h = judge_value-Tracks history point states point.value h

  abbrev pub expected_all : List MetricPoint → List MetricPoint → List (Option Signal)
  expected_all history [] = []
  expected_all history (point ∷ points) =
      expected history point ∷ expected_all (point ∷ history) points

  -- A history, latest first, after further points.
  abbrev pub seen : List MetricPoint → List MetricPoint → List MetricPoint
  seen history [] = history
  seen history (point ∷ points) = seen (point ∷ history) points

  module _ (to_vec : Envelope → Option (List ℕ)) (queue : Queue) (clock : ℕ → Reading)
      (site node : String) (stdout publish : Bool) where
    abbrev State : Type 0
    State = Detector parse to_vec queue clock site node stdout publish

    abbrev pub detect : State → List MetricPoint → Result State PublishError
    detect = detect_system_events parse to_vec queue clock site node stdout publish

    -- Building and sending the events, one after the other.
    abbrev pub raise_all : State → List (Option Signal) → Result State PublishError
    raise_all detector [] = ok detector
    raise_all detector (event ∷ events) = do
      next ← raise parse to_vec queue clock site node stdout publish detector event
      raise_all next events

    -- Only the levels differ.
    abbrev at_levels : BTreeMap String ℕ → State → State
    at_levels states detector = record detector { states = states }

    raise_levels :
        (states : BTreeMap String ℕ) (detector next : State) (event : Option Signal)
        → raise parse to_vec queue clock site node stdout publish detector event ≡ ok next
        → (raise parse to_vec queue clock site node stdout publish (at_levels states detector) event
            ≡ ok (at_levels states next))
          × (next.states ≡ detector.states)
    unfolding raise
    raise_levels states detector next none h =
        let e : detector ≡ next = cc in
        (ap (λ d. ok (at_levels states d)) e, ap (λ (d : State). d.states) (sym e))
    raise_levels states detector next (some signal) h =
        let (outbox, sent, k) =
          >>=-eq-ok
            (send_event to_vec queue detector.outbox site node
              (build clock detector.factory signal 0 (from_secs 60)).1 stdout publish)
            _ h in
        let e : record detector {
          outbox = outbox;
          factory = (build clock detector.factory signal 0 (from_secs 60)).0;
        }
            ≡ next =
          cc in
        (rw sent (ap (λ d. ok (at_levels states d)) e), ap (λ (d : State). d.states) (sym e))

    detected :
        (history points : List MetricPoint) (detector next : State) (levels : BTreeMap String ℕ)
        → Tracks history detector.states
        → detect detector points ≡ ok next
        → (raise_all (at_levels levels detector) (expected_all history points)
            ≡ ok (at_levels levels next))
          × Tracks (seen history points) next.states
    unfolding detect_system_events
    detected history [] detector next levels t h =
        let e : detector ≡ next = cc in
        (ap (λ d. ok (at_levels levels d)) e, subst (λ (d : State). Tracks history d.states) e t)
    detected history (point ∷ points) detector next levels t h =
        let (event, tracked) = judge-Tracks history point detector.states t in
        let judged = judge parse detector.states point in
        let (n, raised, k) =
          >>=-eq-ok
            (raise parse to_vec queue clock site node stdout publish (at_levels judged.0 detector)
              judged.1)
            _ h in
        let (same, kept) = raise_levels levels (at_levels judged.0 detector) n judged.1 raised in
        let (rest, last) =
          detected (point ∷ history) points n next levels
            (subst (Tracks (point ∷ history)) (sym kept) tracked) k in
        (rw (sym event, same) rest, last)

    -- When no level is known and points are examined, and then further points, the second call
    -- builds and sends exactly the events that the history of both has it send, one after the
    -- other: an OOM kill is always reported, and a watched subject when its level differs from the
    -- level that it had last, where a subject without a point before is at level 0.
    pub detect_system_events-expected :
        (before points : List MetricPoint) (start middle last : State)
        → start.states ≡ []
        → detect start before ≡ ok middle
        → detect middle points ≡ ok last
        → raise_all middle (expected_all (seen [] before) points)
          ≡ ok (record last { states = middle.states })
    unfolding get
    detect_system_events-expected before points start middle last none_known h k =
        let known : Tracks [] start.states = λ key. rw none_known refl in
        let (_, tracked) = detected [] before start middle [] known h in
        (detected (seen [] before) points middle last middle.states tracked k).0
