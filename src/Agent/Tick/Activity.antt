-- ===== src/Agent/Tick/Activity.antt =====
-- Which health events the states of the services raise.
use spark_signals.Prelude.{
  String, Bool, true, false, ◌≡◌, refl, ap, ◌∙◌, sym, ◌&&◌, is_some_and, Option, none, some, List,
  [], ◌∷◌, if◌then◌else◌,
}
use spark_signals.Prelude.Optional.{or_later}
use spark_signals.Order.{◌==◌, eq_refl, text_ord}
use spark_signals.BTreeMap.{BTreeMap, get, get-insert}
use spark_signals.Schema.{MetricPoint, Signal, health_event, Severity}
use spark_signals.Float.{F64, lt, half}
use spark_signals.Agent.Tick.Reports.{
  activity, activity_of, changed, service_event, follow_activity, judge_service,
}

-- Whether a value is above one half.
abbrev pub is_above : Option F64 → Option Bool
is_above none = none
is_above (some value) = some (lt half value)

-- Whether the unit is active, if a point tells it: the point has the name of the metric, names the
-- unit among its attributes, and has a value.
abbrev pub told : String → MetricPoint → Option Bool
told unit point =
    if point.name == "spark.service.active"
      && is_some_and (get "systemd.unit" point.attributes) (λ other. other == unit)
    then is_above point.value
    else none

-- What the latest point that tells of the unit tells; the points are given latest first.
abbrev pub last_told : String → List MetricPoint → Option Bool
last_told unit [] = none
last_told unit (point ∷ earlier) = or_later (told unit point) (last_told unit earlier)

-- The states after points, latest first, and nothing before.
abbrev pub states_after : List MetricPoint → BTreeMap String Bool
states_after [] = []
states_after (point ∷ earlier) = (judge_service (states_after earlier) point).0

-- The event of a unit whose state was told before, if it was, and is told now, if it is.
abbrev pub turned : String → Option Bool → Option Bool → Option Signal
turned unit none now = none
turned unit (some before) none = none
turned unit (some true) (some true) = none
turned unit (some true) (some false) = some (
    health_event Severity.error "SERVICE_STATE_CHANGED" "configured service became inactive"
      (("systemd.unit", unit) ∷ []))
turned unit (some false) (some true) = some (
    health_event Severity.info "SERVICE_STATE_CHANGED" "configured service became active"
      (("systemd.unit", unit) ∷ []))
turned unit (some false) (some false) = none

-- The event that a point raises after others, by the unit that it names.
abbrev pub expected_for : List MetricPoint → (String → Option Bool) → Option String → Option Signal
expected_for earlier now none = none
expected_for earlier now (some unit) = turned unit (last_told unit earlier) (now unit)

abbrev pub expected : List MetricPoint → MetricPoint → Option Signal
expected earlier point =
    expected_for earlier (λ unit. told unit point) (get "systemd.unit" point.attributes)

abbrev told_of : String → Option (String × Bool) → Option Bool
told_of unit none = none
told_of unit (some (other, active)) = if other == unit then some active else none

told_of-activity :
    (unit : String) (point : MetricPoint) → told_of unit (activity point) ≡ told unit point
told_of-activity unit point =
    by_parts (point.name == "spark.service.active") refl point.value
      (get "systemd.unit" point.attributes)
  where
    by_parts :
        (named : Bool)
        → (point.name == "spark.service.active") ≡ named
        → (value : Option F64) (found : Option String)
        → told_of unit (activity_of point value found)
          ≡ (if named && is_some_and found (λ other. other == unit) then is_above value else none)
    by_parts true p none none = refl
    by_parts true p none (some other) = both (other == unit)
      where
        both : (b : Bool) → ◌≡◌ {A = Option Bool} none (if b then none else none)
        both true = refl
        both false = refl
    by_parts true p (some value) none = refl
    by_parts true p (some value) (some other) = rw p refl
    by_parts false p none found = refl
    by_parts false p (some value) none = refl
    by_parts false p (some value) (some other) = rw p refl

followed :
    (unit : String) (states : BTreeMap String Bool) (told : Option (String × Bool))
    → get unit (follow_activity states told).0 ≡ or_later (told_of unit told) (get unit states)
followed unit states none = refl
followed unit states (some (other, active)) =
    get-insert other unit active states ∙ one_later (other == unit) active (get unit states)
  where
    one_later :
        (test : Bool) (value : Bool) (rest : Option Bool)
        → (if test then some value else rest) ≡ or_later (if test then some value else none) rest
    one_later true value rest = refl
    one_later false value rest = refl

get-states_after :
    (unit : String) (points : List MetricPoint)
    → get unit (states_after points) ≡ last_told unit points
unfolding get judge_service
get-states_after unit [] = refl
get-states_after unit (point ∷ earlier) =
    followed unit (states_after earlier) (activity point)
    ∙ ap (or_later (told_of unit (activity point))) (get-states_after unit earlier)
    ∙ ap (λ x. or_later x (last_told unit earlier)) (told_of-activity unit point)

event_turned :
    (unit : String) (before : Option Bool) (active : Bool)
    → (if changed before active then some (service_event unit active) else none)
      ≡ turned unit before (some active)
event_turned unit none active = refl
event_turned unit (some true) true = refl
event_turned unit (some true) false = refl
event_turned unit (some false) true = refl
event_turned unit (some false) false = refl

turned-none : (unit : String) (before : Option Bool) → turned unit before none ≡ none
turned-none unit none = refl
turned-none unit (some before) = refl

raised :
    (earlier : List MetricPoint) (point : MetricPoint) (named : Bool)
    → (point.name == "spark.service.active") ≡ named
    → (value : Option F64) (found : Option String)
    → (follow_activity (states_after earlier) (activity_of point value found)).1
      ≡ expected_for earlier
          (λ unit.
            if named && is_some_and found (λ other. other == unit) then is_above value else none)
          found
raised earlier point named p value none = silent value
  where
    silent :
        (v : Option F64)
        → (follow_activity (states_after earlier) (activity_of point v none)).1 ≡ none
    silent none = refl
    silent (some x) = refl
raised earlier point true p none (some unit) =
    rw (eq_refl unit) (sym (turned-none unit (last_told unit earlier)))
raised earlier point true p (some value) (some unit) =
    rw (p, eq_refl unit)
      (ap
          (λ old.
            if changed old (lt half value) then some (service_event unit (lt half value)) else none)
          (get-states_after unit earlier)
        ∙ event_turned unit (last_told unit earlier) (lt half value))
raised earlier point false p none (some unit) = sym (turned-none unit (last_told unit earlier))
raised earlier point false p (some value) (some unit) =
    rw p (sym (turned-none unit (last_told unit earlier)))

-- After any points, a point raises a health event exactly if it is of the metric of services, has a
-- value and a unit, an earlier point told whether the unit was active, and the latest that did told
-- the opposite, where a value above one half tells that it is: an error if the unit has become
-- inactive, an information if it has become active. The first state of a unit raises none.
pub judge_service-expected :
    (earlier : List MetricPoint) (point : MetricPoint)
    → (judge_service (states_after earlier) point).1 ≡ expected earlier point
unfolding judge_service
judge_service-expected earlier point =
    raised earlier point (point.name == "spark.service.active") refl point.value
      (get "systemd.unit" point.attributes)
