-- ===== src/Agent/Policy/Emitter.antt =====
-- `SignalEmitter`: the rules, and what was last seen of each series.
use spark_signals.Prelude.{
  ℕ, String, ◌≡◌, Bool, true, false, not, ◌||◌, Option, none, some, List, [], ◌∷◌, map_or, is_some,
  if◌then◌else◌,
}
use spark_signals.Order.{Ord, ord_by, ◌==◌, text_ord, pair_ord, list_ord, option_ord, nat_ord}
use spark_signals.BTreeMap.{BTreeMap, get, insert}
use spark_signals.Schema.{MetricPoint, Quality, quality_ord}
use spark_signals.Agent.Policy.Rules.{
  SignalPolicy, enabled, disabled, state_change, availability_change, CompiledRule, PointKey,
  point_key_ord, key_of, policy_for,
}

pub record ObservationState : Type 0 where
  pub value_bits : Option ℕ
  pub quality : Quality
  pub error_code : Option String

abbrev parts : ObservationState → Option ℕ × (Quality × Option String)
parts s = (s.value_bits, (s.quality, s.error_code))

pub parts-injective : (a b : ObservationState) → parts a ≡ parts b → a ≡ b
parts-injective a b h =
    λ i. record { value_bits = (h i).0; quality = (h i).1.0; error_code = (h i).1.1 }

instance abbrev pub observation_state_ord : Ord ObservationState
observation_state_ord = ord_by parts parts-injective

-- `ObservationState::from`
abbrev pub observe : MetricPoint → ObservationState
observe point = record {
  value_bits = map_or point.value none (λ v. some v.to_bits);
  quality = point.quality;
  error_code = point.error_code;
}

pub record SignalEmitter : Type 0 where
  pub policies : List CompiledRule
  pub states : BTreeMap PointKey ObservationState
  pub availability : BTreeMap PointKey Bool

-- `SignalEmitter::load` after the rules are read
abbrev pub fresh : List CompiledRule → SignalEmitter
fresh rules = record { policies = rules; states = []; availability = [] }

-- `previous == Some(false)`
abbrev pub is_unavailable : Option Bool → Bool
is_unavailable (some false) = true
is_unavailable _ = false

abbrev pub by_policy : SignalPolicy → SignalEmitter → MetricPoint → SignalEmitter × Bool
by_policy enabled emitter point = (emitter, true)
by_policy disabled emitter point = (emitter, false)
by_policy state_change emitter point = (
  record emitter { states = insert (key_of point) (observe point) emitter.states },
  not (get (key_of point) emitter.states == some (observe point)),
)
by_policy availability_change emitter point = (
  record emitter {
    availability = insert (key_of point) (is_some point.value) emitter.availability;
  },
  is_some point.value || not (is_unavailable (get (key_of point) emitter.availability)),
)

-- `SignalEmitter::should_emit`
unfoldable pub should_emit : SignalEmitter → MetricPoint → SignalEmitter × Bool
should_emit emitter point = by_policy (policy_for emitter.policies point) emitter point

-- `SignalEmitter::filter`
unfoldable pub filter : SignalEmitter → List MetricPoint → SignalEmitter × List MetricPoint
unfolding should_emit
filter emitter [] = (emitter, [])
filter emitter (point ∷ points) =
    let (next, emit) = should_emit emitter point in
    let (last, rest) = filter next points in (last, if emit then point ∷ rest else rest)
