-- ===== src/Agent/Policy/Emission.antt =====
-- What the emitter lets through, against the history of observations: each point is judged by the
-- last earlier point of the same series.
use mathlib.Core.Path.{fun_ext}
use spark_signals.Prelude.{
  ◌≡◌, refl, sym, ap, ◌∙◌, Bool, true, false, not, ◌||◌, Option, none, some, List, [], ◌∷◌, map_or,
  is_some, arith, if◌then◌else◌, keep, ◌≢◌, ◌&&◌, max_by_key, all, Bool-cases, inl, inr,
}
use spark_signals.Order.{◌==◌, eq_iff, text_ord, nat_ord, pair_ord, list_ord, option_ord}
use spark_signals.BTreeMap.{BTreeMap, get, insert, get-insert}
use spark_signals.Schema.{MetricPoint, quality_ord}
use spark_signals.Agent.Policy.Rules.{
  SignalPolicy, enabled, disabled, state_change, availability_change, CompiledRule, SignalSelector,
  PointKey, point_key_ord, key_of, matches, specificity, policy_for,
}
use spark_signals.Agent.Policy.Emitter.{
  observation_state_ord, observe, SignalEmitter, fresh, is_unavailable, by_policy, should_emit,
  filter,
}

-- The latest point of the series of `point` in a history, latest first.
abbrev pub latest : List MetricPoint → MetricPoint → Option MetricPoint
latest [] point = none
latest (p ∷ history) point = if key_of p == key_of point then some p else latest history point

-- Whether `point` is emitted after `history`.
abbrev pub judged : SignalPolicy → Option MetricPoint → MetricPoint → Bool
judged enabled last point = true
judged disabled last point = false
judged state_change none point = true
judged state_change (some p) point = not (observe p == observe point)
judged availability_change none point = true
judged availability_change (some p) point = is_some point.value || is_some p.value

abbrev pub emitted : List CompiledRule → List MetricPoint → List MetricPoint → List MetricPoint
emitted rules history [] = []
emitted rules history (point ∷ points) =
    let rest = emitted rules (point ∷ history) points in
    if judged (policy_for rules point) (latest history point) point then point ∷ rest else rest

-- `matches` reads the key of a point alone.
abbrev matches_at : SignalSelector → PointKey → Bool
matches_at s k =
    s.source == k.source
    && s.metric == k.metric
    && all (λ e. get e.0 k.attributes == some e.1) s.attributes

matches-key :
    (s : SignalSelector) (p q : MetricPoint) → key_of p ≡ key_of q → matches s p ≡ matches s q
unfolding matches
matches-key s p q h = ap (matches_at s) h

pub policy_for-key :
    (rules : List CompiledRule) (p q : MetricPoint)
    → key_of p ≡ key_of q
    → policy_for rules p ≡ policy_for rules q
unfolding policy_for
policy_for-key rules p q h =
    ap (λ f. map_or (max_by_key specificity (keep f rules)) enabled (λ r. r.policy))
      (fun_ext (λ (r : CompiledRule). matches-key r.selector p q h))

-- The emitter holds the last observation of each series that its policy has it remember.
record Tracks (rules : List CompiledRule) (history : List MetricPoint) (e : SignalEmitter)
    : Type 0 where
  policies : e.policies ≡ rules
  states :
      (p : MetricPoint)
      → policy_for rules p ≡ state_change
      → get (key_of p) e.states ≡ map_or (latest history p) none (λ q. some (observe q))
  availability :
      (p : MetricPoint)
      → policy_for rules p ≡ availability_change
      → get (key_of p) e.availability ≡ map_or (latest history p) none (λ q. some (is_some q.value))

module _ (rules : List CompiledRule) (history : List MetricPoint) (point : MetricPoint) where
  -- A point of a series with another policy is of another series.
  latest_other :
      (p : MetricPoint)
      → policy_for rules point ≢ policy_for rules p
      → latest (point ∷ history) p ≡ latest history p
  latest_other p h = elim (Bool-cases (key_of point == key_of p)) [
    | inl same ↦
        absurd (h (policy_for-key rules point p ((eq_iff (key_of point) (key_of p)).0 same)))
    | inr other ↦ rw other refl
  ]

  -- What an insertion under the key of `point` shows, against the longer history.
  noted :
      {V : Type 0} (f : MetricPoint → V) (m : BTreeMap PointKey V) (p : MetricPoint)
      → get (key_of p) m ≡ map_or (latest history p) none (λ q. some (f q))
      → get (key_of p) (insert (key_of point) (f point) m)
        ≡ map_or (latest (point ∷ history) p) none (λ q. some (f q))
  noted f m p h = rw get-insert (elim (Bool-cases (key_of point == key_of p)) [
    | inl same ↦ rw same refl
    | inr other ↦ rw other h
  ])

  kept :
      {V : Type 0} (f : MetricPoint → V) (m : BTreeMap PointKey V) (p : MetricPoint)
      → policy_for rules point ≢ policy_for rules p
      → get (key_of p) m ≡ map_or (latest history p) none (λ q. some (f q))
      → get (key_of p) m ≡ map_or (latest (point ∷ history) p) none (λ q. some (f q))
  kept f m p h e = rw (latest_other p h) e

  judged_state :
      (o : Option MetricPoint)
      → not (map_or o none (λ q. some (observe q)) == some (observe point))
        ≡ judged state_change o point
  judged_state none = refl
  judged_state (some q) = refl

  judged_availability :
      (o : Option MetricPoint)
      → (is_some point.value || not (is_unavailable (map_or o none (λ q. some (is_some q.value)))))
        ≡ judged availability_change o point
  judged_availability none = ground arith
  judged_availability (some q) = ground arith

  emit_step :
      (e : SignalEmitter) (pol : SignalPolicy)
      → Tracks rules history e
      → policy_for rules point ≡ pol
      → ((by_policy pol e point).1 ≡ judged pol (latest history point) point)
        × Tracks rules (point ∷ history) (by_policy pol e point).0
  emit_step e enabled t h = (
    refl,
    record {
      policies = t.policies;
      states = λ p q. kept observe e.states p (λ same. ground arith) (t.states p q);
      availability = λ p q.
          kept (λ r. is_some r.value) e.availability p (λ same. ground arith) (t.availability p q);
    },
  )
  emit_step e disabled t h = (
    refl,
    record {
      policies = t.policies;
      states = λ p q. kept observe e.states p (λ same. ground arith) (t.states p q);
      availability = λ p q.
          kept (λ r. is_some r.value) e.availability p (λ same. ground arith) (t.availability p q);
    },
  )
  emit_step e state_change t h = (
    rw (t.states point h) (judged_state (latest history point)),
    record {
      policies = t.policies;
      states = λ p q. noted observe e.states p (t.states p q);
      availability = λ p q.
          kept (λ r. is_some r.value) e.availability p (λ same. ground arith) (t.availability p q);
    },
  )
  emit_step e availability_change t h = (
    rw (t.availability point h) (judged_availability (latest history point)),
    record {
      policies = t.policies;
      states = λ p q. kept observe e.states p (λ same. ground arith) (t.states p q);
      availability = λ p q. noted (λ r. is_some r.value) e.availability p (t.availability p q);
    },
  )

-- A history, latest first, after further points.
abbrev pub seen : List MetricPoint → List MetricPoint → List MetricPoint
seen [] history = history
seen (point ∷ points) history = seen points (point ∷ history)

should_emit_step :
    (rules : List CompiledRule) (history : List MetricPoint) (point : MetricPoint)
    (e : SignalEmitter)
    → Tracks rules history e
    → ((should_emit e point).1 ≡ judged (policy_for rules point) (latest history point) point)
      × Tracks rules (point ∷ history) (should_emit e point).0
unfolding should_emit
should_emit_step rules history point e t =
    let same : policy_for e.policies point ≡ policy_for rules point =
      ap (λ r. policy_for r point) t.policies in
    let (emit, next) = emit_step rules history point e (policy_for e.policies point) t (sym same) in
    (emit ∙ ap (λ pol. judged pol (latest history point) point) same, next)

filter_step :
    (rules : List CompiledRule) (history points : List MetricPoint) (e : SignalEmitter)
    → Tracks rules history e
    → ((filter e points).1 ≡ emitted rules history points)
      × Tracks rules (seen points history) (filter e points).0
unfolding filter
filter_step rules history [] e t = (refl, t)
filter_step rules history (point ∷ points) e t =
    let (emit, next) = should_emit_step rules history point e t in
    let (rest, last) = filter_step rules (point ∷ history) points (should_emit e point).0 next in
    (rw (emit, rest) refl, last)

Tracks-fresh : (rules : List CompiledRule) → Tracks rules [] (fresh rules)
unfolding get
Tracks-fresh rules = record { policies = refl; states = λ p h. refl; availability = λ p h. refl }

-- An emitter that has filtered `before` emits, of a further batch, exactly the points that the
-- history has it emit: all under `enabled` and where no rule matches, none under `disabled`, under
-- `state-change` a point whose value, quality or error code differs from that of the last point of
-- its series, or that is the first of it, and under `availability-change` a point with a value, the
-- first of its series, or one that follows a point with a value.
pub filter-emitted :
    (rules : List CompiledRule) (before points : List MetricPoint)
    → (filter (filter (fresh rules) before).0 points).1 ≡ emitted rules (seen before []) points
filter-emitted rules before points =
    let (_, t) = filter_step rules [] before (fresh rules) (Tracks-fresh rules) in
    (filter_step rules (seen before []) points (filter (fresh rules) before).0 t).0
