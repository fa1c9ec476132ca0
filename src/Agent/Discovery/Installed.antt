-- ===== src/Agent/Discovery/Installed.antt =====
-- The generated policies once they are installed: what is read of them, and what they suppress.
use mathlib.Core.List.{Memᴰ}
use spark_signals.Prelude.{
  ℕ, ◌≤◌, String, ◌≡◌, ◌≢◌, refl, sym, subst, ap, ◌∙◌, true, false, Option, none, some, ok,
  if◌then◌else◌, All-append, List, [], ◌∷◌, map, length, All, arith, mem-append_left,
  mem-append_right, mem-map, Bool-cases, inl, inr,
}
use spark_signals.Prelude.Optional.{◌>>=◌, collect_all}
use spark_signals.Order.{◌==◌, eq_iff, eq_refl, text_ord, nat_ord, pair_ord, list_ord, option_ord}
use spark_signals.BTreeMap.{BTreeSet, get, IsSorted, all_of_get}
use spark_signals.Schema.{MetricPoint}
use spark_signals.Agent.Policy.{
  SignalPolicy, CompiledRule, SignalEmitter, matches, should_emit, by_policy, policy_for,
}
use spark_signals.Agent.Policy.Choice.{policy_for_uniform}
use spark_signals.Agent.Policy.Load.{PolicyEntry, into_rule, add_entries}
use spark_signals.Agent.Policy.Accepted.{add_entries_iff}
use spark_signals.Agent.Discovery.Tracker.{
  DiscoveryKey, discovery_key_ord, Observation, Classification, DiscoveryTracker, by_count,
  classification, GeneratedPolicy, generate, reason_invalid, reason_valid_unchanging, policies_for,
  output,
}
use spark_signals.Agent.Discovery.Output.{generated, output-generated}

-- The policy that serde reads from its name, in kebab case.
abbrev pub policy_named : String → Option SignalPolicy
policy_named name =
    if name == "enabled"
    then some SignalPolicy.enabled
    else if name == "disabled"
    then some SignalPolicy.disabled
    else if name == "state-change"
    then some SignalPolicy.state_change
    else if name == "availability-change"
    then some SignalPolicy.availability_change
    else none

-- The entry that TOML decoding reads back from a generated policy, if the name is one.
abbrev pub entry_of : GeneratedPolicy → Option PolicyEntry
entry_of g = do
  policy ← policy_named g.policy
  some (record {
    source = g.source;
    metric = g.metric;
    attributes = g.attributes;
    policy = policy;
    reason = g.reason;
  })

abbrev disabled_of : GeneratedPolicy → PolicyEntry
disabled_of g = record {
  source = g.source;
  metric = g.metric;
  attributes = g.attributes;
  policy = SignalPolicy.disabled;
  reason = g.reason;
}

entry_of-disabled :
    (g : GeneratedPolicy) → g.policy ≡ "disabled" → entry_of g ≡ some (disabled_of g)
entry_of-disabled g h = rw h refl

entries_of-disabled :
    (gs : List GeneratedPolicy)
    → All (λ g. g.policy ≡ "disabled") gs
    → collect_all (map entry_of gs) ≡ some (map disabled_of gs)
entries_of-disabled [] a = refl
entries_of-disabled (g ∷ gs) a = rw (entry_of-disabled g a.0, entries_of-disabled gs a.1) refl

policies_for-disabled :
    (c : Classification) (key : DiscoveryKey)
    → All (λ g. g.policy ≡ "disabled") (policies_for c key)
policies_for-disabled Classification.valid_changing key = tt
policies_for-disabled Classification.valid_unchanging key = (refl, tt)
policies_for-disabled Classification.invalid key = (refl, tt)

generated-disabled :
    (tracker : DiscoveryTracker) → All (λ g. g.policy ≡ "disabled") (generated tracker)
unfolding generated
generated-disabled [] = tt
generated-disabled ((key, o) ∷ rest) =
    All-append (λ g. g.policy ≡ "disabled") (policies_for (classification o) key) (generated rest)
      (policies_for-disabled (classification o) key) (generated-disabled rest)

policies_for-mem :
    (c : Classification) (k : DiscoveryKey)
    → c ≢ Classification.valid_changing
    → (reason : String) × Memᴰ (generate k reason) (policies_for c k)
policies_for-mem Classification.valid_changing k n = absurd (n refl)
policies_for-mem Classification.valid_unchanging k n = (reason_valid_unchanging, Memᴰ.head refl)
policies_for-mem Classification.invalid k n = (reason_invalid, Memᴰ.head refl)

listed_head :
    (j : DiscoveryKey) (x : Observation) (rest : DiscoveryTracker) (k : DiscoveryKey)
    (o : Observation)
    → j ≡ k
    → x ≡ o
    → classification o ≢ Classification.valid_changing
    → (reason : String) × Memᴰ (generate k reason) (generated ((j, x) ∷ rest))
unfolding generated
listed_head j x rest k o e f n =
    let (reason, m) = policies_for-mem (classification o) k n in
    let at : policies_for (classification x) j ≡ policies_for (classification o) k = cc in
    (
      reason,
      rw at (
          mem-append_left (generate k reason) (policies_for (classification o) k) (generated rest)
            m),
    )

generated-mem :
    (tracker : DiscoveryTracker) (k : DiscoveryKey) (o : Observation)
    → get k tracker ≡ some o
    → classification o ≢ Classification.valid_changing
    → (reason : String) × Memᴰ (generate k reason) (generated tracker)
unfolding generated get
generated-mem [] k o h n = cc
generated-mem ((j, x) ∷ rest) k o h n = elim (Bool-cases (j == k)) [
  | inl same ↦
      let e : j ≡ k = (eq_iff j k).0 same in
      let f : x ≡ o = ground arith in listed_head j x rest k o e f n
  | inr other ↦
      let g : get k rest ≡ some o = ground arith in
      let (reason, m) = generated-mem rest k o g n in
      (
        reason,
        mem-append_right (generate k reason) (policies_for (classification x) j) (generated rest) m,
      )
]

rules_of : List GeneratedPolicy → List CompiledRule
rules_of gs = map into_rule (map disabled_of gs)

rules_of-disabled :
    (gs : List GeneratedPolicy) → All (λ r. r.policy ≡ SignalPolicy.disabled) (rules_of gs)
unfolding rules_of
rules_of-disabled [] = tt
rules_of-disabled (g ∷ gs) = (refl, rules_of-disabled gs)

-- What is installed of generated policies.
installed :
    (gs : List GeneratedPolicy) (entries : List PolicyEntry) (rules : List CompiledRule)
    → All (λ g. g.policy ≡ "disabled") gs
    → collect_all (map entry_of gs) ≡ some entries
    → add_entries [] entries ≡ ok rules
    → rules ≡ rules_of gs
unfolding rules_of
installed gs entries rules a h l =
    let read : map disabled_of gs ≡ entries = cc (entries_of-disabled gs a, h) in
    ((add_entries_iff entries rules).0 l).2 ∙ ap (map into_rule) (sym read)

-- `point` has the source and the metric of the series `k`, and all of its attributes.
pub record Extends (k : DiscoveryKey) (point : MetricPoint) : Type 0 where
  pub source : k.source ≡ point.source
  pub metric : k.metric ≡ point.name
  pub attributes :
      (name value : String)
      → get name k.attributes ≡ some value
      → get name point.attributes ≡ some value

Extends-matches :
    (k : DiscoveryKey) (point : MetricPoint) (reason : String)
    → IsSorted k.attributes
    → Extends k point
    → matches (into_rule (disabled_of (generate k reason))).selector point ≡ true
unfolding matches
Extends-matches k point reason s e =
    rw
      (
        e.source,
        e.metric,
        eq_refl point.source,
        eq_refl point.name,
        all_of_get (λ x. get x.0 point.attributes == some x.1) k.attributes s
            (λ name value h.
              (eq_iff (get name point.attributes) (some value)).1 (e.attributes name value h)),
      )
      refl

not_changing :
    (values : BTreeSet ℕ)
    → length values ≤ 1
    → by_count (length values) ≢ Classification.valid_changing
not_changing [] h = λ e. ground (arith, e)
not_changing (value ∷ []) h = λ e. ground (arith, e)
not_changing (value ∷ other ∷ values) h = absurd (omega (arith, h))

-- With the output of a discovery installed, that is read as TOML and loaded, no point is emitted
-- that has the source, the metric and all the attributes of a series with one value or none, though
-- it may have more attributes and its own series may be a changing one.
pub extension-suppressed :
    (tracker : DiscoveryTracker) (k : DiscoveryKey) (o : Observation) (point : MetricPoint)
    (entries : List PolicyEntry) (emitter : SignalEmitter)
    → get k tracker ≡ some o
    → length o.successful_values ≤ 1
    → IsSorted k.attributes
    → Extends k point
    → collect_all (map entry_of (output tracker).0) ≡ some entries
    → add_entries [] entries ≡ ok emitter.policies
    → (should_emit emitter point).1 ≡ false
unfolding should_emit rules_of classification
extension-suppressed tracker k o point entries emitter h n s e read loaded =
    let (reason, m) = generated-mem tracker k o h (not_changing o.successful_values n) in
    let gs = generated tracker in
    let p : emitter.policies ≡ rules_of gs =
      installed gs entries emitter.policies (generated-disabled tracker)
        (subst (λ x. collect_all (map entry_of x) ≡ some entries) (output-generated tracker) read)
        loaded in
    let rule = into_rule (disabled_of (generate k reason)) in
    let decided : policy_for (rules_of gs) point ≡ SignalPolicy.disabled =
      policy_for_uniform (rules_of gs) point rule SignalPolicy.disabled (rules_of-disabled gs)
        (mem-map into_rule (disabled_of (generate k reason)) (map disabled_of gs)
          (mem-map disabled_of (generate k reason) gs m))
        (Extends-matches k point reason s e) in
    ap (λ pol. (by_policy pol emitter point).1) (ap (λ r. policy_for r point) p ∙ decided)
