-- ===== src/Agent/Policy/Choice.antt =====
-- Which rule decides: the most specific of the rules that match. Where no two rules of equal
-- specificity overlap, that rule is the only one, in whatever order the rules stand.
use mathlib.Core.List.{Memᴰ}
use spark_signals.Prelude.{
  ◌≤◌, ◌≡◌, refl, sym, subst, ◌≢◌, ap, ◌∙◌, Bool, true, false, none, some, List, [], ◌∷◌, All, all,
  all_mono, keep, arith, max_by_key, max_by_key-ge, mem_of_max_by_key, empty_of_max_by_key, length,
  String, is_none_or, All-mem, mem-keep, mem_of_keep, Option-cases, inl, inr,
}
use spark_signals.Order.{◌==◌, text_ord, nat_ord, pair_ord, list_ord, option_ord, eq_iff, eq_refl}
use spark_signals.BTreeMap.{get, test_of_get}
use spark_signals.Schema.{MetricPoint, Attributes}
use spark_signals.Agent.Policy.Rules.{
  SignalPolicy, SignalSelector, CompiledRule, matches, can_overlap, specificity, policy_for,
}

-- No two of the rules have selectors of equal specificity that could match one point.
abbrev pub IsUnambiguous : List CompiledRule → Type 0
IsUnambiguous [] = Unit
IsUnambiguous (r ∷ rules) =
    All (λ s. can_overlap r.selector s.selector ≡ false) rules × IsUnambiguous rules

abbrev same_value : Attributes → String × String → Bool
same_value m e = get e.0 m == some e.1

-- A selector matches by its source, its metric, and a point that has all of its attributes.
matches_parts :
    (a : SignalSelector) (point : MetricPoint)
    → matches a point ≡ true
    → (a.source ≡ point.source)
      × (a.metric ≡ point.name)
      × (all (same_value point.attributes) a.attributes ≡ true)
unfolding matches
matches_parts a point h = ground (arith, eq_iff a.source point.source, eq_iff a.metric point.name)

-- Of two selectors that match one point, neither names an attribute with another value.
agree :
    (m n : Attributes) (e : String × String)
    → all (same_value m) n ≡ true
    → same_value m e ≡ true
    → is_none_or (get e.0 n) (λ value. value == e.1) ≡ true
agree m n e k h = elim (Option-cases (get e.0 n)) [
  | inl p ↦ rw p refl
  | inr (v, p) ↦
      let q : get e.0 m ≡ some v =
        (eq_iff (get e.0 m) (some v)).0 (test_of_get (same_value m) n e.0 v k p) in
      let r : get e.0 m ≡ some e.1 = (eq_iff (get e.0 m) (some e.1)).0 h in
      let same : v ≡ e.1 = cc in rw (p, same, eq_refl e.1) refl
]

overlap_of_matches :
    (a b : SignalSelector) (point : MetricPoint)
    → matches a point ≡ true
    → matches b point ≡ true
    → length a.attributes ≡ length b.attributes
    → can_overlap a b ≡ true
unfolding can_overlap
overlap_of_matches a b point h k l =
    let p = matches_parts a point h in
    let q = matches_parts b point k in
    let source : a.source ≡ b.source = p.0 ∙ sym q.0 in
    let metric : a.metric ≡ b.metric = p.1 ∙ sym q.1 in
    rw (source, metric, l, eq_refl b.source, eq_refl b.metric, eq_refl (length b.attributes))
      (all_mono _ _ (λ e x. agree point.attributes b.attributes e q.2 x) a.attributes p.2)

-- The rules of an unambiguous set that match one point with one specificity are one rule.
same_rule :
    (r s : CompiledRule) (point : MetricPoint) (rules : List CompiledRule)
    → IsUnambiguous rules
    → Memᴰ r rules
    → Memᴰ s rules
    → matches r.selector point ≡ true
    → matches s.selector point ≡ true
    → specificity r ≡ specificity s
    → r ≡ s
same_rule r s point [] u m n h k l = elim m [ ]
same_rule r s point (x ∷ rules) u (Memᴰ.head e) (Memᴰ.head f) h k l = e ∙ sym f
same_rule r s point (x ∷ rules) u (Memᴰ.head e) (Memᴰ.tail m) h k l = cc (
  e,
  All-mem (λ y. can_overlap x.selector y.selector ≡ false) s rules u.0 m,
  overlap_of_matches r.selector s.selector point h k l,
)
same_rule r s point (x ∷ rules) u (Memᴰ.tail m) (Memᴰ.head f) h k l = cc (
  f,
  All-mem (λ y. can_overlap x.selector y.selector ≡ false) r rules u.0 m,
  overlap_of_matches s.selector r.selector point k h (sym l),
)
same_rule r s point (x ∷ rules) u (Memᴰ.tail m) (Memᴰ.tail n) h k l =
    same_rule r s point rules u.1 m n h k l

-- `rule` is among the rules, matches the point, and no rule that matches is more specific.
pub record IsChosen (rules : List CompiledRule) (point : MetricPoint) (rule : CompiledRule)
    : Type 0 where
  pub listed : Memᴰ rule rules
  pub matching : matches rule.selector point ≡ true
  pub most_specific :
      (s : CompiledRule)
      → Memᴰ s rules
      → matches s.selector point ≡ true
      → specificity s ≤ specificity rule

abbrev matching : List CompiledRule → MetricPoint → List CompiledRule
matching rules point = keep (λ rule. matches rule.selector point) rules

chosen :
    (rules : List CompiledRule) (point : MetricPoint) (rule : CompiledRule)
    → max_by_key specificity (matching rules point) ≡ some rule
    → IsChosen rules point rule
chosen rules point rule h =
    let (m, k) =
      mem_of_keep _ rule rules (mem_of_max_by_key specificity (matching rules point) rule h) in
    record {
      listed = m;
      matching = k;
      most_specific = λ s n l.
          max_by_key-ge specificity (matching rules point) rule s h (mem-keep _ s rules l n);
    }

chosen_unique :
    {rules : List CompiledRule} {point : MetricPoint} {r s : CompiledRule}
    → IsUnambiguous rules
    → IsChosen rules point r
    → IsChosen rules point s
    → r ≡ s
chosen_unique {rules} {point} {r} {s} u c d =
    same_rule r s point rules u c.listed d.listed c.matching d.matching
      (omega (arith, c.most_specific s d.listed d.matching, d.most_specific r c.listed c.matching))

not-mem-nil : {a : CompiledRule} {rules : List CompiledRule} → rules ≡ [] → ¬ Memᴰ a rules
not-mem-nil {a} e m = elim (subst (Memᴰ a) e m) [ ]

-- Where a rule is chosen, the search over the matching rules finds one.
search-ne-none :
    {rules : List CompiledRule} {point : MetricPoint} {rule : CompiledRule}
    → IsChosen rules point rule
    → max_by_key specificity (matching rules point) ≢ none
search-ne-none {rules} {point} {rule} c h =
    not-mem-nil (empty_of_max_by_key specificity (matching rules point) h)
      (mem-keep _ rule rules c.matching c.listed)

-- If no two rules of equal specificity overlap, the policy for a point is that of the rule that
-- matches it and is at least as specific as every other rule that matches.
pub policy_for_chosen :
    (rules : List CompiledRule) (point : MetricPoint) (rule : CompiledRule)
    → IsUnambiguous rules
    → IsChosen rules point rule
    → policy_for rules point ≡ rule.policy
unfolding policy_for
policy_for_chosen rules point rule u c =
    elim (Option-cases (max_by_key specificity (matching rules point))) [
      | inl p ↦ absurd (search-ne-none c p)
      | inr (r, p) ↦ rw p (ap (λ x. x.policy) (chosen_unique u (chosen rules point r p) c))
    ]

moved :
    (rules others : List CompiledRule) (point : MetricPoint) (rule : CompiledRule)
    → ((r : CompiledRule) → Memᴰ r rules → Memᴰ r others)
    → ((r : CompiledRule) → Memᴰ r others → Memᴰ r rules)
    → IsChosen rules point rule
    → IsChosen others point rule
moved rules others point rule to from c = record {
  listed = to rule c.listed;
  matching = c.matching;
  most_specific = λ s m. c.most_specific s (from s m);
}

-- If no two rules of equal specificity overlap, the policy for a point does not depend on the
-- order of the rules, nor on rules that are listed twice.
pub policy_for_order :
    (rules others : List CompiledRule) (point : MetricPoint)
    → IsUnambiguous rules
    → ((r : CompiledRule) → Memᴰ r rules → Memᴰ r others)
    → ((r : CompiledRule) → Memᴰ r others → Memᴰ r rules)
    → policy_for others point ≡ policy_for rules point
unfolding policy_for
policy_for_order rules others point u to from =
    elim (Option-cases (max_by_key specificity (matching others point))) [
      | inl p ↦ elim (Option-cases (max_by_key specificity (matching rules point))) [
        | inl q ↦ rw (p, q)
        | inr (r, q) ↦
            absurd (search-ne-none (moved rules others point r to from (chosen rules point r q)) p)
      ]
      | inr (s, p) ↦
          let c = moved others rules point s from to (chosen others point s p) in
          rw p (sym (policy_for_chosen rules point s u c))
    ]

-- Where all rules have one policy, a point that some rule matches has that policy.
pub policy_for_uniform :
    (rules : List CompiledRule) (point : MetricPoint) (rule : CompiledRule) (policy : SignalPolicy)
    → All (λ r. r.policy ≡ policy) rules
    → Memᴰ rule rules
    → matches rule.selector point ≡ true
    → policy_for rules point ≡ policy
unfolding policy_for
policy_for_uniform rules point rule policy a m h =
    elim (Option-cases (max_by_key specificity (matching rules point))) [
      | inl p ↦ absurd (
          not-mem-nil (empty_of_max_by_key specificity (matching rules point) p)
            (mem-keep _ rule rules h m))
      | inr (r, p) ↦ rw p (All-mem _ r rules a (chosen rules point r p).listed)
    ]
