-- ===== src/Agent/Policy/Rules.antt =====
-- The compiled rules and the choice of the rule for a point.
use spark_signals.Prelude.{
  ℕ, String, ◌≡◌, Bool, ◌&&◌, some, List, all, length, keep, map_or, max_by_key, is_none_or,
}
use spark_signals.Order.{Ord, ord_by, ◌==◌, text_ord, nat_ord, pair_ord, list_ord, option_ord}
use spark_signals.BTreeMap.{get}
use spark_signals.Schema.{MetricPoint, Attributes}

pub data SignalPolicy : Type 0 where
  enabled disabled state_change availability_change : SignalPolicy

pub record SignalSelector : Type 0 where
  pub source : String
  pub metric : String
  pub attributes : Attributes

pub record CompiledRule : Type 0 where
  pub selector : SignalSelector
  pub policy : SignalPolicy
  pub reason : String

pub record PointKey : Type 0 where
  pub source : String
  pub metric : String
  pub attributes : Attributes

abbrev fields : PointKey → String × (String × Attributes)
fields k = (k.source, (k.metric, k.attributes))

pub fields-injective : (a b : PointKey) → fields a ≡ fields b → a ≡ b
fields-injective a b h =
    λ i. record { source = (h i).0; metric = (h i).1.0; attributes = (h i).1.1 }

instance abbrev pub point_key_ord : Ord PointKey
point_key_ord = ord_by fields fields-injective

-- `PointKey::from`
abbrev pub key_of : MetricPoint → PointKey
key_of point = record { source = point.source; metric = point.name; attributes = point.attributes }

-- `SignalSelector::matches`
unfoldable pub matches : SignalSelector → MetricPoint → Bool
unfolding get
matches selector point =
    selector.source == point.source
    && selector.metric == point.name
    && all (λ e. get e.0 point.attributes == some e.1) selector.attributes

-- `SignalSelector::can_overlap`
unfoldable pub can_overlap : SignalSelector → SignalSelector → Bool
unfolding get
can_overlap selector other =
    selector.source == other.source
    && selector.metric == other.metric
    && length selector.attributes == length other.attributes
    && all (λ e. is_none_or (get e.0 other.attributes) (λ value. value == e.1)) selector.attributes

abbrev pub specificity : CompiledRule → ℕ
specificity rule = length rule.selector.attributes

-- `SignalPolicySet::policy_for`
unfoldable pub policy_for : List CompiledRule → MetricPoint → SignalPolicy
unfolding matches max_by_key
policy_for rules point =
    map_or (max_by_key specificity (keep (λ rule. matches rule.selector point) rules)) enabled
      (λ rule. rule.policy)
