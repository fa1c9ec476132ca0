-- ===== src/Agent/Discovery/Tracker.antt =====
-- `DiscoveryTracker` and its output. Writing the encoded output to disk is left out.
use spark_signals.Prelude.{
  ℕ, zero, suc, ◌+◌, ◌-◌, ◌^◌, String, ◌≡◌, Bool, true, false, Option, some, List, [], ◌∷◌, ◌++◌,
  length, min, unwrap_or,
}
use spark_signals.Order.{Ord, ord_by, text_ord, nat_ord, pair_ord, list_ord}
use spark_signals.BTreeMap.{BTreeMap, BTreeSet, get, insert}
use spark_signals.Float.{F64}
use spark_signals.Schema.{
  MetricPoint, Attributes, Quality, measured, derived, estimated, unsupported, error, stale,
}

pub record DiscoveryKey : Type 0 where
  pub source : String
  pub metric : String
  pub attributes : Attributes

abbrev fields : DiscoveryKey → String × (String × Attributes)
fields k = (k.source, (k.metric, k.attributes))

pub fields-injective : (a b : DiscoveryKey) → fields a ≡ fields b → a ≡ b
fields-injective a b h =
    λ i. record { source = (h i).0; metric = (h i).1.0; attributes = (h i).1.1 }

instance abbrev pub discovery_key_ord : Ord DiscoveryKey
discovery_key_ord = ord_by fields fields-injective

-- `DiscoveryKey::from`
abbrev pub key_of : MetricPoint → DiscoveryKey
key_of point = record { source = point.source; metric = point.name; attributes = point.attributes }

pub record Observation : Type 0 where
  pub successful_values : BTreeSet ℕ
  pub failures : ℕ

abbrev pub no_observation : Observation
no_observation = record { successful_values = []; failures = 0 }

pub data Classification : Type 0 where
  valid_changing valid_unchanging invalid : Classification

pub record DiscoverySummary : Type 0 where
  pub valid_changing : ℕ
  pub valid_unchanging : ℕ
  pub invalid : ℕ

abbrev pub DiscoveryTracker : Type 0
DiscoveryTracker = BTreeMap DiscoveryKey Observation

-- matches!(point.quality, Quality::Measured | Quality::Derived | Quality::Estimated)
abbrev pub has_value_quality : Quality → Bool
has_value_quality measured = true
has_value_quality derived = true
has_value_quality estimated = true
has_value_quality unsupported = false
has_value_quality error = false
has_value_quality stale = false

-- `u64::saturating_add`
abbrev pub saturating_add : ℕ → ℕ → ℕ
saturating_add a b = min (a + b) (2 ^ 64 - 1)

abbrev pub note : Option F64 → Bool → Observation → Observation
note (some value) true o = record o {
  successful_values = insert value.to_bits tt o.successful_values;
}
note _ _ o = record o { failures = saturating_add o.failures 1 }

-- one round of `DiscoveryTracker::observe`
unfoldable pub observe_point : DiscoveryTracker → MetricPoint → DiscoveryTracker
observe_point tracker point =
    insert (key_of point)
      (note point.value (has_value_quality point.quality)
        (unwrap_or (get (key_of point) tracker) no_observation))
      tracker

unfoldable pub observe : DiscoveryTracker → List MetricPoint → DiscoveryTracker
unfolding observe_point
observe tracker [] = tracker
observe tracker (point ∷ points) = observe (observe_point tracker point) points

-- `Observation::classification`
abbrev pub by_count : ℕ → Classification
by_count zero = Classification.invalid
by_count (suc zero) = Classification.valid_unchanging
by_count (suc (suc n)) = Classification.valid_changing

unfoldable pub classification : Observation → Classification
classification o = by_count (length o.successful_values)

pub record GeneratedPolicy : Type 0 where
  pub source : String
  pub metric : String
  pub attributes : Attributes
  pub policy : String
  pub reason : String

-- `GeneratedPolicy::new`
abbrev pub generate : DiscoveryKey → String → GeneratedPolicy
generate key reason = record {
  source = key.source;
  metric = key.metric;
  attributes = key.attributes;
  policy = "disabled";
  reason = reason;
}

abbrev pub reason_invalid : String
reason_invalid = "DISCOVERY_INVALID"

abbrev pub reason_valid_unchanging : String
reason_valid_unchanging = "DISCOVERY_VALID_UNCHANGING"

abbrev pub count_class : Classification → DiscoverySummary → DiscoverySummary
count_class Classification.valid_changing s = record s { valid_changing = s.valid_changing + 1 }
count_class Classification.valid_unchanging s = record s {
  valid_unchanging = s.valid_unchanging + 1;
}
count_class Classification.invalid s = record s { invalid = s.invalid + 1 }

abbrev pub policies_for : Classification → DiscoveryKey → List GeneratedPolicy
policies_for Classification.valid_changing key = []
policies_for Classification.valid_unchanging key = generate key reason_valid_unchanging ∷ []
policies_for Classification.invalid key = generate key reason_invalid ∷ []

-- the loop of `DiscoveryTracker::output`
unfoldable pub output_from :
    DiscoverySummary
    → List GeneratedPolicy
    → DiscoveryTracker
    → List GeneratedPolicy × DiscoverySummary
unfolding classification
output_from summary policies [] = (policies, summary)
output_from summary policies ((key, observation) ∷ rest) =
    let class = classification observation in
    output_from (count_class class summary) (policies ++ policies_for class key) rest

unfoldable pub output : DiscoveryTracker → List GeneratedPolicy × DiscoverySummary
unfolding output_from
output tracker =
    output_from (record { valid_changing = 0; valid_unchanging = 0; invalid = 0 }) [] tracker
