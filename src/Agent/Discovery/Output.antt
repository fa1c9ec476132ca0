-- ===== src/Agent/Discovery/Output.antt =====
-- The generated policies: which there are, and how many series of each class.
use mathlib.Core.List.{append_assoc, append-nil}
use spark_signals.Prelude.{ℕ, ◌+◌, ◌≡◌, refl, sym, ap, ◌∙◌, List, [], ◌∷◌, ◌++◌, length, arith}
use spark_signals.Order.{text_ord, nat_ord, pair_ord, list_ord, option_ord}
use spark_signals.BTreeMap.{BTreeSet}
use spark_signals.Agent.Discovery.Tracker.{
  DiscoveryKey, discovery_key_ord, DiscoverySummary, DiscoveryTracker, by_count, classification,
  GeneratedPolicy, count_class, policies_for, output_from, output,
}

-- The policies for the entries of a tracker, in order.
unfoldable pub generated : DiscoveryTracker → List GeneratedPolicy
generated [] = []
generated ((key, o) ∷ rest) = policies_for (classification o) key ++ generated rest

output_from-generated :
    (s : DiscoverySummary) (policies : List GeneratedPolicy) (tracker : DiscoveryTracker)
    → (output_from s policies tracker).0 ≡ policies ++ generated tracker
unfolding output_from generated
output_from-generated s policies [] = sym (append-nil policies)
output_from-generated s policies ((key, o) ∷ rest) =
    output_from-generated (count_class (classification o) s)
      (policies ++ policies_for (classification o) key) rest
    ∙ append_assoc policies (policies_for (classification o) key) (generated rest)

abbrev empty_summary : DiscoverySummary
empty_summary = record { valid_changing = 0; valid_unchanging = 0; invalid = 0 }

pub output-generated : (tracker : DiscoveryTracker) → (output tracker).0 ≡ generated tracker
unfolding output
output-generated tracker = output_from-generated empty_summary [] tracker

-- The policy that is written for a series, by the values that it had.
abbrev pub policies_of : DiscoveryKey → BTreeSet ℕ → List GeneratedPolicy
policies_of key [] =
    record {
      source = key.source;
      metric = key.metric;
      attributes = key.attributes;
      policy = "disabled";
      reason = "DISCOVERY_INVALID";
    }
    ∷ []
policies_of key (value ∷ []) =
    record {
      source = key.source;
      metric = key.metric;
      attributes = key.attributes;
      policy = "disabled";
      reason = "DISCOVERY_VALID_UNCHANGING";
    }
    ∷ []
policies_of key (value ∷ other ∷ values) = []

abbrev pub expected_policies : DiscoveryTracker → List GeneratedPolicy
expected_policies [] = []
expected_policies ((key, o) ∷ rest) = policies_of key o.successful_values ++ expected_policies rest

-- How many series had no value, one, and more.
abbrev pub without_value : BTreeSet ℕ → ℕ
without_value [] = 1
without_value (value ∷ values) = 0

abbrev pub with_one : BTreeSet ℕ → ℕ
with_one [] = 0
with_one (value ∷ []) = 1
with_one (value ∷ other ∷ values) = 0

abbrev pub with_more : BTreeSet ℕ → ℕ
with_more [] = 0
with_more (value ∷ []) = 0
with_more (value ∷ other ∷ values) = 1

abbrev pub sum : (BTreeSet ℕ → ℕ) → DiscoveryTracker → ℕ
sum f [] = 0
sum f ((key, o) ∷ rest) = f o.successful_values + sum f rest

class_policies :
    (key : DiscoveryKey) (values : BTreeSet ℕ) (s : DiscoverySummary)
    → (policies_for (by_count (length values)) key ≡ policies_of key values)
      × ((count_class (by_count (length values)) s).valid_changing
          ≡ s.valid_changing + with_more values)
      × ((count_class (by_count (length values)) s).valid_unchanging
          ≡ s.valid_unchanging + with_one values)
      × ((count_class (by_count (length values)) s).invalid ≡ s.invalid + without_value values)
class_policies key [] s = (refl, omega arith, omega arith, omega arith)
class_policies key (value ∷ []) s = (refl, omega arith, omega arith, omega arith)
class_policies key (value ∷ other ∷ values) s = (refl, omega arith, omega arith, omega arith)

generated-expected : (tracker : DiscoveryTracker) → generated tracker ≡ expected_policies tracker
unfolding generated classification
generated-expected [] = refl
generated-expected ((key, o) ∷ rest) =
    ap (λ x. x ++ generated rest) (class_policies key o.successful_values empty_summary).0
    ∙ ap (λ x. policies_of key o.successful_values ++ x) (generated-expected rest)

output_from_counts :
    (s : DiscoverySummary) (policies : List GeneratedPolicy) (tracker : DiscoveryTracker)
    → ((output_from s policies tracker).1.valid_changing ≡ s.valid_changing + sum with_more tracker)
      × ((output_from s policies tracker).1.valid_unchanging
          ≡ s.valid_unchanging + sum with_one tracker)
      × ((output_from s policies tracker).1.invalid ≡ s.invalid + sum without_value tracker)
unfolding output_from classification
output_from_counts s policies [] = (omega arith, omega arith, omega arith)
output_from_counts s policies ((key, o) ∷ rest) =
    let c = by_count (length o.successful_values) in
    let ih = output_from_counts (count_class c s) (policies ++ policies_for c key) rest in
    let k = class_policies key o.successful_values s in
    (omega (arith, ih.0, k.1), omega (arith, ih.1, k.2), omega (arith, ih.2, k.3))

-- The generated file has, in the order of the series, a policy `disabled` for each that had one
-- value or none, with its source, its metric, all of its attributes and the reason for which it was
-- chosen, and no other. The summary counts the series with more values, with one, and with none.
pub output_counts :
    (tracker : DiscoveryTracker)
    → ((output tracker).0 ≡ expected_policies tracker)
      × ((output tracker).1.valid_changing ≡ sum with_more tracker)
      × ((output tracker).1.valid_unchanging ≡ sum with_one tracker)
      × ((output tracker).1.invalid ≡ sum without_value tracker)
unfolding output
output_counts tracker =
    let k = output_from_counts empty_summary [] tracker in
    (
      output-generated tracker ∙ generated-expected tracker,
      omega (arith, k.0),
      omega (arith, k.1),
      omega (arith, k.2),
    )
