-- ===== src/Tests/Discovery.antt =====
-- Discovery at concrete observations.
use spark_signals.Prelude.{String, ◌≡◌, refl, false, some, ok, map, List, [], ◌∷◌, arith}
use spark_signals.Order.{text_ord, pair_ord, list_ord}
use spark_signals.Float.{zero_f64, one_f64}
use spark_signals.BTreeMap.{get, IsSorted}
use spark_signals.Schema.{MetricPoint, Attributes}
use spark_signals.Prelude.Optional.{collect_all}
use spark_signals.Agent.Policy.{SignalEmitter, SignalPolicy, fresh, should_emit}
use spark_signals.Agent.Policy.Load.{PolicyEntry, into_rule, add_entries}
use spark_signals.Agent.Discovery.{
  discovery_key_ord, key_of, Observation, Classification, DiscoveryTracker, observe, classification,
  output,
}
use spark_signals.Agent.Discovery.Classes.{EntryDescribes, observe-EntryDescribes}
use spark_signals.Agent.Discovery.Output.{
  expected_policies, sum, with_more, with_one, without_value, output_counts,
}
use spark_signals.Agent.Discovery.Installed.{Extends, entry_of, extension-suppressed}
use spark_signals.Tests.Data.{quiet, failed, xid_79}

-- the total of GPU 0 stays at zero while one kind of error changes
abbrev points : List MetricPoint
points = quiet ∷ xid_79 zero_f64 ∷ failed ∷ xid_79 one_f64 ∷ quiet ∷ []

observe-EntryDescribes_example :
    EntryDescribes (get (key_of quiet) (observe [] points)) (key_of quiet) points
observe-EntryDescribes_example = observe-EntryDescribes points (key_of quiet)

abbrev tracker : DiscoveryTracker
unfolding observe
tracker = observe [] points

output_counts_example :
    ((output tracker).0 ≡ expected_policies tracker)
    × ((output tracker).1.valid_changing ≡ sum with_more tracker)
    × ((output tracker).1.valid_unchanging ≡ sum with_one tracker)
    × ((output tracker).1.invalid ≡ sum without_value tracker)
output_counts_example = output_counts tracker

abbrev entry : String → Attributes → PolicyEntry
entry reason attributes = record {
  source = quiet.source;
  metric = quiet.name;
  attributes = attributes;
  policy = SignalPolicy.disabled;
  reason = reason;
}

abbrev entries : List PolicyEntry
entries = entry "DISCOVERY_VALID_UNCHANGING" quiet.attributes ∷ []

was_read : collect_all (map entry_of (output tracker).0) ≡ some entries
unfolding output spark_signals.Agent.Discovery.output_from classification tracker
    spark_signals.BTreeMap.insert get
was_read = refl

abbrev emitter : SignalEmitter
emitter = fresh (map into_rule entries)

was_loaded : add_entries [] entries ≡ ok emitter.policies
unfolding add_entries spark_signals.Agent.Policy.Load.add_entry
    spark_signals.Agent.Policy.Load.validate spark_signals.Agent.Policy.Load.source_allowed
    spark_signals.Schema.metric_name_allowed spark_signals.Schema.attribute_name_allowed
was_loaded = refl

abbrev silent : Observation
silent = record { successful_values = (0, tt) ∷ []; failures = 1 }

silent_entry : get (key_of quiet) tracker ≡ some silent
unfolding get tracker spark_signals.BTreeMap.insert
silent_entry = refl

Extends-xid : Extends (key_of quiet) (xid_79 one_f64)
unfolding get
Extends-xid = record { source = refl; metric = refl; attributes = λ name value h. ground arith }

extension-suppressed_example : (should_emit emitter (xid_79 one_f64)).1 ≡ false
extension-suppressed_example =
    extension-suppressed tracker (key_of quiet) silent (xid_79 one_f64) entries emitter silent_entry
      (omega arith) (tt, tt) Extends-xid was_read was_loaded
