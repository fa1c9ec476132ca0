-- ===== src/Tests/Policy.antt =====
-- The signal policies at concrete rules and points.
use mathlib.Core.List.{Memᴰ}
use spark_signals.Prelude.{
  ◌≡◌, ◌≤◌, ◌↔◌, refl, String, false, Option, none, some, List, [], ◌∷◌, ◌++◌, map, All, ok, arith,
}
use spark_signals.Schema.{MetricPoint, Quality}
use spark_signals.Agent.Policy.{
  SignalPolicy, CompiledRule, SignalEmitter, fresh, filter, matches, can_overlap, policy_for,
  specificity,
}
use spark_signals.Directory.{Directory, File}
use spark_signals.Agent.Policy.Load.{
  PolicyEntry, PolicyFile, into_rule, add_entry, add_entries, load_policy_directory,
}
use spark_signals.Agent.Policy.Loaded.{
  IsValidRule, IsSound, load_policy_directory-IsSound, policy_of_directory,
}
use spark_signals.Agent.Policy.Accepted.{add_entry_iff, add_entries_iff}
use spark_signals.Agent.Policy.Choice.{IsUnambiguous, IsChosen, policy_for_chosen, policy_for_order}
use spark_signals.Agent.Policy.Emission.{emitted, seen, filter-emitted}
use spark_signals.Tests.Data.{quiet, failed, entry, gpu_entry}

abbrev wide : CompiledRule
wide = into_rule (entry SignalPolicy.disabled)

abbrev narrow : CompiledRule
narrow = into_rule (gpu_entry SignalPolicy.state_change)

abbrev rules : List CompiledRule
rules = wide ∷ narrow ∷ []

unambiguous : IsUnambiguous rules
unfolding can_overlap
unambiguous = ((refl, tt), (tt, tt))

chosen : IsChosen rules quiet narrow
unfolding matches
chosen = record {
  listed = Memᴰ.tail (Memᴰ.head refl);
  matching = refl;
  most_specific = λ s m h. most s m;
}
  where
    most : (s : CompiledRule) → Memᴰ s rules → specificity s ≤ 1
    most s (Memᴰ.head e) = rw e (ground arith)
    most s (Memᴰ.tail (Memᴰ.head e)) = rw e (ground arith)
    most s (Memᴰ.tail (Memᴰ.tail m)) = elim m [ ]

-- a decoder that reads one file
abbrev from_str : String → Option PolicyFile
from_str text = some (entry SignalPolicy.disabled ∷ gpu_entry SignalPolicy.state_change ∷ [])

abbrev directory : Directory
directory = some (
    some (record { name = "gpu.toml"; text = some "" })
    ∷ some (record { name = "notes.txt"; text = none })
    ∷ [])

loaded : load_policy_directory from_str directory ≡ ok rules
unfolding load_policy_directory spark_signals.Directory.collect
    spark_signals.Agent.Policy.Load.load_files spark_signals.Directory.sort
    spark_signals.Directory.is_toml spark_signals.Agent.Policy.Load.load_file add_entries add_entry
    spark_signals.Agent.Policy.Load.validate spark_signals.Schema.metric_name_allowed
    spark_signals.Agent.Policy.Load.source_allowed spark_signals.Schema.attribute_name_allowed
    can_overlap
loaded = refl

load_policy_directory-IsSound_example : IsSound rules
load_policy_directory-IsSound_example =
    load_policy_directory-IsSound from_str directory rules loaded

policy_of_directory_example : policy_for rules quiet ≡ SignalPolicy.state_change
policy_of_directory_example =
    policy_of_directory from_str directory rules quiet narrow loaded chosen

policy_for_chosen_example : policy_for rules quiet ≡ SignalPolicy.state_change
policy_for_chosen_example = policy_for_chosen rules quiet narrow unambiguous chosen

swap : {a b : CompiledRule} (r : CompiledRule) → Memᴰ r (a ∷ b ∷ []) → Memᴰ r (b ∷ a ∷ [])
swap r (Memᴰ.head e) = Memᴰ.tail (Memᴰ.head e)
swap r (Memᴰ.tail (Memᴰ.head e)) = Memᴰ.head e
swap r (Memᴰ.tail (Memᴰ.tail m)) = elim m [ ]

policy_for_order_example : policy_for (narrow ∷ wide ∷ []) quiet ≡ policy_for rules quiet
policy_for_order_example = policy_for_order rules (narrow ∷ wide ∷ []) quiet unambiguous swap swap

add_entry_iff_example : (add_entry (wide ∷ []) (gpu_entry SignalPolicy.state_change) ≡ ok rules) ↔ (
    IsValidRule narrow
    × All (λ r. can_overlap r.selector narrow.selector ≡ false) (wide ∷ [])
    × (rules ≡ (wide ∷ []) ++ narrow ∷ []))
add_entry_iff_example = add_entry_iff (wide ∷ []) rules (gpu_entry SignalPolicy.state_change)

abbrev entries : List PolicyEntry
entries = entry SignalPolicy.disabled ∷ gpu_entry SignalPolicy.state_change ∷ []

add_entries_iff_example : (add_entries [] entries ≡ ok rules) ↔ (
    All IsValidRule (map into_rule entries)
    × IsUnambiguous (map into_rule entries)
    × (rules ≡ map into_rule entries))
add_entries_iff_example = add_entries_iff entries rules

filter-emitted_example :
    (filter (filter (fresh rules) (quiet ∷ [])).0 (quiet ∷ failed ∷ quiet ∷ [])).1
    ≡ emitted rules (seen (quiet ∷ []) []) (quiet ∷ failed ∷ quiet ∷ [])
filter-emitted_example = filter-emitted rules (quiet ∷ []) (quiet ∷ failed ∷ quiet ∷ [])
