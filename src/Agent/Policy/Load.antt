-- ===== src/Agent/Policy/Load.antt =====
-- The loading of a policy directory: the entries of each TOML file in the order of the paths, each
-- checked and compiled, and refused if it overlaps an earlier rule of equal specificity. The
-- directory is given by what reading it yields, and TOML decoding (`toml::from_str`) is a parameter.
use Prim.Native.String.{len}
use spark_signals.Prelude.{
  String, Bool, not, ◌||◌, Option, none, some, List, [], ◌∷◌, ◌++◌, any, find, keep, ltb, Result,
  ok, err, ok_or, ensure, ◌>>=◌, ◌>>◌,
}
use spark_signals.Order.{◌==◌, text_ord}
use spark_signals.Text.{is_empty}
use spark_signals.Directory.{File, Directory, collect, sort, is_toml}
use spark_signals.Schema.{
  Attributes, metric_name_allowed, attribute_name_allowed, max_attribute_value_bytes,
}
use spark_signals.Agent.Policy.Rules.{SignalPolicy, CompiledRule, can_overlap}
use spark_signals.Agent.Policy.Emitter.{SignalEmitter, fresh}

pub record PolicyEntry : Type 0 where
  pub source : String
  pub metric : String
  pub attributes : Attributes
  pub policy : SignalPolicy
  pub reason : String

abbrev pub PolicyFile : Type 0
PolicyFile = List PolicyEntry

-- the errors of loading, one for each `bail!` and each context
pub data LoadError : Type 0 where
  reading_directory reading_entry reading_file parsing_file : LoadError
  unknown_metric unknown_source invalid_attribute invalid_reason : LoadError
  ambiguous : (existing rule : CompiledRule) → LoadError

unfoldable pub source_allowed : String → Bool
source_allowed source =
    any (λ known. known == source)
      ("agent" ∷ "cgroupfs" ∷ "config" ∷ "http" ∷ "nvidia-smi" ∷ "nvml" ∷ "procfs" ∷ "prometheus"
        ∷ "sysfs" ∷ "systemd" ∷ [])

-- `PolicyEntry::validate`
unfoldable pub validate : PolicyEntry → Result (Unit {0}) LoadError
validate entry = do
  ensure (metric_name_allowed entry.metric) unknown_metric
  ensure (source_allowed entry.source) unknown_source
  ensure
      (not (
        any
          (λ e.
            not (attribute_name_allowed e.0)
            || is_empty e.1
            || ltb max_attribute_value_bytes (len e.1))
          entry.attributes))
      invalid_attribute
  ensure (not (is_empty entry.reason || ltb max_attribute_value_bytes (len entry.reason)))
      invalid_reason

-- `PolicyEntry::into_rule`
abbrev pub into_rule : PolicyEntry → CompiledRule
into_rule entry = record {
  selector = record { source = entry.source; metric = entry.metric; attributes = entry.attributes };
  policy = entry.policy;
  reason = entry.reason;
}

abbrev pub refuse :
    List CompiledRule → CompiledRule → Option CompiledRule → Result (List CompiledRule) LoadError
refuse rules rule none = ok (rules ++ rule ∷ [])
refuse rules rule (some existing) = err (ambiguous existing rule)

-- one round of the loop over the entries of a file
unfoldable pub add_entry : List CompiledRule → PolicyEntry → Result (List CompiledRule) LoadError
add_entry rules entry = do
  validate entry
  let rule = into_rule entry
  refuse rules rule (find (λ existing. can_overlap existing.selector rule.selector) rules)

unfoldable pub add_entries :
    List CompiledRule → List PolicyEntry → Result (List CompiledRule) LoadError
add_entries rules [] = ok rules
add_entries rules (entry ∷ entries) = do next ← add_entry rules entry; add_entries next entries

module _ (from_str : String → Option PolicyFile) where
  unfoldable pub load_file : List CompiledRule → File → Result (List CompiledRule) LoadError
  load_file rules file = do
    raw ← ok_or file.text reading_file
    entries ← ok_or (from_str raw) parsing_file
    add_entries rules entries

  unfoldable pub load_files : List CompiledRule → List File → Result (List CompiledRule) LoadError
  load_files rules [] = ok rules
  load_files rules (file ∷ files) = do next ← load_file rules file; load_files next files

  unfoldable pub load_policy_directory : Directory → Result (List CompiledRule) LoadError
  load_policy_directory directory = do
    entries ← ok_or directory reading_directory
    files ← collect LoadError.reading_entry entries
    load_files [] (sort (keep (λ file. is_toml file.name) files))

  -- `SignalEmitter::load`
  unfoldable pub load : Option Directory → Result SignalEmitter LoadError
  load none = ok (fresh [])
  load (some directory) = do rules ← load_policy_directory directory; ok (fresh rules)
