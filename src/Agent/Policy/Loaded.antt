-- ===== src/Agent/Policy/Loaded.antt =====
-- What a directory that loads has shown of its rules.
use Prim.Native.String.{len}
use spark_signals.Prelude.{
  ◌≤◌, String, ◌≡◌, refl, subst, true, false, not, ◌||◌, Option, none, some, List, [], ◌∷◌, ◌++◌,
  any, find, ltb, ok, ok_or, >>=-eq-ok, All, All-append, All-of_find-none, arith,
}
use spark_signals.Text.{is_empty}
use spark_signals.Schema.{
  MetricPoint, Attributes, metric_name_allowed, attribute_name_allowed, max_attribute_value_bytes,
}
use spark_signals.Agent.Policy.Rules.{CompiledRule, can_overlap, policy_for}
use spark_signals.Agent.Policy.Choice.{IsUnambiguous, IsChosen, policy_for_chosen}
use spark_signals.Directory.{File, Directory, collect, sort}
use spark_signals.Agent.Policy.Load.{
  PolicyEntry, PolicyFile, LoadError, source_allowed, validate, into_rule, refuse, add_entry,
  add_entries, load_file, load_files, load_policy_directory,
}

-- A rule with a catalogue metric, a known source, catalogue attributes with values of 1 to 256
-- bytes, and a reason of 1 to 256 bytes.
pub record IsValidRule (rule : CompiledRule) : Type 0 where
  pub metric : metric_name_allowed rule.selector.metric ≡ true
  pub source : source_allowed rule.selector.source ≡ true
  pub attributes :
      All
        (λ e.
          (attribute_name_allowed e.0 ≡ true)
          × (is_empty e.1 ≡ false)
          × (len e.1 ≤ max_attribute_value_bytes))
        rule.selector.attributes
  pub reason_given : is_empty rule.reason ≡ false
  pub reason_fits : len rule.reason ≤ max_attribute_value_bytes

attributes_checked :
    (m : Attributes)
    → any
        (λ e.
          not (attribute_name_allowed e.0)
          || is_empty e.1
          || ltb max_attribute_value_bytes (len e.1))
        m
      ≡ false
    → All
        (λ e.
          (attribute_name_allowed e.0 ≡ true)
          × (is_empty e.1 ≡ false)
          × (len e.1 ≤ max_attribute_value_bytes))
        m
attributes_checked [] h = tt
attributes_checked (e ∷ m) h = ground (arith, attributes_checked m)

pub validate-IsValidRule :
    (entry : PolicyEntry) → validate entry ≡ ok tt → IsValidRule (into_rule entry)
unfolding validate
validate-IsValidRule entry h = record {
  metric = ground arith;
  source = ground arith;
  attributes = attributes_checked entry.attributes (ground arith);
  reason_given = ground arith;
  reason_fits = ground arith;
}

-- The rules that a load has accepted.
pub record IsSound (rules : List CompiledRule) : Type 0 where
  pub unambiguous : IsUnambiguous rules
  pub valid : All IsValidRule rules

IsUnambiguous-append :
    (rules : List CompiledRule) (rule : CompiledRule)
    → IsUnambiguous rules
    → All (λ r. can_overlap r.selector rule.selector ≡ false) rules
    → IsUnambiguous (rules ++ rule ∷ [])
IsUnambiguous-append [] rule u a = (tt, tt)
IsUnambiguous-append (r ∷ rules) rule u a =
    (All-append _ rules (rule ∷ []) u.0 (a.0, tt), IsUnambiguous-append rules rule u.1 a.1)

append-IsSound :
    (rules next : List CompiledRule) (rule : CompiledRule) (found : Option CompiledRule)
    → find (λ r. can_overlap r.selector rule.selector) rules ≡ found
    → IsSound rules
    → IsValidRule rule
    → refuse rules rule found ≡ ok next
    → IsSound next
append-IsSound rules next rule none f s v h =
    let a = All-of_find-none (λ r. can_overlap r.selector rule.selector) rules f in
    let e : rules ++ rule ∷ [] ≡ next = cc in
    subst IsSound e (record {
      unambiguous = IsUnambiguous-append rules rule s.unambiguous a;
      valid = All-append IsValidRule rules (rule ∷ []) s.valid (v, tt);
    })
append-IsSound rules next rule (some r) f s v h = cc

add_entry-IsSound :
    (rules next : List CompiledRule) (entry : PolicyEntry)
    → IsSound rules
    → add_entry rules entry ≡ ok next
    → IsSound next
unfolding add_entry
add_entry-IsSound rules next entry s h =
    let (_, v, k) = >>=-eq-ok (validate entry) _ h in
    append-IsSound rules next (into_rule entry) _ refl s (validate-IsValidRule entry v) k

pub add_entries-IsSound :
    (rules next : List CompiledRule) (entries : List PolicyEntry)
    → IsSound rules
    → add_entries rules entries ≡ ok next
    → IsSound next
unfolding add_entries
add_entries-IsSound rules next [] s h = let e : rules ≡ next = cc in subst IsSound e s
add_entries-IsSound rules next (entry ∷ entries) s h =
    let (more, a, k) = >>=-eq-ok (add_entry rules entry) _ h in
    add_entries-IsSound more next entries (add_entry-IsSound rules more entry s a) k

module _ (from_str : String → Option PolicyFile) where
  load_file-IsSound :
      (rules next : List CompiledRule) (file : File)
      → IsSound rules
      → load_file from_str rules file ≡ ok next
      → IsSound next
  unfolding load_file
  load_file-IsSound rules next file s h =
      let (raw, _, k) = >>=-eq-ok (ok_or file.text LoadError.reading_file) _ h in
      let (entries, _, l) = >>=-eq-ok (ok_or (from_str raw) LoadError.parsing_file) _ k in
      add_entries-IsSound rules next entries s l

  load_files-IsSound :
      (rules next : List CompiledRule) (files : List File)
      → IsSound rules
      → load_files from_str rules files ≡ ok next
      → IsSound next
  unfolding load_files
  load_files-IsSound rules next [] s h = let e : rules ≡ next = cc in subst IsSound e s
  load_files-IsSound rules next (file ∷ files) s h =
      let (more, a, k) = >>=-eq-ok (load_file from_str rules file) _ h in
      load_files-IsSound more next files (load_file-IsSound rules more file s a) k

  -- The rules of a policy directory that loads are all valid, and no two of equal specificity
  -- overlap.
  pub load_policy_directory-IsSound :
      (directory : Directory) (rules : List CompiledRule)
      → load_policy_directory from_str directory ≡ ok rules
      → IsSound rules
  unfolding load_policy_directory
  load_policy_directory-IsSound directory rules h =
      let (entries, _, k) = >>=-eq-ok (ok_or directory LoadError.reading_directory) _ h in
      let (files, _, l) = >>=-eq-ok (collect LoadError.reading_entry entries) _ k in
      load_files-IsSound [] rules (sort _) (record { unambiguous = tt; valid = tt }) l

-- In a policy directory that loads, the policy of a point is that of the one rule that matches it
-- with the most attributes, whichever file it stands in.
pub policy_of_directory :
    (from_str : String → Option PolicyFile) (directory : Directory) (rules : List CompiledRule)
    (point : MetricPoint) (rule : CompiledRule)
    → load_policy_directory from_str directory ≡ ok rules
    → IsChosen rules point rule
    → policy_for rules point ≡ rule.policy
policy_of_directory from_str directory rules point rule h c =
    policy_for_chosen rules point rule
      (load_policy_directory-IsSound from_str directory rules h).unambiguous c
