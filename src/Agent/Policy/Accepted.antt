-- ===== src/Agent/Policy/Accepted.antt =====
-- Which entries of a policy file are accepted.
use Prim.Native.String.{len}
use mathlib.Core.List.{Memᴰ, append_assoc, append-nil}
use spark_signals.Prelude.{
  ◌≤◌, ◌↔◌, ◌≡◌, refl, subst, true, false, not, ◌||◌, Option, none, some, List, [], ◌∷◌, ◌++◌, any,
  find, ltb, ok, >>=-eq-ok, All, All-mem, map, mem-append_right, sym, ap, ◌∙◌, All-of_find-none,
  arith,
}
use spark_signals.Text.{is_empty}
use spark_signals.Schema.{Attributes, attribute_name_allowed, max_attribute_value_bytes}
use spark_signals.Agent.Policy.Rules.{CompiledRule, can_overlap}
use spark_signals.Agent.Policy.Choice.{IsUnambiguous}
use spark_signals.Agent.Policy.Load.{
  PolicyEntry, validate, into_rule, refuse, add_entry, add_entries,
}
use spark_signals.Agent.Policy.Loaded.{IsValidRule, validate-IsValidRule, add_entries-IsSound}

no_ambiguity :
    (rules : List CompiledRule) (rule : CompiledRule)
    → All (λ r. can_overlap r.selector rule.selector ≡ false) rules
    → find (λ r. can_overlap r.selector rule.selector) rules ≡ none
no_ambiguity [] rule a = refl
no_ambiguity (r ∷ rules) rule a = ground (arith, no_ambiguity rules rule a.1)

attributes_accepted :
    (m : Attributes)
    → All
        (λ e.
          (attribute_name_allowed e.0 ≡ true)
          × (is_empty e.1 ≡ false)
          × (len e.1 ≤ max_attribute_value_bytes))
        m
    → any
        (λ e.
          not (attribute_name_allowed e.0)
          || is_empty e.1
          || ltb max_attribute_value_bytes (len e.1))
        m
      ≡ false
attributes_accepted [] a = refl
attributes_accepted (e ∷ m) a = ground (arith, attributes_accepted m a.1)

validate_valid : (entry : PolicyEntry) → IsValidRule (into_rule entry) → validate entry ≡ ok tt
unfolding validate
validate_valid entry v = ground (arith, attributes_accepted entry.attributes v.attributes)

add_entry_accepts :
    (rules : List CompiledRule) (entry : PolicyEntry)
    → IsValidRule (into_rule entry)
    → All (λ r. can_overlap r.selector (into_rule entry).selector ≡ false) rules
    → add_entry rules entry ≡ ok (rules ++ into_rule entry ∷ [])
unfolding add_entry
add_entry_accepts rules entry v a =
    rw (validate_valid entry v, no_ambiguity rules (into_rule entry) a) refl

refused :
    (rules next : List CompiledRule) (rule : CompiledRule) (found : Option CompiledRule)
    → refuse rules rule found ≡ ok next
    → (found ≡ none) × (next ≡ rules ++ rule ∷ [])
refused rules next rule none h = ground arith
refused rules next rule (some r) h = cc

-- An entry is accepted exactly if it is valid and overlaps no earlier rule of equal specificity;
-- its rule then stands behind the earlier ones.
pub add_entry_iff :
    (rules next : List CompiledRule) (entry : PolicyEntry)
    → (add_entry rules entry ≡ ok next) ↔ (
        IsValidRule (into_rule entry)
        × All (λ r. can_overlap r.selector (into_rule entry).selector ≡ false) rules
        × (next ≡ rules ++ into_rule entry ∷ []))
unfolding add_entry
add_entry_iff rules next entry = (
  λ h.
      let (_, v, k) = >>=-eq-ok (validate entry) _ h in
      let (none_found, e) = refused rules next (into_rule entry) _ k in
      (validate-IsValidRule entry v, All-of_find-none _ rules none_found, e),
  λ (v, a, e). rw e (add_entry_accepts rules entry v a),
)

added :
    (rules next : List CompiledRule) (entries : List PolicyEntry)
    → add_entries rules entries ≡ ok next
    → next ≡ rules ++ map into_rule entries
unfolding add_entries
added rules next [] h = let e : rules ≡ next = cc in sym e ∙ sym (append-nil rules)
added rules next (entry ∷ entries) h =
    let (more, a, k) = >>=-eq-ok (add_entry rules entry) _ h in
    added more next entries k
    ∙ ap (λ r. r ++ map into_rule entries) ((add_entry_iff rules more entry).0 a).2
    ∙ append_assoc rules (into_rule entry ∷ []) (map into_rule entries)

later :
    (rules others : List CompiledRule) (rule : CompiledRule)
    → IsUnambiguous (rules ++ rule ∷ others)
    → All (λ r. can_overlap r.selector rule.selector ≡ false) rules
later [] others rule u = tt
later (r ∷ rules) others rule u = (
  All-mem _ rule (rules ++ rule ∷ others) u.0
      (mem-append_right rule rules (rule ∷ others) (Memᴰ.head refl)),
  later rules others rule u.1,
)

accepted :
    (rules : List CompiledRule) (entries : List PolicyEntry)
    → All IsValidRule (map into_rule entries)
    → IsUnambiguous (rules ++ map into_rule entries)
    → add_entries rules entries ≡ ok (rules ++ map into_rule entries)
unfolding add_entries
accepted rules [] v u = rw append-nil refl
accepted rules (entry ∷ entries) v u =
    let a =
      add_entry_accepts rules entry v.0 (later rules (map into_rule entries) (into_rule entry) u) in
    let e = append_assoc rules (into_rule entry ∷ []) (map into_rule entries) in
    rw a (
      accepted (rules ++ into_rule entry ∷ []) entries v.1 (subst IsUnambiguous (sym e) u)
      ∙ ap ok e)

-- The entries of a file load exactly if every one is valid and no two of equal specificity overlap;
-- they then compile to their rules, in order.
pub add_entries_iff :
    (entries : List PolicyEntry) (rules : List CompiledRule)
    → (add_entries [] entries ≡ ok rules) ↔ (
        All IsValidRule (map into_rule entries)
        × IsUnambiguous (map into_rule entries)
        × (rules ≡ map into_rule entries))
add_entries_iff entries rules = (
  λ h.
      let e = added [] rules entries h in
      let s = add_entries-IsSound [] rules entries (record { unambiguous = tt; valid = tt }) h in
      (subst (All IsValidRule) e s.valid, subst IsUnambiguous e s.unambiguous, e),
  λ (v, u, e). rw e (accepted [] entries v u),
)
