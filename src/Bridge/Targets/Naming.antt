-- ===== src/Bridge/Targets/Naming.antt =====
-- Which target is prepared under which name.
use spark_signals.Prelude.{
  refl, ap, none, some, [], is_some, ◌||◌, ◌↔◌, ℕ, String, ◌≡◌, ◌⊎◌, sym, subst, Bool, false, not,
  Option, List, ok, ensure, ◌>>=◌, >>=-eq-ok, true_of_ensure, arith, Bool-cases, inl, inr,
  false_of_not,
}
use spark_signals.Order.{◌==◌, eq_iff, text_ord}
use spark_signals.Bridge.Targets.Maple.{
  MapleOptions, is_configured, MaplePlugin, new_maple, MapleCredential, PathState,
  PreparedOtlpTarget, http_protobuf, TargetError, prepare_maple,
}
use spark_signals.Bridge.Targets.Selected.{
  Plugin, standard, maple, new_standard, select, standard_target, prepare, prepare_target,
}

-- No option is given.
abbrev pub no_options : MapleOptions
no_options = record { credential = none; credential_schema = none; producer = none }

-- All are given, as the plugin has them.
abbrev pub options_of : MaplePlugin → MapleOptions
options_of plugin = record {
  credential = some plugin.credential;
  credential_schema = some plugin.schema;
  producer = some plugin.producer;
}

unset :
    (c s p : Option String)
    → (is_some c || is_some s || is_some p) ≡ false
    → record { credential = c; credential_schema = s; producer = p } ≡ no_options
unset none none none h = refl
unset none none (some p) h = cc
unset none (some s) p h = cc
unset (some c) s p h = cc

given :
    (c s p : Option String) (plugin : MaplePlugin)
    → new_maple (record { credential = c; credential_schema = s; producer = p }) ≡ ok plugin
    → record { credential = c; credential_schema = s; producer = p } ≡ options_of plugin
unfolding new_maple
given none s p plugin h = cc
given (some c) none p plugin h = cc
given (some c) (some s) none plugin h = cc
given (some c) (some s) (some p) plugin h =
    let made : record { credential = c; schema = s; producer = p } ≡ plugin = cc in
    ap options_of made

selected :
    (name : String) (options : MapleOptions) (plugin : Plugin)
    → select name options ≡ ok plugin
    → ((name ≡ "standard") × (options ≡ no_options) × (plugin ≡ standard))
      ⊎ ((name ≡ "maple") × ((m : MaplePlugin) × (options ≡ options_of m) × (plugin ≡ maple m)))
unfolding select new_standard
selected name options plugin h = elim (Bool-cases (name == "standard")) [
  | inl is_standard ↦
      let k : new_standard options ≡ ok plugin = ground (arith, is_standard, h) in
      let (_, c, e) =
        >>=-eq-ok (ensure (not (is_configured options)) TargetError.maple_for_standard) _ k in
      inl (
        (eq_iff name "standard").0 is_standard,
        unset options.credential options.credential_schema options.producer (
            false_of_not (is_configured options)
              (true_of_ensure _ TargetError.maple_for_standard c)),
        cc,
      )
  | inr other ↦ elim (Bool-cases (name == "maple")) [
    | inl is_maple ↦
        let k : (new_maple options >>= λ m. ok (maple m)) ≡ ok plugin =
          ground (arith, other, is_maple, h) in
        let (m, n, e) = >>=-eq-ok (new_maple options) _ k in
        inr (
          (eq_iff name "maple").0 is_maple,
          (m, given options.credential options.credential_schema options.producer m n, cc),
        )
    | inr neither ↦ ground (arith, other, neither, h)
  ]
]

module _ (from_slice : List ℕ → Option MapleCredential) (base64 : String → String)
    (state_of : String → PathState) (is_set : String → Bool) where
  -- What a name and options prepare.
  abbrev pub IsPrepared : String → MapleOptions → PreparedOtlpTarget → Type 0
  IsPrepared name options target =
      ((name ≡ "standard")
        × (options ≡ no_options)
        × (target ≡ record {
          plugin_name = "standard";
          protocol = http_protobuf;
          metrics_endpoint = none;
          logs_endpoint = none;
          headers = [];
          diagnostics = [];
        }))
      ⊎ ((name ≡ "maple")
          × ((plugin : MaplePlugin) × (options ≡ options_of plugin)
              × (prepare_maple from_slice base64 state_of is_set plugin ≡ ok target)))

  prepare_target-IsPrepared :
      (name : String) (options : MapleOptions) (target : PreparedOtlpTarget)
      → prepare_target from_slice base64 state_of is_set name options ≡ ok target
      → IsPrepared name options target
  unfolding prepare_target
  prepare_target-IsPrepared name options target h =
      let (plugin, s, k) = >>=-eq-ok (select name options) _ h in
      elim (selected name options plugin s) [
        | inl (n, c, e) ↦
            let p = subst (λ x. prepare from_slice base64 state_of is_set x ≡ ok target) e k in
            let made : standard_target ≡ target = cc (p) in inl (n, c, sym made)
        | inr (n, (m, q, e)) ↦
            inr
              (n, (m, q, subst (λ x. prepare from_slice base64 state_of is_set x ≡ ok target) e k))
      ]

  IsPrepared-prepare_target :
      (name : String) (options : MapleOptions) (target : PreparedOtlpTarget)
      → IsPrepared name options target
      → prepare_target from_slice base64 state_of is_set name options ≡ ok target
  unfolding prepare_target select new_standard new_maple
  IsPrepared-prepare_target name options target (inl (n, o, t)) = rw (n, o, t) refl
  IsPrepared-prepare_target name options target (inr (n, (plugin, o, p))) = rw (n, o) p

  -- A target is prepared exactly under two names: `standard`, if none of the three Maple options is
  -- given, with neither endpoints nor headers, and `maple`, if all three are given and the Maple
  -- target can be prepared from them.
  pub prepare_target-names :
      (name : String) (options : MapleOptions) (target : PreparedOtlpTarget)
      → (prepare_target from_slice base64 state_of is_set name options ≡ ok target)
        ↔ IsPrepared name options target
  prepare_target-names name options target =
      (prepare_target-IsPrepared name options target, IsPrepared-prepare_target name options target)
