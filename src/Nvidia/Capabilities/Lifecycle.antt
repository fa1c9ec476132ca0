-- ===== src/Nvidia/Capabilities/Lifecycle.antt =====
-- What is asked of the GPU, against everything that happened since the profiles were loaded.
use spark_signals.Prelude.{
  arith, map, unwrap_or, ◌≡◌, refl, sym, ap, subst, ◌∙◌, String, Bool, true, false, ◌&&◌, ◌||◌,
  Option, none, some, map_or, List, [], ◌∷◌, Result, ok, err, >>=-eq-ok, if◌then◌else◌,
}
use spark_signals.Order.{◌==◌, eq_iff, text_ord, pair_ord, list_ord}
use spark_signals.BTreeMap.{BTreeSet, get, contains, contains-insert}
use spark_signals.Directory.{Directory}
use spark_signals.Nvidia.Capabilities.Profiles.{
  CapabilityKey, capability_ord, CapabilityPolicy, auto, enabled, disabled, CapabilityRule,
  HardwareIdentity, ProfileFile, ProfileError,
}
use spark_signals.Nvidia.Capabilities.Runtime.{
  Rules, CapabilityRuntime, lifecycle_key, resolve, load, replace, reload, update_identity, policy,
  query_by, should_query, note_by, observe_definitive_unsupported,
}
use spark_signals.Nvidia.Capabilities.Wanted.{
  Happening, reloaded, identified, unsupported, is_same, ruled, counts, wanted,
}

lifecycle_key-is_same :
    (a b : HardwareIdentity) → (lifecycle_key a == lifecycle_key b) ≡ is_same a b
lifecycle_key-is_same a b = ground (
  arith,
  eq_iff (lifecycle_key a) (lifecycle_key b),
  eq_iff (map (λ e. e.0) a.gpu_products) (map (λ e. e.0) b.gpu_products),
  eq_iff (map (λ e. e.0) a.pci_device_ids) (map (λ e. e.0) b.pci_device_ids),
  eq_iff (unwrap_or a.driver_version "") (unwrap_or b.driver_version ""),
)

module _ (from_str : String → Option ProfileFile) where
  abbrev pub step : CapabilityRuntime → Happening → CapabilityRuntime
  step runtime (reloaded directory identity) = (reload from_str runtime directory identity).0
  step runtime (identified identity) = update_identity runtime identity
  step runtime (unsupported key) = observe_definitive_unsupported runtime key

  abbrev pub run : CapabilityRuntime → List Happening → CapabilityRuntime
  run runtime [] = runtime
  run runtime (happening ∷ happenings) = run (step runtime happening) happenings

  -- The identity and the rules in force, and the keys that are known to be unsupported.
  pub record Known : Type 0 where
    pub identity : HardwareIdentity
    pub rules : Rules
    pub is_unsupported : CapabilityKey → Bool

  abbrev pub after_reload : Known → HardwareIdentity → Result Rules ProfileError → Known
  after_reload known identity (err reason) = known
  after_reload known identity (ok rules) = record {
    identity = identity;
    rules = rules;
    is_unsupported = λ key. false;
  }

  -- A reload that fails changes nothing; one that succeeds and a new GPU or driver forget the keys;
  -- a key is known once it was found unsupported without a rule of its own, or under `auto`.
  abbrev pub learn : Known → Happening → Known
  learn known (reloaded directory identity) =
      after_reload known identity (resolve from_str directory identity)
  learn known (identified identity) =
      if is_same identity known.identity
      then known
      else record known { identity = identity; is_unsupported = λ key. false }
  learn known (unsupported key) = record known {
    is_unsupported =
        λ j. (counts (ruled (get key known.rules)) && key == j) || known.is_unsupported j;
  }

  abbrev pub learned : Known → List Happening → Known
  learned known [] = known
  learned known (happening ∷ happenings) = learned (learn known happening) happenings

  -- The runtime holds what is known.
  record Tracks (known : Known) (runtime : CapabilityRuntime) : Type 0 where
    identity : runtime.identity ≡ known.identity
    rules : runtime.resolved ≡ known.rules
    unsupported :
        (key : CapabilityKey)
        → contains key runtime.automatic_unsupported ≡ known.is_unsupported key

  Tracks-new :
      (identity : HardwareIdentity) (rules : Rules)
      → Tracks
          (record { identity = identity; rules = rules; is_unsupported = λ key. false })
          (record { identity = identity; resolved = rules; automatic_unsupported = [] })
  unfolding contains get
  Tracks-new identity rules = record { identity = refl; rules = refl; unsupported = λ key. refl }

  Tracks-replace :
      (known : Known) (runtime : CapabilityRuntime) (identity : HardwareIdentity)
      (resolved : Result Rules ProfileError)
      → Tracks known runtime
      → Tracks (after_reload known identity resolved) (replace from_str runtime identity resolved).0
  Tracks-replace known runtime identity (err reason) t = t
  Tracks-replace known runtime identity (ok rules) t = Tracks-new identity rules

  Tracks-identified :
      (known : Known) (runtime : CapabilityRuntime) (identity : HardwareIdentity) (same : Bool)
      → Tracks known runtime
      → Tracks
          (if same
            then known
            else record known { identity = identity; is_unsupported = λ key. false })
          (if same
            then runtime
            else record runtime { identity = identity; automatic_unsupported = [] })
  unfolding contains get
  Tracks-identified known runtime identity true t = t
  Tracks-identified known runtime identity false t = record {
    identity = refl;
    rules = t.rules;
    unsupported = λ key. refl;
  }

  contains-note_by :
      (found : Option CapabilityRule) (known : BTreeSet CapabilityKey) (key j : CapabilityKey)
      → contains j (note_by (map_or found auto (λ rule. rule.policy)) known key)
        ≡ ((counts (ruled found) && key == j) || contains j known)
  contains-note_by none known key j = contains-insert key j tt known
  contains-note_by (some rule) known key j = by_policy rule.policy
    where
      by_policy :
          (p : CapabilityPolicy)
          → contains j (note_by p known key) ≡ ((counts (some p) && key == j) || contains j known)
      by_policy auto = contains-insert key j tt known
      by_policy enabled = refl
      by_policy disabled = refl

  query_by-wanted :
      (found : Option CapabilityRule) (is_unsupported : Bool)
      → query_by (map_or found auto (λ rule. rule.policy)) is_unsupported
        ≡ wanted (ruled found) is_unsupported
  query_by-wanted none is_unsupported = refl
  query_by-wanted (some rule) is_unsupported = by_policy rule.policy
    where
      by_policy :
          (p : CapabilityPolicy) → query_by p is_unsupported ≡ wanted (some p) is_unsupported
      by_policy auto = refl
      by_policy enabled = refl
      by_policy disabled = refl

  Tracks-step :
      (known : Known) (runtime : CapabilityRuntime) (happening : Happening)
      → Tracks known runtime
      → Tracks (learn known happening) (step runtime happening)
  unfolding reload update_identity observe_definitive_unsupported policy
  Tracks-step known runtime (reloaded directory identity) t =
      Tracks-replace known runtime identity (resolve from_str directory identity) t
  Tracks-step known runtime (identified identity) t =
      subst
        (λ (x : HardwareIdentity). Tracks (learn known (identified identity)) (
          if lifecycle_key identity == lifecycle_key x
          then runtime
          else record runtime { identity = identity; automatic_unsupported = [] }))
        (sym t.identity)
        (subst
          (λ (b : Bool).
            Tracks
              (if b
                then known
                else record known { identity = identity; is_unsupported = λ key. false })
              (if lifecycle_key identity == lifecycle_key known.identity
                then runtime
                else record runtime { identity = identity; automatic_unsupported = [] }))
          (lifecycle_key-is_same identity known.identity)
          (Tracks-identified known runtime identity
            (lifecycle_key identity == lifecycle_key known.identity) t))
  Tracks-step known runtime (unsupported key) t = record {
    identity = t.identity;
    rules = t.rules;
    unsupported = λ j.
        contains-note_by (get key runtime.resolved) runtime.automatic_unsupported key j
        ∙ ap
            (λ r.
              (counts (ruled (get key r)) && key == j) || contains j runtime.automatic_unsupported)
            t.rules
        ∙ ap (λ b. (counts (ruled (get key known.rules)) && key == j) || b) (t.unsupported j);
  }

  Tracks-run :
      (known : Known) (runtime : CapabilityRuntime) (happenings : List Happening)
      → Tracks known runtime
      → Tracks (learned known happenings) (run runtime happenings)
  Tracks-run known runtime [] t = t
  Tracks-run known runtime (happening ∷ happenings) t =
      Tracks-run (learn known happening) (step runtime happening) happenings
        (Tracks-step known runtime happening t)

  -- After the profiles are loaded, and whatever happens then, a key is queried exactly if its rule
  -- says `enabled`, or if its rule says `auto`, or it has none, and it is not known to be
  -- unsupported: it was found unsupported since the last reload that succeeded and since the last
  -- change of the GPUs or the driver, when its rule was `auto` or it had none. A reload that fails
  -- leaves the rules and what is known as they were.
  pub should_query-run :
      (directory : Option Directory) (identity : HardwareIdentity) (rules : Rules)
      (start : CapabilityRuntime) (happenings : List Happening) (key : CapabilityKey)
      → resolve from_str directory identity ≡ ok rules
      → load from_str directory identity ≡ ok start
      → should_query (run start happenings) key ≡ (
          let known =
            learned
              (record { identity = identity; rules = rules; is_unsupported = λ j. false })
              happenings in
          wanted (ruled (get key known.rules)) (known.is_unsupported key))
  unfolding load should_query policy
  should_query-run directory identity rules start happenings key r h =
      let first : Known = record {
        identity = identity;
        rules = rules;
        is_unsupported = λ j. false;
      } in
      let (found, q, e) = >>=-eq-ok (resolve from_str directory identity) _ h in
      let same : rules ≡ found = cc in
      let made : record { identity = identity; resolved = found; automatic_unsupported = [] }
          ≡ start =
        cc in
      let t : Tracks first start = subst (Tracks first) made (
        subst
          (λ x.
            Tracks first (record { identity = identity; resolved = x; automatic_unsupported = [] }))
          same (Tracks-new identity rules)) in
      let u = Tracks-run first start happenings t in
      let last = run start happenings in
      query_by-wanted (get key last.resolved) (contains key last.automatic_unsupported)
      ∙ ap (λ x. wanted (ruled (get key x)) (contains key last.automatic_unsupported)) u.rules
      ∙ ap (wanted (ruled (get key (learned first happenings).rules))) (u.unsupported key)
