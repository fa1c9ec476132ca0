-- ===== src/Nvidia/Capabilities/Runtime.antt =====
-- `CapabilityRuntime`: what is asked of the GPU, by the rules and by what was found unsupported.
use spark_signals.Prelude.{
  String, Bool, true, false, not, Option, none, some, List, [], map, Result, ok, err, ◌>>=◌,
  if◌then◌else◌, map_or, unwrap_or,
}
use spark_signals.Order.{◌==◌, text_ord, pair_ord, list_ord}
use spark_signals.BTreeMap.{BTreeMap, BTreeSet, get, insert, contains}
use spark_signals.Directory.{Directory}
use spark_signals.Nvidia.Capabilities.Profiles.{
  CapabilityKey, capability_ord, CapabilityPolicy, auto, enabled, disabled, CapabilityRule,
  HardwareIdentity, ProfileFile, ProfileError, load_directory,
}

abbrev pub Rules : Type 0
Rules = BTreeMap CapabilityKey CapabilityRule

pub record CapabilityRuntime : Type 0 where
  pub identity : HardwareIdentity
  pub resolved : Rules
  pub automatic_unsupported : BTreeSet CapabilityKey

-- `HardwareIdentity::lifecycle_key`: its text shows the members of the two sets, quoted, and then
-- the version, so two texts are equal exactly if these parts are
abbrev pub lifecycle_key : HardwareIdentity → List String × (List String × String)
lifecycle_key identity = (
  map (λ e. e.0) identity.gpu_products,
  (map (λ e. e.0) identity.pci_device_ids, unwrap_or identity.driver_version ""),
)

module _ (from_str : String → Option ProfileFile) where
  -- no directory is `ResolvedCapabilities::default()`
  abbrev pub resolve : Option Directory → HardwareIdentity → Result Rules ProfileError
  resolve none identity = ok []
  resolve (some directory) identity = load_directory from_str identity directory

  -- `CapabilityRuntime::load`
  unfoldable pub load : Option Directory → HardwareIdentity → Result CapabilityRuntime ProfileError
  load directory identity = do
    resolved ← resolve directory identity
    ok (record { identity = identity; resolved = resolved; automatic_unsupported = [] })

  abbrev pub replace :
      CapabilityRuntime
      → HardwareIdentity
      → Result Rules ProfileError
      → CapabilityRuntime × Result (Unit {0}) ProfileError
  replace runtime identity (err reason) = (runtime, err reason)
  replace runtime identity (ok next) =
      (record { identity = identity; resolved = next; automatic_unsupported = [] }, ok tt)

  -- `CapabilityRuntime::reload`: the state after it, and its result
  unfoldable pub reload :
      CapabilityRuntime
      → Option Directory
      → HardwareIdentity
      → CapabilityRuntime × Result (Unit {0}) ProfileError
  reload runtime directory identity = replace runtime identity (resolve directory identity)

-- `CapabilityRuntime::update_identity`
unfoldable pub update_identity : CapabilityRuntime → HardwareIdentity → CapabilityRuntime
update_identity runtime identity =
    if lifecycle_key identity == lifecycle_key runtime.identity
    then runtime
    else record runtime { identity = identity; automatic_unsupported = [] }

-- `CapabilityRuntime::policy`
unfoldable pub policy : Rules → CapabilityKey → CapabilityPolicy
policy resolved key = map_or (get key resolved) auto (λ rule. rule.policy)

abbrev pub query_by : CapabilityPolicy → Bool → Bool
query_by disabled known = false
query_by auto known = not known
query_by enabled known = true

-- `CapabilityRuntime::should_query`
unfoldable pub should_query : CapabilityRuntime → CapabilityKey → Bool
should_query runtime key =
    query_by (policy runtime.resolved key) (contains key runtime.automatic_unsupported)

abbrev pub note_by :
    CapabilityPolicy → BTreeSet CapabilityKey → CapabilityKey → BTreeSet CapabilityKey
note_by auto known key = insert key tt known
note_by enabled known key = known
note_by disabled known key = known

-- `CapabilityRuntime::observe_definitive_unsupported`
unfoldable pub observe_definitive_unsupported :
    CapabilityRuntime → CapabilityKey → CapabilityRuntime
observe_definitive_unsupported runtime key = record runtime {
  automatic_unsupported = note_by (policy runtime.resolved key) runtime.automatic_unsupported key;
}
