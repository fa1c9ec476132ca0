-- ===== src/Nvidia/Inventory.antt =====
-- crates/spark-nvidia/src/lib.rs and capabilities.rs: the inventory, as the entries that are inserted.
use spark_signals.Prelude.{
  ℕ, ◌+◌, ◌/◌, String, Bool, true, false, not, Option, none, some, List, [], ◌∷◌, ◌++◌, any, length,
  if◌then◌else◌,
}
use spark_signals.Order.{◌==◌, text_ord}
use spark_signals.BTreeMap.{BTreeMap, BTreeSet, collect_map, inserted, extend}
use spark_signals.Text.{concat, is_ascii_alphanumeric}
use spark_signals.Text.Split.{split}
use spark_signals.Text.Decimal.{to_decimal}
use spark_signals.Linux.Inventory.{Entries, entry}
use spark_signals.Nvidia.Capabilities.{
  CapabilityKey, CapabilityPolicy, CapabilityRuntime, Rules, to_ascii_lowercase,
}
use spark_signals.Nvidia.Collector.{Device, Nvml}

-- `is_gb10`
unfoldable pub is_gb10 : String → Bool
unfolding split to_ascii_lowercase
is_gb10 name =
    any (λ part. to_ascii_lowercase part == "gb10")
      (split (λ c. not (is_ascii_alphanumeric c)) name)

-- `.join(",")` of the attributes
abbrev pub joined : List (String × String) → List String
joined [] = []
joined ((key, value) ∷ []) = key ∷ "=" ∷ value ∷ []
joined ((key, value) ∷ attributes) = key ∷ "=" ∷ value ∷ "," ∷ joined attributes

-- `insert_inventory_capability`
unfoldable pub capability_entries : ℕ → CapabilityKey → String → String → Entries
unfolding to_decimal
capability_entries index key state reason =
    let named : String → String =
      λ property. concat ("spark.capability." ∷ to_decimal index ∷ "." ∷ property ∷ []) in
    (named "source", key.source)
    ∷ (named "metric", key.metric)
    ∷ (named "attributes", concat (joined key.attributes))
    ∷ (named "state", state)
    ∷ (named "reason", reason)
    ∷ []

abbrev pub is_disabled : CapabilityPolicy → Bool
is_disabled CapabilityPolicy.disabled = true
is_disabled CapabilityPolicy.auto = false
is_disabled CapabilityPolicy.enabled = false

-- the entries of the rules that disable a key, numbered
unfoldable pub disabled_entries : ℕ → Rules → Entries
unfolding capability_entries
disabled_entries index [] = []
disabled_entries index ((key, rule) ∷ rules) =
    if is_disabled rule.policy
    then capability_entries index key "disabled" rule.reason ++ disabled_entries (index + 1) rules
    else disabled_entries index rules

unfoldable pub unsupported_entries : ℕ → BTreeSet CapabilityKey → Entries
unfolding capability_entries
unsupported_entries index [] = []
unsupported_entries index ((key, unit) ∷ keys) =
    capability_entries index key "unsupported" "NVML_NOTSUPPORTED"
    ++ unsupported_entries (index + 1) keys

-- `inventory_attributes`
unfoldable pub inventory_attributes : CapabilityRuntime → BTreeMap String String
unfolding disabled_entries unsupported_entries collect_map inserted
inventory_attributes runtime =
    let disabled = collect_map (disabled_entries 0 runtime.resolved) in
    inserted disabled (unsupported_entries (length disabled / 5) runtime.automatic_unsupported)

abbrev pub device_key : ℕ → String → String
unfolding to_decimal
device_key index property = concat ("nvidia.gpu." ∷ to_decimal index ∷ "." ∷ property ∷ [])

unfoldable pub name_entries : ℕ → Option String → Entries
unfolding is_gb10 to_decimal
name_entries index none = []
name_entries index (some name) =
    let memory : Entries =
      if is_gb10 name
      then ("spark.memory.architecture", "unified")
        ∷ ("spark.memory.bandwidth.capability_gbps", "273")
        ∷ []
      else [] in
    memory ++ (device_key index "name", name) ∷ []

unfoldable pub gpu_entries : ℕ → List (Option Device) → Entries
unfolding name_entries to_decimal
gpu_entries index [] = []
gpu_entries index (none ∷ devices) = gpu_entries (index + 1) devices
gpu_entries index (some device ∷ devices) =
    name_entries index device.name
    ++ entry (device_key index "uuid") device.uuid
    ++ entry (device_key index "pci_device_id") device.pci_device_id
    ++ gpu_entries (index + 1) devices

abbrev pub counted_entries : Option (List (Option Device)) → Entries
unfolding gpu_entries to_decimal
counted_entries none = []
counted_entries (some devices) =
    ("nvidia.gpu.count", to_decimal (length devices)) ∷ gpu_entries 0 devices

unfoldable pub nvml_entries : Option Nvml → Entries
unfolding gpu_entries to_decimal
nvml_entries none = []
nvml_entries (some nvml) =
    entry "nvidia.driver.version" nvml.driver_version
    ++ entry "nvidia.cuda.driver_compatibility" nvml.cuda_version
    ++ counted_entries nvml.devices

-- `NvidiaCollector::inventory`
unfoldable pub nvidia_inventory : Option Nvml → CapabilityRuntime → BTreeMap String String
unfolding nvml_entries inventory_attributes collect_map extend
nvidia_inventory nvml capabilities =
    extend (collect_map (nvml_entries nvml)) (inventory_attributes capabilities)
