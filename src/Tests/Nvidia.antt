-- ===== src/Tests/Nvidia.antt =====
-- Hardware profiles at a concrete directory.
use spark_signals.Prelude.{
  ◌≡◌, refl, String, Bool, true, false, Option, none, some, List, [], ◌∷◌, map, keep, Result, ok,
  err,
}
use spark_signals.Directory.{File, collect, sort, is_toml}
use spark_signals.BTreeMap.{BTreeMap, get}
use spark_signals.Nvidia.Capabilities.{
  CapabilityKey, capability_ord, CapabilityPolicy, CapabilityRule, HardwareIdentity,
  HardwareSelector, HardwareProfile, ProfileFile, ProfileError, Selected, load_directory,
  add_profiles, CapabilityRuntime, Rules, load, resolve, should_query, policy, query_by,
}
use spark_signals.Nvidia.Capabilities.Best.{IsBest}
use spark_signals.Nvidia.Capabilities.Selection.{offers_of, load_directory-IsBest}
use spark_signals.Nvidia.Capabilities.Wanted.{Happening, ruled, wanted}
use spark_signals.Nvidia.Capabilities.Lifecycle.{learned, run, should_query-run}

abbrev identity : HardwareIdentity
identity = record {
  gpu_products = ("NVIDIA GB10", tt) ∷ [];
  pci_device_ids = ("0x2e1210de", tt) ∷ [];
  driver_version = some "580.1";
}

abbrev profile : String → Option String → Option String → CapabilityPolicy → HardwareProfile
profile id product device policy = record {
  id = id;
  selector = record { gpu_product = product; pci_device_id = device };
  capability =
      record {
        metric = "nvidia.gpu.utilization";
        source = "nvml";
        attributes = [];
        policy = policy;
        reason = "TEST";
      }
      ∷ [];
}

abbrev by_product : HardwareProfile
by_product = profile "product" (some "NVIDIA GB10") none CapabilityPolicy.auto

abbrev by_device : HardwareProfile
by_device = profile "device" none (some "0x2E1210DE") CapabilityPolicy.disabled

abbrev by_both : HardwareProfile
by_both = profile "both" (some "NVIDIA GB10") (some "0x2e1210de") CapabilityPolicy.enabled

-- a decoder that reads two profiles
abbrev from_str : String → Option ProfileFile
from_str text = some (by_product ∷ by_both ∷ [])

abbrev entries : List (Option File)
entries = some (record { name = "gb10.toml"; text = some "" }) ∷ []

abbrev files : List File
files = record { name = "gb10.toml"; text = some "" } ∷ []

abbrev utilization : CapabilityKey
utilization = record { source = "nvml"; metric = "nvidia.gpu.utilization"; attributes = [] }

abbrev rules : BTreeMap CapabilityKey CapabilityRule
rules = (utilization, record { policy = CapabilityPolicy.enabled; reason = "TEST" }) ∷ []

collected : collect ProfileError.reading_entry entries ≡ ok files
unfolding collect
collected = refl

loaded : load_directory from_str identity (some entries) ≡ ok rules
unfolding load_directory collect sort is_toml spark_signals.Text.ends_with
    spark_signals.Nvidia.Capabilities.load_files spark_signals.Nvidia.Capabilities.load_file
    add_profiles spark_signals.BTreeMap.get spark_signals.Schema.attribute_name_allowed
    spark_signals.Nvidia.Capabilities.add_profile spark_signals.BTreeMap.contains
    spark_signals.Nvidia.Capabilities.validate_selector
    spark_signals.Nvidia.Capabilities.validate_all spark_signals.Nvidia.Capabilities.validate
    spark_signals.Schema.metric_name_allowed spark_signals.Nvidia.Capabilities.matches
    spark_signals.Nvidia.Capabilities.select_all spark_signals.Nvidia.Capabilities.select
    spark_signals.BTreeMap.insert spark_signals.Nvidia.Capabilities.to_ascii_lowercase
loaded = refl

load_directory-IsBest_example :
    (selected : Selected) × (rules ≡ map (λ e. (e.0, e.1.rule)) selected)
    × IsBest
        (offers_of identity from_str [] (sort (keep (λ file. is_toml file.name) files)))
        selected
load_directory-IsBest_example =
    load_directory-IsBest identity from_str entries files rules collected loaded

abbrev start : CapabilityRuntime
start = record { identity = identity; resolved = []; automatic_unsupported = [] }

abbrev happenings : List Happening
happenings =
    Happening.unsupported utilization
    ∷ Happening.reloaded (some (some entries)) identity
    ∷ Happening.unsupported utilization
    ∷ []

no_rules : resolve from_str none identity ≡ ok []
no_rules = refl

started : load from_str none identity ≡ ok start
unfolding load
started = refl

should_query-run_example : should_query (run from_str start happenings) utilization ≡ (
    let known =
      learned from_str
        (record { identity = identity; rules = []; is_unsupported = λ j. false })
        happenings in
    wanted (ruled (get utilization known.rules)) (known.is_unsupported utilization))
should_query-run_example =
    should_query-run from_str none identity [] start happenings utilization no_rules started

-- Two profiles that are equally specific are refused, unless a more specific one stands between.
refused :
    add_profiles identity
      (record { profile_ids = []; selected = [] })
      (by_product ∷ by_device ∷ by_both ∷ [])
    ≡ err ProfileError.ambiguous
unfolding add_profiles spark_signals.Nvidia.Capabilities.add_profile spark_signals.BTreeMap.contains
    spark_signals.Nvidia.Capabilities.validate_selector
    spark_signals.Nvidia.Capabilities.validate_all spark_signals.Nvidia.Capabilities.validate
    spark_signals.Schema.metric_name_allowed spark_signals.Nvidia.Capabilities.matches
    spark_signals.Nvidia.Capabilities.select_all spark_signals.Nvidia.Capabilities.select
    spark_signals.BTreeMap.insert spark_signals.Nvidia.Capabilities.to_ascii_lowercase
refused = refl

abbrev is_accepted {ℓ} : {A : Type ℓ} → Result A ProfileError → Bool
is_accepted (ok value) = true
is_accepted (err reason) = false

accepted :
    is_accepted (
      add_profiles identity
        (record { profile_ids = []; selected = [] })
        (by_product ∷ by_both ∷ by_device ∷ []))
    ≡ true
unfolding add_profiles spark_signals.Nvidia.Capabilities.add_profile spark_signals.BTreeMap.contains
    spark_signals.Nvidia.Capabilities.validate_selector
    spark_signals.Nvidia.Capabilities.validate_all spark_signals.Nvidia.Capabilities.validate
    spark_signals.Schema.metric_name_allowed spark_signals.Nvidia.Capabilities.matches
    spark_signals.Nvidia.Capabilities.select_all spark_signals.Nvidia.Capabilities.select
    spark_signals.BTreeMap.insert spark_signals.Nvidia.Capabilities.to_ascii_lowercase
accepted = refl
