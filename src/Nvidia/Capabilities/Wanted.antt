-- ===== src/Nvidia/Capabilities/Wanted.antt =====
-- What can happen to the capabilities, and what the rules then want to be queried.
use spark_signals.Prelude.{map, unwrap_or, Bool, true, false, ◌&&◌, Option, none, some, not}
use spark_signals.Order.{◌==◌, text_ord, pair_ord, list_ord}
use spark_signals.Directory.{Directory}
use spark_signals.Nvidia.Capabilities.Profiles.{
  CapabilityKey, capability_ord, CapabilityPolicy, auto, enabled, disabled, CapabilityRule,
  HardwareIdentity,
}

-- What happens to the capabilities.
pub data Happening : Type 0 where
  reloaded : (directory : Option Directory) → (identity : HardwareIdentity) → Happening
  identified : (identity : HardwareIdentity) → Happening
  unsupported : (key : CapabilityKey) → Happening

-- What the rule of a key says, if it has one.
abbrev pub ruled : Option CapabilityRule → Option CapabilityPolicy
ruled none = none
ruled (some rule) = some rule.policy

-- Whether the GPUs have the same products and device ids, and the driver the same version, where no
-- version is the empty one.
abbrev pub is_same : HardwareIdentity → HardwareIdentity → Bool
is_same a b =
    map (λ e. e.0) a.gpu_products == map (λ e. e.0) b.gpu_products
    && map (λ e. e.0) a.pci_device_ids == map (λ e. e.0) b.pci_device_ids
    && unwrap_or a.driver_version "" == unwrap_or b.driver_version ""

-- Whether a finding that the key is unsupported counts.
abbrev pub counts : Option CapabilityPolicy → Bool
counts none = true
counts (some auto) = true
counts (some enabled) = false
counts (some disabled) = false

-- Whether a key is to be queried, if it is known to be unsupported or not.
abbrev pub wanted : Option CapabilityPolicy → Bool → Bool
wanted none is_unsupported = not is_unsupported
wanted (some auto) is_unsupported = not is_unsupported
wanted (some enabled) is_unsupported = true
wanted (some disabled) is_unsupported = false
