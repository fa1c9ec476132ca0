-- ===== src/Nvidia/Capabilities/Profiles.antt =====
-- The loading of a directory of hardware profiles: each is checked, and for each key the rule of the
-- most specific profile that matches is kept. TOML decoding is a parameter.
use Prim.Native.Char.{Char, code}
use Prim.Native.String as Text
use Prim.Native.String.{len, char_at}
use spark_signals.Prelude.{
  ℕ, ◌+◌, ◌-◌, String, ◌≡◌, Bool, true, false, not, ◌&&◌, ◌||◌, Option, none, some, List, [], ◌∷◌,
  map, any, keep, ltb, eqb, is_some, is_some_and, is_none_or, Result, ok, err, ok_or, ensure, ◌>>=◌,
  ◌>>◌, if◌then◌else◌,
}
use spark_signals.Order.{Ord, ord_by, ◌==◌, text_ord, pair_ord, list_ord}
use spark_signals.BTreeMap.{BTreeMap, BTreeSet, get, insert, contains}
use spark_signals.Text.{is_empty, is_ascii_uppercase}
use spark_signals.Directory.{File, Directory, collect, sort, is_toml}
use spark_signals.Schema.{
  Attributes, metric_name_allowed, attribute_name_allowed, max_attribute_value_bytes,
}

pub record CapabilityKey : Type 0 where
  pub source : String
  pub metric : String
  pub attributes : Attributes

abbrev fields : CapabilityKey → String × (String × Attributes)
fields k = (k.source, (k.metric, k.attributes))

pub fields-injective : (a b : CapabilityKey) → fields a ≡ fields b → a ≡ b
fields-injective a b h =
    λ i. record { source = (h i).0; metric = (h i).1.0; attributes = (h i).1.1 }

instance abbrev pub capability_ord : Ord CapabilityKey
capability_ord = ord_by fields fields-injective

pub data CapabilityPolicy : Type 0 where
  auto enabled disabled : CapabilityPolicy

pub record HardwareIdentity : Type 0 where
  pub gpu_products : BTreeSet String
  pub pci_device_ids : BTreeSet String
  pub driver_version : Option String

pub record CapabilityRule : Type 0 where
  pub policy : CapabilityPolicy
  pub reason : String

pub record HardwareSelector : Type 0 where
  pub gpu_product : Option String
  pub pci_device_id : Option String

pub record ProfileCapability : Type 0 where
  pub metric : String
  pub source : String
  pub attributes : Attributes
  pub policy : CapabilityPolicy
  pub reason : String

pub record HardwareProfile : Type 0 where
  pub id : String
  pub selector : HardwareSelector
  pub capability : List ProfileCapability

abbrev pub ProfileFile : Type 0
ProfileFile = List HardwareProfile

-- the errors of loading, one for each `bail!` and each context
pub data ProfileError : Type 0 where
  reading_directory reading_entry reading_file parsing_file : ProfileError
  no_profiles bad_id no_selector empty_selector no_capabilities : ProfileError
  unknown_metric unknown_source invalid_attribute invalid_reason ambiguous : ProfileError

-- `HardwareSelector::validate`
unfoldable pub validate_selector : HardwareSelector → Result (Unit {0}) ProfileError
validate_selector s = do
  ensure (is_some s.gpu_product || is_some s.pci_device_id) no_selector
  ensure (not (is_some_and s.gpu_product is_empty || is_some_and s.pci_device_id is_empty))
      empty_selector

-- `to_ascii_lowercase`
abbrev lowercase : Char → Char
lowercase c =
    if is_ascii_uppercase (code c) then char_at "abcdefghijklmnopqrstuvwxyz" (code c - b'A') else c

unfoldable pub to_ascii_lowercase : String → String
to_ascii_lowercase Text.[] = Text.[]
to_ascii_lowercase (Text.◌∷◌ c text) = Text.◌∷◌ (lowercase c) (to_ascii_lowercase text)

-- `HardwareSelector::matches`
unfoldable pub matches : HardwareSelector → HardwareIdentity → Bool
matches s identity =
    is_none_or s.gpu_product (λ product. contains product identity.gpu_products)
    && is_none_or s.pci_device_id (λ id. contains (to_ascii_lowercase id) identity.pci_device_ids)

abbrev one_if : Bool → ℕ
one_if true = 1
one_if false = 0

-- `HardwareSelector::specificity`
abbrev pub specificity : HardwareSelector → ℕ
specificity s = one_if (is_some s.gpu_product) + one_if (is_some s.pci_device_id)

-- `ProfileCapability::validate`
unfoldable pub validate : ProfileCapability → Result (Unit {0}) ProfileError
validate c = do
  ensure (metric_name_allowed c.metric) unknown_metric
  ensure (c.source == "nvml") unknown_source
  ensure
      (not (
        any
          (λ e.
            not (attribute_name_allowed e.0)
            || is_empty e.1
            || ltb max_attribute_value_bytes (len e.1))
          c.attributes))
      invalid_attribute
  ensure (not (is_empty c.reason || ltb max_attribute_value_bytes (len c.reason))) invalid_reason

unfoldable pub validate_all : List ProfileCapability → Result (Unit {0}) ProfileError
validate_all [] = ok tt
validate_all (c ∷ capabilities) = do validate c; validate_all capabilities

-- `ProfileCapability::key`
abbrev pub key : ProfileCapability → CapabilityKey
key c = record { source = c.source; metric = c.metric; attributes = c.attributes }

-- the rule kept for a key, with the specificity and the id of its profile
pub record Choice : Type 0 where
  pub specificity : ℕ
  pub rule : CapabilityRule
  pub profile : String

abbrev pub Selected : Type 0
Selected = BTreeMap CapabilityKey Choice

-- the `match selected.get(&key)`
abbrev pub choose : Option Choice → Selected → CapabilityKey → Choice → Result Selected ProfileError
choose none selected k choice = ok (insert k choice selected)
choose (some existing) selected k choice =
    if eqb existing.specificity choice.specificity
    then err ambiguous
    else if ltb choice.specificity existing.specificity
    then ok selected
    else ok (insert k choice selected)

unfoldable pub select : Selected → CapabilityKey → Choice → Result Selected ProfileError
select selected k choice = choose (get k selected) selected k choice

-- the loop over the capabilities of a profile that matches
unfoldable pub select_all :
    ℕ → String → Selected → List ProfileCapability → Result Selected ProfileError
select_all specificity profile selected [] = ok selected
select_all specificity profile selected (c ∷ capabilities) = do
  next ← select selected (key c) (record {
    specificity = specificity;
    rule = record { policy = c.policy; reason = c.reason };
    profile = profile;
  })
  select_all specificity profile next capabilities

-- the ids seen, and the rules kept
pub record Loading : Type 0 where
  pub profile_ids : BTreeSet String
  pub selected : Selected

abbrev pub is_given : {A : Type 0} → List A → Bool
is_given [] = false
is_given (x ∷ xs) = true

-- what a profile that matches, or not, adds
abbrev pub install : Bool → Loading → HardwareProfile → Result Loading ProfileError
install false state profile = ok state
install true state profile = do
  selected ← select_all (specificity profile.selector) profile.id state.selected profile.capability
  ok (record state { selected = selected })

-- one round of the loop over the profiles of a file
unfoldable pub add_profile :
    HardwareIdentity → Loading → HardwareProfile → Result Loading ProfileError
add_profile identity state profile = do
  ensure (not (is_empty profile.id || contains profile.id state.profile_ids)) bad_id
  validate_selector profile.selector
  ensure (is_given profile.capability) no_capabilities
  validate_all profile.capability
  install (matches profile.selector identity)
      (record state { profile_ids = insert profile.id tt state.profile_ids }) profile

unfoldable pub add_profiles :
    HardwareIdentity → Loading → List HardwareProfile → Result Loading ProfileError
add_profiles identity state [] = ok state
add_profiles identity state (profile ∷ profiles) = do
  next ← add_profile identity state profile
  add_profiles identity next profiles

module _ (from_str : String → Option ProfileFile) (identity : HardwareIdentity) where
  unfoldable pub load_file : Loading → File → Result Loading ProfileError
  load_file state file = do
    raw ← ok_or file.text reading_file
    profiles ← ok_or (from_str raw) parsing_file
    ensure (is_given profiles) no_profiles
    add_profiles identity state profiles

  unfoldable pub load_files : Loading → List File → Result Loading ProfileError
  load_files state [] = ok state
  load_files state (file ∷ files) = do next ← load_file state file; load_files next files

  -- `load_directory`: the rules of the `ResolvedCapabilities`
  unfoldable pub load_directory :
      Directory → Result (BTreeMap CapabilityKey CapabilityRule) ProfileError
  load_directory directory = do
    entries ← ok_or directory reading_directory
    files ← collect ProfileError.reading_entry entries
    state ←
        load_files (record { profile_ids = []; selected = [] })
          (sort (keep (λ file. is_toml file.name) files))
    ok (map (λ e. (e.0, e.1.rule)) state.selected)
