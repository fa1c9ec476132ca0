-- ===== src/Linux/Inventory.antt =====
-- crates/spark-linux/src/lib.rs, `inventory`: each part as the entries that it inserts, in order. The
-- printing of an `f64` is a parameter.
use spark_signals.Prelude.{
  String, Bool, ◌&&◌, Option, none, some, List, [], ◌∷◌, ◌++◌, any, map_or, unwrap_or,
  if◌then◌else◌,
}
use spark_signals.Prelude.Optional.{◌>>=◌, map_some, find_map}
use spark_signals.Order.{◌==◌, text_ord, nat_ord}
use spark_signals.BTreeMap.{BTreeMap, get, collect_map}
use spark_signals.Float.{F64, from_u64}
use spark_signals.Float.Arithmetic.{div}
use spark_signals.Float.Parse.{parse_f64}
use spark_signals.Text.{
  is_ascii_digit, all_bytes, is_empty, starts_with, strip_prefix, concat, parse_u64,
}
use spark_signals.Text.Split.{lines, split_once, trim, trim_matches}
use spark_signals.Text.Decimal.{to_decimal}
use spark_signals.Linux.Snapshot.{World, join, readable, read_trimmed}
use spark_signals.Linux.Parse.{saturating_mul, parse_meminfo}
use spark_signals.Linux.Block.{is_virtual}

abbrev pub Entries : Type 0
Entries = List (String × String)

-- an entry, if its value is there
abbrev pub entry : String → Option String → Entries
entry key none = []
entry key (some value) = (key, value) ∷ []

-- the entries of the names, one name after the other
abbrev pub each_entry : (String → Entries) → List String → Entries
each_entry entries [] = []
each_entry entries (name ∷ names) = entries name ++ each_entry entries names

abbrev pub in_directory : Option (List String) → (String → Entries) → Entries
in_directory none entries = []
in_directory (some names) entries = each_entry entries names

abbrev pub is_channel_property : String → Bool
is_channel_property property =
    any (λ other. property == other) ("label" ∷ "min" ∷ "max" ∷ "crit" ∷ "emergency" ∷ "lcrit" ∷ [])

module _ (to_string : F64 → String) where
  -- a value in thousandths, as it is if it is no number
  unfoldable pub in_degrees : String → String
  unfolding parse_f64 div from_u64
  in_degrees value = map_or (parse_f64 value) value (λ milli. to_string (div milli (from_u64 1000)))

module _ (to_string : F64 → String) (world : World) where
  unfoldable pub channel_value : String → String → String
  unfolding in_degrees
  channel_value property value = if property == "label" then value else in_degrees to_string value

  -- the entry of a file of a sensor
  unfoldable pub channel_entry : String → String → Entries
  unfolding strip_prefix split_once all_bytes read_trimmed channel_value
  channel_entry id filename =
      map_or (strip_prefix filename "temp" >>= split_once (λ c. c == b'_')) []
        (λ (parts : String × String).
          if all_bytes is_ascii_digit parts.0 && is_channel_property parts.1
          then entry (concat ("linux.hwmon." ∷ id ∷ ".temp" ∷ parts.0 ∷ "." ∷ parts.1 ∷ [])) (
              map_some (channel_value parts.1)
                (read_trimmed world (join (join "/sys/class/hwmon" id) filename)))
          else [])

  unfoldable pub sensor_entries : String → Entries
  unfolding channel_entry read_trimmed
  sensor_entries id =
      let path = join "/sys/class/hwmon" id in
      (
        concat ("linux.hwmon." ∷ id ∷ ".name" ∷ []),
        unwrap_or (read_trimmed world (join path "name")) id,
      )
      ∷ in_directory (world.read_dir path) (channel_entry id)

  -- `inventory_hwmon`
  unfoldable pub inventory_hwmon : Entries
  unfolding sensor_entries
  inventory_hwmon = in_directory (world.read_dir "/sys/class/hwmon") sensor_entries

module _ (world : World) where
  unfoldable pub zone_entry : String → Entries
  unfolding starts_with read_trimmed
  zone_entry id =
      if starts_with id "thermal_zone"
      then entry (concat ("linux.thermal." ∷ id ∷ ".type" ∷ []))
          (read_trimmed world (join (join "/sys/class/thermal" id) "type"))
      else []

  -- `inventory_thermal_zones`
  unfoldable pub inventory_thermal_zones : Entries
  unfolding zone_entry
  inventory_thermal_zones = in_directory (world.read_dir "/sys/class/thermal") zone_entry

  unfoldable pub disk_property : String → String → String → Entries
  unfolding read_trimmed
  disk_property id property path =
      entry (concat ("host.disk." ∷ id ∷ "." ∷ property ∷ []))
        (read_trimmed world (join (join "/sys/block" id) path))

  unfoldable pub disk_entries : String → Entries
  unfolding disk_property read_trimmed parse_u64 to_decimal
  disk_entries id =
      disk_property id "model" "device/model"
      ++ disk_property id "firmware" "device/firmware_rev"
      ++ entry (concat ("host.disk." ∷ id ∷ ".capacity_bytes" ∷ [])) (
          map_some (λ sectors. to_decimal (saturating_mul sectors 512))
            (read_trimmed world (join (join "/sys/block" id) "size") >>= parse_u64))

  -- `inventory_block_devices`
  unfoldable pub inventory_block_devices : Entries
  unfolding disk_entries starts_with
  inventory_block_devices =
      in_directory (world.read_dir "/sys/block")
        (λ id. if is_virtual id then [] else disk_entries id)

  unfoldable pub interface_entries : String → Entries
  interface_entries id =
      let path = join "/sys/class/net" id in
      (concat ("host.network." ∷ id ∷ ".name" ∷ []), id)
      ∷ entry (concat ("host.network." ∷ id ∷ ".driver" ∷ []))
          (world.link_name (join path "device/driver"))

  -- `inventory_network`
  unfoldable pub inventory_network : Entries
  unfolding interface_entries
  inventory_network = in_directory (world.read_dir "/sys/class/net") (λ id.
      if world.exists (join (join "/sys/class/net" id) "device") then interface_entries id else [])

  unfoldable pub memory_entry : Entries
  unfolding parse_meminfo get to_decimal
  memory_entry = entry "host.memory.total_bytes" (
      map_some to_decimal (
        readable (world.read_to_string "/proc/meminfo") >>= λ raw.
        get "MemTotal" (parse_meminfo raw)))

  abbrev not_empty : String → Option String
  not_empty value = if is_empty value then none else some value

  -- the value of `PRETTY_NAME` without its quotes
  unfoldable pub pretty_name : String → Option String
  unfolding lines strip_prefix trim_matches
  pretty_name raw =
      map_some (trim_matches (λ c. c == b'"'))
        (find_map (λ line. strip_prefix line "PRETTY_NAME=") (lines raw))

  unfoldable pub system_entries : Entries
  unfolding pretty_name trim
  system_entries =
      entry "host.os.release"
        (map_some trim (readable (world.read_to_string "/etc/dgx-release")) >>= not_empty)
      ++ entry "host.os.pretty_name"
          (readable (world.read_to_string "/etc/os-release") >>= pretty_name >>= not_empty)
      ++ entry "host.cpu.online" (
          map_some trim (readable (world.read_to_string "/sys/devices/system/cpu/online"))
          >>= not_empty)

  -- `inventory`
  unfoldable pub inventory : (F64 → String) → BTreeMap String String
  unfolding inventory_hwmon inventory_thermal_zones inventory_block_devices inventory_network
      memory_entry system_entries collect_map
  inventory to_string = collect_map (
      inventory_hwmon to_string world
      ++ inventory_thermal_zones
      ++ inventory_block_devices
      ++ inventory_network
      ++ memory_entry
      ++ system_entries)
