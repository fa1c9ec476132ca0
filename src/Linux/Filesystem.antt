-- ===== src/Linux/Filesystem.antt =====
-- crates/spark-linux/src/lib.rs, `collect_filesystem` and the parsing of mountinfo.
use spark_signals.Prelude.{
  ℕ, ◌-◌, String, Bool, not, ◌||◌, Option, none, some, List, [], ◌∷◌, any, map_or, if◌then◌else◌,
}
use spark_signals.Prelude.Optional.{drop, ◌>>=◌, filter_map, first}
use spark_signals.BTreeMap.{collect_map}
use spark_signals.Order.{◌==◌, text_ord}
use spark_signals.Float.{from_u64, from_bool}
use spark_signals.Text.{starts_with}
use spark_signals.Text.Split.{lines, split_whitespace, split_once_at}
use spark_signals.Text.Replace.{replace}
use spark_signals.Schema.{MetricPoint, Quality}
use spark_signals.Linux.Snapshot.{World, Statvfs, readable}
use spark_signals.Points.{Points, attributed, each}
use spark_signals.Linux.Points.{gauge}
use spark_signals.Linux.Parse.{saturating_mul}

-- `decode_mount_field`
unfoldable pub decode_mount_field : String → String
unfolding replace
decode_mount_field value =
    replace (replace (replace (replace value "\\040" " ") "\\011" "\t") "\\012" "\n") "\\134" "\\"

-- `is_health_filesystem`
unfoldable pub is_health_filesystem : String → String → Bool
unfolding starts_with
is_health_filesystem filesystem device =
    starts_with device "/dev/"
    || any (λ name. filesystem == name) ("btrfs" ∷ "cifs" ∷ "nfs" ∷ "nfs4" ∷ "zfs" ∷ [])

-- `is_pseudo_filesystem`
unfoldable pub is_pseudo_filesystem : String → Bool
is_pseudo_filesystem filesystem =
    any (λ name. filesystem == name)
      ("autofs" ∷ "bpf" ∷ "cgroup" ∷ "cgroup2" ∷ "configfs" ∷ "debugfs" ∷ "devpts" ∷ "devtmpfs"
        ∷ "fusectl" ∷ "hugetlbfs" ∷ "mqueue" ∷ "proc" ∷ "pstore" ∷ "securityfs" ∷ "squashfs"
        ∷ "sysfs" ∷ "tracefs" ∷ [])

-- the body of the loop of `parse_mountinfo`: the entry that it inserts
unfoldable pub mount_entry : String → Option (String × (String × String))
unfolding split_once_at split_whitespace is_pseudo_filesystem is_health_filesystem
    decode_mount_field
mount_entry line = do
  (before, after) ← split_once_at " - " line
  mountpoint ← first (drop 4 (split_whitespace before))
  filesystem ← first (split_whitespace after)
  device ← first (drop 1 (split_whitespace after))
  if is_pseudo_filesystem filesystem || not (is_health_filesystem filesystem device)
      then none
      else some (decode_mount_field mountpoint, (filesystem, decode_mount_field device))

-- `parse_mountinfo`
unfoldable pub parse_mountinfo : String → List (String × (String × String))
unfolding lines mount_entry collect_map
parse_mountinfo raw = collect_map (filter_map mount_entry (lines raw))

module _ (mountpoint filesystem device : String) where
  -- the closure `attrs`
  unfoldable pub mount_attributes : Option MetricPoint → Option MetricPoint
  unfolding attributed
  mount_attributes point =
      attributed "filesystem.device" device
        (attributed "filesystem.type" filesystem (attributed "mountpoint" mountpoint point))

  unfoldable pub usage_point : String → ℕ → Quality → Option MetricPoint
  unfolding gauge attributed mount_attributes from_u64
  usage_point state value quality =
      mount_attributes
        (attributed "state" state (gauge "system.filesystem.usage" (from_u64 value) "By" quality))

  unfoldable pub inodes_point : String → ℕ → Quality → Option MetricPoint
  unfolding gauge attributed mount_attributes from_u64
  inodes_point state value quality = mount_attributes (
      attributed "state" state
        (gauge "system.filesystem.inodes" (from_u64 value) "{inode}" quality))

  -- `collect_one_filesystem` from the statistics on
  unfoldable pub filesystem_points : Statvfs → Points
  unfolding gauge mount_attributes usage_point inodes_point from_u64
  filesystem_points stats =
      let block_size = stats.fragment_size in
      let total = saturating_mul stats.blocks block_size in
      let available = saturating_mul stats.blocks_available block_size in
      let used = total - saturating_mul stats.blocks_free block_size in
      mount_attributes (gauge "system.filesystem.limit" (from_u64 total) "By" Quality.measured)
      ∷ usage_point "used" used Quality.derived
      ∷ usage_point "available" available Quality.measured
      ∷ inodes_point "total" stats.files Quality.measured
      ∷ inodes_point "used" (stats.files - stats.files_free) Quality.derived
      ∷ inodes_point "available" stats.files_free Quality.measured
      ∷ mount_attributes
          (gauge "system.filesystem.read_only" (from_bool stats.read_only) "1" Quality.measured)
      ∷ []

module _ (world : World) where
  -- `collect_one_filesystem`
  unfoldable pub collect_one_filesystem : String × (String × String) → Points
  unfolding filesystem_points
  collect_one_filesystem (mountpoint, (filesystem, device)) =
      map_or (world.statvfs mountpoint) [] (filesystem_points mountpoint filesystem device)

  -- `collect_filesystem`
  unfoldable pub collect_filesystem : Points
  unfolding collect_one_filesystem parse_mountinfo
  collect_filesystem = each collect_one_filesystem (
      map_or (readable (world.read_to_string "/proc/self/mountinfo"))
        (("/", ("unknown", "unknown")) ∷ []) parse_mountinfo)
