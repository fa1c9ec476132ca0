-- ===== src/Agent/Inventory.antt =====
-- crates/spark-agent/src/main.rs, `host_inventory`. The number of processors that the standard library
-- reports is a parameter.
use spark_signals.Prelude.{ℕ, String, Option, [], ◌∷◌, ◌++◌, unwrap_or}
use spark_signals.Prelude.Optional.{◌>>=◌, find_map}
use spark_signals.Order.{text_ord}
use spark_signals.BTreeMap.{BTreeMap, inserted}
use spark_signals.Float.{F64}
use spark_signals.Text.{strip_prefix}
use spark_signals.Text.Split.{lines}
use spark_signals.Text.Decimal.{to_decimal}
use spark_signals.Linux.{World, readable, read_trimmed}
use spark_signals.Linux.Inventory.{Entries, entry, inventory}

module _ (to_string : F64 → String) (world : World) (parallelism : Option ℕ) where
  unfoldable pub cpu_model : Option String
  unfolding lines strip_prefix
  cpu_model = readable (world.read_to_string "/proc/cpuinfo") >>= λ raw.
      find_map (λ line. strip_prefix line "model name\t: ") (lines raw)

  -- what is inserted after the inventory of Linux
  unfoldable pub host_entries : Entries
  unfolding read_trimmed cpu_model to_decimal
  host_entries =
      entry "host.kernel.version" (read_trimmed world "/proc/sys/kernel/osrelease")
      ++ entry "host.product.name" (read_trimmed world "/sys/class/dmi/id/product_name")
      ++ entry "host.board.name" (read_trimmed world "/sys/class/dmi/id/board_name")
      ++ entry "host.cpu.model" cpu_model
      ++ ("host.cpu.logical.count", to_decimal (unwrap_or parallelism 0)) ∷ []

  -- `host_inventory`
  unfoldable pub host_inventory : BTreeMap String String
  unfolding inventory host_entries inserted
  host_inventory = inserted (inventory world to_string) host_entries
