-- ===== src/Linux/History.antt =====
-- What a collector has kept after a history of collections.
use spark_signals.Prelude.{ℕ, String, Option, none, List, [], ◌∷◌, map, unwrap_or}
use spark_signals.Prelude.Optional.{◌>>=◌, map_some, or_later}
use spark_signals.BTreeMap.{collect_map, BTreeMap}
use spark_signals.Order.{text_ord}
use spark_signals.Float.{F64}
use spark_signals.Linux.Snapshot.{World, readable}
use spark_signals.Linux.State.{SystemCollector, new_collector}
use spark_signals.Linux.Parse.{
  CpuTimes, NetworkCounters, BlockCounters, parse_cpu_times, parse_key_values, parse_network,
}
use spark_signals.Linux.Vmstat.{with_reclaim}
use spark_signals.Linux.Network.{with_carrier}
use spark_signals.Linux.Block.{block_readings}
use spark_signals.Linux.Collector.{collect}

-- What a snapshot says of each of the four, if it can be read.
abbrev pub cpu_reading : World → Option CpuTimes
cpu_reading world = readable (world.read_to_string "/proc/stat") >>= parse_cpu_times

abbrev pub vmstat_reading : World → Option (BTreeMap String ℕ)
vmstat_reading world =
    map_some (λ raw. with_reclaim (parse_key_values raw))
      (readable (world.read_to_string "/proc/vmstat"))

abbrev pub network_reading : World → Option (BTreeMap String NetworkCounters)
network_reading world =
    map_some (λ raw. map (with_carrier world) (parse_network raw))
      (readable (world.read_to_string "/proc/net/dev"))

abbrev pub block_reading : World → Option (BTreeMap String BlockCounters)
block_reading world =
    map_some (λ devices. collect_map (block_readings world devices)) (world.read_dir "/sys/block")

-- The latest reading of a history, which is given latest first.
abbrev pub latest {ℓ} : {A : Type ℓ} → (World → Option A) → List World → Option A
latest reading [] = none
latest reading (world ∷ history) = or_later (reading world) (latest reading history)

-- The collector that has the latest reading of each of the four.
abbrev pub kept : List World → SystemCollector
kept history = record {
  previous_cpu = latest cpu_reading history;
  previous_network = unwrap_or (latest network_reading history) [];
  previous_block = unwrap_or (latest block_reading history) [];
  previous_vmstat = unwrap_or (latest vmstat_reading history) [];
}

abbrev with_vmstat : World → SystemCollector → SystemCollector
with_vmstat world c = record c {
  previous_vmstat = unwrap_or (vmstat_reading world) c.previous_vmstat;
}

abbrev with_network : World → SystemCollector → SystemCollector
with_network world c = record c {
  previous_network = unwrap_or (network_reading world) c.previous_network;
}

abbrev with_block : World → SystemCollector → SystemCollector
with_block world c = record c { previous_block = unwrap_or (block_reading world) c.previous_block }

-- The collector with what a snapshot says.
abbrev step_of : World → SystemCollector → SystemCollector
step_of world c = record {
  previous_cpu = or_later (cpu_reading world) c.previous_cpu;
  previous_network = unwrap_or (network_reading world) c.previous_network;
  previous_block = unwrap_or (block_reading world) c.previous_block;
  previous_vmstat = unwrap_or (vmstat_reading world) c.previous_vmstat;
}

module _ (to_string : F64 → String) where
  -- The collector after a history, latest first.
  abbrev pub after : List World → SystemCollector
  after [] = new_collector
  after (world ∷ history) = (collect to_string world (after history)).0
