-- ===== src/Linux/State.antt =====
-- crates/spark-linux/src/lib.rs, `SystemCollector`: what is kept from one collection to the next.
use spark_signals.Prelude.{ℕ, String, Option, none, []}
use spark_signals.BTreeMap.{BTreeMap}
use spark_signals.Linux.Parse.{CpuTimes, NetworkCounters, BlockCounters}

pub record SystemCollector : Type 0 where
  pub previous_cpu : Option CpuTimes
  pub previous_network : BTreeMap String NetworkCounters
  pub previous_block : BTreeMap String BlockCounters
  pub previous_vmstat : BTreeMap String ℕ

-- `SystemCollector::default`
abbrev pub new_collector : SystemCollector
new_collector = record {
  previous_cpu = none;
  previous_network = [];
  previous_block = [];
  previous_vmstat = [];
}
