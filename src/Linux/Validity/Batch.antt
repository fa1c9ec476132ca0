-- ===== src/Linux/Validity/Batch.antt =====
-- A collection and the decoding of the batch that it becomes.
use spark_signals.Prelude.{String, ◌≡◌, ◌↔◌, some, List, ◌∷◌, ◌++◌, All, All-append, ok}
use spark_signals.Float.{F64}
use spark_signals.Schema.{MetricPoint, metric_batch, check_signal}
use spark_signals.Linux.Snapshot.{World}
use spark_signals.Linux.State.{SystemCollector}
use spark_signals.Linux.Cpu.{collect_cpu, collect_uptime}
use spark_signals.Linux.Vmstat.{collect_vmstat}
use spark_signals.Linux.Network.{collect_network}
use spark_signals.Linux.Block.{collect_block}
use spark_signals.Linux.Memory.{collect_memory, collect_pressure}
use spark_signals.Linux.Filesystem.{collect_filesystem}
use spark_signals.Linux.Temperature.{collect_temperatures}
use spark_signals.Linux.Collector.{collect_core, collect_network_points, collect_storage, collect}
use spark_signals.Linux.Validity.Counters.{
  collect_cpu-AllMade, collect_uptime-IsMade, collect_vmstat-AllMade, collect_network-AllMade,
  collect_block-AllMade,
}
use spark_signals.Linux.Validity.Gauges.{
  collect_memory-AllMade, collect_pressure-AllMade, collect_filesystem-AllMade,
  collect_temperatures-AllMade,
}
use spark_signals.Points.Made.{IsMade, AllMade, plain}
use spark_signals.Points.Batch.{IsKnown, HasShortValues, collected, batch_accepted_iff}

module _ (to_string : F64 → String) (world : World) where
  collect_core-AllMade :
      (collector : SystemCollector) → AllMade (collect_core to_string world collector).1
  unfolding collect_core
  collect_core-AllMade collector =
      let counted = (collect_cpu world collector).0 in
      let cpu = (collect_cpu world collector).1 in
      let vmstat = (collect_vmstat world counted).1 in
      let some_cpu = collect_pressure world "cpu" in
      let memory = collect_pressure world "memory" in
      let io = collect_pressure world "io" in
      let first = cpu ++ collect_uptime world ∷ collect_memory world in
      All-append (IsMade 24) ((((first ++ some_cpu) ++ memory) ++ io) ++ vmstat)
        (collect_temperatures to_string world)
        (All-append (IsMade 24) (((first ++ some_cpu) ++ memory) ++ io) vmstat
          (All-append (IsMade 24) ((first ++ some_cpu) ++ memory) io
            (All-append (IsMade 24) (first ++ some_cpu) memory
              (All-append (IsMade 24) first some_cpu
                (All-append (IsMade 24) cpu (collect_uptime world ∷ collect_memory world)
                  (collect_cpu-AllMade world collector)
                  (plain _ (collect_uptime-IsMade world), collect_memory-AllMade world))
                (collect_pressure-AllMade world "cpu"))
              (collect_pressure-AllMade world "memory"))
            (collect_pressure-AllMade world "io"))
          (collect_vmstat-AllMade world counted))
        (collect_temperatures-AllMade to_string world)

  -- Whatever the files hold and were before, a collection does not panic. Its points have catalogue
  -- names and at most 24 attributes, so that the batch of them passes the test of the decoder exactly
  -- if no attribute's value has more than 256 bytes.
  pub collect-accepted_iff :
      (collector : SystemCollector)
      → (points : List MetricPoint) × ((collect to_string world collector).1 ≡ some points)
        × All IsKnown points
        × ((check_signal (metric_batch points) ≡ ok tt) ↔ All HasShortValues points)
  unfolding collect collect_network_points collect_storage
  collect-accepted_iff collector =
      let first = collect_core to_string world collector in
      let second = collect_network world first.0 in
      let third = collect_block world second.0 in
      let storage = third.1 ++ collect_filesystem world in
      let made =
        All-append (IsMade 24) (first.1 ++ second.1) storage
          (All-append (IsMade 24) first.1 second.1 (collect_core-AllMade collector)
            (collect_network-AllMade world first.0))
          (All-append (IsMade 24) third.1 (collect_filesystem world)
            (collect_block-AllMade world second.0) (collect_filesystem-AllMade world)) in
      let (points, e, known) = collected ((first.1 ++ second.1) ++ storage) made in
      (points, e, known, batch_accepted_iff points known)
