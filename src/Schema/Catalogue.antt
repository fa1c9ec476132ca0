-- ===== src/Schema/Catalogue.antt =====
-- The finite catalogues of the v1 schema (`METRIC_CATALOGUE_V1`, `ATTRIBUTE_CATALOGUE_V1`).
use spark_signals.Prelude.{String, Bool, List, [], ◌∷◌, any}
use spark_signals.Order.{◌==◌, text_ord}

abbrev pub metric_catalogue_v1 : List String
metric_catalogue_v1 =
    "nvidia.gpu.clock.frequency" ∷ "nvidia.gpu.decoder.utilization"
    ∷ "nvidia.gpu.encoder.utilization" ∷ "nvidia.gpu.memory_controller.utilization"
    ∷ "nvidia.gpu.power.draw" ∷ "nvidia.gpu.performance_state"
    ∷ "nvidia.gpu.process.memory.allocation" ∷ "nvidia.gpu.temperature" ∷ "nvidia.gpu.throttle"
    ∷ "nvidia.gpu.utilization" ∷ "nvidia.gpu.xid.count" ∷ "spark.agent.collection.duration"
    ∷ "spark.agent.collection.errors" ∷ "spark.agent.collector.age" ∷ "spark.agent.events.dropped"
    ∷ "spark.agent.nats.reconnects" ∷ "spark.llm.available" ∷ "spark.llm.collection.errors"
    ∷ "spark.llm.context.capacity" ∷ "spark.llm.requests.queued" ∷ "spark.llm.requests.running"
    ∷ "spark.llm.tokens.generation.rate" ∷ "spark.llm.tokens.input" ∷ "spark.llm.tokens.output"
    ∷ "spark.llm.tokens.prefill.rate" ∷ "spark.llm.response.age" ∷ "spark.llm.uptime"
    ∷ "spark.pressure.cpu.some" ∷ "spark.pressure.io.full" ∷ "spark.pressure.io.some"
    ∷ "spark.pressure.memory.full" ∷ "spark.pressure.memory.some" ∷ "spark.service.active"
    ∷ "spark.service.restarts" ∷ "spark.uma.allocatable_with_swap"
    ∷ "spark.uma.allocatable_without_swap" ∷ "system.cpu.context_switches" ∷ "system.cpu.frequency"
    ∷ "system.cpu.load_average.1m" ∷ "system.cpu.tasks.blocked" ∷ "system.cpu.tasks.runnable"
    ∷ "system.cpu.online" ∷ "system.cpu.utilization" ∷ "system.disk.io"
    ∷ "system.disk.operation.count" ∷ "system.disk.operation_time" ∷ "system.disk.queue_time"
    ∷ "system.filesystem.inodes" ∷ "system.filesystem.limit" ∷ "system.filesystem.read_only"
    ∷ "system.filesystem.usage" ∷ "system.memory.active" ∷ "system.memory.buffers"
    ∷ "system.memory.cached" ∷ "system.memory.cgroup.events" ∷ "system.memory.dirty"
    ∷ "system.memory.hugepages.free" ∷ "system.memory.hugepages.reserved"
    ∷ "system.memory.hugepages.total" ∷ "system.memory.inactive" ∷ "system.memory.linux.available"
    ∷ "system.memory.linux.free" ∷ "system.memory.linux.total" ∷ "system.memory.oom_kills"
    ∷ "system.memory.page_faults.major" ∷ "system.memory.paging" ∷ "system.memory.reclaim"
    ∷ "system.memory.slab.reclaimable" ∷ "system.memory.slab.unreclaimable"
    ∷ "system.memory.swap.free" ∷ "system.memory.swap.total" ∷ "system.memory.writeback"
    ∷ "system.network.errors" ∷ "system.network.carrier_changes" ∷ "system.network.io"
    ∷ "system.network.link.speed" ∷ "system.network.link.up" ∷ "system.network.packet.count"
    ∷ "system.network.packet.dropped" ∷ "system.temperature" ∷ "system.uptime" ∷ []

abbrev pub attribute_catalogue_v1 : List String
attribute_catalogue_v1 =
    "aggregation" ∷ "cgroup.memory.event" ∷ "cgroup.scope" ∷ "channel" ∷ "clock.domain"
    ∷ "collector.domain" ∷ "cpu.logical_number" ∷ "device" ∷ "direction" ∷ "gpu.id" ∷ "gpu.index"
    ∷ "filesystem.device" ∷ "filesystem.type" ∷ "llm.backend" ∷ "llm.endpoint.id" ∷ "llm.model.id"
    ∷ "mountpoint" ∷ "network.interface.name" ∷ "network.io.direction" ∷ "nvidia.performance_state"
    ∷ "nvidia.xid.code" ∷ "process.pid" ∷ "sensor" ∷ "state"
    ∷ "systemd.active_enter_timestamp_monotonic_us" ∷ "systemd.substate" ∷ "systemd.unit"
    ∷ "temperature.limit.critical_celsius" ∷ "temperature.limit.max_celsius" ∷ []

-- METRIC_CATALOGUE_V1.contains(&name)
unfoldable pub metric_name_allowed : String → Bool
metric_name_allowed name = any (λ entry. entry == name) metric_catalogue_v1

unfoldable pub attribute_name_allowed : String → Bool
attribute_name_allowed name = any (λ entry. entry == name) attribute_catalogue_v1
