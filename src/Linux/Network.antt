-- ===== src/Linux/Network.antt =====
-- crates/spark-linux/src/lib.rs, `collect_network`.
use spark_signals.Prelude.{
  ℕ, String, Bool, not, ◌||◌, Option, none, some, List, [], ◌∷◌, ◌++◌, map, unwrap_or, is_some_and,
  if◌then◌else◌,
}
use spark_signals.Prelude.Optional.{◌>>=◌, map_some}
use spark_signals.Order.{◌==◌, text_ord}
use spark_signals.BTreeMap.{BTreeMap, get}
use spark_signals.Float.{F64, from_u64, from_bool, zero_f64, lt}
use spark_signals.Float.Arithmetic.{mul}
use spark_signals.Float.Parse.{parse_f64}
use spark_signals.Text.{parse_u64}
use spark_signals.Schema.{MetricPoint, Quality}
use spark_signals.Linux.Snapshot.{World, join, readable, read_trimmed}
use spark_signals.Points.{Points, attributed, each, made}
use spark_signals.Linux.Points.{gauge, since_last}
use spark_signals.Linux.Parse.{NetworkCounters, parse_network}
use spark_signals.Linux.State.{SystemCollector}

-- a row of the table of `collect_network`, its value a field of the counters
pub record NetworkRow : Type 0 where
  pub name : String
  pub direction : String
  pub counter : NetworkCounters → ℕ
  pub unit : String

abbrev network_row : String → String → (NetworkCounters → ℕ) → String → NetworkRow
network_row name direction counter unit = record {
  name = name;
  direction = direction;
  counter = counter;
  unit = unit;
}

abbrev pub network_rows : List NetworkRow
network_rows =
    network_row "system.network.io" "receive" (λ v. v.rx_bytes) "By"
    ∷ network_row "system.network.io" "transmit" (λ v. v.tx_bytes) "By"
    ∷ network_row "system.network.packet.count" "receive" (λ v. v.rx_packets) "{packet}"
    ∷ network_row "system.network.packet.count" "transmit" (λ v. v.tx_packets) "{packet}"
    ∷ network_row "system.network.errors" "receive" (λ v. v.rx_errors) "{error}"
    ∷ network_row "system.network.errors" "transmit" (λ v. v.tx_errors) "{error}"
    ∷ network_row "system.network.packet.dropped" "receive" (λ v. v.rx_dropped) "{packet}"
    ∷ network_row "system.network.carrier_changes" "bidirectional" (λ v. v.carrier_changes)
        "{event}"
    ∷ network_row "system.network.packet.dropped" "transmit" (λ v. v.tx_dropped) "{packet}"
    ∷ []

-- the point of a row for an interface
unfoldable pub network_point :
    String → NetworkCounters → Option NetworkCounters → NetworkRow → Option MetricPoint
unfolding since_last attributed
network_point interface counters old row = attributed "network.io.direction" row.direction (
    attributed "network.interface.name" interface
      (since_last row.name row.unit "procfs" (row.counter counters) (map_some row.counter old)))

module _ (world : World) where
  abbrev pub sysfs : String → String
  sysfs interface = join "/sys/class/net" interface

  -- the counters with the carrier changes, which are read for every interface
  unfoldable pub with_carrier : String × NetworkCounters → String × NetworkCounters
  unfolding read_trimmed parse_u64
  with_carrier (interface, counters) =
      let changes = read_trimmed world (join (sysfs interface) "carrier_changes") >>= parse_u64 in
      (interface, record counters { carrier_changes = unwrap_or changes 0 })

  unfoldable pub link_up : String → Option MetricPoint
  unfolding gauge attributed read_trimmed
  link_up interface =
      let state = read_trimmed world (join (sysfs interface) "operstate") in
      attributed "network.interface.name" interface (
        gauge "system.network.link.up" (from_bool (is_some_and state (λ value. value == "up"))) "1"
          Quality.measured)

  unfoldable pub positive : F64 → Option F64
  unfolding lt
  positive v = if lt zero_f64 v then some v else none

  unfoldable pub link_speed : String → Points
  unfolding gauge attributed read_trimmed parse_f64 positive mul from_u64
  link_speed interface =
      made
        (λ mbps. attributed "network.interface.name" interface (
          gauge "system.network.link.speed" (mul mbps (from_u64 1000000)) "bit/s" Quality.measured))
        (read_trimmed world (join (sysfs interface) "speed") >>= parse_f64 >>= positive)

  abbrev pub is_skipped : String → Bool
  is_skipped interface = interface == "lo" || not (world.exists (join (sysfs interface) "device"))

  unfoldable pub physical_points : String → NetworkCounters → Option NetworkCounters → Points
  unfolding network_point link_up link_speed
  physical_points interface counters old =
      map (network_point interface counters old) network_rows
      ++ link_up interface ∷ link_speed interface

  -- the body of the second loop
  unfoldable pub interface_points :
      BTreeMap String NetworkCounters → String × NetworkCounters → Points
  unfolding physical_points get
  interface_points previous (interface, counters) =
      if is_skipped interface
      then []
      else physical_points interface counters (get interface previous)

  unfoldable pub network_after : SystemCollector → Option String → SystemCollector × Points
  unfolding interface_points with_carrier parse_network
  network_after collector none = (collector, [])
  network_after collector (some raw) =
      let current = map with_carrier (parse_network raw) in
      (
        record collector { previous_network = current },
        each (interface_points collector.previous_network) current,
      )

  -- `collect_network`
  unfoldable pub collect_network : SystemCollector → SystemCollector × Points
  unfolding network_after
  collect_network collector =
      network_after collector (readable (world.read_to_string "/proc/net/dev"))
