-- ===== src/Linux/Parse.antt =====
-- crates/spark-linux/src/lib.rs: the parsers of the files of procfs and sysfs. A sum of `u64` wraps,
-- as in a release build.
use spark_signals.Prelude.{
  ℕ, zero, suc, ◌+◌, ◌-◌, ◌*◌, ◌%◌, ◌^◌, min, String, Option, none, some, List, [], ◌∷◌, length,
  leb, ltb, map, find, unwrap_or, if◌then◌else◌,
}
use spark_signals.Prelude.Optional.{drop, ◌>>=◌, collect_all, first, filter_map, find_map}
use spark_signals.Order.{◌==◌, text_ord, nat_ord, option_ord}
use spark_signals.BTreeMap.{collect_map, BTreeMap}
use spark_signals.Float.{F64}
use spark_signals.Float.Parse.{parse_f64}
use spark_signals.Text.{parse_u64, starts_with, strip_prefix}
use spark_signals.Text.Split.{lines, split_whitespace, split_once, trim}

pub record CpuTimes : Type 0 where
  pub total : ℕ
  pub idle : ℕ
  pub context_switches : ℕ
  pub runnable : ℕ
  pub blocked : ℕ

pub record NetworkCounters : Type 0 where
  pub rx_bytes : ℕ
  pub rx_packets : ℕ
  pub rx_errors : ℕ
  pub rx_dropped : ℕ
  pub tx_bytes : ℕ
  pub tx_packets : ℕ
  pub tx_errors : ℕ
  pub tx_dropped : ℕ
  pub carrier_changes : ℕ

pub record BlockCounters : Type 0 where
  pub reads : ℕ
  pub sectors_read : ℕ
  pub read_ms : ℕ
  pub writes : ℕ
  pub sectors_written : ℕ
  pub write_ms : ℕ
  pub busy_ms : ℕ
  pub queue_ms : ℕ

-- `a.saturating_add(b)`, `a.saturating_mul(b)` of `u64`
abbrev pub saturating_add : ℕ → ℕ → ℕ
saturating_add a b = min (a + b) (2 ^ 64 - 1)

abbrev pub saturating_mul : ℕ → ℕ → ℕ
saturating_mul a b = min (a * b) (2 ^ 64 - 1)

-- `values.sum()`
abbrev pub wrapping_sum : List ℕ → ℕ
wrapping_sum [] = 0
wrapping_sum (value ∷ values) = (value + wrapping_sum values) % 2 ^ 64

-- `values.get(index)`
abbrev pub get_elem? {ℓ} : {A : Type ℓ} → List A → ℕ → Option A
get_elem? [] index = none
get_elem? (value ∷ values) zero = some value
get_elem? (value ∷ values) (suc index) = get_elem? values index

-- `values[index]`, of an index that was found to be in range
abbrev pub at : List ℕ → ℕ → ℕ
at values index = unwrap_or (get_elem? values index) 0

-- the closure `field` of `parse_cpu_times`
unfoldable pub stat_field : String → String → ℕ
unfolding lines strip_prefix parse_u64 trim
stat_field raw name =
    unwrap_or (find_map (λ row. do rest ← strip_prefix row name; parse_u64 (trim rest)) (lines raw))
      0

-- the numbers of a row
unfoldable pub parse_numbers : List String → Option (List ℕ)
unfolding parse_u64
parse_numbers words = collect_all (map parse_u64 words)

-- `parse_cpu_times`
unfoldable pub parse_cpu_times : String → Option CpuTimes
unfolding lines split_whitespace parse_numbers starts_with stat_field
parse_cpu_times raw = do
  line ← find (λ line. starts_with line "cpu ") (lines raw)
  values ← parse_numbers (drop 1 (split_whitespace line))
  if ltb (length values) 4
      then none
      else some (record {
        total = wrapping_sum values;
        idle = saturating_add (at values 3) (at values 4);
        context_switches = stat_field raw "ctxt ";
        runnable = stat_field raw "procs_running ";
        blocked = stat_field raw "procs_blocked ";
      })

-- the closure of `parse_meminfo`
unfoldable pub meminfo_entry : String → Option (String × ℕ)
unfolding split_once split_whitespace parse_u64
meminfo_entry line = do
  (key, rest) ← split_once (λ c. c == b':') line
  let fields = split_whitespace rest
  word ← first fields
  value ← parse_u64 word
  let multiplier = if first (drop 1 fields) == some "kB" then 1024 else 1
  some (key, saturating_mul value multiplier)

-- `parse_meminfo`
unfoldable pub parse_meminfo : String → BTreeMap String ℕ
unfolding meminfo_entry lines collect_map
parse_meminfo raw = collect_map (filter_map meminfo_entry (lines raw))

-- the closure of `parse_pressure`
unfoldable pub pressure_entry : String → Option (String × F64)
unfolding split_whitespace strip_prefix parse_f64
pressure_entry line = do
  let fields = split_whitespace line
  class ← first fields
  text ← find_map (λ field. strip_prefix field "avg10=") (drop 1 fields)
  avg10 ← parse_f64 text
  some (class, avg10)

-- `parse_pressure`
unfoldable pub parse_pressure : String → BTreeMap String F64
unfolding pressure_entry lines collect_map
parse_pressure raw = collect_map (filter_map pressure_entry (lines raw))

-- the closure of `parse_key_values`
unfoldable pub key_value_entry : String → Option (String × ℕ)
unfolding split_whitespace parse_u64
key_value_entry line = do
  let fields = split_whitespace line
  key ← first fields
  word ← first (drop 1 fields)
  value ← parse_u64 word
  some (key, value)

-- `parse_key_values`
unfoldable pub parse_key_values : String → BTreeMap String ℕ
unfolding key_value_entry lines collect_map
parse_key_values raw = collect_map (filter_map key_value_entry (lines raw))

-- the closure of `parse_network`
unfoldable pub network_entry : String → Option (String × NetworkCounters)
unfolding split_once split_whitespace parse_numbers trim
network_entry line = do
  (name, rest) ← split_once (λ c. c == b':') line
  values ← parse_numbers (split_whitespace rest)
  if leb 16 (length values)
      then some (
        trim name,
        record {
          rx_bytes = at values 0;
          rx_packets = at values 1;
          rx_errors = at values 2;
          rx_dropped = at values 3;
          tx_bytes = at values 8;
          tx_packets = at values 9;
          tx_errors = at values 10;
          tx_dropped = at values 11;
          carrier_changes = 0;
        },
      )
      else none

-- `parse_network`
unfoldable pub parse_network : String → BTreeMap String NetworkCounters
unfolding network_entry lines collect_map
parse_network raw = collect_map (filter_map network_entry (drop 2 (lines raw)))

-- `parse_block`
unfoldable pub parse_block : String → Option BlockCounters
unfolding split_whitespace parse_numbers
parse_block raw = do
  values ← parse_numbers (split_whitespace raw)
  if leb 11 (length values)
      then some (record {
        reads = at values 0;
        sectors_read = at values 2;
        read_ms = at values 3;
        writes = at values 4;
        sectors_written = at values 6;
        write_ms = at values 7;
        busy_ms = at values 9;
        queue_ms = at values 10;
      })
      else none
