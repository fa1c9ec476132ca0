-- ===== src/Probes/Parse.antt =====
-- crates/spark-probes/src/lib.rs: the parsers of metrics and properties.
use spark_signals.Prelude.{
  ℕ, String, not, ◌&&◌, Option, none, some, List, [], ◌∷◌, map_or, unwrap_or, if◌then◌else◌,
}
use spark_signals.Prelude.Optional.{drop, ◌>>=◌, filter_map, first}
use spark_signals.Order.{◌==◌, text_ord, nat_ord}
use spark_signals.BTreeMap.{BTreeMap, get, insert, collect_map}
use spark_signals.Float.{F64, zero_f64}
use spark_signals.Float.Arithmetic.{add}
use spark_signals.Float.Parse.{parse_f64}
use spark_signals.Text.{parse_u64, is_empty, is_whitespace, starts_with}
use spark_signals.Text.Split.{lines, split_whitespace, split_once, trim}

-- the name and the value of a series
unfoldable pub series : String → Option (String × F64)
unfolding split_whitespace split_once parse_f64
series line = do
  let fields = split_whitespace line
  raw_name ← first fields
  word ← first (drop 1 fields)
  value ← parse_f64 word
  some (map_or (split_once (λ c. c == b'{') raw_name) raw_name (λ p. p.0), value)

-- the series of a line that is neither empty nor a comment
unfoldable pub series_line : String → Option (String × F64)
unfolding series trim starts_with
series_line line =
    let text = trim line in
    if not (is_empty text) && not (starts_with text "#") then series text else none

-- the loop: `*metrics.entry(name).or_insert(0.0) += value`
unfoldable pub summed : BTreeMap String F64 → List (String × F64) → BTreeMap String F64
unfolding insert get add
summed metrics [] = metrics
summed metrics ((name, value) ∷ more) =
    summed (insert name (add (unwrap_or (get name metrics) zero_f64) value) metrics) more

-- `parse_prometheus`
unfoldable pub parse_prometheus : String → BTreeMap String F64
unfolding summed series_line lines
parse_prometheus raw = summed [] (filter_map series_line (lines raw))

-- `parse_properties`
unfoldable pub parse_properties : String → BTreeMap String String
unfolding collect_map lines split_once
parse_properties raw = collect_map (filter_map (split_once (λ c. c == b'=')) (lines raw))

-- the closure of `parse_u64_properties`
unfoldable pub u64_property : String → Option (String × ℕ)
unfolding split_once trim parse_u64
u64_property line = do
  (key, rest) ← split_once is_whitespace line
  value ← parse_u64 (trim rest)
  some (key, value)

-- `parse_u64_properties`
unfoldable pub parse_u64_properties : String → BTreeMap String ℕ
unfolding collect_map u64_property lines
parse_u64_properties raw = collect_map (filter_map u64_property (lines raw))
