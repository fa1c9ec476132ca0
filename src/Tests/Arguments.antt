-- ===== src/Tests/Arguments.antt =====
-- Arguments at concrete texts.
use spark_signals.Prelude.{◌≡◌, ◌<◌, ◌*◌, ◌/◌, max, refl, String, ◌^◌, true, ok, inl, inr, arith}
use spark_signals.Text.{all_bytes, is_ascii_digit}
use spark_signals.Agent.Arguments.{
  parse_duration, valid_subject_component, sanitize_component, stable_jitter, multiplier,
}
use spark_signals.Agent.Arguments.Components.{
  valid_subject_component-sanitize_component, sanitize_component-same, stable_jitter-lt,
}
use spark_signals.Agent.Arguments.Durations.{parse_duration-numeral, parse_duration-bounds}

valid_subject_component-sanitize_component_example :
    valid_subject_component (sanitize_component "my host.lan")
    ≡ ok (sanitize_component "my host.lan")
valid_subject_component-sanitize_component_example =
    valid_subject_component-sanitize_component "my host.lan"

valid_name : valid_subject_component "spark_1" ≡ ok "spark_1"
unfolding valid_subject_component all_bytes
valid_name = refl

abbrev spark_1 : String
spark_1 = "spark_1"

sanitize_component-same_example : (spark_1 ≡ spark_1) × (sanitize_component spark_1 ≡ spark_1)
sanitize_component-same_example = sanitize_component-same "spark_1" "spark_1" valid_name

stable_jitter-lt_example :
    (stable_jitter "spark-1" 1000 < 500) × (stable_jitter "spark-1" 1000 < max 1 (1000 / 4))
stable_jitter-lt_example = stable_jitter-lt "spark-1" 1000

ninety_digits : all_bytes is_ascii_digit "90" ≡ true
unfolding all_bytes
ninety_digits = refl

parse_duration-numeral_example : parse_duration "90m" ≡ ok (90 * 60)
parse_duration-numeral_example =
    parse_duration-numeral "90" "m" 60 ninety_digits (inr (inl (refl, refl))) (omega arith)
      (omega arith) (omega arith)

ninety : parse_duration "90m" ≡ ok 5400
unfolding parse_duration spark_signals.Text.parse_u64 multiplier
ninety = refl

parse_duration-bounds_example : (0 < 5400) × (5400 < 2 ^ 64)
parse_duration-bounds_example = parse_duration-bounds "90m" 5400 ninety
