-- ===== src/Float/Duration.antt =====
-- `Duration::as_secs_f64`, of a time in nanoseconds.
use spark_signals.Prelude.{ℕ, ◌/◌, ◌%◌, ◌^◌}
use spark_signals.Float.{F64, from_u64}
use spark_signals.Float.Arithmetic.{add, div}

unfoldable pub as_secs_f64 : ℕ → F64
unfolding add div from_u64
as_secs_f64 nanoseconds =
    add (from_u64 (nanoseconds / 10 ^ 9))
      (div (from_u64 (nanoseconds % 10 ^ 9)) (from_u64 (10 ^ 9)))
