-- ===== src/Tests/Float.antt =====
-- The arithmetic of `f64` at values that have a known result.
use spark_signals.Prelude.{◌+◌, ◌*◌, ◌^◌, ◌≡◌, refl, some, none}
use spark_signals.Float.{from_u64}
use spark_signals.Float.Arithmetic.{of_ratio, div, sub, add}
use spark_signals.Float.Parse.{parse_f64}

parsed_fraction : parse_f64 "0.25" ≡ some (record { to_bits = 1021 * 2 ^ 52 })
unfolding parse_f64
parsed_fraction = refl

parsed_exponent : parse_f64 "+1.2e3" ≡ some (from_u64 1200)
unfolding parse_f64 from_u64
parsed_exponent = refl

parsed_nothing : parse_f64 "e3" ≡ none
unfolding parse_f64
parsed_nothing = refl

-- 0.1 + 0.2 is one unit above 0.3.
added : add (of_ratio 1 10) (of_ratio 2 10) ≡ record { to_bits = 4599075939470750516 }
unfolding add of_ratio
added = refl

subtracted : sub (from_u64 3) (from_u64 5) ≡ record { to_bits = 2 ^ 63 + 2 ^ 62 }
unfolding sub add from_u64
subtracted = refl

divided : div (from_u64 1) (from_u64 3) ≡ of_ratio 1 3
unfolding div from_u64 of_ratio
divided = refl

third : of_ratio 1 3 ≡ record { to_bits = 4599676419421066581 }
unfolding of_ratio
third = refl
