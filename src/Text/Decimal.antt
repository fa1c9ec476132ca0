-- ===== src/Text/Decimal.antt =====
-- `to_string` of `u64`.
use Prim.Native.String.{◌++◌}
use spark_signals.Prelude.{ℕ, zero, suc, ◌/◌, ◌%◌, String, [], ◌∷◌, unwrap_or, ltb, if◌then◌else◌}
use spark_signals.Prelude.Optional.{drop, first}

abbrev digit : ℕ → String
digit n =
    unwrap_or (first (drop n ("0" ∷ "1" ∷ "2" ∷ "3" ∷ "4" ∷ "5" ∷ "6" ∷ "7" ∷ "8" ∷ "9" ∷ []))) ""

abbrev digits : ℕ → ℕ → String
digits zero n = ""
digits (suc fuel) n =
    let rest = digits fuel (n / 10) in if ltb n 10 then digit n else rest ++ digit (n % 10)

-- a `u64` has at most twenty digits
unfoldable pub to_decimal : ℕ → String
to_decimal n = digits 20 n
