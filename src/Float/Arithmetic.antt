-- ===== src/Float/Arithmetic.antt =====
-- The operations of `f64` that round: each computes the exact quotient of two natural numbers and
-- rounds it once, to the nearest value, ties to even. A finite value is a multiple of `2 ^ -1074`.
use spark_signals.Prelude.{
  ℕ, zero, suc, ◌+◌, ◌-◌, ◌*◌, ◌/◌, ◌%◌, ◌^◌, min, Bool, true, false, not, ◌&&◌, ◌||◌, ltb, leb,
  eqb, if◌then◌else◌,
}
use spark_signals.Float.{F64, magnitude, is_negative, is_nan, lt}

abbrev pub infinity : F64
infinity = record { to_bits = 2047 * 2 ^ 52 }

abbrev pub nan : F64
nan = record { to_bits = 4095 * 2 ^ 51 }

abbrev pub is_infinite : F64 → Bool
is_infinite v = eqb (magnitude v) (2047 * 2 ^ 52)

-- the value with the sign set or not
abbrev pub with_sign : Bool → F64 → F64
with_sign negative v = record { to_bits = if negative then 2 ^ 63 + magnitude v else magnitude v }

-- the position of the highest bit that is set, of a number below `2 ^ 2 ^ level`
unfoldable pub high_bit : ℕ → ℕ → ℕ
high_bit zero n = 0
high_bit (suc level) n =
    let width = 2 ^ level in
    let above = width + high_bit level (n / 2 ^ width) in
    let below = high_bit level n in if leb (2 ^ width) n then above else below

-- a quotient by `unit`, rounded to the nearest, ties to even
unfoldable pub round_div : ℕ → ℕ → ℕ
round_div n unit =
    let q = n / unit in
    let r = 2 * (n % unit) in if ltb unit r || (eqb r unit && eqb (q % 2) 1) then q + 1 else q

-- The value nearest to `n / d`. A fraction that rounds up to `2 ^ 53` carries into the exponent. A
-- quotient that `high_bit` does not cover is beyond the largest value.
unfoldable pub of_ratio : ℕ → ℕ → F64
unfolding round_div high_bit
of_ratio n d =
    let scaled = n * 2 ^ 1074 in
    let k = high_bit 12 (scaled / d) - 52 in
    record { to_bits = min (k * 2 ^ 52 + round_div scaled (d * 2 ^ k)) (2047 * 2 ^ 52) }

-- a finite magnitude, in multiples of `2 ^ -1074`
unfoldable pub units : F64 → ℕ
units v =
    let e = magnitude v / 2 ^ 52 in
    let m = magnitude v % 2 ^ 52 in if eqb e 0 then m else (2 ^ 52 + m) * 2 ^ (e - 1)

abbrev pub differ : Bool → Bool → Bool
differ true b = not b
differ false b = b

-- `a * b`
unfoldable pub mul : F64 → F64 → F64
unfolding of_ratio units
mul a b =
    let negative = differ (is_negative a) (is_negative b) in
    if is_nan a || is_nan b
    then nan
    else if is_infinite a || is_infinite b
    then (if eqb (magnitude a) 0 || eqb (magnitude b) 0 then nan else with_sign negative infinity)
    else with_sign negative (of_ratio (units a * units b) (2 ^ 2148))

-- `a / b`
unfoldable pub div : F64 → F64 → F64
unfolding of_ratio units
div a b =
    let negative = differ (is_negative a) (is_negative b) in
    let both_zero = eqb (magnitude a) 0 && eqb (magnitude b) 0 in
    if is_nan a || is_nan b || both_zero || (is_infinite a && is_infinite b)
    then nan
    else if is_infinite a || eqb (magnitude b) 0
    then with_sign negative infinity
    else if is_infinite b
    then with_sign negative (record { to_bits = 0 })
    else with_sign negative (of_ratio (units a) (units b))

-- the sum of finite values
abbrev pub add_finite : F64 → F64 → F64
add_finite a b =
    if differ (is_negative a) (is_negative b)
    then (if ltb (units b) (units a)
        then with_sign (is_negative a) (of_ratio (units a - units b) (2 ^ 1074))
        else with_sign (is_negative b && ltb (units a) (units b))
            (of_ratio (units b - units a) (2 ^ 1074)))
    else with_sign (is_negative a) (of_ratio (units a + units b) (2 ^ 1074))

-- `a + b`
unfoldable pub add : F64 → F64 → F64
unfolding of_ratio units
add a b =
    if is_nan a || is_nan b
    then nan
    else if is_infinite a
    then (if is_infinite b && differ (is_negative a) (is_negative b) then nan else a)
    else if is_infinite b
    then b
    else add_finite a b

-- `-a`
abbrev pub neg : F64 → F64
neg a = with_sign (not (is_negative a)) a

-- `a - b`
unfoldable pub sub : F64 → F64 → F64
unfolding add
sub a b = add a (neg b)

-- `a.max(b)`
unfoldable pub max_f64 : F64 → F64 → F64
unfolding lt
max_f64 a b = if is_nan a || lt a b then b else a
