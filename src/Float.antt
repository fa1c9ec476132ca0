-- ===== src/Float.antt =====
-- `f64`, by its bit pattern: one sign bit, eleven bits of exponent and fifty-two of fraction.
-- The comparisons are those of IEEE 754, in which a NaN compares with nothing and the two zeros
-- are equal. Conversion from an unsigned integer rounds to the nearest value, ties to even.
pub mod Arithmetic
pub mod Parse
pub mod Duration
use spark_signals.Prelude.{
  ℕ, zero, suc, ◌+◌, ◌-◌, ◌*◌, ◌/◌, ◌%◌, ◌^◌, Bool, true, false, not, ◌&&◌, ◌||◌, ltb, leb, eqb,
  if◌then◌else◌,
}

pub record F64 : Type 0 where
  pub to_bits : ℕ

-- the bits below the sign, which order values of one sign
abbrev pub magnitude : F64 → ℕ
magnitude v = v.to_bits % 2 ^ 63

abbrev pub is_negative : F64 → Bool
is_negative v = leb (2 ^ 63) v.to_bits

abbrev pub is_nan : F64 → Bool
is_nan v = ltb (2047 * 2 ^ 52) (magnitude v)

-- the order of two values that are no NaN
abbrev lt_signed : Bool → Bool → ℕ → ℕ → Bool
lt_signed false false a b = ltb a b
lt_signed true true a b = ltb b a
lt_signed true false a b = not (eqb a 0 && eqb b 0)
lt_signed false true a b = false

-- `a < b`
unfoldable pub lt : F64 → F64 → Bool
lt a b =
    not (is_nan a)
    && not (is_nan b)
    && lt_signed (is_negative a) (is_negative b) (magnitude a) (magnitude b)

-- `a == b`
unfoldable pub eq : F64 → F64 → Bool
eq a b =
    not (is_nan a)
    && not (is_nan b)
    && (eqb a.to_bits b.to_bits || (eqb (magnitude a) 0 && eqb (magnitude b) 0))

-- `a <= b`, which is also `b >= a`
unfoldable pub le : F64 → F64 → Bool
unfolding lt eq
le a b = lt a b || eq a b

abbrev pub zero_f64 : F64
zero_f64 = record { to_bits = 0 }

-- 0.5
abbrev pub half : F64
half = record { to_bits = 1022 * 2 ^ 52 }

abbrev pub one_f64 : F64
one_f64 = record { to_bits = 1023 * 2 ^ 52 }

-- the position of the highest bit that is set; `fuel` is the width of the integer
log2 : ℕ → ℕ → ℕ
log2 zero n = 0
log2 (suc fuel) n = let more = log2 fuel (n / 2) in if ltb n 2 then 0 else suc more

-- the quotient by `2 ^ k`, rounded to the nearest, ties to even
round_shift : ℕ → ℕ → ℕ
round_shift n k =
    let q = n / 2 ^ k in
    let r = 2 * (n % 2 ^ k) in
    if ltb (2 ^ k) r || (eqb r (2 ^ k) && eqb (q % 2) 1) then q + 1 else q

-- `n as f64` of a `u64`. A fraction that rounds up to `2 ^ 53` carries into the exponent.
unfoldable pub from_u64 : ℕ → F64
unfolding log2 round_shift
from_u64 n =
    let e = log2 64 n in
    let m = if leb e 52 then n * 2 ^ (52 - e) else round_shift n (e - 52) in
    if eqb n 0 then zero_f64 else record { to_bits = (1022 + e) * 2 ^ 52 + m }

-- `f64::from(b)` of a `bool`
abbrev pub from_bool : Bool → F64
from_bool true = one_f64
from_bool false = zero_f64
