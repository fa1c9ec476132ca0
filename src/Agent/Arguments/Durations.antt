-- ===== src/Agent/Arguments/Durations.antt =====
-- Durations: what is read from an amount and a unit.
use Prim.Native.Char.{code}
use Prim.Native.String as Text
use Prim.Native.String.append
use native.Mathlib.Nat.{le-mul_of_pos_right}
use spark_signals.Prelude.{
  ℕ, ◌≤◌, ◌<◌, ◌+◌, ◌-◌, ◌*◌, ◌^◌, String, ◌≡◌, refl, subst, true, false, not, some, ok, ok_or,
  ensure, >>=-eq-ok, some_of_ok_or, eqb, ltb, arith, ◌⊎◌, inl, inr,
}
use spark_signals.Order.{◌==◌, text_ord, nat_ord}
use spark_signals.Text.{all_bytes, is_ascii_digit, split_digits, read_u64, parse_u64}
use spark_signals.Agent.Arguments.Checks.{DurationError, multiplier, parse_duration}

-- The number that digits write, behind a number read before.
abbrev pub numeral : ℕ → String → ℕ
numeral value Text.[] = value
numeral value (Text.◌∷◌ c digits) = numeral (value * 10 + (code c - b'0')) digits

numeral-ge : (value : ℕ) (digits : String) → value ≤ numeral value digits
numeral-ge value Text.[] = omega arith
numeral-ge value (Text.◌∷◌ c digits) =
    omega (arith, numeral-ge (value * 10 + (code c - b'0')) digits)

read_u64-numeral :
    (value : ℕ) (digits : String)
    → all_bytes is_ascii_digit digits ≡ true
    → numeral value digits < 2 ^ 64
    → read_u64 value digits ≡ some (numeral value digits)
unfolding all_bytes
read_u64-numeral value Text.[] a l = refl
read_u64-numeral value (Text.◌∷◌ c digits) a l =
    let next = value * 10 + (code c - b'0') in
    let digit : is_ascii_digit (code c) ≡ true = ground arith in
    let fits : ltb next (2 ^ 64) ≡ true = ground (arith, numeral-ge next digits) in
    rw (digit, fits) (read_u64-numeral next digits (ground arith) l)

split_digits-append :
    (digits rest : String)
    → all_bytes is_ascii_digit digits ≡ true
    → split_digits rest ≡ (Text.[], rest)
    → split_digits (Text.◌++◌ digits rest) ≡ (digits, rest)
unfolding all_bytes
split_digits-append Text.[] rest a h = rw (append.nil rest) h
split_digits-append (Text.◌∷◌ c digits) rest a h =
    let digit : is_ascii_digit (code c) ≡ true = ground arith in
    let ih = split_digits-append digits rest (ground arith) h in
    rw (append.cons c digits rest) (rw (digit, ih) refl)

-- The units, and the seconds that each has.
abbrev pub IsUnit : String → ℕ → Type 0
IsUnit unit seconds =
    ((unit ≡ "s") × (seconds ≡ 1))
    ⊎ ((unit ≡ "m") × (seconds ≡ 60))
    ⊎ ((unit ≡ "h") × (seconds ≡ 3600))
    ⊎ ((unit ≡ "d") × (seconds ≡ 86400))

IsUnit-multiplier :
    (unit : String) (seconds : ℕ) → IsUnit unit seconds → multiplier unit ≡ some seconds
unfolding multiplier
IsUnit-multiplier unit seconds (inl (p, q)) = rw (p, q) refl
IsUnit-multiplier unit seconds (inr (inl (p, q))) = rw (p, q) refl
IsUnit-multiplier unit seconds (inr (inr (inl (p, q)))) = rw (p, q) refl
IsUnit-multiplier unit seconds (inr (inr (inr (p, q)))) = rw (p, q) refl

split_digits-unit :
    (unit : String) (seconds : ℕ) → IsUnit unit seconds → split_digits unit ≡ (Text.[], unit)
split_digits-unit unit seconds (inl (p, q)) = rw p refl
split_digits-unit unit seconds (inr (inl (p, q))) = rw p refl
split_digits-unit unit seconds (inr (inr (inl (p, q)))) = rw p refl
split_digits-unit unit seconds (inr (inr (inr (p, q)))) = rw p refl

no_plus : (c : ℕ) → is_ascii_digit c ≡ true → (c == b'+') ≡ false
no_plus c h = ground arith

parse_u64-numeral :
    (digits : String)
    → all_bytes is_ascii_digit digits ≡ true
    → 0 < numeral 0 digits
    → numeral 0 digits < 2 ^ 64
    → parse_u64 digits ≡ some (numeral 0 digits)
unfolding all_bytes parse_u64
parse_u64-numeral Text.[] a p l = absurd (omega (arith, p))
parse_u64-numeral (Text.◌∷◌ c digits) a p l =
    let digit : is_ascii_digit (code c) ≡ true = ground arith in
    rw (no_plus (code c) digit) (read_u64-numeral 0 (Text.◌∷◌ c digits) a l)

-- Digits that write an amount above zero, before one of the units s, m, h and d, are read as the
-- amount times 1, 60, 3600 or 86400 seconds, if the amount and the product are less than 2^64.
pub parse_duration-numeral :
    (digits unit : String) (seconds : ℕ)
    → all_bytes is_ascii_digit digits ≡ true
    → IsUnit unit seconds
    → 0 < numeral 0 digits
    → numeral 0 digits < 2 ^ 64
    → numeral 0 digits * seconds < 2 ^ 64
    → parse_duration (Text.◌++◌ digits unit) ≡ ok (numeral 0 digits * seconds)
unfolding parse_duration
parse_duration-numeral digits unit seconds a u p l k =
    let m = IsUnit-multiplier unit seconds u in
    let split = split_digits-append digits unit a (split_digits-unit unit seconds u) in
    let above : eqb (numeral 0 digits) 0 ≡ false = ground arith in
    let fits : ltb (numeral 0 digits * seconds) (2 ^ 64) ≡ true = ground arith in
    rw (split, parse_u64-numeral digits a p l, above, m, fits) refl

multiplier-positive : (unit : String) (seconds : ℕ) → multiplier unit ≡ some seconds → 0 < seconds
unfolding multiplier
multiplier-positive unit seconds h = ground arith

product_bounds :
    (amount seconds : ℕ) {a b : Unit {0}}
    → ensure (not (eqb amount 0)) DurationError.zero_amount ≡ ok a
    → ensure (ltb (amount * seconds) (2 ^ 64)) DurationError.too_large ≡ ok b
    → 0 < seconds
    → (0 < amount * seconds) × (amount * seconds < 2 ^ 64)
product_bounds amount seconds h k p =
    let positive : 0 < amount = ground arith in
    let fits : amount * seconds < 2 ^ 64 = ground arith in
    (omega (arith, positive, le-mul_of_pos_right amount p), fits)

-- A duration that is accepted is at least one second and less than 2^64 seconds.
pub parse_duration-bounds :
    (value : String) (duration : ℕ)
    → parse_duration value ≡ ok duration
    → (0 < duration) × (duration < 2 ^ 64)
unfolding parse_duration
parse_duration-bounds value duration h =
    let (amount, a, k) =
      >>=-eq-ok (ok_or (parse_u64 (split_digits value).0) DurationError.no_amount) _ h in
    let (_, z, l) = >>=-eq-ok (ensure (not (eqb amount 0)) DurationError.zero_amount) _ k in
    let (seconds, m, n) =
      >>=-eq-ok (ok_or (multiplier (split_digits value).1) DurationError.unknown_unit) _ l in
    let (_, f, e) =
      >>=-eq-ok (ensure (ltb (amount * seconds) (2 ^ 64)) DurationError.too_large) _ n in
    let positive =
      multiplier-positive (split_digits value).1 seconds
        (some_of_ok_or (multiplier (split_digits value).1) DurationError.unknown_unit m) in
    let same : amount * seconds ≡ duration = cc (e) in
    subst (λ d. (0 < d) × (d < 2 ^ 64)) same (product_bounds amount seconds z f positive)
