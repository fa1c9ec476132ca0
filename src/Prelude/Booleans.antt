-- ===== src/Prelude/Booleans.antt =====
-- What a conjunction or a negation that is true says of its parts.
use mathlib.Core.Path.{◌≡◌}
use mathlib.Core.Bool.{Bool, true, false, not, ◌&&◌, ◌||◌}
use native.Mathlib.Omega.{arith}

pub left_of_both : (a b : Bool) → a && b ≡ true → a ≡ true
left_of_both a b h = ground (arith, h)

pub right_of_both : (a b : Bool) → a && b ≡ true → b ≡ true
right_of_both a b h = ground (arith, h)

pub false_of_not : (b : Bool) → not b ≡ true → b ≡ false
false_of_not b h = ground (arith, h)

pub left_of_neither : (a b : Bool) → not (a || b) ≡ true → a ≡ false
left_of_neither a b h = ground (arith, h)

pub right_of_neither : (a b : Bool) → not (a || b) ≡ true → b ≡ false
right_of_neither a b h = ground (arith, h)
