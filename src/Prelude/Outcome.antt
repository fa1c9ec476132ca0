-- ===== src/Prelude/Outcome.antt =====
-- Rust's `Result` and the early return of `?`.
use mathlib.Core.Path.{◌≡◌, refl}
use mathlib.Core.Bool.{Bool, true, false}
use mathlib.Core.Option.{Option, none, some}

pub data Result {ℓ κ} (T : Type ℓ) (E : Type κ) : Type (ℓ ⊔ κ) where
  err : (reason : E) → Result T E
  ok : (value : T) → Result T E

module _ {ℓ μ} {T : Type ℓ} {E : Type μ} where
  -- `Result::and_then`
  abbrev pub and_then {κ} : {U : Type κ} → (T → Result U E) → Result T E → Result U E
  and_then next (err reason) = err reason
  and_then next (ok value) = next value

  -- `Option::ok_or`
  abbrev pub ok_or : Option T → E → Result T E
  ok_or (some value) reason = ok value
  ok_or none reason = err reason

  -- `Result::is_ok`
  abbrev pub is_ok : Result T E → Bool
  is_ok (err reason) = false
  is_ok (ok value) = true

-- `if !test { return Err(reason); }`
abbrev pub ensure {μ} : {E : Type μ} → Bool → E → Result (Unit {0}) E
ensure false reason = err reason
ensure true reason = ok tt

infixl 5 ◌>>=◌
abbrev pub ◌>>=◌ {ℓ κ μ} :
    {T : Type ℓ} {U : Type κ} {E : Type μ} → Result T E → (T → Result U E) → Result U E
first >>= next = and_then next first

infixl 5 ◌>>◌
abbrev pub ◌>>◌ {κ μ} : {U : Type κ} {E : Type μ} → Result (Unit {0}) E → Result U E → Result U E
first >> second = and_then (λ done. second) first

-- A chain that ends in a value has passed each of its links.
pub >>=-eq-ok {ℓ κ μ} :
    {T : Type ℓ} {U : Type κ} {E : Type μ} (first : Result T E) (next : T → Result U E) {last : U}
    → (first >>= next) ≡ ok last
    → (value : T) × (first ≡ ok value) × (next value ≡ ok last)
>>=-eq-ok (err reason) next h = cc
>>=-eq-ok (ok value) next h = (value, refl, h)

pub some_of_ok_or {ℓ μ} :
    {T : Type ℓ} {E : Type μ} (o : Option T) (reason : E) {value : T}
    → ok_or o reason ≡ ok value
    → o ≡ some value
some_of_ok_or none reason h = cc
some_of_ok_or (some v) reason h = cc

pub true_of_ensure {μ} :
    {E : Type μ} (test : Bool) (reason : E) {done : Unit {0}}
    → ensure test reason ≡ ok done
    → test ≡ true
true_of_ensure true reason h = refl
true_of_ensure false reason h = cc
