-- ===== src/Prelude/Optional.antt =====
-- The `?` of functions that return an `Option`, as a do block, and what the iterators make of options.
use Prim.Native.Nat.{ℕ, zero, suc}
use mathlib.Core.Option.{Option, none, some}
use mathlib.Core.List.{List, [], ◌∷◌}

infixl 5 ◌>>=◌
abbrev pub ◌>>=◌ {ℓ κ} : {A : Type ℓ} {B : Type κ} → Option A → (A → Option B) → Option B
none >>= next = none
some value >>= next = next value

-- `Option::map`
abbrev pub map_some {ℓ κ} : {A : Type ℓ} {B : Type κ} → (A → B) → Option A → Option B
map_some f none = none
map_some f (some value) = some (f value)

module _ {ℓ} {A : Type ℓ} where
  abbrev pub push : Option A → List A → List A
  push none values = values
  push (some value) values = value ∷ values

  -- `Iterator::flatten`
  abbrev pub flatten : List (Option A) → List A
  flatten [] = []
  flatten (value ∷ values) = push value (flatten values)

  abbrev pub and_all : Option A → Option (List A) → Option (List A)
  and_all none values = none
  and_all (some value) none = none
  and_all (some value) (some values) = some (value ∷ values)

  -- `collect::<Result<Vec<_>, _>>()`, its error not kept
  abbrev pub collect_all : List (Option A) → Option (List A)
  collect_all [] = some []
  collect_all (value ∷ values) = and_all value (collect_all values)

  -- `Iterator::skip`
  abbrev pub drop : ℕ → List A → List A
  drop zero values = values
  drop (suc n) [] = []
  drop (suc n) (value ∷ values) = drop n values

  -- `Iterator::next`
  abbrev pub first : List A → Option A
  first [] = none
  first (value ∷ values) = some value

-- `Iterator::filter_map`
abbrev pub filter_map {ℓ κ} : {A : Type ℓ} {B : Type κ} → (A → Option B) → List A → List B
filter_map f [] = []
filter_map f (value ∷ values) = push (f value) (filter_map f values)

abbrev pub or_later {ℓ} : {A : Type ℓ} → Option A → Option A → Option A
or_later none later = later
or_later (some value) later = some value

-- `Iterator::find_map`
abbrev pub find_map {ℓ κ} : {A : Type ℓ} {B : Type κ} → (A → Option B) → List A → Option B
find_map f [] = none
find_map f (value ∷ values) = or_later (f value) (find_map f values)
