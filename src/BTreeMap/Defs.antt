-- ===== src/BTreeMap/Defs.antt =====
-- The operations of `BTreeMap` and `BTreeSet` on entries in ascending order.
use spark_signals.Prelude.{
  Bool, Option, none, some, List, [], ◌∷◌, Ordering, is_some, ◌≡◌, if◌then◌else◌,
}
use spark_signals.Order.{Ord, ◌==◌}

abbrev pub BTreeMap {ℓ κ} : Type ℓ → Type κ → Type (ℓ ⊔ κ)
BTreeMap K V = List (K × V)

abbrev pub BTreeSet {ℓ} : Type ℓ → Type ℓ
BTreeSet K = BTreeMap K (Unit {0})

module _ {ℓ κ} {K : Type ℓ} {V : Type κ} ⦃o : Ord K⦄ where
  -- `map.get(key)`
  unfoldable pub get : K → BTreeMap K V → Option V
  get k [] = none
  get k ((j, v) ∷ m) = if j == k then some v else get k m

  -- the entries after `map.insert(key, value)`
  unfoldable pub insert : K → V → BTreeMap K V → BTreeMap K V
  insert k v [] = (k, v) ∷ []
  insert k v ((j, w) ∷ m) = elim (o.cmp k j) [
    | Ordering.lt ↦ (k, v) ∷ (j, w) ∷ m
    | Ordering.eq ↦ (k, v) ∷ m
    | Ordering.gt ↦ (j, w) ∷ insert k v m
  ]

  -- the entries after `map.remove(key)`
  unfoldable pub remove : K → BTreeMap K V → BTreeMap K V
  remove k [] = []
  remove k ((j, w) ∷ m) = let rest = remove k m in if j == k then rest else (j, w) ∷ rest

  -- `map.extend(other)`
  unfoldable pub extend : BTreeMap K V → BTreeMap K V → BTreeMap K V
  unfolding insert
  extend m [] = m
  extend m ((k, v) ∷ others) = extend (insert k v m) others

  -- `map.contains_key(key)`, and `contains` of a set
  unfoldable pub contains : K → BTreeMap K V → Bool
  unfolding get
  contains k m = is_some (get k m)

  -- the entries are in strictly ascending order of their keys
  abbrev pub IsAbove : K → BTreeMap K V → Type 0
  IsAbove k [] = Unit
  IsAbove k ((j, w) ∷ m) = (o.cmp k j ≡ Ordering.lt) × IsAbove k m

  abbrev pub IsSorted : BTreeMap K V → Type 0
  IsSorted [] = Unit
  IsSorted ((k, v) ∷ m) = IsAbove k m × IsSorted m

  -- `iterator.collect::<BTreeMap<_, _>>()`, from the entries before: a later entry of a key replaces
  -- the earlier one
  unfoldable pub inserted : BTreeMap K V → List (K × V) → BTreeMap K V
  unfolding insert
  inserted entries [] = entries
  inserted entries ((key, value) ∷ more) = inserted (insert key value entries) more

  unfoldable pub collect_map : List (K × V) → BTreeMap K V
  unfolding inserted
  collect_map entries = inserted [] entries
