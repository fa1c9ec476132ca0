-- ===== src/BTreeMap/Laws.antt =====
-- What a lookup finds after each operation, and that the operations keep the order.
use spark_signals.Prelude.{
  ◌+◌, ◌≡◌, refl, none, some, [], ◌∷◌, Ordering, arith, length, All, ◌||◌, Ordering-cases, inl, inr,
  if◌then◌else◌,
}
use spark_signals.Order.{Ord, ◌==◌, eq_iff, cmp_gt}
use spark_signals.BTreeMap.Defs.{BTreeMap, get, insert, remove, extend, contains, IsAbove, IsSorted}

module _ {ℓ κ} {K : Type ℓ} {V : Type κ} ⦃o : Ord K⦄ where
  pub get-insert :
      (k j : K) (v : V) (m : BTreeMap K V)
      → get j (insert k v m) ≡ (if k == j then some v else get j m)
  unfolding get insert
  get-insert k j v [] = refl
  get-insert k j v ((i, w) ∷ m) =
      ground (arith, get-insert k j v m, eq_iff k j, eq_iff i j, o.eq_of_cmp k i, o.cmp_refl k)

  pub get-remove :
      (k j : K) (m : BTreeMap K V) → get j (remove k m) ≡ (if k == j then none else get j m)
  unfolding get remove
  get-remove k j [] = ground arith
  get-remove k j ((i, w) ∷ m) = ground (arith, get-remove k j m, eq_iff k j, eq_iff i j, eq_iff i k)

  IsAbove-insert :
      (b k : K) (v : V) (m : BTreeMap K V)
      → o.cmp b k ≡ Ordering.lt
      → IsAbove b m
      → IsAbove b (insert k v m)
  unfolding insert
  IsAbove-insert b k v [] h a = (h, tt)
  IsAbove-insert b k v ((j, w) ∷ m) h a = ground (arith, IsAbove-insert b k v m h a.1)

  pub IsAbove-trans :
      (b c : K) (m : BTreeMap K V) → o.cmp b c ≡ Ordering.lt → IsAbove c m → IsAbove b m
  IsAbove-trans b c [] h a = tt
  IsAbove-trans b c ((j, w) ∷ m) h a = (o.cmp_trans b c j h a.0, IsAbove-trans b c m h a.1)

  pub insert-IsSorted : (k : K) (v : V) (m : BTreeMap K V) → IsSorted m → IsSorted (insert k v m)
  unfolding insert
  insert-IsSorted k v [] s = (tt, tt)
  insert-IsSorted k v ((j, w) ∷ m) s = elim (Ordering-cases (o.cmp k j)) [
    | inl h ↦ rw (h, insert) ((h, IsAbove-trans k j m h s.0), s)
    | inr (inl h) ↦ rw (h, insert) (let e : k ≡ j = o.eq_of_cmp k j h in rw e s)
    | inr (inr h) ↦
        rw (h, insert) (IsAbove-insert j k v m (cmp_gt k j h) s.0, insert-IsSorted k v m s.1)
  ]

  IsAbove-remove : (b k : K) (m : BTreeMap K V) → IsAbove b m → IsAbove b (remove k m)
  unfolding remove
  IsAbove-remove b k [] a = tt
  IsAbove-remove b k ((j, w) ∷ m) a = ground (arith, IsAbove-remove b k m a.1)

  pub remove-IsSorted : (k : K) (m : BTreeMap K V) → IsSorted m → IsSorted (remove k m)
  unfolding remove
  remove-IsSorted k [] s = tt
  remove-IsSorted k ((j, w) ∷ m) s =
      ground (arith, remove-IsSorted k m s.1, IsAbove-remove j k m s.0)

  pub extend-IsSorted : (m n : BTreeMap K V) → IsSorted m → IsSorted (extend m n)
  unfolding extend
  extend-IsSorted m [] s = s
  extend-IsSorted m ((k, v) ∷ n) s = extend-IsSorted (insert k v m) n (insert-IsSorted k v m s)

  -- A key below all others is not found.
  pub get_of_IsAbove : (b : K) (m : BTreeMap K V) → IsAbove b m → get b m ≡ none
  unfolding get
  get_of_IsAbove b [] a = refl
  get_of_IsAbove b ((j, w) ∷ m) a = ground (arith, get_of_IsAbove b m a.1, o.cmp_flip b j)

  pub length-insert :
      (k : K) (v : V) (m : BTreeMap K V)
      → IsSorted m
      → length (insert k v m) ≡ (if contains k m then length m else length m + 1)
  unfolding insert contains
  length-insert k v [] s = omega arith
  length-insert k v ((j, w) ∷ m) s = ground (
    arith,
    length-insert k v m s.1,
    o.cmp_flip k j,
    eq_iff j k,
    o.cmp_refl k,
    get_of_IsAbove k m,
    IsAbove-trans k j m,
  )

  pub contains-insert :
      (k j : K) (v : V) (m : BTreeMap K V) → contains j (insert k v m) ≡ (k == j || contains j m)
  unfolding contains
  contains-insert k j v m = ground (arith, get-insert k j v m)

  pub All-insert {μ} :
      (P : K × V → Type μ) (k : K) (v : V) (m : BTreeMap K V)
      → P (k, v)
      → All P m
      → All P (insert k v m)
  unfolding insert
  All-insert P k v [] h a = (h, tt)
  All-insert P k v ((j, w) ∷ m) h (b, a) = elim (Ordering-cases (o.cmp k j)) [
    | inl e ↦ rw (e, insert, All) (h, (b, a))
    | inr (inl e) ↦ rw (e, insert, All) (h, a)
    | inr (inr e) ↦ rw (e, insert, All) (b, All-insert P k v m h a)
  ]
