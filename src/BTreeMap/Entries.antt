-- ===== src/BTreeMap/Entries.antt =====
-- Iteration over the entries against lookup, and equality of maps by their contents.
use spark_signals.Prelude.{
  ◌≡◌, refl, sym, subst, Bool, true, none, some, [], ◌∷◌, Ordering, arith, all, inl, inr,
  Ordering-cases,
}
use spark_signals.Order.{Ord, eq_iff, eq_refl, cmp_gt}
use spark_signals.BTreeMap.Defs.{BTreeMap, get, IsAbove, IsSorted}
use spark_signals.BTreeMap.Laws.{get_of_IsAbove, IsAbove-trans}

module _ {ℓ κ} {K : Type ℓ} {V : Type κ} ⦃o : Ord K⦄ where
  -- A test that holds of every entry holds of each entry that a lookup finds.
  pub test_of_get :
      (p : K × V → Bool) (m : BTreeMap K V) (k : K) (v : V)
      → all p m ≡ true
      → get k m ≡ some v
      → p (k, v) ≡ true
  unfolding get
  test_of_get p [] k v h e = cc
  test_of_get p ((j, w) ∷ m) k v h e = ground (arith, test_of_get p m k v, eq_iff j k)

  get_of_head : (k : K) (v : V) (m : BTreeMap K V) → get k ((k, v) ∷ m) ≡ some v
  unfolding get
  get_of_head k v m = rw (eq_refl k)

  get_of_tail :
      (j k : K) (w v : V) (m : BTreeMap K V)
      → IsAbove j m
      → get k m ≡ some v
      → get k ((j, w) ∷ m) ≡ some v
  unfolding get
  get_of_tail j k w v m a e = ground (arith, eq_iff j k, get_of_IsAbove j m a)

  -- In a map, a test that holds of every entry that a lookup finds holds of all.
  pub all_of_get :
      (p : K × V → Bool) (m : BTreeMap K V)
      → IsSorted m
      → ((k : K) (v : V) → get k m ≡ some v → p (k, v) ≡ true)
      → all p m ≡ true
  all_of_get p [] s h = refl
  all_of_get p ((j, w) ∷ m) s h =
      rw (h j w (get_of_head j w m))
        (all_of_get p m s.1 (λ k v e. h k v (get_of_tail j k w v m s.0 e)))

  same_tail :
      (j : K) (v w : V) (m n : BTreeMap K V)
      → IsAbove j m
      → IsAbove j n
      → ((i : K) → get i ((j, v) ∷ m) ≡ get i ((j, w) ∷ n))
      → (i : K) → get i m ≡ get i n
  unfolding get
  same_tail j v w m n a b h i =
      ground (arith, h i, eq_iff j i, get_of_IsAbove j m a, get_of_IsAbove j n b)

  get_below :
      (j k : K) (w : V) (n : BTreeMap K V)
      → o.cmp j k ≡ Ordering.lt
      → IsAbove k n
      → get j ((k, w) ∷ n) ≡ none
  get_below j k w n h a = get_of_IsAbove j ((k, w) ∷ n) (h, IsAbove-trans j k n h a)

  -- Maps that answer every lookup alike are equal.
  pub get_ext :
      (m n : BTreeMap K V) → IsSorted m → IsSorted n → ((k : K) → get k m ≡ get k n) → m ≡ n
  unfolding get
  get_ext [] [] s t h = refl
  get_ext [] ((k, w) ∷ n) s t h = cc (h k, get_of_head k w n)
  get_ext ((j, v) ∷ m) [] s t h = cc (h j, get_of_head j v m)
  get_ext ((j, v) ∷ m) ((k, w) ∷ n) s t h = elim (Ordering-cases (o.cmp j k)) [
    | inl below ↦ cc (h j, get_of_head j v m, get_below j k w n below t.0)
    | inr (inl same) ↦
        let p : j ≡ k = o.eq_of_cmp j k same in
        let n' = subst (λ i. IsAbove i n) (sym p) t.0 in
        let h' : (i : K) → get i ((j, v) ∷ m) ≡ get i ((j, w) ∷ n) =
          λ i. subst (λ x. get i ((j, v) ∷ m) ≡ get i ((x, w) ∷ n)) (sym p) (h i) in
        let r : m ≡ n = get_ext m n s.1 t.1 (same_tail j v w m n s.0 n' h') in
        let q : v ≡ w = cc (h' j, get_of_head j v m, get_of_head j w n) in λ i. (p i, q i) ∷ r i
    | inr (inr above) ↦ cc (h k, get_of_head k w n, get_below k j v m (cmp_gt j k above) s.0)
  ]
