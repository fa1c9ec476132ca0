-- ===== src/Prelude/Greatest.antt =====
-- `Iterator::max_by_key`: the last of the elements with the greatest key.
use Prim.Native.Nat.{ℕ, ◌≤◌}
use mathlib.Core.Path.{◌≡◌, refl, ap, subst}
use mathlib.Core.Option.{Option, none, some}
use mathlib.Core.Bool.{Bool, true, false}
use mathlib.Core.List.{List, [], ◌∷◌, Memᴰ}
use native.Mathlib.Omega.{arith}
use spark_signals.Prelude.Tests.{leb, if◌then◌else◌}

module _ {ℓ} {A : Type ℓ} (key : A → ℕ) where
  unfoldable pub max_from : A → List A → A
  max_from best [] = best
  max_from best (x ∷ xs) = max_from (if leb (key best) (key x) then x else best) xs

  unfoldable pub max_by_key : List A → Option A
  unfolding max_from
  max_by_key [] = none
  max_by_key (x ∷ xs) = some (max_from x xs)

  better_ge :
      (b x : A)
      → (key b ≤ key (if leb (key b) (key x) then x else b))
        × (key x ≤ key (if leb (key b) (key x) then x else b))
  better_ge b x = ground arith

  max_from-ge : (b : A) (xs : List A) → key b ≤ key (max_from b xs)
  unfolding max_from
  max_from-ge b [] = omega arith
  max_from-ge b (x ∷ xs) =
      let c = if leb (key b) (key x) then x else b in
      omega (arith, (better_ge b x).0, max_from-ge c xs)

  max_from-ge_mem : (s b : A) (xs : List A) → Memᴰ s xs → key s ≤ key (max_from b xs)
  unfolding max_from
  max_from-ge_mem s b [] m = elim m [ ]
  max_from-ge_mem s b (x ∷ xs) (Memᴰ.head e) =
      let c = if leb (key b) (key x) then x else b in
      omega (arith, ap key e, (better_ge b x).1, max_from-ge c xs)
  max_from-ge_mem s b (x ∷ xs) (Memᴰ.tail m) =
      max_from-ge_mem s (if leb (key b) (key x) then x else b) xs m

  widen :
      (r b x : A) (xs : List A) (t : Bool)
      → Memᴰ r ((if t then x else b) ∷ xs)
      → Memᴰ r (b ∷ x ∷ xs)
  widen r b x xs true m = Memᴰ.tail m
  widen r b x xs false (Memᴰ.head e) = Memᴰ.head e
  widen r b x xs false (Memᴰ.tail m) = Memᴰ.tail (Memᴰ.tail m)

  max_from-mem : (b : A) (xs : List A) → Memᴰ (max_from b xs) (b ∷ xs)
  unfolding max_from
  max_from-mem b [] = Memᴰ.head refl
  max_from-mem b (x ∷ xs) =
      let c = if leb (key b) (key x) then x else b in
      widen (max_from c xs) b x xs (leb (key b) (key x)) (max_from-mem c xs)

  pub mem_of_max_by_key : (xs : List A) (r : A) → max_by_key xs ≡ some r → Memᴰ r xs
  unfolding max_by_key
  mem_of_max_by_key [] r h = cc
  mem_of_max_by_key (x ∷ xs) r h =
      let e : max_from x xs ≡ r = cc in subst (λ y. Memᴰ y (x ∷ xs)) e (max_from-mem x xs)

  pub max_by_key-ge : (xs : List A) (r s : A) → max_by_key xs ≡ some r → Memᴰ s xs → key s ≤ key r
  unfolding max_by_key
  max_by_key-ge [] r s h m = elim m [ ]
  max_by_key-ge (x ∷ xs) r s h (Memᴰ.head e) =
      let f : max_from x xs ≡ r = cc in omega (arith, ap key e, ap key f, max_from-ge x xs)
  max_by_key-ge (x ∷ xs) r s h (Memᴰ.tail m) =
      let f : max_from x xs ≡ r = cc in omega (arith, ap key f, max_from-ge_mem s x xs m)

  pub empty_of_max_by_key : (xs : List A) → max_by_key xs ≡ none → xs ≡ []
  unfolding max_by_key
  empty_of_max_by_key [] h = refl
  empty_of_max_by_key (x ∷ xs) h = cc
