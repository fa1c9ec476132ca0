-- ===== src/Prelude/Lists.antt =====
-- Lists measured by native numbers, Boolean quantifiers over them, and predicates by recursion.
use Prim.Native.Nat.{ℕ, suc, ◌+◌, ◌≤◌}
use mathlib.Core.Path.{◌≡◌, refl, sym, ap, ◌∙◌, subst}
use mathlib.Core.Bool.{Bool, true, false, ◌&&◌, ◌||◌}
use mathlib.Core.List.{List, [], ◌∷◌, ◌++◌, Memᴰ, map}
use mathlib.Core.Option.{Option, none, some}
use native.Mathlib.Omega.{arith}

module _ {ℓ} {A : Type ℓ} where
  abbrev pub length : List A → ℕ
  length [] = 0
  length (x ∷ xs) = suc (length xs)

  -- `Iterator::all`, `Iterator::any`
  abbrev pub all : (A → Bool) → List A → Bool
  all p [] = true
  all p (x ∷ xs) = p x && all p xs

  abbrev pub any : (A → Bool) → List A → Bool
  any p [] = false
  any p (x ∷ xs) = p x || any p xs

  -- `Iterator::filter`
  abbrev pub keep : (A → Bool) → List A → List A
  keep p [] = []
  keep p (x ∷ xs) = elim (p x) [ true ↦ x ∷ keep p xs | false ↦ keep p xs ]

  -- `Iterator::find`
  abbrev pub find : (A → Bool) → List A → Option A
  find p [] = none
  find p (x ∷ xs) = elim (p x) [ true ↦ some x | false ↦ find p xs ]

  pub all_mono :
      (p q : A → Bool)
      → ((x : A) → p x ≡ true → q x ≡ true)
      → (xs : List A) → all p xs ≡ true
      → all q xs ≡ true
  all_mono p q f [] h = refl
  all_mono p q f (x ∷ xs) h = ground (arith, f x, all_mono p q f xs)

  mem_of_kept :
      (p : A → Bool) (a x : A) (xs ys : List A) (b : Bool)
      → p x ≡ b
      → (Memᴰ a ys → Memᴰ a xs × (p a ≡ true))
      → Memᴰ a (elim b [ true ↦ x ∷ ys | false ↦ ys ])
      → Memᴰ a (x ∷ xs) × (p a ≡ true)
  mem_of_kept p a x xs ys true e f (Memᴰ.head h) = (Memᴰ.head h, ap p h ∙ e)
  mem_of_kept p a x xs ys true e f (Memᴰ.tail m) = let (n, q) = f m in (Memᴰ.tail n, q)
  mem_of_kept p a x xs ys false e f m = let (n, q) = f m in (Memᴰ.tail n, q)

  pub mem_of_keep :
      (p : A → Bool) (a : A) (xs : List A) → Memᴰ a (keep p xs) → Memᴰ a xs × (p a ≡ true)
  mem_of_keep p a [] m = elim m [ ]
  mem_of_keep p a (x ∷ xs) m = mem_of_kept p a x xs (keep p xs) (p x) refl (mem_of_keep p a xs) m

  keep_head :
      (a : A) (ys : List A) {x : A} (b : Bool)
      → a ≡ x
      → b ≡ true
      → Memᴰ a (elim b [ true ↦ x ∷ ys | false ↦ ys ])
  keep_head a ys true h e = Memᴰ.head h
  keep_head a ys false h e = cc

  keep_tail :
      (a x : A) (ys : List A) (b : Bool)
      → Memᴰ a ys
      → Memᴰ a (elim b [ true ↦ x ∷ ys | false ↦ ys ])
  keep_tail a x ys true m = Memᴰ.tail m
  keep_tail a x ys false m = m

  pub mem-keep : (p : A → Bool) (a : A) (xs : List A) → p a ≡ true → Memᴰ a xs → Memᴰ a (keep p xs)
  mem-keep p a [] e m = elim m [ ]
  mem-keep p a (x ∷ xs) e (Memᴰ.head h) = keep_head a (keep p xs) (p x) h (ap p (sym h) ∙ e)
  mem-keep p a (x ∷ xs) e (Memᴰ.tail m) = keep_tail a x (keep p xs) (p x) (mem-keep p a xs e m)

  pub length-append : (xs ys : List A) → length (xs ++ ys) ≡ length xs + length ys
  length-append [] ys = omega arith
  length-append (x ∷ xs) ys = omega (arith, length-append xs ys)

  pub length-keep-le : (p : A → Bool) (xs : List A) → length (keep p xs) ≤ length xs
  length-keep-le p [] = omega arith
  length-keep-le p (x ∷ xs) = ground (arith, length-keep-le p xs)

module _ {ℓ κ} {A : Type ℓ} (P : A → Type κ) where
  abbrev pub All : List A → Type κ
  All [] = Unit
  All (x ∷ xs) = P x × All xs

  pub All-append : (xs ys : List A) → All xs → All ys → All (xs ++ ys)
  All-append [] ys hx hy = hy
  All-append (x ∷ xs) ys (h, hx) hy = (h, All-append xs ys hx hy)

  pub All-mem : (a : A) (xs : List A) → All xs → Memᴰ a xs → P a
  All-mem a [] h m = elim m [ ]
  All-mem a (x ∷ xs) h (Memᴰ.head e) = subst P (sym e) h.0
  All-mem a (x ∷ xs) h (Memᴰ.tail m) = All-mem a xs h.1 m

module _ {ℓ κ} {A : Type ℓ} {P Q : A → Type κ} where
  pub All-mono : ((a : A) → P a → Q a) → (xs : List A) → All P xs → All Q xs
  All-mono f [] h = tt
  All-mono f (x ∷ xs) (h, hs) = (f x h, All-mono f xs hs)

pub All-of_find-none {ℓ} :
    {A : Type ℓ} (p : A → Bool) (xs : List A) → find p xs ≡ none → All (λ x. p x ≡ false) xs
All-of_find-none p [] h = tt
All-of_find-none p (x ∷ xs) h = ground (arith, All-of_find-none p xs)

module _ {ℓ} {A : Type ℓ} where
  pub mem-append_left : (a : A) (xs ys : List A) → Memᴰ a xs → Memᴰ a (xs ++ ys)
  mem-append_left a [] ys m = elim m [ ]
  mem-append_left a (x ∷ xs) ys (Memᴰ.head e) = Memᴰ.head e
  mem-append_left a (x ∷ xs) ys (Memᴰ.tail m) = Memᴰ.tail (mem-append_left a xs ys m)

  pub mem-append_right : (a : A) (xs ys : List A) → Memᴰ a ys → Memᴰ a (xs ++ ys)
  mem-append_right a [] ys m = m
  mem-append_right a (x ∷ xs) ys m = Memᴰ.tail (mem-append_right a xs ys m)

pub mem-map {ℓ κ} :
    {A : Type ℓ} {B : Type κ} (f : A → B) (a : A) (xs : List A) → Memᴰ a xs → Memᴰ (f a) (map f xs)
mem-map f a [] m = elim m [ ]
mem-map f a (x ∷ xs) (Memᴰ.head e) = Memᴰ.head (ap f e)
mem-map f a (x ∷ xs) (Memᴰ.tail m) = Memᴰ.tail (mem-map f a xs m)
