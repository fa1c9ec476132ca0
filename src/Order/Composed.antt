-- ===== src/Order/Composed.antt =====
-- The derived orders of pairs, records, lists and options: lexicographic, `None` below `Some`.
use spark_signals.Prelude.{◌≡◌, refl, ap, ◌&&◌, Option, none, some, List, [], ◌∷◌, arith, Ordering}
use spark_signals.Order.Interface.{reverse, then_with, is_eq, ◌==◌, Ord, cmp_left, cmp_right}

-- Lexicographic order of two parts, each with its laws.
pub then_with-flip :
    (o p o' p' : Ordering)
    → o' ≡ reverse o
    → p' ≡ reverse p
    → then_with o' p' ≡ reverse (then_with o p)
then_with-flip Ordering.lt p o' p' h k = ground arith
then_with-flip Ordering.eq p o' p' h k = ground arith
then_with-flip Ordering.gt p o' p' h k = ground arith

pub then_with_trans :
    (a b c p q r : Ordering)
    → (a ≡ Ordering.lt → b ≡ Ordering.lt → c ≡ Ordering.lt)
    → (a ≡ Ordering.eq → c ≡ b)
    → (b ≡ Ordering.eq → c ≡ a)
    → (p ≡ Ordering.lt → q ≡ Ordering.lt → r ≡ Ordering.lt)
    → then_with a p ≡ Ordering.lt
    → then_with b q ≡ Ordering.lt
    → then_with c r ≡ Ordering.lt
then_with_trans Ordering.lt Ordering.lt c p q r both left right rest h k = rw (both refl refl)
then_with_trans Ordering.lt Ordering.eq c p q r both left right rest h k = rw (right refl)
then_with_trans Ordering.eq Ordering.lt c p q r both left right rest h k = rw (left refl)
then_with_trans Ordering.eq Ordering.eq c p q r both left right rest h k = rw (left refl) (rest h k)
then_with_trans Ordering.gt b c p q r both left right rest h k = cc
then_with_trans a Ordering.gt c p q r both left right rest h k = cc

module _ {ℓ κ} {A : Type ℓ} {B : Type κ} ⦃o : Ord A⦄ ⦃p : Ord B⦄ where
  abbrev pub cmp_pair : A × B → A × B → Ordering
  cmp_pair x y = then_with (o.cmp x.0 y.0) (p.cmp x.1 y.1)

  pub cmp_pair_refl : (x : A × B) → cmp_pair x x ≡ Ordering.eq
  cmp_pair_refl x = rw (o.cmp_refl x.0, p.cmp_refl x.1)

  pub eq_of_cmp_pair : (x y : A × B) → cmp_pair x y ≡ Ordering.eq → x ≡ y
  eq_of_cmp_pair x y h =
      let q : x.0 ≡ y.0 = o.eq_of_cmp x.0 y.0 (ground arith) in
      let r : x.1 ≡ y.1 = p.eq_of_cmp x.1 y.1 (ground arith) in λ i. (q i, r i)

  pub cmp_pair_flip : (x y : A × B) → cmp_pair y x ≡ reverse (cmp_pair x y)
  cmp_pair_flip x y =
      then_with-flip (o.cmp x.0 y.0) (p.cmp x.1 y.1) _ _ (o.cmp_flip x.0 y.0) (p.cmp_flip x.1 y.1)

  pub cmp_pair_trans :
      (x y z : A × B)
      → cmp_pair x y ≡ Ordering.lt
      → cmp_pair y z ≡ Ordering.lt
      → cmp_pair x z ≡ Ordering.lt
  cmp_pair_trans x y z =
      then_with_trans (o.cmp x.0 y.0) (o.cmp y.0 z.0) (o.cmp x.0 z.0) (p.cmp x.1 y.1)
        (p.cmp y.1 z.1) (p.cmp x.1 z.1) (o.cmp_trans x.0 y.0 z.0) (cmp_left x.0 y.0 z.0)
        (cmp_right x.0 y.0 z.0) (p.cmp_trans x.1 y.1 z.1)

is_eq-then_with : (a b : Ordering) → is_eq (then_with a b) ≡ (is_eq a && is_eq b)
is_eq-then_with Ordering.lt b = refl
is_eq-then_with Ordering.eq b = refl
is_eq-then_with Ordering.gt b = refl

instance abbrev pub pair_ord {ℓ κ} : {A : Type ℓ} {B : Type κ} ⦃o : Ord A⦄ ⦃p : Ord B⦄ → Ord (A × B)
pair_ord = record {
  cmp = cmp_pair;
  cmp_refl = cmp_pair_refl;
  eq_of_cmp = eq_of_cmp_pair;
  cmp_flip = cmp_pair_flip;
  cmp_trans = cmp_pair_trans;
}

-- Pairs are equal if both parts are.
pub eq_pair {ℓ κ} :
    {A : Type ℓ} {B : Type κ} ⦃o : Ord A⦄ ⦃p : Ord B⦄ (x y : A × B)
    → (x == y) ≡ (x.0 == y.0 && x.1 == y.1)
eq_pair ⦃o = o⦄ ⦃p = p⦄ x y = is_eq-then_with (o.cmp x.0 y.0) (p.cmp x.1 y.1)

-- A record is ordered by the tuple of its fields.
module _ {ℓ κ} {A : Type ℓ} {B : Type κ} ⦃o : Ord B⦄ (f : A → B)
    (inj : (x y : A) → f x ≡ f y → x ≡ y) where
  abbrev pub ord_by : Ord A
  ord_by = record {
    cmp = λ x y. o.cmp (f x) (f y);
    cmp_refl = λ x. o.cmp_refl (f x);
    eq_of_cmp = λ x y h. inj x y (o.eq_of_cmp (f x) (f y) h);
    cmp_flip = λ x y. o.cmp_flip (f x) (f y);
    cmp_trans = λ x y z. o.cmp_trans (f x) (f y) (f z);
  }

module _ {ℓ} {A : Type ℓ} ⦃o : Ord A⦄ where
  abbrev pub cmp_list : List A → List A → Ordering
  cmp_list [] [] = Ordering.eq
  cmp_list [] (y ∷ ys) = Ordering.lt
  cmp_list (x ∷ xs) [] = Ordering.gt
  cmp_list (x ∷ xs) (y ∷ ys) = then_with (o.cmp x y) (cmp_list xs ys)

  pub cmp_list_refl : (xs : List A) → cmp_list xs xs ≡ Ordering.eq
  cmp_list_refl [] = refl
  cmp_list_refl (x ∷ xs) = rw (o.cmp_refl x, cmp_list_refl xs)

  pub eq_of_cmp_list : (xs ys : List A) → cmp_list xs ys ≡ Ordering.eq → xs ≡ ys
  eq_of_cmp_list [] [] h = refl
  eq_of_cmp_list [] (y ∷ ys) h = cc
  eq_of_cmp_list (x ∷ xs) [] h = cc
  eq_of_cmp_list (x ∷ xs) (y ∷ ys) h =
      let q : x ≡ y = o.eq_of_cmp x y (ground arith) in
      let r : xs ≡ ys = eq_of_cmp_list xs ys (ground arith) in λ i. q i ∷ r i

  pub cmp_list_flip : (xs ys : List A) → cmp_list ys xs ≡ reverse (cmp_list xs ys)
  cmp_list_flip [] [] = refl
  cmp_list_flip [] (y ∷ ys) = refl
  cmp_list_flip (x ∷ xs) [] = refl
  cmp_list_flip (x ∷ xs) (y ∷ ys) =
      then_with-flip (o.cmp x y) (cmp_list xs ys) _ _ (o.cmp_flip x y) (cmp_list_flip xs ys)

  pub cmp_list_trans :
      (xs ys zs : List A)
      → cmp_list xs ys ≡ Ordering.lt
      → cmp_list ys zs ≡ Ordering.lt
      → cmp_list xs zs ≡ Ordering.lt
  cmp_list_trans [] ys [] h k =
      elim ys as (λ l. cmp_list l [] ≡ Ordering.lt → Ordering.eq ≡ Ordering.lt) [
        | [] ↦ λ e. e
        | y ∷ r ↦ λ e. cc
      ]
        k
  cmp_list_trans [] ys (z ∷ zs) h k = refl
  cmp_list_trans (x ∷ xs) [] zs h k = cc
  cmp_list_trans (x ∷ xs) (y ∷ ys) [] h k = cc
  cmp_list_trans (x ∷ xs) (y ∷ ys) (z ∷ zs) h k =
      then_with_trans (o.cmp x y) (o.cmp y z) (o.cmp x z) (cmp_list xs ys) (cmp_list ys zs)
        (cmp_list xs zs) (o.cmp_trans x y z) (cmp_left x y z) (cmp_right x y z)
        (cmp_list_trans xs ys zs) h k

instance abbrev pub list_ord {ℓ} : {A : Type ℓ} ⦃o : Ord A⦄ → Ord (List A)
list_ord = record {
  cmp = cmp_list;
  cmp_refl = cmp_list_refl;
  eq_of_cmp = eq_of_cmp_list;
  cmp_flip = cmp_list_flip;
  cmp_trans = cmp_list_trans;
}

-- `None` is below `Some`.
module _ {ℓ} {A : Type ℓ} ⦃o : Ord A⦄ where
  abbrev pub cmp_option : Option A → Option A → Ordering
  cmp_option none none = Ordering.eq
  cmp_option none (some b) = Ordering.lt
  cmp_option (some a) none = Ordering.gt
  cmp_option (some a) (some b) = o.cmp a b

  pub cmp_option_refl : (a : Option A) → cmp_option a a ≡ Ordering.eq
  cmp_option_refl none = refl
  cmp_option_refl (some a) = o.cmp_refl a

  pub eq_of_cmp_option : (a b : Option A) → cmp_option a b ≡ Ordering.eq → a ≡ b
  eq_of_cmp_option none none h = refl
  eq_of_cmp_option none (some b) h = cc
  eq_of_cmp_option (some a) none h = cc
  eq_of_cmp_option (some a) (some b) h = ap some (o.eq_of_cmp a b h)

  pub cmp_option_flip : (a b : Option A) → cmp_option b a ≡ reverse (cmp_option a b)
  cmp_option_flip none none = refl
  cmp_option_flip none (some b) = refl
  cmp_option_flip (some a) none = refl
  cmp_option_flip (some a) (some b) = o.cmp_flip a b

  pub cmp_option_trans :
      (a b c : Option A)
      → cmp_option a b ≡ Ordering.lt
      → cmp_option b c ≡ Ordering.lt
      → cmp_option a c ≡ Ordering.lt
  cmp_option_trans none none c h k = cc
  cmp_option_trans none (some b) none h k = cc
  cmp_option_trans none (some b) (some c) h k = refl
  cmp_option_trans (some a) none c h k = cc
  cmp_option_trans (some a) (some b) none h k = cc
  cmp_option_trans (some a) (some b) (some c) h k = o.cmp_trans a b c h k

instance abbrev pub option_ord {ℓ} : {A : Type ℓ} ⦃o : Ord A⦄ → Ord (Option A)
option_ord = record {
  cmp = cmp_option;
  cmp_refl = cmp_option_refl;
  eq_of_cmp = eq_of_cmp_option;
  cmp_flip = cmp_option_flip;
  cmp_trans = cmp_option_trans;
}
