-- ===== src/Order/Interface.antt =====
-- `Ord` of the standard library, as an interface with its laws, and the equality it gives.
use spark_signals.Prelude.{◌≡◌, sym, ap, ◌↔◌, Bool, true, false, arith, Ordering}

-- `Ordering::reverse`
abbrev pub reverse : Ordering → Ordering
reverse Ordering.lt = Ordering.gt
reverse Ordering.eq = Ordering.eq
reverse Ordering.gt = Ordering.lt

-- `Ordering::then`
abbrev pub then_with : Ordering → Ordering → Ordering
then_with Ordering.lt o = Ordering.lt
then_with Ordering.eq o = o
then_with Ordering.gt o = Ordering.gt

abbrev pub is_eq : Ordering → Bool
is_eq Ordering.eq = true
is_eq _ = false

pub record Ord {ℓ} (A : Type ℓ) : Type ℓ where
  pub cmp : A → A → Ordering
  pub cmp_refl : (a : A) → cmp a a ≡ Ordering.eq
  pub eq_of_cmp : (a b : A) → cmp a b ≡ Ordering.eq → a ≡ b
  pub cmp_flip : (a b : A) → cmp b a ≡ reverse (cmp a b)
  pub cmp_trans :
      (a b c : A) → cmp a b ≡ Ordering.lt → cmp b c ≡ Ordering.lt → cmp a c ≡ Ordering.lt

infix 50 ◌==◌
abbrev pub ◌==◌ {ℓ} : {A : Type ℓ} ⦃o : Ord A⦄ → A → A → Bool
◌==◌ ⦃o⦄ a b = is_eq (o.cmp a b)

module _ {ℓ} {A : Type ℓ} ⦃o : Ord A⦄ where
  pub eq_iff : (a b : A) → ((a == b) ≡ true) ↔ (a ≡ b)
  eq_iff a b = (λ h. o.eq_of_cmp a b (ground arith), λ h. rw (h, o.cmp_refl b))

  pub eq_refl : (a : A) → (a == a) ≡ true
  eq_refl a = rw (o.cmp_refl a)

  pub cmp_gt : (a b : A) → o.cmp a b ≡ Ordering.gt → o.cmp b a ≡ Ordering.lt
  cmp_gt a b h = ground (arith, o.cmp_flip a b)

  pub cmp_left : (a b c : A) → o.cmp a b ≡ Ordering.eq → o.cmp a c ≡ o.cmp b c
  cmp_left a b c h = ap (λ x. o.cmp x c) (o.eq_of_cmp a b h)

  pub cmp_right : (a b c : A) → o.cmp b c ≡ Ordering.eq → o.cmp a c ≡ o.cmp a b
  cmp_right a b c h = ap (o.cmp a) (sym (o.eq_of_cmp b c h))
