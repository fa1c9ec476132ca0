-- ===== src/Order/Primitive.antt =====
-- The orders of numbers and texts.
use Prim.Native.Char.{Char, code}
use Prim.Native.String.compare as compare_text
use Prim.Native.String.{[] as nil, ◌∷◌ as cons, compare as compare_String, then}
use text.Mathlib.TextEquality.{path_by_compare}
use text.Mathlib.TextPositions.{compare_refl}
use spark_signals.Prelude.{ℕ, String, ◌≡◌, refl, sym, ap, ◌∙◌, arith, compare, Ordering}
use spark_signals.Order.Interface.{reverse, then_with, Ord}
use spark_signals.Order.Composed.{then_with-flip, then_with_trans}

pub compare_self : (a : ℕ) → compare a a ≡ Ordering.eq
compare_self a = ground arith

pub eq_of_compare : (a b : ℕ) → compare a b ≡ Ordering.eq → a ≡ b
eq_of_compare a b h = ground arith

pub compare_flip : (a b : ℕ) → compare b a ≡ reverse (compare a b)
compare_flip a b = ground arith

pub compare_trans :
    (a b c : ℕ) → compare a b ≡ Ordering.lt → compare b c ≡ Ordering.lt → compare a c ≡ Ordering.lt
compare_trans a b c h k = ground arith

-- `str::cmp` compares bytes, which for UTF-8 is the order of the code points.
then-then_with : (o p : Ordering) → then o p ≡ then_with o p
then-then_with Ordering.lt p = refl
then-then_with Ordering.eq p = refl
then-then_with Ordering.gt p = refl

cmp-cons :
    (c d : Char) (s t : String)
    → compare_String (cons c s) (cons d t)
      ≡ then_with (compare (code c) (code d)) (compare_String s t)
cmp-cons c d s t =
    compare_text.cons-cons c d s t ∙ then-then_with (compare (code c) (code d)) (compare_String s t)

pub text_flip : (s t : String) → compare_String t s ≡ reverse (compare_String s t)
text_flip nil nil = rw (compare_text.nil-nil) refl
text_flip nil (cons d t) = rw (compare_text.nil-cons, compare_text.cons-nil) refl
text_flip (cons c s) nil = rw (compare_text.nil-cons, compare_text.cons-nil) refl
text_flip (cons c s) (cons d t) =
    cmp-cons d c t s
    ∙ then_with-flip (compare (code c) (code d)) (compare_String s t) _ _
        (compare_flip (code c) (code d)) (text_flip s t)
    ∙ ap reverse (sym (cmp-cons c d s t))

code_left : (a b c : ℕ) → compare a b ≡ Ordering.eq → compare a c ≡ compare b c
code_left a b c h = ap (λ x. compare x c) (eq_of_compare a b h)

code_right : (a b c : ℕ) → compare b c ≡ Ordering.eq → compare a c ≡ compare a b
code_right a b c h = ap (compare a) (sym (eq_of_compare b c h))

lt-ne-eq : Ordering.lt ≡ Ordering.eq → ⊥
lt-ne-eq h = cc

pub text_trans :
    (s t u : String)
    → compare_String s t ≡ Ordering.lt
    → compare_String t u ≡ Ordering.lt
    → compare_String s u ≡ Ordering.lt
text_trans nil nil u h k = absurd (lt-ne-eq (sym h ∙ compare_text.nil-nil))
text_trans nil (cons d t) nil h k = cc (compare_text.cons-nil d t)
text_trans nil (cons d t) (cons e u) h k = compare_text.nil-cons e u
text_trans (cons c s) nil u h k = cc (compare_text.cons-nil c s)
text_trans (cons c s) (cons d t) nil h k = cc (compare_text.cons-nil d t)
text_trans (cons c s) (cons d t) (cons e u) h k =
    cmp-cons c e s u
    ∙ then_with_trans (compare (code c) (code d)) (compare (code d) (code e))
        (compare (code c) (code e)) (compare_String s t) (compare_String t u) (compare_String s u)
        (compare_trans (code c) (code d) (code e)) (code_left (code c) (code d) (code e))
        (code_right (code c) (code d) (code e)) (text_trans s t u) (sym (cmp-cons c d s t) ∙ h)
        (sym (cmp-cons d e t u) ∙ k)

instance abbrev pub nat_ord : Ord ℕ
nat_ord = record {
  cmp = compare;
  cmp_refl = compare_self;
  eq_of_cmp = eq_of_compare;
  cmp_flip = compare_flip;
  cmp_trans = compare_trans;
}

instance abbrev pub text_ord : Ord String
text_ord = record {
  cmp = compare_String;
  cmp_refl = compare_refl;
  eq_of_cmp = path_by_compare;
  cmp_flip = text_flip;
  cmp_trans = text_trans;
}
