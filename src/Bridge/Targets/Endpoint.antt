-- ===== src/Bridge/Targets/Endpoint.antt =====
-- An endpoint that is accepted does not end with a slash, so it is used as it is.
use Prim.Native.Char.{code}
use Prim.Native.String as Text
use Prim.Native.String.append
use text.Mathlib.TextEquality.{Char-path}
use spark_signals.Prelude.{
  ℕ, String, ◌≡◌, refl, sym, ap, subst, ◌∙◌, true, false, some, is_some_and, arith, Bool-cases,
  Option-cases, inl, inr,
}
use spark_signals.Order.{◌==◌, eq_iff, text_ord, nat_ord}
use spark_signals.Text.{is_empty, any_char, strip_prefix, trim_end_matches}
use spark_signals.Bridge.Targets.Maple.{or_else, authority, is_path_mark, valid_authority}

-- Stripping a prefix takes it from the front.
strip_prefix-append :
    (text prefix rest : String)
    → strip_prefix text prefix ≡ some rest
    → text ≡ Text.◌++◌ prefix rest
unfolding strip_prefix
strip_prefix-append text Text.[] rest h = let e : text ≡ rest = cc in e ∙ sym (append.nil rest)
strip_prefix-append Text.[] (Text.◌∷◌ c prefix) rest h = cc
strip_prefix-append (Text.◌∷◌ d text) (Text.◌∷◌ c prefix) rest h =
    elim (Bool-cases (code c == code d)) [
      | inl same ↦
          let e : strip_prefix text prefix ≡ some rest = ground (arith, same, h) in
          let p : d ≡ c = Char-path d c (sym ((eq_iff (code c) (code d)).0 same)) in
          rw (append.cons c prefix rest)
            (λ i. Text.◌∷◌ (p i) (strip_prefix-append text prefix rest e i))
      | inr other ↦ ground (arith, other, h)
    ]

trimmed :
    (character : ℕ) (text : String)
    → any_char (λ c. c == character) text ≡ false
    → trim_end_matches character text ≡ text
unfolding trim_end_matches any_char
trimmed character Text.[] h = refl
trimmed character (Text.◌∷◌ c text) h =
    let other : (code c == character) ≡ false = ground arith in
    let rest : any_char (λ x. x == character) text ≡ false = ground arith in
    rw (trimmed character text rest) (rw other (ground arith))

is_empty-append :
    (prefix rest : String) → is_empty rest ≡ false → is_empty (Text.◌++◌ prefix rest) ≡ false
is_empty-append Text.[] rest h = rw (append.nil rest) h
is_empty-append (Text.◌∷◌ c prefix) rest h = rw (append.cons c prefix rest) refl

kept_prefix :
    (character : ℕ) (prefix rest : String)
    → trim_end_matches character rest ≡ rest
    → is_empty rest ≡ false
    → trim_end_matches character (Text.◌++◌ prefix rest) ≡ Text.◌++◌ prefix rest
unfolding trim_end_matches
kept_prefix character Text.[] rest h e = rw (append.nil rest) h
kept_prefix character (Text.◌∷◌ c prefix) rest h e =
    rw (append.cons c prefix rest)
      (rw (kept_prefix character prefix rest h e, is_empty-append prefix rest e) refl)

no_slash :
    (text : String) → any_char is_path_mark text ≡ false → any_char (λ c. c == b'/') text ≡ false
unfolding any_char
no_slash Text.[] h = refl
no_slash (Text.◌∷◌ c text) h = ground (arith, h, no_slash text)

-- An endpoint that is accepted does not end with a slash.
endpoint_kept :
    (endpoint prefix rest : String)
    → strip_prefix endpoint prefix ≡ some rest
    → valid_authority rest ≡ true
    → trim_end_matches b'/' endpoint ≡ endpoint
endpoint_kept endpoint prefix rest h v =
    let split = strip_prefix-append endpoint prefix rest h in
    let filled : is_empty rest ≡ false = ground arith in
    let plain : any_char is_path_mark rest ≡ false = ground arith in
    let kept = kept_prefix b'/' prefix rest (trimmed b'/' rest (no_slash rest plain)) filled in
    subst (λ x. trim_end_matches b'/' x ≡ x) (sym split) kept

pub authority_kept :
    (endpoint : String)
    → is_some_and (authority endpoint) valid_authority ≡ true
    → trim_end_matches b'/' endpoint ≡ endpoint
authority_kept endpoint h = elim (Option-cases (strip_prefix endpoint "http://")) [
  | inl p ↦ elim (Option-cases (strip_prefix endpoint "https://")) [
    | inl q ↦ ground (arith, p, q, h)
    | inr (rest, q) ↦ endpoint_kept endpoint "https://" rest q (
        sym (
          ap (λ o. is_some_and (or_else o (strip_prefix endpoint "https://")) valid_authority) p
          ∙ ap (λ o. is_some_and o valid_authority) q)
        ∙ h)
  ]
  | inr (rest, p) ↦ endpoint_kept endpoint "http://" rest p (
      sym (ap (λ o. is_some_and (or_else o (strip_prefix endpoint "https://")) valid_authority) p)
      ∙ h)
]
