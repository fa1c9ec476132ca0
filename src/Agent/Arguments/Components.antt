-- ===== src/Agent/Arguments/Components.antt =====
-- The parts of a subject: what is sanitized is valid, and what is valid is left alone.
use Prim.Native.Char.{Char, code}
use Prim.Native.String as Text
use spark_signals.Prelude.{
  ℕ, ◌≤◌, ◌<◌, ◌/◌, String, ◌≡◌, refl, ap, true, false, ok, arith, Bool-cases, inl, inr, max,
}
use spark_signals.Order.{text_ord, nat_ord}
use native.Mathlib.Nat.{mod-lt}
use spark_signals.Text.{is_empty, all_bytes, bytes}
use spark_signals.Agent.Arguments.Checks.{
  is_component_byte, valid_subject_component, sanitize_char, sanitized, sanitize_component,
  stable_jitter, ceiling, fold,
}

sanitize_char-valid : (c : Char) → is_component_byte (code (sanitize_char c)) ≡ true
sanitize_char-valid c = elim (Bool-cases (is_component_byte (code c))) [
  | inl h ↦ rw h h
  | inr h ↦ rw h refl
]

sanitized-valid : (value : String) → all_bytes is_component_byte (sanitized value) ≡ true
unfolding sanitized all_bytes
sanitized-valid Text.[] = refl
sanitized-valid (Text.◌∷◌ c value) = rw (sanitize_char-valid c) (sanitized-valid value)

sanitized_same :
    (value : String) → all_bytes is_component_byte value ≡ true → sanitized value ≡ value
unfolding sanitized all_bytes
sanitized_same Text.[] h = refl
sanitized_same (Text.◌∷◌ c value) h =
    let first : is_component_byte (code c) ≡ true = ground arith in
    let rest : all_bytes is_component_byte value ≡ true = ground arith in
    rw first (ap (λ s. Text.◌∷◌ c s) (sanitized_same value rest))

-- A sanitized name is a valid part of a subject.
pub valid_subject_component-sanitize_component :
    (value : String)
    → valid_subject_component (sanitize_component value) ≡ ok (sanitize_component value)
unfolding valid_subject_component sanitize_component all_bytes
valid_subject_component-sanitize_component value = elim (Bool-cases (is_empty (sanitized value))) [
  | inl h ↦ rw h refl
  | inr h ↦ rw h (rw (h, sanitized-valid value) refl)
]

-- A valid part of a subject is what sanitizing leaves as it is.
pub sanitize_component-same :
    (value name : String)
    → valid_subject_component value ≡ ok name
    → (name ≡ value) × (sanitize_component value ≡ value)
unfolding valid_subject_component sanitize_component
sanitize_component-same value name h =
    let given : is_empty value ≡ false = ground arith in
    let bytes_valid : all_bytes is_component_byte value ≡ true = ground arith in
    let same = sanitized_same value bytes_valid in (ground arith, rw same (rw given refl))

-- The first collection is delayed by less than 500 milliseconds, and by less than a quarter of the
-- interval, or not at all where that quarter is less than a millisecond.
pub stable_jitter-lt :
    (node : String) (interval_ms : ℕ)
    → (stable_jitter node interval_ms < 500)
      × (stable_jitter node interval_ms < max 1 (interval_ms / 4))
unfolding stable_jitter
stable_jitter-lt node interval_ms =
    let bound : 0 < ceiling interval_ms = ground arith in
    let below = mod-lt (fold 1469598103934665603 (bytes node)) bound in
    let small : ceiling interval_ms ≤ 500 = ground arith in
    let quarter : ceiling interval_ms ≤ max 1 (interval_ms / 4) = ground arith in
    (omega (arith, below, small), omega (arith, below, quarter))
