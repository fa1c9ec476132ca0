-- ===== src/Agent/Arguments/Checks.antt =====
-- `parse_duration`, `valid_subject_component`, `sanitize_component` and `stable_jitter`.
use Prim.Native.Char.{Char, code}
use Prim.Native.String as Text
use spark_signals.Prelude.{
  ℕ, ◌+◌, ◌-◌, ◌*◌, ◌/◌, ◌%◌, ◌^◌, min, max, String, Bool, not, ◌&&◌, ◌||◌, Option, none, some,
  List, [], ◌∷◌, ltb, eqb, Result, ok, ok_or, ensure, ◌>>=◌, ◌>>◌, if◌then◌else◌,
}
use spark_signals.Order.{◌==◌, text_ord, nat_ord}
use spark_signals.Text.{is_empty, all_bytes, is_ascii_alphanumeric, split_digits, parse_u64, bytes}

-- the four messages
pub data DurationError : Type 0 where
  no_amount zero_amount unknown_unit too_large : DurationError

-- seconds in a unit
unfoldable pub multiplier : String → Option ℕ
multiplier unit =
    if unit == "s"
    then some 1
    else if unit == "m"
    then some 60
    else if unit == "h"
    then some (60 * 60)
    else if unit == "d"
    then some (24 * 60 * 60)
    else none

-- `parse_duration`, in seconds
unfoldable pub parse_duration : String → Result ℕ DurationError
parse_duration value = do
  let (digits, unit) = split_digits value
  amount ← ok_or (parse_u64 digits) DurationError.no_amount
  ensure (not (eqb amount 0)) DurationError.zero_amount
  seconds ← ok_or (multiplier unit) DurationError.unknown_unit
  ensure (ltb (amount * seconds) (2 ^ 64)) DurationError.too_large
  ok (amount * seconds)

abbrev pub is_component_byte : ℕ → Bool
is_component_byte byte = is_ascii_alphanumeric byte || byte == b'_' || byte == b'-'

-- "must contain only ASCII letters, digits, '_' or '-'"
pub data ComponentError : Type 0 where
  not_a_component : ComponentError

unfoldable pub valid_subject_component : String → Result String ComponentError
valid_subject_component value = do
  ensure (not (is_empty value) && all_bytes is_component_byte value) ComponentError.not_a_component
  ok value

abbrev pub sanitize_char : Char → Char
sanitize_char character = if is_component_byte (code character) then character else "-"

-- `value.chars().map(..).collect()`
unfoldable pub sanitized : String → String
sanitized Text.[] = Text.[]
sanitized (Text.◌∷◌ c value) = Text.◌∷◌ (sanitize_char c) (sanitized value)

unfoldable pub sanitize_component : String → String
sanitize_component value = if is_empty (sanitized value) then "unknown" else sanitized value

-- one round of the fold, with the wrap-around of `u64`
abbrev pub mix : ℕ → ℕ → ℕ
mix hash byte = ((hash * 1099511628211) % 2 ^ 64 + byte) % 2 ^ 64

abbrev pub fold : ℕ → List ℕ → ℕ
fold hash [] = hash
fold hash (byte ∷ rest) = fold (mix hash byte) rest

-- `u64::try_from(interval.as_millis() / 4).unwrap_or(u64::MAX).clamp(1, 500)`
abbrev pub ceiling : ℕ → ℕ
ceiling interval_ms = min (max (min (interval_ms / 4) (2 ^ 64 - 1)) 1) 500

-- `stable_jitter`, in milliseconds, of an interval in milliseconds
unfoldable pub stable_jitter : String → ℕ → ℕ
stable_jitter node interval_ms = fold 1469598103934665603 (bytes node) % ceiling interval_ms
