-- ===== src/Float/Parse.antt =====
-- `text.parse::<f64>()`: a sign or none, then a word for infinity or NaN, or digits with at most one
-- point and an exponent or none.
use Prim.Native.Char.{code}
use Prim.Native.String.{[], ◌∷◌, len}
use spark_signals.Prelude.{
  ℕ, ◌+◌, ◌-◌, ◌*◌, ◌^◌, String, Bool, true, false, not, ◌&&◌, ◌||◌, eqb, Option, none, some,
  map_or, if◌then◌else◌,
}
use spark_signals.Order.{text_ord}
use spark_signals.Float.{F64}
use spark_signals.Float.Arithmetic.{infinity, nan, with_sign, of_ratio}
use spark_signals.Text.{is_ascii_uppercase, is_empty, split_digits}

-- whether the text is the word, of lower-case letters, in upper and lower case
abbrev pub is_word : String → String → Bool
is_word [] word = is_empty word
is_word (c ∷ text) [] = false
is_word (c ∷ text) (d ∷ word) =
    (eqb (code c) (code d) || (is_ascii_uppercase (code c) && eqb (code c + 32) (code d)))
    && is_word text word

-- the number that the digits write, after those read before
abbrev pub read_digits : ℕ → String → ℕ
read_digits value [] = value
read_digits value (c ∷ digits) = read_digits (value * 10 + (code c - b'0')) digits

-- the digits of a text that has no others, and is not empty
abbrev pub whole_digits : String → Option ℕ
whole_digits text =
    let (digits, rest) = split_digits text in
    if is_empty rest && not (is_empty digits) then some (read_digits 0 digits) else none

-- the power of ten that the exponent adds and takes away
abbrev pub signed_exponent : String → Option (ℕ × ℕ)
signed_exponent [] = none
signed_exponent (c ∷ text) =
    if eqb (code c) b'-'
    then map_or (whole_digits text) none (λ e. some (0, e))
    else map_or (whole_digits (if eqb (code c) b'+' then text else c ∷ text)) none
        (λ e. some (e, 0))

abbrev pub exponent : String → Option (ℕ × ℕ)
exponent [] = some (0, 0)
exponent (c ∷ text) = if eqb (code c) b'e' || eqb (code c) b'E' then signed_exponent text else none

-- the digits after a point, if there is one, and what follows
abbrev pub fraction : String → String × String
fraction [] = ([], [])
fraction (c ∷ text) = if eqb (code c) b'.' then split_digits text else ([], c ∷ text)

abbrev pub decimal : String → Option F64
decimal text =
    let (whole, rest) = split_digits text in
    let (part, last) = fraction rest in
    let digits = read_digits (read_digits 0 whole) part in
    if is_empty whole && is_empty part
    then none
    else map_or (exponent last) none
        (λ e. some (of_ratio (digits * 10 ^ e.0) (10 ^ (e.1 + len part))))

abbrev pub unsigned_f64 : String → Option F64
unsigned_f64 text =
    if is_word text "inf" || is_word text "infinity"
    then some infinity
    else if is_word text "nan"
    then some nan
    else decimal text

unfoldable pub parse_f64 : String → Option F64
unfolding of_ratio
parse_f64 [] = none
parse_f64 (c ∷ text) =
    if eqb (code c) b'-'
    then map_or (unsigned_f64 text) none (λ v. some (with_sign true v))
    else if eqb (code c) b'+'
    then unsigned_f64 text
    else unsigned_f64 (c ∷ text)
