-- ===== src/Text.antt =====
-- The tests on texts that the program makes byte by byte. Each such test accepts ASCII bytes only,
-- and every byte of a character outside ASCII is at least 128, so it is read here on code points.
pub mod Split
pub mod Replace
pub mod Decimal
use Prim.Native.Char.{code}
use Prim.Native.String.{[], ◌∷◌, ◌++◌}
use mathlib.Core.List as List
use spark_signals.Prelude.{
  ℕ, ◌+◌, ◌-◌, ◌*◌, ◌/◌, ◌%◌, ◌^◌, String, Bool, true, false, ◌&&◌, ◌||◌, leb, ltb, Option, none,
  some, if◌then◌else◌,
}
use spark_signals.Order.{◌==◌, text_ord, nat_ord}

-- `char::is_ascii_digit`, `is_ascii_uppercase`, `is_ascii_alphanumeric`
abbrev pub is_ascii_digit : ℕ → Bool
is_ascii_digit c = leb b'0' c && leb c b'9'

abbrev pub is_ascii_uppercase : ℕ → Bool
is_ascii_uppercase c = leb b'A' c && leb c b'Z'

abbrev pub is_ascii_lowercase : ℕ → Bool
is_ascii_lowercase c = leb b'a' c && leb c b'z'

abbrev pub is_ascii_alphanumeric : ℕ → Bool
is_ascii_alphanumeric c = is_ascii_digit c || is_ascii_uppercase c || is_ascii_lowercase c

-- `text.bytes().all(test)`
unfoldable pub all_bytes : (ℕ → Bool) → String → Bool
all_bytes test [] = true
all_bytes test (c ∷ s) = test (code c) && all_bytes test s

-- `text.is_empty()`
abbrev pub is_empty : String → Bool
is_empty [] = true
is_empty (c ∷ s) = false

-- `text.ends_with(suffix)`
unfoldable pub ends_with : String → String → Bool
ends_with [] suffix = is_empty suffix
ends_with (c ∷ s) suffix = (c ∷ s) == suffix || ends_with s suffix

-- `text.starts_with(prefix)`
unfoldable pub starts_with : String → String → Bool
starts_with text [] = true
starts_with [] (c ∷ prefix) = false
starts_with (d ∷ text) (c ∷ prefix) = code c == code d && starts_with text prefix

-- `format!` of texts
abbrev pub concat : List.List String → String
concat List.[] = ""
concat (List.◌∷◌ part parts) = part ++ concat parts

-- `character.is_ascii_digit()` leads: the text before and after the first other character
abbrev pub split_digits : String → String × String
split_digits [] = ([], [])
split_digits (c ∷ text) =
    let (digits, rest) = split_digits text in
    if is_ascii_digit (code c) then (c ∷ digits, rest) else ([], c ∷ text)

-- the digits of a `u64`, after those read before
abbrev pub read_u64 : ℕ → String → Option ℕ
read_u64 value [] = some value
read_u64 value (c ∷ text) =
    let next = value * 10 + (code c - b'0') in
    let rest = read_u64 next text in
    if is_ascii_digit (code c) && ltb next (2 ^ 64) then rest else none

-- `text.parse::<u64>()`: one or more digits, after a plus sign or not
abbrev pub unsigned : String → Option ℕ
unsigned [] = none
unsigned (c ∷ text) = read_u64 0 (c ∷ text)

unfoldable pub parse_u64 : String → Option ℕ
parse_u64 [] = none
parse_u64 (c ∷ text) = if code c == b'+' then unsigned text else unsigned (c ∷ text)

-- the UTF-8 of a code point
abbrev pub utf8 : ℕ → List.List ℕ
utf8 c =
    if ltb c 128
    then List.◌∷◌ c List.[]
    else if ltb c 2048
    then List.◌∷◌ (192 + c / 64) (List.◌∷◌ (128 + c % 64) List.[])
    else if ltb c 65536
    then List.◌∷◌ (224 + c / 4096) (List.◌∷◌ (128 + c / 64 % 64) (List.◌∷◌ (128 + c % 64) List.[]))
    else List.◌∷◌ (240 + c / 262144) (
        List.◌∷◌ (128 + c / 4096 % 64)
          (List.◌∷◌ (128 + c / 64 % 64) (List.◌∷◌ (128 + c % 64) List.[])))

-- `text.bytes()`
unfoldable pub bytes : String → List.List ℕ
bytes [] = List.[]
bytes (c ∷ text) = List.◌++◌ (utf8 (code c)) (bytes text)

-- `text.strip_prefix(prefix)`
unfoldable pub strip_prefix : String → String → Option String
strip_prefix text [] = some text
strip_prefix [] (c ∷ prefix) = none
strip_prefix (d ∷ text) (c ∷ prefix) =
    let rest = strip_prefix text prefix in if code c == code d then rest else none

-- `text.chars().any(test)`, and `text.contains([..])`
unfoldable pub any_char : (ℕ → Bool) → String → Bool
any_char test [] = false
any_char test (c ∷ text) = test (code c) || any_char test text

-- `char::is_whitespace`
abbrev pub is_whitespace : ℕ → Bool
is_whitespace c =
    (leb 9 c && leb c 13)
    || c == 32
    || c == 133
    || c == 160
    || c == 5760
    || (leb 8192 c && leb c 8202)
    || c == 8232
    || c == 8233
    || c == 8239
    || c == 8287
    || c == 12288

-- `text.trim_end_matches(character)`
unfoldable pub trim_end_matches : ℕ → String → String
trim_end_matches character [] = []
trim_end_matches character (c ∷ text) =
    let rest = trim_end_matches character text in
    if is_empty rest && code c == character then [] else c ∷ rest
