-- ===== src/Text/Split.antt =====
-- How the program takes texts apart: lines, words, the text around a separator, and trimming.
use Prim.Native.Char.{Char, code}
use Prim.Native.String.{[], ◌∷◌}
use mathlib.Core.List as List
use spark_signals.Prelude.{ℕ, String, Bool, false, not, ◌&&◌, Option, none, some, if◌then◌else◌}
use spark_signals.Prelude.Optional.{map_some}
use spark_signals.Order.{◌==◌, text_ord, nat_ord}
use spark_signals.Text.{is_empty, is_whitespace, strip_prefix}

-- the list of texts whose first begins with the character
abbrev pub before_first : Char → List.List String → List.List String
before_first c List.[] = List.◌∷◌ (c ∷ []) List.[]
before_first c (List.◌∷◌ s rest) = List.◌∷◌ (c ∷ s) rest

-- a text that begins with a character of the class
abbrev pub begins : (ℕ → Bool) → String → Bool
begins test [] = false
begins test (c ∷ text) = test (code c)

-- `text.lines()`: a carriage return before a line feed belongs to the line's end
unfoldable pub lines : String → List.List String
lines [] = List.[]
lines (c ∷ text) =
    let rest = lines text in
    if code c == b'\n'
    then List.◌∷◌ [] rest
    else if code c == b'\r' && begins (λ d. d == b'\n') text
    then rest
    else before_first c rest

-- `text.split_whitespace()`
unfoldable pub split_whitespace : String → List.List String
split_whitespace [] = List.[]
split_whitespace (c ∷ text) =
    let rest = split_whitespace text in
    if is_whitespace (code c)
    then rest
    else if begins (λ d. not (is_whitespace d)) text
    then before_first c rest
    else List.◌∷◌ (c ∷ []) rest

-- `text.split_once(test)` of a character
unfoldable pub split_once : (ℕ → Bool) → String → Option (String × String)
split_once test [] = none
split_once test (c ∷ text) =
    let later = map_some (λ p. (c ∷ p.0, p.1)) (split_once test text) in
    if test (code c) then some ([], text) else later

abbrev pub split_here : Option String → Option (String × String) → Option (String × String)
split_here (some rest) later = some ([], rest)
split_here none later = later

-- `text.split_once(separator)` of a text
unfoldable pub split_once_at : String → String → Option (String × String)
unfolding strip_prefix
split_once_at separator [] = split_here (strip_prefix [] separator) none
split_once_at separator (c ∷ text) =
    split_here (strip_prefix (c ∷ text) separator)
      (map_some (λ p. (c ∷ p.0, p.1)) (split_once_at separator text))

-- `text.trim_start_matches(test)`
unfoldable pub trim_start : (ℕ → Bool) → String → String
trim_start test [] = []
trim_start test (c ∷ text) =
    let rest = trim_start test text in if test (code c) then rest else c ∷ text

-- `text.trim_end_matches(test)`
unfoldable pub trim_end : (ℕ → Bool) → String → String
trim_end test [] = []
trim_end test (c ∷ text) =
    let rest = trim_end test text in if is_empty rest && test (code c) then [] else c ∷ rest

-- `text.trim_matches(test)`
unfoldable pub trim_matches : (ℕ → Bool) → String → String
unfolding trim_start trim_end
trim_matches test text = trim_start test (trim_end test text)

-- `text.trim()`
unfoldable pub trim : String → String
unfolding trim_matches
trim text = trim_matches is_whitespace text

-- `text.strip_suffix(suffix)`
unfoldable pub strip_suffix : String → String → Option String
strip_suffix [] suffix = if is_empty suffix then some [] else none
strip_suffix (c ∷ text) suffix =
    let rest = map_some (λ s. c ∷ s) (strip_suffix text suffix) in
    if (c ∷ text) == suffix then some [] else rest

-- `text.split(test)` of a character
unfoldable pub split : (ℕ → Bool) → String → List.List String
split test [] = List.◌∷◌ [] List.[]
split test (c ∷ text) =
    let rest = split test text in if test (code c) then List.◌∷◌ [] rest else before_first c rest
