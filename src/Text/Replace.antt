-- ===== src/Text/Replace.antt =====
-- `str::replace`.
use Prim.Native.String.{[], ◌∷◌, ◌++◌, len}
use spark_signals.Prelude.{ℕ, zero, suc, ◌-◌, String, if◌then◌else◌}
use spark_signals.Text.{starts_with}

-- The text with `from`, which is not empty, replaced from left to right; `skip` characters are still
-- those of a `from` that was found.
unfoldable pub replace_after : ℕ → String → String → String → String
unfolding starts_with
replace_after skip from to [] = []
replace_after zero from to (c ∷ text) =
    let found = to ++ replace_after (len from - 1) from to text in
    let passed = c ∷ replace_after zero from to text in
    if starts_with (c ∷ text) from then found else passed
replace_after (suc skip) from to (c ∷ text) = replace_after skip from to text

-- `text.replace(from, to)`
unfoldable pub replace : String → String → String → String
unfolding replace_after
replace text from to = replace_after 0 from to text
