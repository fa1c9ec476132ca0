-- ===== src/Probes/Totals.antt =====
-- What a lookup finds in the parsed metrics.
use spark_signals.Prelude.{
  String, Bool, true, false, ap, ◌≡◌, refl, ◌∙◌, Option, none, some, List, [], ◌∷◌, unwrap_or,
  if◌then◌else◌, Bool-cases, inl, inr,
}
use spark_signals.Prelude.Optional.{filter_map}
use spark_signals.Order.{◌==◌, eq_iff, text_ord}
use spark_signals.BTreeMap.{BTreeMap, get, insert, get-insert}
use spark_signals.Float.{F64, zero_f64}
use spark_signals.Float.Arithmetic.{add}
use spark_signals.Text.Split.{lines}
use spark_signals.Probes.Parse.{series_line, summed, parse_prometheus}

-- The values of the series of a name, in their order.
abbrev pub values_of : String → List (String × F64) → List F64
values_of name [] = []
values_of name ((other, value) ∷ more) =
    if other == name then value ∷ values_of name more else values_of name more

abbrev pub sum_from : F64 → List F64 → F64
sum_from start [] = start
sum_from start (value ∷ values) = sum_from (add start value) values

-- The sum of values, which is there if a value is.
abbrev pub sum : List F64 → Option F64
sum [] = none
sum (value ∷ values) = some (sum_from zero_f64 (value ∷ values))

-- The values added to what was found before.
abbrev added : Option F64 → List F64 → Option F64
added found [] = found
added found (value ∷ values) = added (some (add (unwrap_or found zero_f64) value)) values

added-some :
    (start : F64) (values : List F64) → added (some start) values ≡ some (sum_from start values)
added-some start [] = refl
added-some start (value ∷ values) = added-some (add start value) values

added-none : (values : List F64) → added none values ≡ sum values
added-none [] = refl
added-none (value ∷ values) = added-some (add zero_f64 value) values

added-step :
    (test : Bool) (found : Option F64) (value : F64) (values : List F64)
    → added (if test then some (add (unwrap_or found zero_f64) value) else found) values
      ≡ added found (if test then value ∷ values else values)
added-step true found value values = refl
added-step false found value values = refl

get-entry :
    (other name : String) (value : F64) (metrics : BTreeMap String F64)
    → get name (insert other (add (unwrap_or (get other metrics) zero_f64) value) metrics) ≡ (
        if other == name
        then some (add (unwrap_or (get name metrics) zero_f64) value)
        else get name metrics)
get-entry other name value metrics =
    get-insert other name (add (unwrap_or (get other metrics) zero_f64) value) metrics
    ∙ elim (Bool-cases (other == name)) [
      | inl h ↦ (let e : other ≡ name = (eq_iff other name).0 h in rw (h, e) refl)
      | inr h ↦ rw h refl
    ]

get-summed :
    (name : String) (metrics : BTreeMap String F64) (found : List (String × F64))
    → get name (summed metrics found) ≡ added (get name metrics) (values_of name found)
unfolding summed
get-summed name metrics [] = refl
get-summed name metrics ((other, value) ∷ more) =
    let next = insert other (add (unwrap_or (get other metrics) zero_f64) value) metrics in
    get-summed name next more
    ∙ ap (λ found. added found (values_of name more)) (get-entry other name value metrics)
    ∙ added-step (other == name) (get name metrics) value (values_of name more)

-- The metrics of a body have a value for a name exactly if a line of it is a series of that name that
-- can be parsed, and it is the sum of the values of these lines, added up from zero in their order.
pub get-parse_prometheus :
    (raw name : String)
    → get name (parse_prometheus raw) ≡ sum (values_of name (filter_map series_line (lines raw)))
unfolding parse_prometheus get
get-parse_prometheus raw name =
    let found = filter_map series_line (lines raw) in
    get-summed name [] found ∙ added-none (values_of name found)
