-- ===== src/Agent/Discovery/Classes.antt =====
-- The class of a series after any observations, by the values that the series has shown.
use mathlib.Core.Path.{fun_ext}
use spark_signals.Prelude.{
  ℕ, ◌≡◌, ◌≢◌, refl, sym, subst, ap, ◌∙◌, Bool, true, false, ◌&&◌, ◌||◌, Option, none, some, List,
  [], ◌∷◌, length, any, is_some, unwrap_or, map_or, arith, Bool-cases, inl, inr, if◌then◌else◌,
}
use spark_signals.Order.{◌==◌, eq_iff, text_ord, nat_ord, pair_ord, list_ord, option_ord}
use spark_signals.BTreeMap.{
  BTreeSet, get, contains, get-insert, contains-insert, IsSorted, insert-IsSorted,
}
use spark_signals.Float.{F64}
use spark_signals.Schema.{MetricPoint}
use spark_signals.Agent.Discovery.Tracker.{
  DiscoveryKey, discovery_key_ord, key_of, Observation, no_observation, Classification,
  DiscoveryTracker, has_value_quality, note, observe_point, observe, by_count, classification,
}

-- The bits of the value of a point that was measured, derived or estimated.
abbrev pub success : MetricPoint → Option ℕ
success point =
    if has_value_quality point.quality then map_or point.value none (λ v. some v.to_bits) else none

-- Whether a point of the series `k` showed the value `b`.
abbrev pub saw : DiscoveryKey → ℕ → List MetricPoint → Bool
saw k b points = any (λ p. key_of p == k && success p == some b) points

-- What a class says of the values that were seen.
abbrev pub Describes : Classification → (ℕ → Bool) → Type 0
Describes Classification.invalid seen = (b : ℕ) → seen b ≡ false
Describes Classification.valid_unchanging seen = (b : ℕ) × ((c : ℕ) → seen c ≡ (b == c))
Describes Classification.valid_changing seen =
    (b : ℕ) × (c : ℕ) × (b ≢ c) × (seen b ≡ true) × (seen c ≡ true)

abbrev values : DiscoveryKey → DiscoveryTracker → BTreeSet ℕ
values k tracker = map_or (get k tracker) [] (λ o. o.successful_values)

contains-note :
    (v : Option F64) (good : Bool) (b : ℕ) (o : Observation)
    → contains b (note v good o).successful_values ≡ (
        (if good then map_or v none (λ x. some x.to_bits) else none) == some b
        || contains b o.successful_values)
contains-note (some v) true b o = contains-insert v.to_bits b tt o.successful_values
contains-note (some v) false b o = refl
contains-note none true b o = refl
contains-note none false b o = refl

known_values :
    (o : Option Observation)
    → (unwrap_or o no_observation).successful_values ≡ map_or o [] (λ x. x.successful_values)
known_values none = refl
known_values (some o) = refl

values-observe_point :
    (tracker : DiscoveryTracker) (point : MetricPoint) (k : DiscoveryKey)
    → values k (observe_point tracker point) ≡ (
        if key_of point == k
        then (note point.value
            (has_value_quality point.quality)
            (unwrap_or (get k tracker) no_observation)).successful_values
        else values k tracker)
unfolding observe_point
values-observe_point tracker point k = rw get-insert (elim (Bool-cases (key_of point == k)) [
  | inl same ↦ rw (same, (eq_iff (key_of point) k).0 same) refl
  | inr other ↦ rw other refl
])

observe_point-values :
    (tracker : DiscoveryTracker) (point : MetricPoint) (k : DiscoveryKey) (b : ℕ)
    → contains b (values k (observe_point tracker point))
      ≡ ((key_of point == k && success point == some b) || contains b (values k tracker))
observe_point-values tracker point k b =
    rw (values-observe_point tracker point k) (elim (Bool-cases (key_of point == k)) [
      | inl same ↦ rw same (
          contains-note point.value (has_value_quality point.quality) b
            (unwrap_or (get k tracker) no_observation)
          ∙ ap (λ s. success point == some b || contains b s) (known_values (get k tracker)))
      | inr other ↦ rw other refl
    ])

observe-values :
    (tracker : DiscoveryTracker) (points : List MetricPoint) (k : DiscoveryKey) (b : ℕ)
    → contains b (values k (observe tracker points))
      ≡ (saw k b points || contains b (values k tracker))
unfolding observe
observe-values tracker [] k b = refl
observe-values tracker (p ∷ points) k b =
    ground (
      arith,
      observe-values (observe_point tracker p) points k b,
      observe_point-values tracker p k b,
    )

or_false : (b : Bool) → (b || false) ≡ b
or_false true = refl
or_false false = refl

or_false_get : (b : Bool) (k : DiscoveryKey) → (b || is_some (get {V = Observation} k [])) ≡ b
unfolding get
or_false_get b k = or_false b

known_step :
    (tracker : DiscoveryTracker) (p : MetricPoint) (k : DiscoveryKey)
    → is_some (get k (observe_point tracker p)) ≡ (key_of p == k || is_some (get k tracker))
unfolding observe_point
known_step tracker p k =
    rw get-insert
      (elim (Bool-cases (key_of p == k)) [ inl same ↦ rw same refl | inr other ↦ rw other refl ])

-- The sets of values are ordered.
abbrev HasSortedValues : DiscoveryTracker → Type 0
HasSortedValues tracker = (k : DiscoveryKey) → IsSorted (values k tracker)

note-IsSorted :
    (v : Option F64) (good : Bool) (o : Observation)
    → IsSorted o.successful_values
    → IsSorted (note v good o).successful_values
note-IsSorted (some v) true o s = insert-IsSorted v.to_bits tt o.successful_values s
note-IsSorted (some v) false o s = s
note-IsSorted none true o s = s
note-IsSorted none false o s = s

observe_point-HasSortedValues :
    (tracker : DiscoveryTracker) (point : MetricPoint)
    → HasSortedValues tracker
    → HasSortedValues (observe_point tracker point)
observe_point-HasSortedValues tracker point s k =
    rw (values-observe_point tracker point k) (elim (Bool-cases (key_of point == k)) [
      | inl same ↦ rw same (
          note-IsSorted point.value (has_value_quality point.quality) _
            (rw (known_values (get k tracker)) (s k)))
      | inr other ↦ rw other (s k)
    ])

observe-HasSortedValues :
    (tracker : DiscoveryTracker) (points : List MetricPoint)
    → HasSortedValues tracker
    → HasSortedValues (observe tracker points)
unfolding observe
observe-HasSortedValues tracker [] s = s
observe-HasSortedValues tracker (p ∷ points) s =
    observe-HasSortedValues (observe_point tracker p) points
      (observe_point-HasSortedValues tracker p s)

Describes-by_count :
    (s : BTreeSet ℕ) → IsSorted s → Describes (by_count (length s)) (λ b. contains b s)
unfolding contains
Describes-by_count [] sorted = λ b. refl
Describes-by_count ((b, _) ∷ []) sorted = (b, λ c. ground arith)
Describes-by_count ((b, _) ∷ (c, _) ∷ s) sorted = (b, c, ground arith, ground arith, ground arith)

Describes-ext :
    (c : Classification) (f g : ℕ → Bool) → ((b : ℕ) → f b ≡ g b) → Describes c f → Describes c g
Describes-ext c f g e = subst (Describes c) (fun_ext e)

class_of_values :
    (points : List MetricPoint) (k : DiscoveryKey) (o : Observation)
    → get k (observe [] points) ≡ some o
    → Describes (classification o) (λ b. saw k b points)
unfolding classification contains get
class_of_values points k o h =
    let held : values k (observe [] points) ≡ o.successful_values =
      ap (λ x. map_or x [] (λ y. y.successful_values)) h in
    let sorted = subst IsSorted held (observe-HasSortedValues [] points (λ j. tt) k) in
    let shown : (b : ℕ) → contains b o.successful_values ≡ saw k b points =
      λ b. ap (contains b) (sym held) ∙ observe-values [] points k b ∙ or_false (saw k b points) in
    Describes-ext (by_count (length o.successful_values)) _ (λ b. saw k b points) shown
      (Describes-by_count o.successful_values sorted)

known_after :
    (tracker : DiscoveryTracker) (points : List MetricPoint) (k : DiscoveryKey)
    → is_some (get k (observe tracker points))
      ≡ (any (λ p. key_of p == k) points || is_some (get k tracker))
unfolding observe
known_after tracker [] k = refl
known_after tracker (p ∷ points) k =
    ground (arith, known_after (observe_point tracker p) points k, known_step tracker p k)

-- What the entry of a series says of the points that were observed.
abbrev pub EntryDescribes : Option Observation → DiscoveryKey → List MetricPoint → Type 0
EntryDescribes none k points = any (λ p. key_of p == k) points ≡ false
EntryDescribes (some o) k points =
    (any (λ p. key_of p == k) points ≡ true) × Describes (classification o) (λ b. saw k b points)

-- After any observations a series has an entry exactly if a point of it was observed, and the class
-- of the entry says which values the points of the series have shown: `invalid` that none had a
-- value of quality measured, derived or estimated, `valid-unchanging` that there was one such value,
-- always the same, and `valid-changing` that two of them differed.
pub observe-EntryDescribes :
    (points : List MetricPoint) (k : DiscoveryKey)
    → EntryDescribes (get k (observe [] points)) k points
observe-EntryDescribes points k = described (get k (observe [] points)) refl
  where
    known : is_some (get k (observe [] points)) ≡ any (λ p. key_of p == k) points
    known = known_after [] points k ∙ or_false_get (any (λ p. key_of p == k) points) k

    described : (o : Option Observation) → get k (observe [] points) ≡ o → EntryDescribes o k points
    described none e = sym known ∙ ap is_some e
    described (some o) e = (sym known ∙ ap is_some e, class_of_values points k o e)
