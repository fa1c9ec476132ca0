-- ===== src/Bridge/Instruments/Named.antt =====
-- The registries: what an instrument is called, and that it lasts.
use spark_signals.Prelude.{String, ◌≡◌, refl, sym, some, arith, Bool-cases, Option-cases, inl, inr}
use spark_signals.Order.{◌==◌, eq_iff, eq_refl, text_ord}
use spark_signals.BTreeMap.{get, insert, get-insert}
use spark_signals.Schema.{MetricPoint}
use spark_signals.Bridge.Instruments.Recorder.{Instrument, Registry, built_from, instrument_for}

-- Each instrument is registered under its name.
abbrev pub IsNamed : Registry → Type 0
IsNamed registry = (name : String) (i : Instrument) → get name registry ≡ some i → i.name ≡ name

-- The instrument for a point has its name, stays registered, and displaces no other.
pub record Serves (registry : Registry) (point : MetricPoint) (next : Registry) (i : Instrument)
    : Type 0 where
  pub name : i.name ≡ point.name
  pub registered : get point.name next ≡ some i
  pub lasting :
      (name : String) (j : Instrument) → get name registry ≡ some j → get name next ≡ some j
  pub named : IsNamed next

IsNamed-insert :
    (registry : Registry) (point : MetricPoint)
    → IsNamed registry
    → IsNamed (insert point.name (built_from point) registry)
IsNamed-insert registry point n name j e = elim (Bool-cases (point.name == name)) [
  | inl same ↦
      let found : some (built_from point) ≡ some j =
        ground (arith, get-insert point.name name (built_from point) registry) in
      let built : built_from point ≡ j = cc in rw (sym built) ((eq_iff point.name name).0 same)
  | inr other ↦ n name j (ground (arith, get-insert point.name name (built_from point) registry))
]

pub Serves-instrument_for :
    (registry : Registry) (point : MetricPoint)
    → IsNamed registry
    → Serves registry point (instrument_for registry point).0 (instrument_for registry point).1
unfolding instrument_for
Serves-instrument_for registry point n = elim (Option-cases (get point.name registry)) [
  | inl h ↦ rw h (record {
    name = refl;
    registered = rw get-insert (rw (eq_refl point.name) refl);
    lasting = λ name j e.
        ground
          (arith, get-insert point.name name (built_from point) registry, eq_iff point.name name);
    named = IsNamed-insert registry point n;
  })
  | inr (i, h) ↦
      rw h (record { name = n point.name i h; registered = h; lasting = λ name j e. e; named = n })
]
