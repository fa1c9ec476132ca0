-- ===== src/Bridge/UnavailableLog/Conversion.antt =====
-- What a log record may hold: known names, and bounded texts.
use Prim.Native.String.{len}
use spark_signals.Prelude.{
  ℕ, ◌<◌, ◌^◌, ◌≡◌, refl, sym, String, Bool, true, not, ◌&&◌, ◌||◌, Option, none, some, List, [],
  ◌∷◌, map, any, all, keep, All, leb, arith, Bool-cases, inl, inr, Option-cases,
}
use spark_signals.Order.{◌==◌, text_ord, eq_iff, nat_ord}
use spark_signals.BTreeMap.{contains}
use spark_signals.Text.{is_empty}
use spark_signals.Schema.{
  MetricPoint, Envelope, Attributes, Quality, quality_ord, metric_catalogue_v1, metric_name_allowed,
  attribute_name_allowed, max_attribute_value_bytes,
}
use spark_signals.Bridge.UnavailableLog.Emitter.{
  capability_key, capability_key_ord, AnyValue, text, int, LogRecord, UnavailableLogEmitter,
  known_sources, source_allowed, safe_identifier, quality_name, code_allowed, error_code, as_i64,
  convertible, attribute_kept, log_attributes, with_code, convert, emit_log, emit,
}

-- The names that a record has of its own.
abbrev pub own_names : List String
own_names =
    "metric.name" ∷ "measurement.quality" ∷ "measurement.source" ∷ "error.code" ∷ "host.name"
    ∷ "host.id" ∷ "spark.site" ∷ "spark.node.id" ∷ "spark.signal.boot_id" ∷ "spark.signal.sequence"
    ∷ []

abbrev fits : String → Bool
fits value = not (is_empty value) && leb (len value) max_attribute_value_bytes

-- A known name with a text of 1 to 256 bytes or a number of 63 bits.
abbrev pub IsSafe : String × AnyValue → Type 0
IsSafe (name, text value) =
    ((any (λ k. k == name) own_names || attribute_name_allowed name) ≡ true) × (fits value ≡ true)
IsSafe (name, int value) =
    ((any (λ k. k == name) own_names || attribute_name_allowed name) ≡ true) × (value < 2 ^ 63)

-- A test that all known texts pass is passed by a text that is known.
known_passes :
    (test : String → Bool) (name : String) (known : List String)
    → all test known ≡ true
    → any (λ k. k == name) known ≡ true
    → test name ≡ true
known_passes test name [] a h = cc
known_passes test name (k ∷ known) a h = ground (arith, eq_iff k name, known_passes test name known)

metric_fits : (name : String) → metric_name_allowed name ≡ true → fits name ≡ true
unfolding metric_name_allowed
metric_fits name h = known_passes fits name metric_catalogue_v1 refl h

source_fits : (source : String) → source_allowed source ≡ true → fits source ≡ true
unfolding source_allowed
source_fits source h = known_passes fits source known_sources refl h

identifier_fits : (value : String) → safe_identifier value ≡ true → fits value ≡ true
unfolding safe_identifier
identifier_fits value h = ground arith

code_fits : (code : String) → code_allowed code ≡ true → fits code ≡ true
unfolding code_allowed
code_fits code h = ground arith

quality_fits : (quality : Quality) → fits (quality_name quality) ≡ true
quality_fits Quality.measured = refl
quality_fits Quality.derived = refl
quality_fits Quality.estimated = refl
quality_fits Quality.unsupported = refl
quality_fits Quality.error = refl
quality_fits Quality.stale = refl

kept-IsSafe : (m : Attributes) → All IsSafe (map (λ e. (e.0, text e.1)) (keep attribute_kept m))
kept-IsSafe [] = tt
kept-IsSafe (e ∷ m) = ground (arith, kept-IsSafe m)

sequence_fits : (n : ℕ) → as_i64 n < 2 ^ 63
sequence_fits n = ground arith

log_attributes-IsSafe :
    (envelope : Envelope) (point : MetricPoint) (code : String)
    → convertible envelope point ≡ true
    → code_allowed code ≡ true
    → All IsSafe (log_attributes envelope point code)
unfolding convertible
log_attributes-IsSafe envelope point code h c = (
  (refl, metric_fits point.name (ground arith)),
  (
    (refl, quality_fits point.quality),
    (
      (refl, source_fits point.source (ground arith)),
      (
        (refl, code_fits code c),
        (
          (refl, identifier_fits envelope.node.host_name (ground arith)),
          (
            (refl, identifier_fits envelope.node.id (ground arith)),
            (
              (refl, identifier_fits envelope.node.site (ground arith)),
              (
                (refl, identifier_fits envelope.node.id (ground arith)),
                (
                  (refl, identifier_fits envelope.boot_id (ground arith)),
                  ((refl, sequence_fits envelope.sequence), kept-IsSafe point.attributes),
                ),
              ),
            ),
          ),
        ),
      ),
    ),
  ),
)

error_code-allowed :
    (point : MetricPoint) (code : String) → error_code point ≡ some code → code_allowed code ≡ true
error_code-allowed point code h = elim (Option-cases point.error_code) [
  | inl p ↦ ground arith
  | inr (c, p) ↦ elim (Bool-cases (code_allowed c)) [
    | inl q ↦
        let e : some c ≡ some code = ground arith in let same : c ≡ code = cc in rw (sym same) q
    | inr q ↦ ground arith
  ]
]

abbrev pub AllSafe : List LogRecord → Type 0
AllSafe [] = Unit
AllSafe (log ∷ logs) = All IsSafe log.attributes × AllSafe logs

with_code-safe :
    (envelope : Envelope) (point : MetricPoint) (code : Option String)
    → convertible envelope point ≡ true
    → error_code point ≡ code
    → AllSafe (emit_log (with_code envelope point code))
with_code-safe envelope point none h e = tt
with_code-safe envelope point (some code) h e =
    (log_attributes-IsSafe envelope point code h (error_code-allowed point code e), tt)

pub convert-safe :
    (envelope : Envelope) (point : MetricPoint) → AllSafe (emit_log (convert envelope point))
unfolding convert
convert-safe envelope point = elim (Bool-cases (convertible envelope point)) [
  | inl h ↦ rw h (with_code-safe envelope point (error_code point) h refl)
  | inr h ↦ rw h tt
]

-- Whatever is in a point and its envelope, a record that is logged for it has only names of its own
-- or from the attribute catalogue, and only texts of 1 to 256 bytes and numbers of 63 bits.
pub emit-AllSafe :
    (emitter : UnavailableLogEmitter) (envelope : Envelope) (point : MetricPoint)
    → AllSafe (emit emitter envelope point).1
unfolding emit
emit-AllSafe emitter envelope point = elim (Bool-cases (point.quality == Quality.unsupported)) [
  | inl h ↦
      rw h (elim (Bool-cases (contains (capability_key point) emitter.unsupported_capabilities)) [
        | inl p ↦ rw p tt
        | inr p ↦ rw p (convert-safe envelope point)
      ])
  | inr h ↦ rw h (convert-safe envelope point)
]
