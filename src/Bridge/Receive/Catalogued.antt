-- ===== src/Bridge/Receive/Catalogued.antt =====
-- Where each effect of the receive loop comes from, whatever the payloads.
use mathlib.Core.List.{Memᴰ}
use spark_signals.Prelude.{ℕ, unwrap_or, String, ◌≡◌, Option, List, All, ok}
use spark_signals.Order.{text_ord}
use spark_signals.Schema.{
  MetricPoint, Envelope, Attributes, metric_batch, inventory, agent_status, health_event, Severity,
  decode_v1,
}
use spark_signals.Schema.Validity.{IsBounded, Reason}
use spark_signals.Bridge.Instruments.{Instruments}
use spark_signals.Bridge.Receive.Measured.{IsCatalogued}
use spark_signals.Bridge.Receive.Loop.{
  Effect, export, health, inventory_received, status_received, discarded,
}

module _ (from_slice : List ℕ → Option Envelope) (to_string : Attributes → Option String) where
  -- Attributes as the bridge shows them.
  abbrev shown : Attributes → String
  shown attributes = unwrap_or (to_string attributes) ""

  -- What a payload is, and what an effect tells of it.
  abbrev pub IsFrom : List ℕ → Effect → Type 0
  IsFrom payload (export e) =
      ((envelope : Envelope) × (points : List MetricPoint) × (decode_v1 from_slice payload
          ≡ ok envelope)
        × (envelope.signal ≡ metric_batch points))
      × IsCatalogued e
  IsFrom payload (health entry) =
      (envelope : Envelope) × (severity : Severity) × (attributes : Attributes) × (decode_v1
          from_slice payload
        ≡ ok envelope)
      × (envelope.signal ≡ health_event severity entry.code entry.message attributes)
      × IsBounded attributes
      × (entry.attributes ≡ shown attributes)
      × (entry.node_id ≡ envelope.node.id)
      × (entry.sequence ≡ envelope.sequence)
  IsFrom payload (inventory_received host_name node_id text) =
      (envelope : Envelope) × (attributes : Attributes) × (decode_v1 from_slice payload
        ≡ ok envelope)
      × (envelope.signal ≡ inventory attributes)
      × (host_name ≡ envelope.node.host_name)
      × (node_id ≡ envelope.node.id)
      × (text ≡ shown attributes)
  IsFrom payload (status_received host_name node_id online version) =
      (envelope : Envelope) × (decode_v1 from_slice payload ≡ ok envelope)
      × (envelope.signal ≡ agent_status online version)
      × (host_name ≡ envelope.node.host_name)
      × (node_id ≡ envelope.node.id)
  IsFrom payload (discarded reason) = Reason (from_slice payload) payload reason

  -- Each effect comes from one of the payloads.
  abbrev pub AllFrom : List (List ℕ) → List Effect → Type 0
  AllFrom payloads effects =
      All (λ effect. (payload : List ℕ) × Memᴰ payload payloads × IsFrom payload effect) effects
