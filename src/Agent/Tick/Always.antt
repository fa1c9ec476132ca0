-- ===== src/Agent/Tick/Always.antt =====
-- That a tick returns, whatever the collectors yield.
use spark_signals.Prelude.{
  ℕ, ◌+◌, ◌-◌, ◌^◌, min, String, ◌≡◌, refl, Bool, true, false, ◌||◌, Option, none, some, List, [],
  ◌∷◌, ◌++◌, ok, ltb, if◌then◌else◌,
}
use spark_signals.Schema.{MetricPoint, metric_name_allowed}
use spark_signals.Schema.Point.{gauge}
use spark_signals.Points.{attributed}
use spark_signals.Agent.Ages as Ages
use spark_signals.Agent.Publish.{from_secs}
use spark_signals.Agent.Tick.State.{Setting, Agent}
use spark_signals.Agent.Tick.Samples.{
  Inputs, Samples, age, storage_sample, agent_points, all_or_panicked, error_count, collected,
  discover, discover_all,
}
use spark_signals.Agent.Tick.Loop.{
  Cadence, medium_due, slow_due, interval, three_times, detect_all, publish_storage,
  publish_samples, medium_sample, medium_cycle, slow_cycle, tick, Reloaded, reload_agent, LoopEvent,
  ticked, signalled, run_loop,
}
use spark_signals.Agent.Tick.Numbering.{IsTotal, IsNumbered}
use spark_signals.Agent.Tick.Progress.{
  Returns, Returns-and_then, Returns-branch, report_reconnects-Returns, publish_inventory-Returns,
  report_inventory-Returns, report_xids-Returns, report_degraded-Returns, report_services-Returns,
  detect_events-Returns, publish_sample-Returns,
}

module _ (s : Setting) (total : IsTotal s) where
  age-Returns :
      (inputs : Inputs) (domain : String) (points : List MetricPoint) (agent : Agent s)
      → IsNumbered s agent
      → Returns (λ r. IsNumbered s r.0) (age s inputs domain points agent)
  unfolding age Ages.observe attributed gauge metric_name_allowed
  age-Returns inputs domain points agent n = (_, refl, n)

  storage_sample-Returns :
      (inputs : Inputs) (medium : Bool) (points : List MetricPoint) (agent : Agent s)
      → IsNumbered s agent
      → Returns (λ r. IsNumbered s r.0) (storage_sample s inputs medium points agent)
  unfolding storage_sample
  storage_sample-Returns inputs false points agent n = ((agent, points), refl, n)
  storage_sample-Returns inputs true points agent n =
      Returns-and_then (λ r. IsNumbered s r.0) (λ r. IsNumbered s r.0) _ _
        (age-Returns inputs "storage" points agent n) (λ r m. ((r.0, points ++ r.1 ∷ []), refl, m))

  agent_points_made :
      (elapsed errors reconnects dropped : ℕ)
      → (points : List MetricPoint) × (all_or_panicked
            (agent_points elapsed errors reconnects dropped)
          ≡ ok points)
  unfolding agent_points gauge metric_name_allowed
  agent_points_made elapsed errors reconnects dropped = (_, refl)

  collected-Returns :
      (inputs : Inputs) (medium : Bool) (storage : List MetricPoint) (agent : Agent s)
      → IsNumbered s agent
      → Returns (λ r. IsNumbered s r.0) (collected s inputs medium storage agent)
  unfolding collected
  collected-Returns inputs medium storage agent n =
      let (a, a_made, a_numbered) = age-Returns inputs "system" inputs.system agent n in
      let (b, b_made, b_numbered) = age-Returns inputs "network" inputs.network a.0 a_numbered in
      let (c, c_made, c_numbered) = storage_sample-Returns inputs medium storage b.0 b_numbered in
      let (d, d_made, d_numbered) = age-Returns inputs "nvidia" inputs.nvidia c.0 c_numbered in
      let (own, own_made) =
        agent_points_made inputs.elapsed (error_count inputs storage) inputs.reconnects_later
          agent.outbox.dropped in
      let samples : Samples = record {
        system = inputs.system ++ own ++ a.1 ∷ [];
        network = inputs.network ++ b.1 ∷ [];
        storage = c.1;
        nvidia = inputs.nvidia ++ d.1 ∷ [];
      } in
      ((d.0, samples), rw (a_made, b_made, c_made, d_made, own_made) refl, d_numbered)

  detect_all-Returns :
      (inputs : Inputs) (medium : Bool) (storage : List MetricPoint) (agent : Agent s)
      → IsNumbered s agent
      → Returns (IsNumbered s) (detect_all s inputs medium storage agent)
  unfolding detect_all
  detect_all-Returns inputs medium storage agent n =
      let (a, a_made, a_numbered) = detect_events-Returns s total inputs.system agent n in
      let (b, b_made, b_numbered) = detect_events-Returns s total inputs.network a a_numbered in
      let (c, c_made, c_numbered) =
        Returns-branch (IsNumbered s) medium _ _
          (detect_events-Returns s total storage b b_numbered) (b, refl, b_numbered) in
      (c, rw (a_made, b_made) c_made, c_numbered)

  publish_samples-Returns :
      (cadence : Cadence) (medium : Bool) (samples : Samples) (duration : ℕ) (agent : Agent s)
      → IsNumbered s agent
      → Returns (IsNumbered s) (publish_samples s cadence medium samples duration agent)
  unfolding publish_samples publish_storage
  publish_samples-Returns cadence medium samples duration agent n =
      let valid_for = three_times (interval cadence) in
      let (a, a_made, a_numbered) =
        publish_sample-Returns s total "sample.system" samples.system duration valid_for agent n in
      let (b, b_made, b_numbered) =
        publish_sample-Returns s total "sample.network" samples.network duration valid_for a
          a_numbered in
      let (c, c_made, c_numbered) =
        Returns-branch (IsNumbered s) medium _ _
          (publish_sample-Returns s total "sample.storage" samples.storage duration
            (three_times (from_secs cadence.medium_interval_seconds)) b b_numbered)
          (b, refl, b_numbered) in
      let (d, d_made, d_numbered) =
        publish_sample-Returns s total "sample.nvidia" samples.nvidia duration valid_for c
          c_numbered in
      (d, rw (a_made, b_made, c_made) d_made, d_numbered)

  medium_sample-Returns :
      (inputs : Inputs) (domain suffix : String) (points : List MetricPoint) (duration : ℕ)
      (agent : Agent s)
      → IsNumbered s agent
      → Returns (IsNumbered s) (medium_sample s inputs domain suffix points duration agent)
  unfolding medium_sample discover
  medium_sample-Returns inputs domain suffix points duration agent n =
      let (a, a_made, a_numbered) = age-Returns inputs domain points agent n in
      let sample = points ++ a.1 ∷ [] in
      let (b, b_made, b_numbered) =
        publish_sample-Returns s total suffix sample duration (from_secs 30) (discover s sample a.0)
          a_numbered in
      (b, rw a_made b_made, b_numbered)

  medium_cycle-Returns :
      (inputs : Inputs) (agent : Agent s)
      → IsNumbered s agent
      → Returns (IsNumbered s) (medium_cycle s inputs agent)
  unfolding medium_cycle
  medium_cycle-Returns inputs agent n =
      let (a, a_made, a_numbered) = report_services-Returns s total inputs.service agent n in
      let (b, b_made, b_numbered) =
        medium_sample-Returns inputs "service" "sample.service" inputs.service 0 a a_numbered in
      let (c, c_made, c_numbered) =
        medium_sample-Returns inputs "llm" "sample.llm" inputs.llm inputs.llm_elapsed b
          b_numbered in
      (c, rw (a_made, b_made) c_made, c_numbered)

  slow_cycle-Returns :
      (cadence : Cadence) (count : ℕ) (inputs : Inputs) (agent : Agent s)
      → IsNumbered s agent
      → Returns (IsNumbered s) (slow_cycle s cadence count inputs agent)
  unfolding slow_cycle
  slow_cycle-Returns cadence count inputs agent n =
      Returns-branch (IsNumbered s) (slow_due cadence count) _ _
        (publish_inventory-Returns s total inputs.host_inventory_later inputs.nvidia_inventory_later
          agent n)
        (agent, refl, n)

  tick-Returns :
      (cadence : Cadence) (inputs : Inputs) (agent : Agent s)
      → IsNumbered s agent
      → Returns (IsNumbered s) (tick s cadence inputs agent)
  unfolding tick discover_all discover
  tick-Returns cadence inputs agent n =
      let count = min (agent.tick_count + 1) (2 ^ 64 - 1) in
      let medium = medium_due cadence count in
      let storage = if medium then inputs.storage else [] in
      let counted = record agent { tick_count = count } in
      let (a, a_made, a_numbered) = report_reconnects-Returns s total inputs.reconnects counted n in
      let (b, b_made, b_numbered) =
        report_inventory-Returns s total inputs.host_inventory inputs.nvidia_inventory a
          a_numbered in
      let (c, c_made, c_numbered) = report_xids-Returns s total inputs.nvidia b b_numbered in
      let (d, d_made, d_numbered) = detect_all-Returns inputs medium storage c c_numbered in
      let (e, e_made, e_numbered) = collected-Returns inputs medium storage d d_numbered in
      let (f, f_made, f_numbered) =
        publish_samples-Returns cadence medium e.1 inputs.duration (discover_all s e.1 e.0)
          e_numbered in
      let (g, g_made, g_numbered) =
        report_degraded-Returns s total (ltb 0 (error_count inputs storage)) f f_numbered in
      let (h, h_made, h_numbered) =
        Returns-branch (IsNumbered s) (cadence.once || medium) _ _
          (medium_cycle-Returns inputs g g_numbered) (g, refl, g_numbered) in
      let (last, last_made, last_numbered) = slow_cycle-Returns cadence count inputs h h_numbered in
      (
        last,
        rw (a_made, b_made, c_made, d_made, e_made, f_made, g_made, h_made) last_made,
        last_numbered,
      )

  reload_agent-Returns :
      (loaded : Option (Reloaded s)) (agent : Agent s)
      → IsNumbered s agent
      → Returns (IsNumbered s) (reload_agent s loaded agent)
  unfolding reload_agent
  reload_agent-Returns none agent n = (agent, refl, n)
  reload_agent-Returns (some next) agent n =
      publish_inventory-Returns s total next.host_inventory next.nvidia_inventory
        (record agent { emitter = next.emitter; last_nvidia_inventory = next.nvidia_inventory }) n

  -- If JSON encodes every envelope, the loop goes on through any ticks and reloads, whatever the
  -- collectors, clocks and other tasks yield: no constructor of a point panics. The publications stay
  -- in order: each stands at its own subject, the events wait in the order of their numbers, and no
  -- number is above that of the factory, which fits in 64 bits.
  pub run_loop-Returns :
      (cadence : Cadence) (events : List (LoopEvent s)) (agent : Agent s)
      → IsNumbered s agent
      → Returns (IsNumbered s) (run_loop s cadence events agent)
  unfolding run_loop
  run_loop-Returns cadence [] agent n = (agent, refl, n)
  run_loop-Returns cadence (ticked inputs ∷ events) agent n =
      Returns-and_then (IsNumbered s) (IsNumbered s) (tick s cadence inputs agent) _
        (tick-Returns cadence inputs agent n) (λ next m. run_loop-Returns cadence events next m)
  run_loop-Returns cadence (signalled loaded ∷ events) agent n =
      Returns-and_then (IsNumbered s) (IsNumbered s) (reload_agent s loaded agent) _
        (reload_agent-Returns loaded agent n) (λ next m. run_loop-Returns cadence events next m)
