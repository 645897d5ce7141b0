-- ===== src/Topology/Store/Preservation/Sweeping.antt =====
-- apps/topology/src/topology-store.ts: a sweep keeps the store well formed.
use modular_runtime.Shared.{ℕ, String, inl, inr, Option-cases, Bool-cases}
use modular_runtime.Shared.Dict.{keys, get}
use modular_runtime.Shared.Loops.{for_each-keeps}
use modular_runtime.Topology.Store.State.{TopologyStore}
use modular_runtime.Topology.Store.Sweep.{has_timed_out, sweep, sweep_service}
use modular_runtime.Topology.Store.EdgeRules.{sweep_edge-IsPointwise}
use modular_runtime.Topology.Store.WellFormed.{IsWellFormed}
use modular_runtime.Topology.Store.Preservation.Identity.{marks-IsSame}
use modular_runtime.Topology.Store.Preservation.Services.{put-IsWellFormed}
use modular_runtime.Topology.Store.Preservation.Removal.{remove_service-IsWellFormed}
use modular_runtime.Topology.Store.Preservation.Loops.{with_edges-IsWellFormed, sweep_rule-IsEdgeOk}

module _ {R : Type 0} where
  pub sweep_service-IsWellFormed :
      (now : ℕ) (id : String) (s : TopologyStore R)
      → IsWellFormed s
      → IsWellFormed (sweep_service now id s).0
  unfolding sweep_service
  sweep_service-IsWellFormed now id s w = elim (Option-cases (get id s.services)) [
    | inl e ↦ rw (e, sweep_service) w
    | inr (r, e) ↦ elim (Bool-cases (has_timed_out now r)) [
      | inl dead ↦ rw (e, sweep_service, dead) (remove_service-IsWellFormed id _ s w)
      | inr live ↦
          rw (e, sweep_service, live)
            (put-IsWellFormed id r _ s e (marks-IsSame s.settings now r) w)
    ]
  ]

  -- A sweep at any time, whatever it removes, keeps a well-formed store well formed.
  pub sweep-IsWellFormed :
      (now : ℕ) (s : TopologyStore R) → IsWellFormed s → IsWellFormed (sweep now s).0
  unfolding sweep
  sweep-IsWellFormed now s w =
      with_edges-IsWellFormed (sweep_edge-IsPointwise _ now _) _ (sweep_rule-IsEdgeOk _ now _) (
        for_each-keeps IsWellFormed (sweep_service now) (keys s.services) s
          (λ id t. sweep_service-IsWellFormed now id t) w)
