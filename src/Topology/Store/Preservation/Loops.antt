-- ===== src/Topology/Store/Preservation/Loops.antt =====
-- apps/topology/src/topology-store.ts: the loops of the sweep and of the flush over the edges keep the store well formed.
use modular_runtime.Shared.{ℕ, String, Option, some, List, ◌≡◌, arith}
use modular_runtime.Shared.Dict.{Dict, keys}
use modular_runtime.Shared.Loops.{for_each}
use modular_runtime.Shared.Pointwise.{IsPointwise, for_each-IsUnique, for_each-All}
use modular_runtime.Topology.Types.{TopologyUpdate}
use modular_runtime.Topology.Store.State.{EdgeRecord, Settings, TopologyStore}
use modular_runtime.Topology.Store.EdgeRules.{sweep_rule}
use modular_runtime.Topology.Store.WellFormed.{IsEdgeOk, IsWellFormed}

module _ {R : Type 0} where
  -- The loop over the edges keeps them in order if its rule does so for one edge.
  pub with_edges-IsWellFormed :
      {body : String → Dict (EdgeRecord R) → Dict (EdgeRecord R) × List (TopologyUpdate R)}
      {rule : EdgeRecord R → Option (EdgeRecord R)} (p : IsPointwise body rule)
      (s : TopologyStore R)
      → ((live : List String) (j : String) (e e' : EdgeRecord R)
          → IsEdgeOk live (j, e)
          → rule e ≡ some e'
          → IsEdgeOk live (j, e'))
      → IsWellFormed s
      → IsWellFormed (record s { edges = (for_each body (keys s.edges) s.edges).0 })
  with_edges-IsWellFormed p s step w = record {
    services_unique = w.services_unique;
    services_named = w.services_named;
    edges_unique = for_each-IsUnique p (keys s.edges) s.edges w.edges_unique;
    edges_ok =
        for_each-All p (IsEdgeOk (keys s.services)) (IsEdgeOk (keys s.services)) s.edges
          w.edges_unique (step (keys s.services)) w.edges_ok;
    index_unique = w.index_unique;
    indexed = w.indexed;
  }

  pub sweep_rule-IsEdgeOk :
      (cfg : Settings) (now : ℕ) (known live : List String) (j : String) (e e' : EdgeRecord R)
      → IsEdgeOk live (j, e)
      → sweep_rule cfg now known e ≡ some e'
      → IsEdgeOk live (j, e')
  unfolding sweep_rule
  sweep_rule-IsEdgeOk cfg now known live j e e' ok h = ground arith
