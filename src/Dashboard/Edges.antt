-- ===== src/Dashboard/Edges.antt =====
-- The updates that the store yields for its edges (apps/topology/src/topology-store.ts), played on the
-- dashboard (apps/dashboard/src/hooks/useTopologyStream.ts).
use modular_runtime.Shared.{
  ℕ, String, Option, some, List, ◌&&◌, ◌≡◌, refl, sym, ◌∙◌, IsUnique, All, inl, inr, Option-cases,
  Bool-cases, eqb, ltb, ◌-◌,
}
use modular_runtime.Shared.Dict.{Dict, keys, get, All-get}
use modular_runtime.Shared.Loops.{for_each, for_each-refines}
use modular_runtime.Shared.Pointwise.{IsPointwise, round-All}
use modular_runtime.Topology.Types.{
  Number, ServiceNode, TopologySnapshot, TopologyUpdate, ConnectionState,
}
use modular_runtime.Topology.Store.State.{EdgeRecord, Settings}
use modular_runtime.Topology.Store.Activity.{flush_edge, flush_record}
use modular_runtime.Topology.Store.Sweep.{sweep_edge, is_lost, is_active_edge}
use modular_runtime.Topology.Store.EdgeRules.{sweep_edge-IsPointwise, flush_edge-IsPointwise}
use modular_runtime.Topology.Store.WellFormed.{IsEdgeOk}
use modular_runtime.Topology.Store.Preservation.{
  sweep_rule-IsEdgeOk, flush_rule-IsEdgeOk, flush_record-IsEdgeOk,
}
use modular_runtime.Dashboard.{apply_update, apply_updates, upsert_edge, remove_edge as hide_edge}
use modular_runtime.Dashboard.Sync.{
  AreEdgesSynced, put_edge, drop_edge, apply_updates-append, apply_updates-nil,
}

module _ {R : Type 0} (live : List String) where
  -- The edges of the store are in order and shown; the nodes of the dashboard are `nodes`.
  pub record AreEdgesPlayed (nodes : List ServiceNode) (snap : TopologySnapshot R)
      (m : Dict (EdgeRecord R)) : Type 0 where
    pub unique : IsUnique (keys m)
    pub ok : All (IsEdgeOk live) m
    pub same_nodes : snap.nodes ≡ nodes
    pub edges : AreEdgesSynced snap.edges m

  -- A round that keeps the edges in order is played if the list of edges is.
  pub round-AreEdgesPlayed :
      {body : String → Dict (EdgeRecord R) → Dict (EdgeRecord R) × List (TopologyUpdate R)}
      {rule : EdgeRecord R → Option (EdgeRecord R)} (p : IsPointwise body rule) (t : ℕ)
      (nodes : List ServiceNode)
      → ((j : String) (e e' : EdgeRecord R)
          → IsEdgeOk live (j, e)
          → rule e ≡ some e'
          → IsEdgeOk live (j, e'))
      → ((k : String) (snap : TopologySnapshot R) (m : Dict (EdgeRecord R))
          → AreEdgesPlayed nodes snap m
          → ((apply_updates t snap (body k m).1).nodes ≡ snap.nodes)
            × AreEdgesSynced (apply_updates t snap (body k m).1).edges (body k m).0)
      → (ks : List String) (snap : TopologySnapshot R) (m : Dict (EdgeRecord R))
      → AreEdgesPlayed nodes snap m
      → AreEdgesPlayed nodes (apply_updates t snap (for_each body ks m).1) (for_each body ks m).0
  round-AreEdgesPlayed {body} p t nodes step shown ks snap m =
      for_each-refines (apply_updates t) (apply_updates-append t) (apply_updates-nil t)
        (AreEdgesPlayed nodes) body ks snap m
        λ k b n h.
          let (kept, edges) = shown k b n h in
          record {
            unique = p.keeps k n h.unique;
            ok = round-All p (IsEdgeOk live) k n h.unique step h.ok;
            same_nodes = kept ∙ h.same_nodes;
            edges = edges;
          }

  sweep_edge-shown :
      (cfg : Settings) (now t : ℕ) (known : List String) (nodes : List ServiceNode) (k : String)
      (snap : TopologySnapshot R) (m : Dict (EdgeRecord R))
      → AreEdgesPlayed nodes snap m
      → ((apply_updates t snap (sweep_edge cfg now known k m).1).nodes ≡ snap.nodes)
        × AreEdgesSynced
            (apply_updates t snap (sweep_edge cfg now known k m).1).edges
            (sweep_edge cfg now known k m).0
  unfolding sweep_edge apply_updates apply_update upsert_edge hide_edge
  sweep_edge-shown cfg now t known nodes k snap m h = elim (Option-cases (get k m)) [
    | inl e ↦ rw (e, sweep_edge) (refl, h.edges)
    | inr (r, e) ↦
        let ok = All-get (IsEdgeOk live) k m r h.ok e in
        elim (Bool-cases (is_lost cfg now known r)) [
          | inl lost ↦
              rw (e, sweep_edge, lost)
                (refl, drop_edge k r.edge live snap.edges m h.ok h.unique (sym ok.key) h.edges)
          | inr kept ↦
              elim (Bool-cases (
                is_active_edge r.edge.state
                && ltb cfg.idle_timeout_ms (now - r.last_activity_ms))) [
                  | inl quiet ↦
                      rw (e, sweep_edge, kept, quiet)
                        (
                          refl,
                          put_edge k
                              (record r { edge = record r.edge { state = ConnectionState.idle } })
                              (record r.edge { state = ConnectionState.idle }) live snap.edges m
                              h.ok h.unique refl (sym ok.key) h.edges,
                        )
                  | inr busy ↦ rw (e, sweep_edge, kept, busy) (refl, h.edges)
                ]
        ]
  ]

  pub sweep_edges-AreEdgesPlayed :
      (cfg : Settings) (now t : ℕ) (known : List String) (nodes : List ServiceNode)
      (snap : TopologySnapshot R) (m : Dict (EdgeRecord R))
      → AreEdgesPlayed nodes snap m
      → AreEdgesPlayed nodes
          (apply_updates t snap (for_each (sweep_edge cfg now known) (keys m) m).1)
          (for_each (sweep_edge cfg now known) (keys m) m).0
  sweep_edges-AreEdgesPlayed cfg now t known nodes snap m =
      round-AreEdgesPlayed (sweep_edge-IsPointwise cfg now known) t nodes
        (sweep_rule-IsEdgeOk cfg now known live) (sweep_edge-shown cfg now t known nodes) (keys m)
        snap m

module _ {R : Type 0} ⦃num : Number R⦄ (live : List String) where
  flush_edge-shown :
      (cfg : Settings) (now t : ℕ) (secs : R) (nodes : List ServiceNode) (k : String)
      (snap : TopologySnapshot R) (m : Dict (EdgeRecord R))
      → AreEdgesPlayed live nodes snap m
      → ((apply_updates t snap (flush_edge cfg now secs k m).1).nodes ≡ snap.nodes)
        × AreEdgesSynced
            (apply_updates t snap (flush_edge cfg now secs k m).1).edges
            (flush_edge cfg now secs k m).0
  unfolding flush_edge apply_updates apply_update upsert_edge
  flush_edge-shown cfg now t secs nodes k snap m h = elim (Option-cases (get k m)) [
    | inl e ↦ rw (e, flush_edge) (refl, h.edges)
    | inr (r, e) ↦
        let ok = All-get (IsEdgeOk live) k m r h.ok e in
        elim (Bool-cases (eqb r.pending_count 0)) [
          | inl none_pending ↦ rw (e, flush_edge, none_pending) (refl, h.edges)
          | inr pending ↦
              rw (e, flush_edge, pending)
                (
                  refl,
                  put_edge k (flush_record cfg now secs r) (flush_record cfg now secs r).edge live
                      snap.edges m h.ok h.unique refl
                      (sym (flush_record-IsEdgeOk cfg now secs live k r ok).key) h.edges,
                )
        ]
  ]

  pub flush_edges-AreEdgesPlayed :
      (cfg : Settings) (now t : ℕ) (secs : R) (nodes : List ServiceNode) (snap : TopologySnapshot R)
      (m : Dict (EdgeRecord R))
      → AreEdgesPlayed live nodes snap m
      → AreEdgesPlayed live nodes
          (apply_updates t snap (for_each (flush_edge cfg now secs) (keys m) m).1)
          (for_each (flush_edge cfg now secs) (keys m) m).0
  flush_edges-AreEdgesPlayed cfg now t secs nodes snap m =
      round-AreEdgesPlayed live (flush_edge-IsPointwise cfg now secs) t nodes
        (flush_rule-IsEdgeOk cfg now secs live) (flush_edge-shown cfg now t secs nodes) (keys m)
        snap m
