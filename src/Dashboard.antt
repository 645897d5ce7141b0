-- ===== src/Dashboard.antt =====
-- apps/dashboard/src/hooks/useTopologyStream.ts: the snapshot that the dashboard keeps by applying
-- the updates of the stream. `now` is the reading of the clock for `timestampMs`.
pub mod Upsert
pub mod Sync
pub mod Services
pub mod Edges
pub mod Removal
pub mod Refinement
pub mod Stream
use modular_runtime.Shared.{
  ℕ, String, Option, some, none, List, [], ◌∷◌, ◌++◌, map, Bool, true, false, not, ◌&&◌, ◌||◌, ◌==◌,
  ◌≡◌, refl, if◌then◌else◌, any, keep,
}
use modular_runtime.Topology.Types.{
  ServiceNode, ServiceEdge, TopologySnapshot, TopologyUpdate, UpdateType,
}
use modular_runtime.Topology.Store.State.{key_of}
use Upsert.{upsert}

module _ {R : Type 0} where
  unfoldable pub initial_snapshot : TopologySnapshot R
  initial_snapshot = record { nodes = []; edges = []; timestamp_ms = 0 }

  unfoldable pub remove_node : ℕ → TopologySnapshot R → ServiceNode → TopologySnapshot R
  remove_node now snap node = record {
    nodes = keep (λ item. not (item.service_id == node.service_id)) snap.nodes;
    edges =
        keep
          (λ edge.
            not (edge.source_service_id == node.service_id)
            && not (edge.target_service == node.service_name))
          snap.edges;
    timestamp_ms = now;
  }

  unfoldable pub upsert_node : ℕ → TopologySnapshot R → ServiceNode → TopologySnapshot R
  upsert_node now snap node = record {
    nodes = upsert (λ item. item.service_id == node.service_id) node snap.nodes;
    edges = snap.edges;
    timestamp_ms = now;
  }

  unfoldable pub remove_edge : ℕ → TopologySnapshot R → ServiceEdge R → TopologySnapshot R
  remove_edge now snap edge = record {
    nodes = snap.nodes;
    edges = keep (λ item. not (key_of item == key_of edge)) snap.edges;
    timestamp_ms = now;
  }

  unfoldable pub upsert_edge : ℕ → TopologySnapshot R → ServiceEdge R → TopologySnapshot R
  upsert_edge now snap edge = record {
    nodes = snap.nodes;
    edges = upsert (λ item. key_of item == key_of edge) edge snap.edges;
    timestamp_ms = now;
  }

  -- The part of `applyUpdate` from `if (update.edge)` on.
  unfoldable pub apply_edge :
      ℕ → TopologySnapshot R → UpdateType → Option (ServiceEdge R) → TopologySnapshot R
  apply_edge now snap UpdateType.edge_removed (some edge) = remove_edge now snap edge
  apply_edge now snap UpdateType.edge_added (some edge) = upsert_edge now snap edge
  apply_edge now snap UpdateType.edge_updated (some edge) = upsert_edge now snap edge
  apply_edge now snap _ _ = snap

  -- The part from `if (update.node)` on.
  unfoldable pub apply_node :
      ℕ
      → TopologySnapshot R
      → UpdateType
      → Option ServiceNode
      → Option (ServiceEdge R)
      → TopologySnapshot R
  unfolding apply_edge
  apply_node now snap UpdateType.node_removed (some node) edge = remove_node now snap node
  apply_node now snap UpdateType.node_added (some node) edge = upsert_node now snap node
  apply_node now snap UpdateType.node_updated (some node) edge = upsert_node now snap node
  apply_node now snap type _ edge = apply_edge now snap type edge

  unfoldable pub apply_snapshot :
      ℕ
      → TopologySnapshot R
      → UpdateType
      → Option (TopologySnapshot R)
      → TopologyUpdate R
      → TopologySnapshot R
  unfolding apply_node
  apply_snapshot now snap UpdateType.snapshot (some whole) update = whole
  apply_snapshot now snap type _ update = apply_node now snap type update.node update.edge

  unfoldable pub apply_update : ℕ → TopologySnapshot R → TopologyUpdate R → TopologySnapshot R
  unfolding apply_snapshot
  apply_update now snap update = apply_snapshot now snap update.type update.snapshot update

  -- The updates of the stream in order.
  unfoldable pub apply_updates :
      ℕ → TopologySnapshot R → List (TopologyUpdate R) → TopologySnapshot R
  apply_updates now snap [] = snap
  apply_updates now snap (u ∷ us) = apply_updates now (apply_update now snap u) us
