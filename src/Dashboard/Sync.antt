-- ===== src/Dashboard/Sync.antt =====
-- The dashboard's snapshot (apps/dashboard/src/hooks/useTopologyStream.ts) against the store
-- (apps/topology/src/topology-store.ts): when the one is in step with the other.
use modular_runtime.Shared.{
  ℕ, String, some, none, List, [], ◌∷◌, ◌++◌, map, not, ◌==◌, ◌≡◌, refl, sym, keep, All, IsUnique,
}
use mathlib.Core.List.{map-map}
use modular_runtime.Shared.Dict.{Dict, keys, values, set, delete, All-map}
use modular_runtime.Topology.Types.{
  ServiceNode, ServiceEdge, ConnectionState, TopologySnapshot, TopologyUpdate, UpdateType,
}
use modular_runtime.Topology.Store.State.{
  ServiceRecord, EdgeRecord, TopologyStore, key_of, snapshot,
}
use modular_runtime.Topology.Store.WellFormed.{IsNamed, IsEdgeOk}
use modular_runtime.Dashboard.{initial_snapshot, apply_update, apply_updates}
use modular_runtime.Dashboard.Upsert.{upsert, upsert_synced, drop_synced}

-- A node without the times that heartbeats and activity change silently between two updates.
abbrev pub shown_node : ServiceNode → ServiceNode
shown_node n = record n { last_heartbeat_ms = 0; last_activity_ms = 0 }

-- An edge without its state and time, which activity changes silently until the next flush.
abbrev pub shown_edge : {R : Type 0} → ServiceEdge R → ServiceEdge R
shown_edge e = record e { state = ConnectionState.unspecified; last_activity_ms = 0 }

abbrev pub AreNodesSynced : List ServiceNode → Dict ServiceRecord → Type 0
AreNodesSynced nodes m = map shown_node nodes ≡ map (λ r. shown_node r.node) (values m)

abbrev pub AreEdgesSynced : {R : Type 0} → List (ServiceEdge R) → Dict (EdgeRecord R) → Type 0
AreEdgesSynced edges m = map shown_edge edges ≡ map (λ e. shown_edge e.edge) (values m)

pub put_node :
    (id : String) (r : ServiceRecord) (nodes : List ServiceNode) (m : Dict ServiceRecord)
    → All IsNamed m
    → IsUnique (keys m)
    → r.node.service_id ≡ id
    → AreNodesSynced nodes m
    → AreNodesSynced
        (upsert (λ item. item.service_id == r.node.service_id) r.node nodes)
        (set id r m)
put_node id r nodes m h u same synced =
    upsert_synced shown_node (λ (r : ServiceRecord). shown_node r.node) (λ n. n.service_id) r.node
      nodes id r m (All-map IsNamed (λ e. e.0 ≡ e.1.node.service_id) m (λ a p. sym p) h) u refl same
      synced

pub drop_node :
    (id : String) (r : ServiceRecord) (nodes : List ServiceNode) (m : Dict ServiceRecord)
    → All IsNamed m
    → IsUnique (keys m)
    → r.node.service_id ≡ id
    → AreNodesSynced nodes m
    → AreNodesSynced (keep (λ item. not (item.service_id == r.node.service_id)) nodes) (delete id m)
drop_node id r nodes m h u same synced =
    drop_synced shown_node (λ (r : ServiceRecord). shown_node r.node) (λ n. n.service_id) r.node
      nodes id m (All-map IsNamed (λ e. e.0 ≡ e.1.node.service_id) m (λ a p. sym p) h) u same synced

module _ {R : Type 0} where
  pub put_edge :
      (k : String) (e : EdgeRecord R) (shown : ServiceEdge R) (live : List String)
      (edges : List (ServiceEdge R)) (m : Dict (EdgeRecord R))
      → All (IsEdgeOk live) m
      → IsUnique (keys m)
      → shown_edge shown ≡ shown_edge e.edge
      → key_of shown ≡ k
      → AreEdgesSynced edges m
      → AreEdgesSynced (upsert (λ item. key_of item == key_of shown) shown edges) (set k e m)
  put_edge k e shown live edges m h u same at synced =
      upsert_synced shown_edge (λ (e : EdgeRecord R). shown_edge e.edge) key_of shown edges k e m
        (All-map (IsEdgeOk live) (λ e. e.0 ≡ key_of e.1.edge) m (λ a p. p.key) h) u same at synced

  pub drop_edge :
      (k : String) (e : ServiceEdge R) (live : List String) (edges : List (ServiceEdge R))
      (m : Dict (EdgeRecord R))
      → All (IsEdgeOk live) m
      → IsUnique (keys m)
      → key_of e ≡ k
      → AreEdgesSynced edges m
      → AreEdgesSynced (keep (λ item. not (key_of item == key_of e)) edges) (delete k m)
  drop_edge k e live edges m h u at synced =
      drop_synced shown_edge (λ (e : EdgeRecord R). shown_edge e.edge) key_of e edges k m
        (All-map (IsEdgeOk live) (λ e. e.0 ≡ key_of e.1.edge) m (λ a p. p.key) h) u at synced

  -- The dashboard lists the nodes and edges of the store, in the same order.
  pub record IsSynced (snap : TopologySnapshot R) (s : TopologyStore R) : Type 0 where
    pub nodes : AreNodesSynced snap.nodes s.services
    pub edges : AreEdgesSynced snap.edges s.edges

  pub apply_updates-append :
      (now : ℕ) (snap : TopologySnapshot R) (us vs : List (TopologyUpdate R))
      → apply_updates now snap (us ++ vs) ≡ apply_updates now (apply_updates now snap us) vs
  unfolding apply_updates
  apply_updates-append now snap [] vs = refl
  apply_updates-append now snap (u ∷ us) vs =
      apply_updates-append now (apply_update now snap u) us vs

  pub apply_updates-nil : (now : ℕ) (snap : TopologySnapshot R) → apply_updates now snap [] ≡ snap
  unfolding apply_updates
  apply_updates-nil now snap = refl

  -- A dashboard that starts with the snapshot of the store shows the store.
  pub snapshot-IsSynced :
      (t now : ℕ) (s : TopologyStore R)
      → IsSynced
          (apply_updates t initial_snapshot (
            record {
              type = UpdateType.snapshot;
              node = none;
              edge = none;
              snapshot = some (snapshot s now);
            }
            ∷ []))
          s
  unfolding apply_updates apply_update snapshot
  snapshot-IsSynced t now s = record {
    nodes = map-map shown_node (λ (r : ServiceRecord). r.node) (values s.services);
    edges = map-map shown_edge (λ (e : EdgeRecord R). e.edge) (values s.edges);
  }
