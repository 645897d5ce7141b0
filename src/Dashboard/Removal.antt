-- ===== src/Dashboard/Removal.antt =====
-- The removal of a service (apps/topology/src/topology-store.ts, `removeService`), played on the
-- dashboard (apps/dashboard/src/hooks/useTopologyStream.ts). `removeNode` drops edges of its own
-- accord, by the id and the name of the service; the updates for the edges drop the rest.
use modular_runtime.Shared.{
  ℕ, String, some, List, [], ◌∷◌, map, Bool, true, not, ◌&&◌, ◌||◌, ◌==◌, ◌≡◌, refl, sym, ◌∙◌, ap,
  arith, keep, elem, IsUnique, All, inl, inr, Option-cases, Bool-cases, eq_iff,
}
use modular_runtime.Shared.Dict.{
  Dict, keys, values, get, delete, All-get, All-map, All-delete, delete-IsUnique,
}
use modular_runtime.Shared.Loops.{for_each, for_each-refines}
use modular_runtime.Shared.Pointwise.{for_each-All}
use modular_runtime.Topology.Types.{ServiceNode, ServiceEdge, TopologySnapshot, UpdateType}
use modular_runtime.Topology.Store.State.{
  ServiceRecord, EdgeRecord, TopologyStore, key_of, build_service_keys,
}
use modular_runtime.Topology.Store.Services.{remove_edge, remove_record, remove_service}
use modular_runtime.Topology.Store.EdgeRules.{remove_rule, remove_edge-IsPointwise}
use modular_runtime.Topology.Store.WellFormed.{IsEdgeOk, IsNamed, IsWellFormed}
use modular_runtime.Topology.Store.TargetKeys.{service_name-elem}
use modular_runtime.Dashboard.{apply_update, apply_updates, remove_node, remove_edge as hide_edge}
use modular_runtime.Dashboard.Upsert.{keep_comm, map-keep, map-values-delete}
use modular_runtime.Dashboard.Sync.{
  shown_node, shown_edge, AreNodesSynced, AreEdgesSynced, IsSynced, drop_node, apply_updates-append,
  apply_updates-nil,
}

module _ {R : Type 0} (id name : String) where
  -- What `removeNode` leaves of the edges.
  abbrev stays : ServiceEdge R → Bool
  stays b = not (b.source_service_id == id) && not (b.target_service == name)

  record IsHalfRemoved (live : List String) (nodes : List ServiceNode) (snap : TopologySnapshot R)
      (m : Dict (EdgeRecord R)) : Type 0 where
    unique : IsUnique (keys m)
    ok : All (IsEdgeOk live) m
    same_nodes : snap.nodes ≡ nodes
    edges : map shown_edge snap.edges ≡ keep stays (map (λ e. shown_edge e.edge) (values m))

  keep-values :
      (m : Dict (EdgeRecord R))
      → All (λ e. stays e.1.edge ≡ true) m
      → keep stays (map (λ e. shown_edge e.edge) (values m))
        ≡ map (λ e. shown_edge e.edge) (values m)
  keep-values [] h = refl
  keep-values ((k, e) ∷ m) h = ground (arith, h.0, keep-values m h.1)

  hidden :
      (live : List String) (k : String) (r : EdgeRecord R) (snap : TopologySnapshot R)
      (m : Dict (EdgeRecord R))
      → IsEdgeOk live (k, r)
      → IsUnique (keys m)
      → All (IsEdgeOk live) m
      → map shown_edge snap.edges ≡ keep stays (map (λ e. shown_edge e.edge) (values m))
      → map shown_edge (keep (λ item. not (key_of item == key_of r.edge)) snap.edges)
        ≡ keep stays (map (λ e. shown_edge e.edge) (values (delete k m)))
  hidden live k r snap m ok u all h =
      map-keep shown_edge (λ item. not (key_of item == key_of r.edge))
        (λ item. not (key_of item == key_of r.edge)) (λ a. refl) snap.edges
      ∙ rw (h, keep_comm (λ item. not (key_of item == key_of r.edge)) stays, ← ok.key)
          (ap (keep stays) (
            sym (
              map-values-delete (λ (e : EdgeRecord R). shown_edge e.edge) key_of k m
                (All-map (IsEdgeOk live) (λ e. e.0 ≡ key_of e.1.edge) m (λ a p. p.key) all) u)))

  remove_rule-stays :
      (service_keys : List String) (e e' : EdgeRecord R)
      → elem name service_keys ≡ true
      → remove_rule id service_keys e ≡ some e'
      → stays e'.edge ≡ true
  unfolding remove_rule
  remove_rule-stays service_keys e e' named kept = ground (arith, eq_iff e.edge.target_service name)

  module _ (service_keys : List String) where
    remove_edge-IsHalfRemoved :
        (live : List String) (nodes : List ServiceNode) (t : ℕ) (k : String)
        (snap : TopologySnapshot R) (m : Dict (EdgeRecord R))
        → IsHalfRemoved live nodes snap m
        → IsHalfRemoved live nodes
            (apply_updates t snap (remove_edge id service_keys k m).1)
            (remove_edge id service_keys k m).0
    unfolding remove_edge apply_updates apply_update hide_edge
    remove_edge-IsHalfRemoved live nodes t k snap m h = elim (Option-cases (get k m)) [
      | inl e ↦ rw (e, remove_edge) h
      | inr (r, e) ↦
          elim (Bool-cases
            (r.edge.source_service_id == id || elem r.edge.target_service service_keys)) [
              | inl gone ↦
                  rw (e, remove_edge, gone)
                    (record {
                      unique = delete-IsUnique k m h.unique;
                      ok = All-delete (IsEdgeOk live) k m h.ok;
                      same_nodes = h.same_nodes;
                      edges =
                          hidden live k r snap m (All-get (IsEdgeOk live) k m r h.ok e) h.unique
                            h.ok h.edges;
                    })
              | inr kept ↦ rw (e, remove_edge, kept) h
            ]
    ]

    -- The loop of `removeService`, played on what `removeNode` has left.
    remove_edges-shown :
        (live : List String) (nodes : List ServiceNode) (t : ℕ) (snap : TopologySnapshot R)
        (m : Dict (EdgeRecord R))
        → elem name service_keys ≡ true
        → IsHalfRemoved live nodes snap m
        → let (m', us) = for_each (remove_edge id service_keys) (keys m) m in
          ((apply_updates t snap us).nodes ≡ nodes)
          × AreEdgesSynced (apply_updates t snap us).edges m'
    remove_edges-shown live nodes t snap m named h = (
      played.same_nodes,
      played.edges
          ∙ keep-values _ (
              for_each-All (remove_edge-IsPointwise id service_keys) (IsEdgeOk live)
                (λ e. stays e.1.edge ≡ true) m h.unique left h.ok),
    )
      where
        played :
            IsHalfRemoved live nodes
              (apply_updates t snap (for_each (remove_edge id service_keys) (keys m) m).1)
              (for_each (remove_edge id service_keys) (keys m) m).0
        played =
            for_each-refines (apply_updates t) (apply_updates-append t) (apply_updates-nil t)
              (IsHalfRemoved live nodes) (remove_edge id service_keys) (keys m) snap m
              (λ k b n. remove_edge-IsHalfRemoved live nodes t k b n) h

        left :
            (j : String) (e e' : EdgeRecord R)
            → IsEdgeOk live (j, e)
            → remove_rule id service_keys e ≡ some e'
            → stays e'.edge ≡ true
        left j e e' ok kept = remove_rule-stays service_keys e e' named kept

module _ {R : Type 0} (t : ℕ) (snap : TopologySnapshot R) (s : TopologyStore R) (w : IsWellFormed s)
    (h : IsSynced snap s) where
  remove_node-IsHalfRemoved :
      (id : String) (r : ServiceRecord)
      → r.node.service_id ≡ id
      → IsHalfRemoved id r.node.service_name
          (keys s.services)
          (remove_node t snap r.node).nodes
          (remove_node t snap r.node)
          s.edges
  unfolding remove_node
  remove_node-IsHalfRemoved id r same = record {
    unique = w.edges_unique;
    ok = w.edges_ok;
    same_nodes = refl;
    edges =
        map-keep shown_edge (stays r.node.service_id r.node.service_name)
          (stays r.node.service_id r.node.service_name) (λ a. refl) snap.edges
        ∙ rw (h.edges, same);
  }

  dropped :
      (id : String) (r : ServiceRecord)
      → r.node.service_id ≡ id
      → AreNodesSynced (remove_node t snap r.node).nodes (delete id s.services)
  unfolding remove_node
  dropped id r same =
      drop_node id r snap.nodes s.services w.services_named w.services_unique same h.nodes

  remove_record-IsSynced :
      (id : String) (r : ServiceRecord)
      → r.node.service_id ≡ id
      → IsSynced
          (apply_updates t snap (remove_record id UpdateType.node_removed r s).1)
          (remove_record id UpdateType.node_removed r s).0
  unfolding remove_record apply_updates apply_update
  remove_record-IsSynced id r same =
      let (nodes, edges) =
        remove_edges-shown id r.node.service_name (build_service_keys r.node) (keys s.services)
          (remove_node t snap r.node).nodes t (remove_node t snap r.node) s.edges
          (service_name-elem r.node) (remove_node-IsHalfRemoved id r same) in
      record { nodes = ap (map shown_node) nodes ∙ dropped id r same; edges = edges }

  -- A dashboard in step with a well-formed store is in step with the store after the removal of a
  -- service, known or not, once it has applied the updates of the removal.
  pub remove_service-IsSynced :
      (id : String)
      → IsSynced
          (apply_updates t snap (remove_service id UpdateType.node_removed s).1)
          (remove_service id UpdateType.node_removed s).0
  unfolding remove_service
  remove_service-IsSynced id = elim (Option-cases (get id s.services)) [
    | inl e ↦ rw (e, remove_service) (rw (apply_updates-nil t snap) h)
    | inr (r, e) ↦
        rw (e, remove_service)
          (remove_record-IsSynced id r (All-get IsNamed id s.services r w.services_named e))
  ]
