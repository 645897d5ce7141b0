-- ===== src/Topology/Store/Preservation/Removal.antt =====
-- apps/topology/src/topology-store.ts: removals keep the store well formed.
use modular_runtime.Shared.{
  String, some, List, ◌≡◌, arith, inl, inr, Option-cases, IsUnique, eq_iff,
}
use modular_runtime.Shared.Dict.{
  Dict, keys, get, delete, get-delete, delete-IsUnique, elem_of_get, get_of_elem, All-delete,
  All-get,
}
use modular_runtime.Shared.Pointwise.{IsPointwise, for_each-IsUnique, All-of_get, for_each-All}
use modular_runtime.Topology.Types.{UpdateType}
use modular_runtime.Topology.Store.State.{
  ServiceRecord, EdgeRecord, TopologyStore, build_service_keys,
}
use modular_runtime.Topology.Store.Services.{remove_service, remove_record, remove_edge}
use modular_runtime.Topology.Store.EdgeRules.{remove_rule, remove_edge-IsPointwise}
use modular_runtime.Topology.Store.WellFormed.{IsEdgeOk, IsNamed, IsIndexed, IsWellFormed}

module _ {R : Type 0} where
  remove_rule-IsEdgeOk :
      (id : String) (ks : List String) (m : Dict ServiceRecord) (j : String) (e e' : EdgeRecord R)
      → IsUnique (keys m)
      → IsEdgeOk (keys m) (j, e)
      → remove_rule id ks e ≡ some e'
      → IsEdgeOk (keys (delete id m)) (j, e')
  unfolding remove_rule
  remove_rule-IsEdgeOk id ks m j e e' u ok h =
      let (r, at) = get_of_elem e.edge.source_service_id m ok.source in
      let same : e ≡ e' = ground arith in
      rw (← same) (record {
        key = ok.key;
        source = elem_of_get e.edge.source_service_id (delete id m) r (
            ground (
              arith,
              get-delete id e.edge.source_service_id m u,
              eq_iff e.edge.source_service_id id,
              eq_iff id e.edge.source_service_id,
            ));
        counted = ok.counted;
      })

  -- Removal of a service that is there.
  remove_record-IsWellFormed :
      (id : String) (type : UpdateType) (r : ServiceRecord) (s : TopologyStore R)
      → get id s.services ≡ some r
      → IsWellFormed s
      → IsWellFormed (remove_record id type r s).0
  unfolding remove_record
  remove_record-IsWellFormed id type r s found w = record {
    services_unique = delete-IsUnique id s.services w.services_unique;
    services_named = All-delete IsNamed id s.services w.services_named;
    edges_unique = for_each-IsUnique loop (keys s.edges) s.edges w.edges_unique;
    edges_ok =
        for_each-All loop (IsEdgeOk (keys s.services)) (IsEdgeOk (keys (delete id s.services)))
          s.edges w.edges_unique
          (λ j e e'. remove_rule-IsEdgeOk id service_keys s.services j e e' w.services_unique)
          w.edges_ok;
    index_unique = delete-IsUnique r.node.service_name s.service_name_index w.index_unique;
    indexed =
        All-of_get (IsIndexed (delete id s.services))
          (delete r.node.service_name s.service_name_index)
          (delete-IsUnique r.node.service_name s.service_name_index w.index_unique) still;
  }
    where
      service_keys : List String
      service_keys = build_service_keys r.node

      loop :
          IsPointwise
            (remove_edge {R = R} id (build_service_keys r.node))
            (remove_rule id service_keys)
      loop = remove_edge-IsPointwise id service_keys

      still :
          (n i : String)
          → get n (delete r.node.service_name s.service_name_index) ≡ some i
          → IsIndexed (delete id s.services) (n, i)
      still n i e =
          let name = r.node.service_name in
          let deleted = get-delete name n s.service_name_index w.index_unique in
          let before : get n s.service_name_index ≡ some i = ground (arith, deleted) in
          let (q, at, has_name) =
            All-get (IsIndexed s.services) n s.service_name_index i w.indexed before in
          (
            q,
            ground (
              arith,
              deleted,
              get-delete id i s.services w.services_unique,
              eq_iff id i,
              eq_iff name n,
            ),
            has_name,
          )

  -- Removing a service, known or not, keeps a well-formed store well formed.
  pub remove_service-IsWellFormed :
      (id : String) (type : UpdateType) (s : TopologyStore R)
      → IsWellFormed s
      → IsWellFormed (remove_service id type s).0
  unfolding remove_service
  remove_service-IsWellFormed id type s w = elim (Option-cases (get id s.services)) [
    | inl e ↦ rw (e, remove_service) w
    | inr (r, e) ↦ rw (e, remove_service) (remove_record-IsWellFormed id type r s e w)
  ]
