-- ===== src/Topology/Store/Preservation/Services.antt =====
-- apps/topology/src/topology-store.ts: heartbeats and registrations keep the store well formed.
use modular_runtime.Shared.{
  ℕ, String, some, false, ◌≡◌, refl, ◌∙◌, arith, elem, inl, inr, Option-cases, eq_iff, eq_refl,
}
use modular_runtime.Shared.Dict.{
  keys, get, set, elem-keys-set, get-set, set-IsUnique, get_of_not_elem, All-set, All-map,
}
use modular_runtime.Topology.Types.{RegisterServiceRequest, HeartbeatRequest}
use modular_runtime.Topology.Store.State.{ServiceRecord, EdgeRecord, TopologyStore}
use modular_runtime.Topology.Store.Services.{
  register_service, record_heartbeat, heartbeat_record, new_record, new_node,
}
use modular_runtime.Topology.Store.WellFormed.{
  IsEdgeOk, IsNamed, IsIndexed, IsWellFormed, put_service-IsWellFormed,
}
use modular_runtime.Topology.Store.Preservation.Identity.{
  IsSameService, heartbeat_record-IsSame, emit-IsSame,
}

module _ {R : Type 0} where
  pub put-IsWellFormed :
      (id : String) (r r' : ServiceRecord) (s : TopologyStore R)
      → get id s.services ≡ some r
      → IsSameService r r'
      → IsWellFormed s
      → IsWellFormed (record s { services = set id r' s.services })
  put-IsWellFormed id r r' s found same w =
      put_service-IsWellFormed id r r' s found same.id same.name w

  -- A heartbeat, of a known or an unknown service, keeps a well-formed store well formed.
  pub record_heartbeat-IsWellFormed :
      (request : HeartbeatRequest) (now : ℕ) (s : TopologyStore R)
      → IsWellFormed s
      → IsWellFormed (record_heartbeat request now s).0
  unfolding record_heartbeat
  record_heartbeat-IsWellFormed request now s w =
      elim (Option-cases (get request.service_id s.services)) [
        | inl e ↦ rw (e, record_heartbeat) w
        | inr (r, e) ↦
            let beaten = heartbeat_record-IsSame request.health now r in
            let emitted =
              emit-IsSame R s.settings (heartbeat_record request.health now r).1
                (heartbeat_record request.health now r).0 now in
            rw (e, record_heartbeat)
              (put-IsWellFormed request.service_id r _ s e
                (record { id = emitted.id ∙ beaten.id; name = emitted.name ∙ beaten.name }) w)
      ]

  -- A registration under an identifier that no service has keeps a well-formed store well formed.
  pub register_service-IsWellFormed :
      (request : RegisterServiceRequest) (id : String) (now : ℕ) (s : TopologyStore R)
      → elem id (keys s.services) ≡ false
      → IsWellFormed s
      → IsWellFormed (register_service request id now s).0
  unfolding register_service new_record new_node
  register_service-IsWellFormed request id now s fresh w = record {
    services_unique = set-IsUnique id r s.services w.services_unique;
    services_named = All-set IsNamed id r s.services refl w.services_named;
    edges_unique = w.edges_unique;
    edges_ok =
        All-map (IsEdgeOk (keys s.services)) (IsEdgeOk (keys (set id r s.services))) s.edges lives
          w.edges_ok;
    index_unique = set-IsUnique request.service_name id s.service_name_index w.index_unique;
    indexed =
        All-set (IsIndexed (set id r s.services)) request.service_name id s.service_name_index
          (r, rw (get-set id id r s.services) (rw (eq_refl id)), refl)
          (All-map (IsIndexed s.services) (IsIndexed (set id r s.services)) s.service_name_index
            still w.indexed);
  }
    where
      r : ServiceRecord
      r = new_record s.settings request id now

      lives :
          (e : String × EdgeRecord R)
          → IsEdgeOk (keys s.services) e
          → IsEdgeOk (keys (set id r s.services)) e
      lives e ok = record {
        key = ok.key;
        source =
            ground (arith, elem-keys-set id e.1.edge.source_service_id r s.services, ok.source);
        counted = ok.counted;
      }

      still : (e : String × String) → IsIndexed s.services e → IsIndexed (set id r s.services) e
      still e (q, at, has_name) = (
        q,
        ground (
          arith,
          get-set id e.1 r s.services,
          get_of_not_elem id s.services fresh,
          eq_iff id e.1,
        ),
        has_name,
      )
