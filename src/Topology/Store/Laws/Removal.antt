-- ===== src/Topology/Store/Laws/Removal.antt =====
-- apps/topology/src/topology-store.ts: what `removeService` and `unregisterService` leave.
use modular_runtime.Shared.{String, some, none, ◌==◌, ◌≡◌, if◌then◌else◌}
use modular_runtime.Shared.Dict.{get, get-delete}
use modular_runtime.Shared.Pointwise.{then_apply, for_each-get}
use modular_runtime.Topology.Store.State.{ServiceRecord, TopologyStore, build_service_keys}
use modular_runtime.Topology.Store.Services.{remove_service, remove_record, unregister_service}
use modular_runtime.Topology.Store.EdgeRules.{remove_rule, remove_edge-IsPointwise, touches}
use modular_runtime.Topology.Store.WellFormed.{IsWellFormed}

module _ {R : Type 0} where
  -- Unregistering a known service of a well-formed store removes it and no other service, and
  -- keeps exactly the edges, unchanged, that neither start at the service nor target one of its names.
  pub unregister_service_known :
      (id : String) (s : TopologyStore R) (r : ServiceRecord)
      → IsWellFormed s
      → get id s.services ≡ some r
      → ((j : String)
          → get j (unregister_service id s).0.services
            ≡ (if id == j then none else get j s.services))
        × ((k : String)
            → get k (unregister_service id s).0.edges
              ≡ then_apply
                  (λ e. if touches id (build_service_keys r.node) e then none else some e)
                  (get k s.edges))
  unfolding unregister_service remove_service remove_record remove_rule
  unregister_service_known id s r w e = (
    λ j. rw (e, remove_service) (get-delete id j s.services w.services_unique),
    λ k.
        rw (e, remove_service)
          (for_each-get (remove_edge-IsPointwise id (build_service_keys r.node)) s.edges k
            w.edges_unique),
  )
