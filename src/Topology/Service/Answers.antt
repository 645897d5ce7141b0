-- ===== src/Topology/Service/Answers.antt =====
-- apps/topology/src/topology-service.ts: what the handlers answer about known and unknown services.
use modular_runtime.Shared.{
  ℕ, ◌+◌, String, none, List, [], Bool, true, false, ◌≡◌, refl, sym, ap, ◌∙◌, arith, elem, inl, inr,
  Option-cases, eq_refl,
}
use modular_runtime.Shared.Dict.{keys, get, elem_of_get, not_elem_of_get, get_of_not_elem}
use modular_runtime.Topology.Types.{Number, TopologyUpdate, HeartbeatRequest, ReportActivityRequest}
use modular_runtime.Topology.Store.Services.{
  unregister_service, remove_service, remove_record, record_heartbeat,
}
use modular_runtime.Topology.Store.Activity.{record_activity, batch_size_of}
use modular_runtime.Topology.Store.WellFormed.{IsWellFormed}
use modular_runtime.Topology.Store.Laws.Removal.{unregister_service_known}
use modular_runtime.Topology.Service.{
  Watcher, Service, broadcast, heartbeat_handler, unregister_handler, activity_data,
}

module _ {R : Type 0} where
  broadcast_nothing :
      (accepts : Watcher R → TopologyUpdate R → Bool) (ws : List (Watcher R))
      → broadcast accepts [] ws ≡ ws
  unfolding broadcast
  broadcast_nothing accepts ws = refl

  unregister_unknown :
      (accepts : Watcher R → TopologyUpdate R → Bool) (id : String) (v : Service R)
      → get id v.store.services ≡ none
      → unregister_handler accepts id v ≡ (v, false)
  unfolding unregister_handler unregister_service remove_service broadcast
  unregister_unknown accepts id v e = rw (e, remove_service) refl

  unregister_handler_gone :
      (accepts : Watcher R → TopologyUpdate R → Bool) (id : String) (v : Service R)
      → IsWellFormed v.store
      → get id (unregister_handler accepts id v).0.store.services ≡ none
  unfolding unregister_handler unregister_service remove_service
  unregister_handler_gone accepts id v w = elim (Option-cases (get id v.store.services)) [
    | inl e ↦ rw (e, remove_service) e
    | inr (r, e) ↦ (unregister_service_known id v.store r w e).0 id ∙ rw (eq_refl id) refl
  ]

  unregister_handler_known :
      (accepts : Watcher R → TopologyUpdate R → Bool) (id : String) (v : Service R)
      → (unregister_handler accepts id v).1 ≡ elem id (keys v.store.services)
  unfolding unregister_handler unregister_service remove_service remove_record
  unregister_handler_known accepts id v = elim (Option-cases (get id v.store.services)) [
    | inl e ↦
        ap (λ p. p.1) (unregister_unknown accepts id v e)
        ∙ sym (not_elem_of_get id v.store.services e)
    | inr (r, e) ↦ rw (e, remove_service, elem_of_get id v.store.services r e) (ground arith)
  ]

  -- For a well-formed store: unregistering answers whether the service was known, and doing it again
  -- changes nothing and answers false.
  pub unregister_handler_answers :
      (accepts : Watcher R → TopologyUpdate R → Bool) (id : String) (v : Service R)
      → IsWellFormed v.store
      → ((unregister_handler accepts id v).1 ≡ elem id (keys v.store.services))
        × (unregister_handler accepts id (unregister_handler accepts id v).0
            ≡ ((unregister_handler accepts id v).0, false))
  unregister_handler_answers accepts id v w = (
    unregister_handler_known accepts id v,
    unregister_unknown accepts id (unregister_handler accepts id v).0
        (unregister_handler_gone accepts id v w),
  )

module _ {R : Type 0} ⦃num : Number R⦄ where
  -- For an identifier that no service has, a heartbeat, an activity event and an unregistration
  -- leave the service and its watchers as they are; the heartbeat is still acknowledged, the event
  -- still counts as accepted, and the unregistration answers false.
  pub unknown_service :
      (accepts : Watcher R → TopologyUpdate R → Bool) (v : Service R) (now accepted_events : ℕ)
      (request : HeartbeatRequest) (event : ReportActivityRequest R)
      → elem request.service_id (keys v.store.services) ≡ false
      → event.service_id ≡ request.service_id
      → (heartbeat_handler accepts request now v ≡ (v, (request.sequence, true)))
        × (activity_data accepts event now (v, accepted_events)
            ≡ (v, accepted_events + batch_size_of event.batch_size))
        × (unregister_handler accepts request.service_id v ≡ (v, false))
  unfolding heartbeat_handler activity_data record_heartbeat record_activity broadcast
  unknown_service accepts v now accepted_events request event missing same =
      let e = get_of_not_elem request.service_id v.store.services missing in
      (
        rw (e, record_heartbeat) refl,
        rw (same, e, record_activity) refl,
        unregister_unknown accepts request.service_id v e,
      )
