-- ===== src/Topology/Service/Watchers.antt =====
-- apps/topology/src/topology-service.ts with apps/dashboard/src/hooks/useTopologyStream.ts: what a watcher
-- of the service can reconstruct from the updates that were written to it.
use modular_runtime.Shared.{
  ℕ, String, some, List, [], ◌∷◌, ◌++◌, Bool, false, not, eqb, ◌≡◌, sym, ◌∙◌, arith, length,
  nil-of_length, elem, All, All-append, All-keep, inl, inr, Option-cases, Bool-cases,
}
use mathlib.Core.List.{append-nil, append_assoc}
use modular_runtime.Shared.Dict.{keys}
use modular_runtime.Topology.Types.{
  Number, TopologySnapshot, TopologyUpdate, UpdateType, RegisterServiceRequest, HeartbeatRequest,
  ReportActivityRequest,
}
use modular_runtime.Topology.Store.State.{TopologyStore, TopologyStoreOptions, new_store}
use modular_runtime.Topology.Store.WellFormed.{IsWellFormed, new_store-IsWellFormed}
use modular_runtime.Topology.Store.Preservation.{
  register_service-IsWellFormed, record_heartbeat-IsWellFormed, remove_service-IsWellFormed,
  sweep-IsWellFormed, record_activity-IsWellFormed, flush_activity-IsWellFormed,
}
use modular_runtime.Topology.Service.{
  Watcher, Service, write_all, deliver, broadcast, watch_topology, forget_watcher, register_handler,
  heartbeat_handler, unregister_handler, sweep_timer, activity_data, flush_timer,
}
use modular_runtime.Topology.Store.Services.{unregister_service}
use modular_runtime.Dashboard.{initial_snapshot, apply_updates}
use modular_runtime.Dashboard.Sync.{
  IsSynced, snapshot-IsSynced, apply_updates-append, apply_updates-nil,
}
use modular_runtime.Dashboard.Services.{register_service-IsSynced, record_heartbeat-IsSynced}
use modular_runtime.Dashboard.Removal.{remove_service-IsSynced}
use modular_runtime.Dashboard.Refinement.{
  sweep-IsSynced, flush_activity-IsSynced, record_activity-IsSynced,
}

module _ {R : Type 0} where
  -- The dashboard behind a watcher shows the store.
  abbrev pub IsCurrent : ℕ → TopologyStore R → Watcher R → Type 0
  IsCurrent t s w = IsSynced (apply_updates t initial_snapshot w.received) s

  pub record IsServing (t : ℕ) (v : Service R) : Type 0 where
    pub store_ok : IsWellFormed v.store
    pub current : All (IsCurrent t v.store) v.watchers

  write_all-received :
      (accepts : Watcher R → TopologyUpdate R → Bool) (w w' : Watcher R)
      (us : List (TopologyUpdate R))
      → write_all accepts w us ≡ some w'
      → w'.received ≡ w.received ++ us
  unfolding write_all
  write_all-received accepts w w' [] e =
      let same : w ≡ w' = ground arith in rw (← same) (sym (append-nil w.received))
  write_all-received accepts w w' (u ∷ us) e = elim (Bool-cases (accepts w u)) [
    | inl written ↦
        write_all-received accepts (record w { received = w.received ++ u ∷ [] }) w' us
          (ground arith)
        ∙ append_assoc w.received (u ∷ []) us
    | inr thrown ↦ cc (rw thrown at e)
  ]

  module _ (t : ℕ) (s s' : TopologyStore R) (us : List (TopologyUpdate R))
      (played : (snap : TopologySnapshot R)
        → IsSynced snap s
        → IsSynced (apply_updates t snap us) s') where
    deliver-IsCurrent :
        (accepts : Watcher R → TopologyUpdate R → Bool) (ws : List (Watcher R))
        → All (IsCurrent t s) ws
        → All (IsCurrent t s') (deliver accepts us ws)
    unfolding deliver
    deliver-IsCurrent accepts [] h = tt
    deliver-IsCurrent accepts (w ∷ ws) h = elim (Option-cases (write_all accepts w us)) [
      | inl e ↦ rw (e, deliver) (deliver-IsCurrent accepts ws h.1)
      | inr (w', e) ↦
          rw (e, deliver)
            (
              rw
                  (
                    write_all-received accepts w w' us e,
                    apply_updates-append t initial_snapshot w.received us,
                  )
                  (played (apply_updates t initial_snapshot w.received) h.0),
              deliver-IsCurrent accepts ws h.1,
            )
    ]

    unchanged : (ws : List (Watcher R)) → us ≡ [] → All (IsCurrent t s) ws → All (IsCurrent t s') ws
    unchanged [] e h = tt
    unchanged (w ∷ ws) e h =
        let now = played (apply_updates t initial_snapshot w.received) h.0 in
        (
          rw (e, apply_updates-nil t (apply_updates t initial_snapshot w.received)) at now,
          unchanged ws e h.1,
        )

    broadcast-IsCurrent :
        (accepts : Watcher R → TopologyUpdate R → Bool) (ws : List (Watcher R))
        → All (IsCurrent t s) ws
        → All (IsCurrent t s') (broadcast accepts us ws)
    unfolding broadcast
    broadcast-IsCurrent accepts ws h = elim (Bool-cases (eqb (length us) 0)) [
      | inl quiet ↦ rw (quiet, broadcast) (unchanged ws (nil-of_length us quiet) h)
      | inr loud ↦ rw (loud, broadcast) (deliver-IsCurrent accepts ws h)
    ]

-- What can happen to the service between two turns of the event loop. A registration is given an
-- identifier that no live service has.
pub data Step {R : Type 0} ⦃num : Number R⦄ : Service R → Service R → Type 0 where
  registers :
      (v : Service R) (accepts : Watcher R → TopologyUpdate R → Bool)
      (request : RegisterServiceRequest) (id : String) (now : ℕ)
      → elem id (keys v.store.services) ≡ false
      → Step v (register_handler accepts request id now v).0
  beats :
      (v : Service R) (accepts : Watcher R → TopologyUpdate R → Bool) (request : HeartbeatRequest)
      (now : ℕ)
      → Step v (heartbeat_handler accepts request now v).0
  reports :
      (v : Service R) (accepts : Watcher R → TopologyUpdate R → Bool)
      (event : ReportActivityRequest R) (now accepted_events : ℕ)
      → Step v (activity_data accepts event now (v, accepted_events)).0
  unregisters :
      (v : Service R) (accepts : Watcher R → TopologyUpdate R → Bool) (id : String)
      → Step v (unregister_handler accepts id v).0
  sweeps :
      (v : Service R) (accepts : Watcher R → TopologyUpdate R → Bool) (now : ℕ)
      → Step v (sweep_timer accepts now v)
  flushes :
      (v : Service R) (accepts : Watcher R → TopologyUpdate R → Bool) (now : ℕ)
      → Step v (flush_timer accepts now v)
  watches : (v : Service R) (call now : ℕ) → Step v (watch_topology call now v)
  leaves : (v : Service R) (call : ℕ) → Step v (forget_watcher call v)

pub data Reach {R : Type 0} ⦃num : Number R⦄ (v : Service R) : Service R → Type 0 where
  here : Reach v v
  next : {u w : Service R} → Reach v u → Step u w → Reach v w

module _ {R : Type 0} ⦃num : Number R⦄ (t : ℕ) where
  moved :
      (accepts : Watcher R → TopologyUpdate R → Bool) (v : Service R) (s' : TopologyStore R)
      (us : List (TopologyUpdate R))
      → IsServing t v
      → IsWellFormed s'
      → ((snap : TopologySnapshot R)
          → IsSynced snap v.store
          → IsSynced (apply_updates t snap us) s')
      → IsServing t (record { store = s'; watchers = broadcast accepts us v.watchers })
  moved accepts v s' us h w played = record {
    store_ok = w;
    current = broadcast-IsCurrent t v.store s' us played accepts v.watchers h.current;
  }

  Step-IsServing : {u v : Service R} → Step u v → IsServing t u → IsServing t v
  unfolding register_handler heartbeat_handler activity_data unregister_handler unregister_service
      sweep_timer flush_timer watch_topology forget_watcher
  Step-IsServing (registers v accepts request id now fresh) h =
      moved accepts v _ _ h (register_service-IsWellFormed request id now v.store fresh h.store_ok)
        λ snap k. register_service-IsSynced request id now t snap v.store h.store_ok k
  Step-IsServing (beats v accepts request now) h =
      moved accepts v _ _ h (record_heartbeat-IsWellFormed request now v.store h.store_ok)
        λ snap k. record_heartbeat-IsSynced t snap v.store h.store_ok k request now
  Step-IsServing (reports v accepts event now n) h =
      moved accepts v _ _ h (record_activity-IsWellFormed event now v.store h.store_ok)
        λ snap k. record_activity-IsSynced event now t snap v.store h.store_ok k
  Step-IsServing (unregisters v accepts id) h =
      moved accepts v _ _ h
        (remove_service-IsWellFormed id UpdateType.node_removed v.store h.store_ok)
        λ snap k. remove_service-IsSynced t snap v.store h.store_ok k id
  Step-IsServing (sweeps v accepts now) h =
      moved accepts v _ _ h (sweep-IsWellFormed now v.store h.store_ok)
        λ snap k. sweep-IsSynced now t snap v.store h.store_ok k
  Step-IsServing (flushes v accepts now) h =
      moved accepts v _ _ h (flush_activity-IsWellFormed now v.store h.store_ok)
        λ snap k. flush_activity-IsSynced now t snap v.store h.store_ok k
  Step-IsServing (watches v call now) h = record {
    store_ok = h.store_ok;
    current =
        All-append (IsCurrent t v.store) v.watchers _ h.current
          (snapshot-IsSynced t now v.store, tt);
  }
  Step-IsServing (leaves v call) h = record {
    store_ok = h.store_ok;
    current = All-keep (IsCurrent t v.store) (λ w. not (eqb w.call call)) v.watchers h.current;
  }

  Reach-IsServing : {u v : Service R} → IsServing t u → Reach u v → IsServing t v
  Reach-IsServing h here = h
  Reach-IsServing h (next r st) = Step-IsServing st (Reach-IsServing h r)

  -- From a new store, whatever calls, timers, watchers and failing writes come in whatever order:
  -- the store is well formed, and every watcher that is still connected, playing all that was
  -- written to it on an empty dashboard, shows the services and edges of the store in its order,
  -- up to the times that change without an update and the activity state of edges.
  pub run-IsServing :
      (options : TopologyStoreOptions) (start : ℕ) (v : Service R)
      → Reach (record { store = new_store options start; watchers = [] }) v
      → IsServing t v
  run-IsServing options start v r =
      Reach-IsServing (record { store_ok = new_store-IsWellFormed options start; current = tt }) r
