-- ===== src/Topology/Service.antt =====
-- apps/topology/src/topology-service.ts: the handlers of the topology service and its two timers over
-- the store, and the broadcast to the watchers. A watcher is its identity and what has been written
-- to it; `accepts` says which writes of the stream do not throw. The gRPC server, its binding and
-- its shutdown are left out.
pub mod Watchers
pub mod Answers
use modular_runtime.Shared.{
  ℕ, ◌+◌, String, Option, some, none, List, [], ◌∷◌, ◌++◌, Bool, true, false, not, eqb, ltb,
  if◌then◌else◌, length, keep,
}
use modular_runtime.Topology.Types.{
  Number, TopologySnapshot, TopologyUpdate, UpdateType, RegisterServiceRequest, ServiceHandle,
  HeartbeatRequest, ReportActivityRequest,
}
use modular_runtime.Topology.Store.State.{TopologyStore, snapshot}
use modular_runtime.Topology.Store.Services.{register_service, unregister_service, record_heartbeat}
use modular_runtime.Topology.Store.Activity.{record_activity, flush_activity, batch_size_of}
use modular_runtime.Topology.Store.Sweep.{sweep}

pub record Watcher (R : Type 0) : Type 0 where
  pub call : ℕ
  pub received : List (TopologyUpdate R)

pub record Service (R : Type 0) : Type 0 where
  pub store : TopologyStore R
  pub watchers : List (Watcher R)

module _ {R : Type 0} where
  -- The inner loop of `broadcast`; `none` means that a write threw and the watcher was deleted.
  unfoldable pub write_all :
      (Watcher R → TopologyUpdate R → Bool)
      → Watcher R
      → List (TopologyUpdate R)
      → Option (Watcher R)
  write_all accepts w [] = some w
  write_all accepts w (u ∷ us) =
      let rest = write_all accepts (record w { received = w.received ++ u ∷ [] }) us in
      if accepts w u then rest else none

  unfoldable pub deliver :
      (Watcher R → TopologyUpdate R → Bool)
      → List (TopologyUpdate R)
      → List (Watcher R)
      → List (Watcher R)
  deliver accepts us [] = []
  deliver accepts us (w ∷ ws) = elim (write_all accepts w us) [
    | none ↦ deliver accepts us ws
    | some w' ↦ w' ∷ deliver accepts us ws
  ]

  unfoldable pub broadcast :
      (Watcher R → TopologyUpdate R → Bool)
      → List (TopologyUpdate R)
      → List (Watcher R)
      → List (Watcher R)
  broadcast accepts us ws = if eqb (length us) 0 then ws else deliver accepts us ws

  -- `watchTopology`: the watcher joins and is sent the snapshot, outside any `try`.
  unfoldable pub watch_topology : ℕ → ℕ → Service R → Service R
  watch_topology call now v =
      let update : TopologyUpdate R = record {
        type = UpdateType.snapshot;
        node = none;
        edge = none;
        snapshot = some (snapshot v.store now);
      } in
      record v { watchers = v.watchers ++ record { call = call; received = update ∷ [] } ∷ [] }

  -- The stream is cancelled, fails or closes.
  unfoldable pub forget_watcher : ℕ → Service R → Service R
  forget_watcher call v = record v { watchers = keep (λ w. not (eqb w.call call)) v.watchers }

  unfoldable pub get_topology : ℕ → Service R → TopologySnapshot R
  get_topology now v = snapshot v.store now

module _ {R : Type 0} (accepts : Watcher R → TopologyUpdate R → Bool) where
  unfoldable pub register_handler :
      RegisterServiceRequest → String → ℕ → Service R → Service R × ServiceHandle
  register_handler request id now v =
      let (store, result) = register_service request id now v.store in
      (
        record { store = store; watchers = broadcast accepts result.updates v.watchers },
        result.handle,
      )

  -- The answer repeats the sequence number and is always positive.
  unfoldable pub heartbeat_handler : HeartbeatRequest → ℕ → Service R → Service R × (ℕ × Bool)
  heartbeat_handler request now v =
      let (store, updates) = record_heartbeat request now v.store in
      (
        record { store = store; watchers = broadcast accepts updates v.watchers },
        (request.sequence, true),
      )

  -- The answer is `removed`.
  unfoldable pub unregister_handler : String → Service R → Service R × Bool
  unregister_handler id v =
      let (store, updates) = unregister_service id v.store in
      (
        record { store = store; watchers = broadcast accepts updates v.watchers },
        ltb 0 (length updates),
      )

  unfoldable pub sweep_timer : ℕ → Service R → Service R
  sweep_timer now v =
      let (store, updates) = sweep now v.store in
      record { store = store; watchers = broadcast accepts updates v.watchers }

module _ {R : Type 0} ⦃num : Number R⦄ (accepts : Watcher R → TopologyUpdate R → Bool) where
  -- One event of an activity stream, with the running count of accepted events.
  unfoldable pub activity_data : ReportActivityRequest R → ℕ → Service R × ℕ → Service R × ℕ
  activity_data event now (v, accepted_events) =
      let (store, updates) = record_activity event now v.store in
      (
        record { store = store; watchers = broadcast accepts updates v.watchers },
        accepted_events + batch_size_of event.batch_size,
      )

  unfoldable pub flush_timer : ℕ → Service R → Service R
  flush_timer now v =
      let (store, updates) = flush_activity now v.store in
      record { store = store; watchers = broadcast accepts updates v.watchers }
