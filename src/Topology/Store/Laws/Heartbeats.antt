-- ===== src/Topology/Store/Laws/Heartbeats.antt =====
-- apps/topology/src/topology-store.ts: a heartbeat followed by a sweep.
use modular_runtime.Shared.{
  ℕ, ◌+◌, ◌-◌, ◌*◌, ◌≤◌, Option, some, none, Bool, false, ◌||◌, ◌≡◌, ◌≢◌, ◌∙◌, arith, ltb, inl, inr,
  Bool-cases, eq_refl,
}
use modular_runtime.Shared.Dict.{get, get-set}
use modular_runtime.Topology.Types.{ServiceState, HeartbeatRequest, ApplicationHealth}
use modular_runtime.Topology.Store.State.{
  ServiceRecord, Settings, TopologyStore, emit_node_update, should_emit_node_update,
}
use modular_runtime.Topology.Store.Services.{
  record_heartbeat, heartbeat_record, revive, update_health,
}
use modular_runtime.Topology.Store.Sweep.{sweep, has_timed_out, mark_stale, mark_idle}
use modular_runtime.Topology.Store.WellFormed.{IsWellFormed}
use modular_runtime.Topology.Store.Preservation.{record_heartbeat-IsWellFormed}
use modular_runtime.Topology.Store.Laws.Liveness.{sweep_record, get-sweep_record}

-- What a heartbeat leaves of the record `r`.
record IsFresh (beat : ℕ) (r b : ServiceRecord) : Type 0 where
  beaten : b.last_heartbeat_ms ≡ beat
  interval : b.heartbeat_interval_ms ≡ r.heartbeat_interval_ms
  multiplier : b.timeout_multiplier ≡ r.timeout_multiplier
  awake : b.node.state ≢ ServiceState.stale

heartbeat_record-IsFresh :
    (health : Option ApplicationHealth) (beat : ℕ) (r : ServiceRecord)
    → IsFresh beat r (heartbeat_record health beat r).0
unfolding heartbeat_record revive update_health
heartbeat_record-IsFresh none beat r = record {
  beaten = ground arith;
  interval = ground arith;
  multiplier = ground arith;
  awake = λ e. ground arith;
}
heartbeat_record-IsFresh (some h) beat r = record {
  beaten = ground arith;
  interval = ground arith;
  multiplier = ground arith;
  awake = λ e. ground arith;
}

emit-IsFresh :
    (R : Type 0) (cfg : Settings) (force : Bool) (beat : ℕ) (r b : ServiceRecord)
    → IsFresh beat r b
    → IsFresh beat r (emit_node_update {R = R} cfg force b beat).0
unfolding emit_node_update
emit-IsFresh R cfg force beat r b f =
    elim (Bool-cases (force || should_emit_node_update cfg b beat)) [
      | inl due ↦
          rw (due, emit_node_update)
            (record {
              beaten = f.beaten;
              interval = f.interval;
              multiplier = f.multiplier;
              awake = f.awake;
            })
      | inr held ↦ rw (held, emit_node_update) f
    ]

not_timed_out :
    (now beat : ℕ) (r b : ServiceRecord)
    → IsFresh beat r b
    → 2 ≤ r.timeout_multiplier
    → now ≤ beat + r.heartbeat_interval_ms * 2
    → has_timed_out now b ≡ false
unfolding has_timed_out
not_timed_out now beat r b f two soon =
    rw (f.beaten, f.interval, f.multiplier)
      (let longer : r.heartbeat_interval_ms * 2 ≤ r.heartbeat_interval_ms * r.timeout_multiplier =
          grind arith in
        ground arith)

not_marked :
    (now beat : ℕ) (r b : ServiceRecord)
    → IsFresh beat r b
    → now ≤ beat + r.heartbeat_interval_ms * 2
    → mark_stale now b ≡ (b, false)
unfolding mark_stale
not_marked now beat r b f soon =
    let early : ltb (b.heartbeat_interval_ms * 2) (now - b.last_heartbeat_ms) ≡ false =
      rw (f.beaten, f.interval) (ground arith) in
    rw (early, mark_stale)

sweep_record_fresh :
    (cfg : Settings) (now beat : ℕ) (r b : ServiceRecord)
    → IsFresh beat r b
    → 2 ≤ r.timeout_multiplier
    → now ≤ beat + r.heartbeat_interval_ms * 2
    → (r' : ServiceRecord) × (sweep_record cfg now b ≡ some r')
      × (r'.node.state ≢ ServiceState.stale)
unfolding sweep_record mark_idle
sweep_record_fresh cfg now beat r b f two soon =
    let alive : has_timed_out now b ≡ false = not_timed_out now beat r b f two soon in
    let unmarked : mark_stale now b ≡ (b, false) = not_marked now beat r b f soon in
    ((mark_idle cfg now b).0, rw (alive, unmarked), λ e. f.awake (ground arith))

module _ {R : Type 0} where
  get-record_heartbeat :
      (request : HeartbeatRequest) (now : ℕ) (s : TopologyStore R) (r : ServiceRecord)
      → get request.service_id s.services ≡ some r
      → get request.service_id (record_heartbeat request now s).0.services
        ≡ some
            (emit_node_update {R = R} s.settings
              (heartbeat_record request.health now r).1
              (heartbeat_record request.health now r).0
              now).0
  unfolding record_heartbeat
  get-record_heartbeat request now s r e =
      rw (e, record_heartbeat) (get-set _ _ _ s.services ∙ rw (eq_refl request.service_id))

  -- A service that beats and is swept within two of its intervals, with a timeout of at least two,
  -- stays in the store and is not stale, whatever it was before.
  pub heartbeat_keeps_alive :
      (request : HeartbeatRequest) (beat now : ℕ) (s : TopologyStore R) (r : ServiceRecord)
      → IsWellFormed s
      → get request.service_id s.services ≡ some r
      → 2 ≤ r.timeout_multiplier
      → now ≤ beat + r.heartbeat_interval_ms * 2
      → (r' : ServiceRecord) × (get request.service_id
            (sweep now (record_heartbeat request beat s).0).0.services
          ≡ some r')
        × (r'.node.state ≢ ServiceState.stale)
  heartbeat_keeps_alive request beat now s r w e two soon =
      let b =
        (emit_node_update {R = R} s.settings (heartbeat_record request.health beat r).1
          (heartbeat_record request.health beat r).0 beat).0 in
      let f =
        emit-IsFresh R s.settings (heartbeat_record request.health beat r).1 beat r
          (heartbeat_record request.health beat r).0
          (heartbeat_record-IsFresh request.health beat r) in
      let (r', kept, awake) =
        sweep_record_fresh (record_heartbeat request beat s).0.settings now beat r b f two soon in
      (
        r',
        get-sweep_record now request.service_id (record_heartbeat request beat s).0
              (record_heartbeat-IsWellFormed request beat s w)
            ∙ rw (get-record_heartbeat request beat s r e) kept,
        awake,
      )
