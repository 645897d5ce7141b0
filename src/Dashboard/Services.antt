-- ===== src/Dashboard/Services.antt =====
-- The updates that the store yields for its services (apps/topology/src/topology-store.ts), played on
-- the dashboard (apps/dashboard/src/hooks/useTopologyStream.ts).
use modular_runtime.Shared.{
  ℕ, ◌-◌, ◌*◌, ltb, String, Option, some, none, List, [], ◌∷◌, ◌++◌, Bool, true, false, not, ◌&&◌,
  ◌||◌, ◌≡◌, refl, sym, ◌∙◌, arith, IsUnique, All, inl, inr, Option-cases, Bool-cases, ◌⊎◌,
}
use modular_runtime.Shared.Dict.{Dict, keys, get, set, All-get}
use modular_runtime.Topology.Types.{
  ServiceState, TopologySnapshot, TopologyUpdate, UpdateType, RegisterServiceRequest,
  HeartbeatRequest, ApplicationHealth,
}
use modular_runtime.Topology.Store.State.{
  ServiceRecord, Settings, TopologyStore, create_node_update, emit_node_update,
  should_emit_node_update,
}
use modular_runtime.Topology.Store.Services.{
  register_service, new_record, new_node, record_heartbeat, heartbeat_record, is_stale, revive,
  update_health,
}
use modular_runtime.Topology.Store.Activity.{activity_record, is_active}
use modular_runtime.Topology.Store.Sweep.{mark_stale, mark_idle, updates_if}
use modular_runtime.Topology.Store.WellFormed.{IsWellFormed, IsNamed}
use modular_runtime.Topology.Store.Preservation.{heartbeat_record-IsSame}
use modular_runtime.Dashboard.{apply_update, apply_updates, upsert_node}
use modular_runtime.Dashboard.Upsert.{map-values-set_same}
use modular_runtime.Dashboard.Sync.{
  shown_node, AreNodesSynced, IsSynced, put_node, apply_updates-nil,
}

-- A registration is shown as soon as it is made.
pub register_service-IsSynced :
    {R : Type 0} (request : RegisterServiceRequest) (id : String) (now t : ℕ)
    (snap : TopologySnapshot R) (s : TopologyStore R)
    → IsWellFormed s
    → IsSynced snap s
    → IsSynced
        (apply_updates t snap (register_service request id now s).1.updates)
        (register_service request id now s).0
unfolding register_service apply_updates apply_update upsert_node new_record new_node
register_service-IsSynced request id now t snap s w h = record {
  nodes =
      put_node id (new_record s.settings request id now) snap.nodes s.services w.services_named
        w.services_unique refl h.nodes;
  edges = h.edges;
}

abbrev staled : ℕ → ServiceRecord → ServiceRecord
staled now r = record r {
  node = record r.node { state = ServiceState.stale };
  last_node_update_ms = now;
}

abbrev idled : ℕ → ServiceRecord → ServiceRecord
idled now r = record r {
  node = record r.node { state = ServiceState.idle };
  last_node_update_ms = now;
}

mark_stale_cases :
    (now : ℕ) (r : ServiceRecord)
    → (mark_stale now r ≡ (staled now r, true)) ⊎ (mark_stale now r ≡ (r, false))
unfolding mark_stale
mark_stale_cases now r =
    elim (Bool-cases (
      ltb (r.heartbeat_interval_ms * 2) (now - r.last_heartbeat_ms)
      && not (is_stale r.node.state))) [
        | inl e ↦ inl (rw (e, mark_stale))
        | inr e ↦ inr (rw (e, mark_stale))
      ]

mark_idle_cases :
    (cfg : Settings) (now : ℕ) (r : ServiceRecord)
    → (mark_idle cfg now r ≡ (idled now r, true)) ⊎ (mark_idle cfg now r ≡ (r, false))
unfolding mark_idle
mark_idle_cases cfg now r =
    elim (Bool-cases (
      is_active r.node.state
      && (ltb 0 r.last_activity_ms && ltb cfg.idle_timeout_ms (now - r.last_activity_ms)))) [
        | inl e ↦ inl (rw (e, mark_idle))
        | inr e ↦ inr (rw (e, mark_idle))
      ]

-- A service that has just been marked stale is not marked idle in the same round.
staled_idle :
    (cfg : Settings) (now : ℕ) (r : ServiceRecord)
    → mark_idle cfg now (staled now r) ≡ (staled now r, false)
unfolding mark_idle
staled_idle cfg now r = refl

-- What becomes of the nodes when a record is written back with the updates `us`.
abbrev pub IsPlayed :
    {R : Type 0} → ℕ → TopologySnapshot R → List (TopologyUpdate R) → Dict ServiceRecord → Type 0
IsPlayed t snap us m =
    AreNodesSynced (apply_updates t snap us).nodes m
    × ((apply_updates t snap us).edges ≡ snap.edges)

module _ {R : Type 0} (t : ℕ) (snap : TopologySnapshot R) (m : Dict ServiceRecord)
    (named : All IsNamed m) (unique : IsUnique (keys m))
    (synced : AreNodesSynced snap.nodes m) where
  announced :
      (id : String) (r : ServiceRecord)
      → r.node.service_id ≡ id
      → IsPlayed t snap (create_node_update UpdateType.node_updated r.node ∷ []) (set id r m)
  unfolding apply_updates apply_update upsert_node
  announced id r same = (put_node id r snap.nodes m named unique same synced, refl)

  silent :
      (id : String) (r r' : ServiceRecord)
      → get id m ≡ some r
      → shown_node r'.node ≡ shown_node r.node
      → IsPlayed t snap [] (set id r' m)
  unfolding apply_updates
  silent id r r' found same = (
    synced
        ∙ sym (map-values-set_same (λ (r : ServiceRecord). shown_node r.node) id r' r m found same),
    refl,
  )

  pub emit_node_update-IsPlayed :
      (cfg : Settings) (force : Bool) (now : ℕ) (id : String) (r r' : ServiceRecord)
      → get id m ≡ some r
      → r'.node.service_id ≡ id
      → (force ≡ false → shown_node r'.node ≡ shown_node r.node)
      → IsPlayed t snap
          (emit_node_update {R = R} cfg force r' now).1
          (set id (emit_node_update {R = R} cfg force r' now).0 m)
  unfolding emit_node_update
  emit_node_update-IsPlayed cfg force now id r r' found same quiet =
      elim (Bool-cases (force || should_emit_node_update cfg r' now)) [
        | inl due ↦
            rw (due, emit_node_update) (announced id (record r' { last_node_update_ms = now }) same)
        | inr held ↦ rw (held, emit_node_update) (silent id r r' found (quiet (ground arith)))
      ]

  -- A live service in a sweep.
  pub marks-IsPlayed :
      (cfg : Settings) (now : ℕ) (id : String) (r : ServiceRecord)
      → get id m ≡ some r
      → r.node.service_id ≡ id
      → IsPlayed t snap
          (updates_if {R = R} (mark_stale now r).1 (mark_stale now r).0
            ++ updates_if
                (mark_idle cfg now (mark_stale now r).0).1
                (mark_idle cfg now (mark_stale now r).0).0)
          (set id (mark_idle cfg now (mark_stale now r).0).0 m)
  unfolding updates_if
  marks-IsPlayed cfg now id r found same = elim (mark_stale_cases now r) [
    | inl e ↦ rw (e, staled_idle cfg now r) (announced id (staled now r) same)
    | inr e ↦ elim (mark_idle_cases cfg now r) [
      | inl d ↦ rw (e, d) (announced id (idled now r) same)
      | inr d ↦ rw (e, d) (silent id r r found refl)
    ]
  ]

-- What does not force an update does not show.
heartbeat_quiet :
    (health : Option ApplicationHealth) (now : ℕ) (r : ServiceRecord)
    → (heartbeat_record health now r).1 ≡ false
    → shown_node (heartbeat_record health now r).0.node ≡ shown_node r.node
unfolding heartbeat_record revive update_health
heartbeat_quiet none now r e = ground arith
heartbeat_quiet (some h) now r e = ground arith

pub activity_quiet :
    (now : ℕ) (r : ServiceRecord)
    → (activity_record now r).1 ≡ false
    → shown_node (activity_record now r).0.node ≡ shown_node r.node
unfolding activity_record
activity_quiet now r e = ground arith

module _ {R : Type 0} (t : ℕ) (snap : TopologySnapshot R) (s : TopologyStore R) (w : IsWellFormed s)
    (h : IsSynced snap s) where
  -- A heartbeat without an update changes only what the dashboard does not compare.
  pub record_heartbeat-IsSynced :
      (request : HeartbeatRequest) (now : ℕ)
      → IsSynced
          (apply_updates t snap (record_heartbeat request now s).1)
          (record_heartbeat request now s).0
  unfolding record_heartbeat
  record_heartbeat-IsSynced request now = elim (Option-cases (get request.service_id s.services)) [
    | inl e ↦ rw (e, record_heartbeat) (rw (apply_updates-nil t snap) h)
    | inr (r, e) ↦
        let (nodes, edges) =
          emit_node_update-IsPlayed t snap s.services w.services_named w.services_unique h.nodes
            s.settings (heartbeat_record request.health now r).1 now request.service_id r
            (heartbeat_record request.health now r).0 e
            ((heartbeat_record-IsSame request.health now r).id
              ∙ All-get IsNamed request.service_id s.services r w.services_named e)
            (heartbeat_quiet request.health now r) in
        rw (e, record_heartbeat) (record { nodes = nodes; edges = rw edges h.edges })
  ]
