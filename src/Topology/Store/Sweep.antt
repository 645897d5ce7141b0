-- ===== src/Topology/Store/Sweep.antt =====
-- apps/topology/src/topology-store.ts: the periodic sweep for dead and stale services and idle edges.
use modular_runtime.Shared.{
  ℕ, ◌-◌, ◌*◌, ltb, String, some, none, List, [], ◌∷◌, ◌++◌, Bool, true, false, not, ◌&&◌,
  if◌then◌else◌, elem,
}
use modular_runtime.Shared.Dict.{Dict, keys, values, get, set, delete}
use modular_runtime.Shared.Loops.{for_each}
use modular_runtime.Topology.Types.{ServiceState, ConnectionState, UpdateType, TopologyUpdate}
use modular_runtime.Topology.Store.State.{
  ServiceRecord, EdgeRecord, Settings, TopologyStore, add, build_service_keys, create_node_update,
  create_edge_update,
}
use modular_runtime.Topology.Store.Services.{is_stale, remove_service}
use modular_runtime.Topology.Store.Activity.{is_active}

add_all : List String → List String → List String
add_all [] targets = targets
add_all (k ∷ ks) targets = add_all ks (add k targets)

unfoldable pub collect_targets : List ServiceRecord → List String → List String
unfolding add_all
collect_targets [] targets = targets
collect_targets (r ∷ rs) targets = collect_targets rs (add_all (build_service_keys r.node) targets)

unfoldable pub has_timed_out : ℕ → ServiceRecord → Bool
has_timed_out now r =
    ltb (r.heartbeat_interval_ms * r.timeout_multiplier) (now - r.last_heartbeat_ms)

-- The first test on a live service: stale after two missed intervals.
unfoldable pub mark_stale : ℕ → ServiceRecord → ServiceRecord × Bool
mark_stale now r =
    if ltb (r.heartbeat_interval_ms * 2) (now - r.last_heartbeat_ms) && not (is_stale r.node.state)
    then (
      record r { node = record r.node { state = ServiceState.stale }; last_node_update_ms = now },
      true,
    )
    else (r, false)

-- The second test: an active service without activity becomes idle.
unfoldable pub mark_idle : Settings → ℕ → ServiceRecord → ServiceRecord × Bool
mark_idle cfg now r =
    if is_active r.node.state
      && (ltb 0 r.last_activity_ms && ltb cfg.idle_timeout_ms (now - r.last_activity_ms))
    then (
      record r { node = record r.node { state = ServiceState.idle }; last_node_update_ms = now },
      true,
    )
    else (r, false)

abbrev pub is_active_edge : ConnectionState → Bool
is_active_edge ConnectionState.active = true
is_active_edge _ = false

module _ {R : Type 0} where
  unfoldable pub updates_if : Bool → ServiceRecord → List (TopologyUpdate R)
  updates_if changed r =
      if changed then create_node_update UpdateType.node_updated r.node ∷ [] else []

  -- One round of the loop over the services.
  unfoldable pub sweep_service :
      ℕ → String → TopologyStore R → TopologyStore R × List (TopologyUpdate R)
  sweep_service now service_id s = elim (get service_id s.services) [
    | none ↦ (s, [])
    | some r ↦
        if has_timed_out now r
        then remove_service service_id UpdateType.node_removed s
        else let (r', stale) = mark_stale now r in
          let (r'', idle) = mark_idle s.settings now r' in
          (
            record s { services = set service_id r'' s.services },
            updates_if stale r' ++ updates_if idle r'',
          )
  ]

  unfoldable pub is_lost : Settings → ℕ → List String → EdgeRecord R → Bool
  is_lost cfg now known e =
      ltb 0 cfg.unknown_edge_timeout_ms
      && (ltb cfg.unknown_edge_timeout_ms (now - e.last_activity_ms)
          && not (elem e.edge.target_service known))

  -- One round of the loop over the edges.
  unfoldable pub sweep_edge :
      Settings
      → ℕ
      → List String
      → String
      → Dict (EdgeRecord R)
      → Dict (EdgeRecord R) × List (TopologyUpdate R)
  sweep_edge cfg now known key edges = elim (get key edges) [
    | none ↦ (edges, [])
    | some e ↦
        let idle = record e { edge = record e.edge { state = ConnectionState.idle } } in
        if is_lost cfg now known e
        then (delete key edges, create_edge_update UpdateType.edge_removed e.edge ∷ [])
        else if is_active_edge e.edge.state && ltb cfg.idle_timeout_ms (now - e.last_activity_ms)
        then (set key idle edges, create_edge_update UpdateType.edge_updated idle.edge ∷ [])
        else (edges, [])
  ]

  -- The known targets are collected before any service is removed.
  unfoldable pub sweep : ℕ → TopologyStore R → TopologyStore R × List (TopologyUpdate R)
  sweep now s =
      let known = collect_targets (values s.services) [] in
      let (s', node_updates) = for_each (sweep_service now) (keys s.services) s in
      let (edges, edge_updates) =
        for_each (sweep_edge s'.settings now known) (keys s'.edges) s'.edges in
      (record s' { edges = edges }, node_updates ++ edge_updates)
