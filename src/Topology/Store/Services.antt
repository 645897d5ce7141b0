-- ===== src/Topology/Store/Services.antt =====
-- apps/topology/src/topology-store.ts: registration, removal and heartbeats.
use modular_runtime.Shared.{
  ℕ, ltb, eqb, String, Option, some, none, List, [], ◌∷◌, Bool, true, false, ◌||◌, ◌==◌,
  if◌then◌else◌, elem,
}
use modular_runtime.Shared.Dict.{Dict, keys, get, set, delete}
use modular_runtime.Shared.Loops.{for_each}
use modular_runtime.Topology.Types.{
  ServiceNode, ServiceHandle, ServiceState, HealthState, UpdateType, TopologyUpdate,
  RegisterServiceRequest, HeartbeatRequest, ApplicationHealth,
}
use modular_runtime.Topology.Store.State.{
  ServiceRecord, EdgeRecord, Settings, TopologyStore, build_service_keys, create_node_update,
  create_edge_update, emit_node_update,
}

pub record RegisterServiceResult (R : Type 0) : Type 0 where
  pub handle : ServiceHandle
  pub updates : List (TopologyUpdate R)

-- The node of a service that has just registered.
unfoldable pub new_node : RegisterServiceRequest → String → ℕ → ServiceNode
new_node request service_id now = record {
  service_id = service_id;
  service_name = request.service_name;
  service_type = request.service_type;
  language = request.language;
  version = request.version;
  address = request.address;
  host = request.host;
  metadata = request.metadata;
  state = ServiceState.registered;
  last_heartbeat_ms = now;
  last_activity_ms = 0;
  health = HealthState.unknown;
}

unfoldable pub new_record : Settings → RegisterServiceRequest → String → ℕ → ServiceRecord
new_record cfg request service_id now = record {
  node = new_node request service_id now;
  last_heartbeat_ms = now;
  last_activity_ms = 0;
  last_node_update_ms = now;
  heartbeat_interval_ms = cfg.heartbeat_interval_ms;
  timeout_multiplier = cfg.timeout_multiplier;
}

module _ {R : Type 0} where
  unfoldable pub register_service :
      RegisterServiceRequest
      → String
      → ℕ
      → TopologyStore R
      → TopologyStore R × RegisterServiceResult R
  register_service request service_id now s =
      let r = new_record s.settings request service_id now in
      (
        record s {
          services = set service_id r s.services;
          service_name_index = set request.service_name service_id s.service_name_index;
        },
        record {
          handle = record {
            service_id = service_id;
            heartbeat_interval_ms = s.settings.heartbeat_interval_ms;
            timeout_multiplier = s.settings.timeout_multiplier;
          };
          updates = create_node_update UpdateType.node_added r.node ∷ [];
        },
      )

  -- One round of the loop of `removeService` over the edges.
  unfoldable pub remove_edge :
      String
      → List String
      → String
      → Dict (EdgeRecord R)
      → Dict (EdgeRecord R) × List (TopologyUpdate R)
  remove_edge service_id service_keys key edges = elim (get key edges) [
    | none ↦ (edges, [])
    | some e ↦
        if e.edge.source_service_id == service_id || elem e.edge.target_service service_keys
        then (delete key edges, create_edge_update UpdateType.edge_removed e.edge ∷ [])
        else (edges, [])
  ]

  -- The rest of `removeService`, once the record is found.
  unfoldable pub remove_record :
      String
      → UpdateType
      → ServiceRecord
      → TopologyStore R
      → TopologyStore R × List (TopologyUpdate R)
  remove_record service_id type r s =
      let (edges, removed) =
        for_each (remove_edge service_id (build_service_keys r.node)) (keys s.edges) s.edges in
      (
        record s {
          services = delete service_id s.services;
          service_name_index = delete r.node.service_name s.service_name_index;
          edges = edges;
        },
        create_node_update type r.node ∷ removed,
      )

  unfoldable pub remove_service :
      String → UpdateType → TopologyStore R → TopologyStore R × List (TopologyUpdate R)
  remove_service service_id type s = elim (get service_id s.services) [
    | none ↦ (s, [])
    | some r ↦ remove_record service_id type r s
  ]

  unfoldable pub unregister_service :
      String → TopologyStore R → TopologyStore R × List (TopologyUpdate R)
  unregister_service service_id s = remove_service service_id UpdateType.node_removed s

abbrev pub is_stale : ServiceState → Bool
is_stale ServiceState.stale = true
is_stale _ = false

-- The numbers of the enumeration, by which `!==` compares.
abbrev pub health_code : HealthState → ℕ
health_code HealthState.unknown = 0
health_code HealthState.starting = 1
health_code HealthState.healthy = 2
health_code HealthState.degraded = 3
health_code HealthState.unhealthy = 4

-- A heartbeat revives a stale service.
unfoldable pub revive : ServiceRecord → ServiceRecord × Bool
revive r =
    if is_stale r.node.state
    then (
      record r {
        node = record r.node {
          state = if ltb 0 r.last_activity_ms then ServiceState.idle else ServiceState.registered;
        };
      },
      true,
    )
    else (r, false)

-- The reported health, when there is one and it differs.
unfoldable pub update_health : Option ApplicationHealth → ServiceRecord → ServiceRecord × Bool
update_health none r = (r, false)
update_health (some h) r =
    if eqb (health_code h.state) (health_code r.node.health)
    then (r, false)
    else (record r { node = record r.node { health = h.state } }, true)

-- What a heartbeat does to the record, and whether an update is forced.
unfoldable pub heartbeat_record :
    Option ApplicationHealth → ℕ → ServiceRecord → ServiceRecord × Bool
heartbeat_record health now r =
    let timed = record r {
      last_heartbeat_ms = now;
      node = record r.node { last_heartbeat_ms = now };
    } in
    let (revived, force) = revive timed in
    let (updated, changed) = update_health health revived in (updated, force || changed)

module _ {R : Type 0} where
  unfoldable pub record_heartbeat :
      HeartbeatRequest → ℕ → TopologyStore R → TopologyStore R × List (TopologyUpdate R)
  record_heartbeat request now s = elim (get request.service_id s.services) [
    | none ↦ (s, [])
    | some r ↦
        let (updated, force) = heartbeat_record request.health now r in
        let (r', updates) = emit_node_update s.settings force updated now in
        (record s { services = set request.service_id r' s.services }, updates)
  ]
