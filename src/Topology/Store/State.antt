-- ===== src/Topology/Store/State.antt =====
-- apps/topology/src/topology-store.ts: the state of `TopologyStore`, its constructor, the names under
-- which a service can be a target, and the helpers for updates. A method returns the new store and
-- the updates to broadcast; the clock reading and the generated service id are arguments. Times and
-- options are natural numbers, so a difference that would be negative is 0: the comparisons in
-- the code have the same outcome on both.
use modular_runtime.Shared.{
  ℕ, ◌-◌, ◌*◌, String, Option, some, none, List, [], ◌∷◌, ◌++◌, map, Bool, true, ◌||◌, leb,
  if◌then◌else◌, or_else, elem,
}
use modular_runtime.Shared.Dict.{Dict, values}
use modular_runtime.Shared.Text.{◌⧺◌, trim, truthy, truthy?}
use modular_runtime.Topology.Types.{
  ServiceNode, ServiceEdge, UpdateType, TopologyUpdate, TopologySnapshot, ServiceMetadata,
}
use mathlib.Core.Option

pub record ServiceRecord : Type 0 where
  pub node : ServiceNode
  pub last_heartbeat_ms : ℕ
  pub last_activity_ms : ℕ
  pub last_node_update_ms : ℕ
  pub heartbeat_interval_ms : ℕ
  pub timeout_multiplier : ℕ

pub record RateSample : Type 0 where
  pub time_ms : ℕ
  pub total_count : ℕ

pub record EdgeRecord (R : Type 0) : Type 0 where
  pub edge : ServiceEdge R
  pub last_activity_ms : ℕ
  pub last_flush_ms : ℕ
  pub pending_count : ℕ
  pub pending_error_count : ℕ
  pub pending_latency_total : R
  pub total_count : ℕ
  pub total_error_count : ℕ
  pub avg_latency_ms : R
  pub rate_samples : List RateSample

pub record TopologyStoreOptions : Type 0 where
  pub heartbeat_interval_ms : Option ℕ
  pub timeout_multiplier : Option ℕ
  pub idle_timeout_ms : Option ℕ
  pub unknown_edge_timeout_ms : Option ℕ
  pub rps_window_ms : Option ℕ
  pub activity_flush_ms : Option ℕ
  pub node_update_throttle_ms : Option ℕ

-- The read-only fields of the class.
pub record Settings : Type 0 where
  pub heartbeat_interval_ms : ℕ
  pub timeout_multiplier : ℕ
  pub idle_timeout_ms : ℕ
  pub unknown_edge_timeout_ms : ℕ
  pub rps_window_ms : ℕ
  pub activity_flush_ms : ℕ
  pub node_update_throttle_ms : ℕ

pub record TopologyStore (R : Type 0) : Type 0 where
  pub services : Dict ServiceRecord
  pub edges : Dict (EdgeRecord R)
  pub service_name_index : Dict String
  pub settings : Settings
  pub last_activity_flush_ms : ℕ

unfoldable pub settings_of : TopologyStoreOptions → Settings
settings_of options =
    let idle_timeout_ms = or_else options.idle_timeout_ms 30000 in
    record {
      heartbeat_interval_ms = or_else options.heartbeat_interval_ms 5000;
      timeout_multiplier = or_else options.timeout_multiplier 3;
      idle_timeout_ms = idle_timeout_ms;
      unknown_edge_timeout_ms = or_else options.unknown_edge_timeout_ms (idle_timeout_ms * 2);
      rps_window_ms = or_else options.rps_window_ms 5000;
      activity_flush_ms = or_else options.activity_flush_ms 1000;
      node_update_throttle_ms = or_else options.node_update_throttle_ms 5000;
    }

-- The constructor; `now` is its reading of the clock.
unfoldable pub new_store : {R : Type 0} → TopologyStoreOptions → ℕ → TopologyStore R
new_store options now = record {
  services = [];
  edges = [];
  service_name_index = [];
  settings = settings_of options;
  last_activity_flush_ms = now;
}

-- `node.metadata?.field?.trim()`
trimmed_field : (ServiceMetadata → Option String) → Option ServiceMetadata → Option String
trimmed_field field none = none
trimmed_field field (some m) = Option.map trim (field m)

unfoldable pub build_service_key : ServiceNode → String
unfolding trimmed_field
build_service_key node =
    let service_interface = trimmed_field (λ m. m.service_interface) node.metadata in
    let service_role = trimmed_field (λ m. m.service_role) node.metadata in
    elim service_interface [
      | none ↦ node.service_name
      | some si ↦
          if truthy si
          then if truthy? service_role then si ⧺ "::" ⧺ or_else service_role "" else si
          else node.service_name
    ]

-- `Set.add`
unfoldable pub add : String → List String → List String
add k ks = if elem k ks then ks else ks ++ k ∷ []

unfoldable pub add_address_keys : String → Option String → List String → List String
add_address_keys service_key none ks = ks
add_address_keys service_key (some address) ks =
    let ks' = add address ks in
    if truthy address
    then if truthy service_key then add (service_key ⧺ "@" ⧺ address) ks' else ks'
    else ks

-- The names under which other services may address this one.
unfoldable pub build_service_keys : ServiceNode → List String
build_service_keys node =
    let service_key = build_service_key node in
    add_address_keys service_key (Option.map trim node.address)
      (add service_key (add node.service_name []))

unfoldable pub edge_key : String → String → String
edge_key source_service_id target_service = source_service_id ⧺ "::" ⧺ target_service

abbrev pub key_of : {R : Type 0} → ServiceEdge R → String
key_of e = edge_key e.source_service_id e.target_service

abbrev pub create_node_update : {R : Type 0} → UpdateType → ServiceNode → TopologyUpdate R
create_node_update type node = record {
  type = type;
  node = some node;
  edge = none;
  snapshot = none;
}

abbrev pub create_edge_update : {R : Type 0} → UpdateType → ServiceEdge R → TopologyUpdate R
create_edge_update type edge = record {
  type = type;
  node = none;
  edge = some edge;
  snapshot = none;
}

unfoldable pub should_emit_node_update : Settings → ServiceRecord → ℕ → Bool
should_emit_node_update cfg r now =
    if leb cfg.node_update_throttle_ms 0
    then true
    else leb cfg.node_update_throttle_ms (now - r.last_node_update_ms)

-- `queueNodeUpdate` if it is forced or due.
unfoldable pub emit_node_update :
    {R : Type 0} → Settings → Bool → ServiceRecord → ℕ → ServiceRecord × List (TopologyUpdate R)
emit_node_update cfg force r now =
    if force || should_emit_node_update cfg r now
    then (
      record r { last_node_update_ms = now },
      create_node_update UpdateType.node_updated r.node ∷ [],
    )
    else (r, [])

unfoldable pub snapshot : {R : Type 0} → TopologyStore R → ℕ → TopologySnapshot R
snapshot s now = record {
  nodes = map (λ r. r.node) (values s.services);
  edges = map (λ e. e.edge) (values s.edges);
  timestamp_ms = now;
}
