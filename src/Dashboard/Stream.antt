-- ===== src/Dashboard/Stream.antt =====
-- apps/dashboard/src/hooks/useTopologyStream.ts: `areSnapshotsEqual`, and the handlers of the hook. `identical` is
-- `left === right` for two snapshots; equality of the numbers that need not be whole is a parameter. `now` is the reading
-- of the clock. React and the connection are left out.
pub mod Agreement
pub mod Kept
pub mod Tests
use modular_runtime.Shared.{
  ℕ, String, Option, some, none, List, [], ◌∷◌, Bool, true, false, not, ◌&&◌, ◌||◌, ◌==◌,
  if◌then◌else◌, eqb, length,
}
use modular_runtime.Shared.Dict.{Dict, get, set}
use modular_runtime.Topology.Types.{
  ServiceType, ServiceLanguage, HealthState, ServiceState, ConnectionState, ServiceNode,
  ServiceEdge, TopologySnapshot, TopologyUpdate,
}
use modular_runtime.Topology.Store.State.{key_of}
use modular_runtime.Dashboard.{initial_snapshot, apply_update}

-- An enumeration's number, as it travels
service_type_number : ServiceType → ℕ
service_type_number ServiceType.unspecified = 0
service_type_number ServiceType.server = 1
service_type_number ServiceType.client = 2
service_type_number ServiceType.hybrid = 3

language_number : ServiceLanguage → ℕ
language_number ServiceLanguage.unspecified = 0
language_number ServiceLanguage.typescript = 1
language_number ServiceLanguage.rust = 2
language_number ServiceLanguage.cpp = 3
language_number ServiceLanguage.go = 4
language_number ServiceLanguage.python = 5
language_number ServiceLanguage.java = 6
language_number ServiceLanguage.csharp = 7

health_number : HealthState → ℕ
health_number HealthState.unknown = 0
health_number HealthState.starting = 1
health_number HealthState.healthy = 2
health_number HealthState.degraded = 3
health_number HealthState.unhealthy = 4

state_number : ServiceState → ℕ
state_number ServiceState.unspecified = 0
state_number ServiceState.registered = 1
state_number ServiceState.idle = 2
state_number ServiceState.active = 3
state_number ServiceState.stale = 4
state_number ServiceState.dead = 5

connection_number : ConnectionState → ℕ
connection_number ConnectionState.unspecified = 0
connection_number ConnectionState.idle = 1
connection_number ConnectionState.active = 2
connection_number ConnectionState.failed = 3

unfoldable pub same_text : Option String → Option String → Bool
same_text none none = true
same_text none (some t) = false
same_text (some s) none = false
same_text (some s) (some t) = s == t

unfoldable pub are_service_nodes_equal : ServiceNode → ServiceNode → Bool
unfolding service_type_number language_number health_number state_number
are_service_nodes_equal left right =
    left.service_id == right.service_id
    && left.service_name == right.service_name
    && eqb (service_type_number left.service_type) (service_type_number right.service_type)
    && eqb (language_number left.language) (language_number right.language)
    && same_text left.version right.version
    && same_text left.address right.address
    && same_text left.host right.host
    && eqb (state_number left.state) (state_number right.state)
    && eqb left.last_heartbeat_ms right.last_heartbeat_ms
    && eqb left.last_activity_ms right.last_activity_ms
    && eqb (health_number left.health) (health_number right.health)

-- `new Map(items.map((item) => [key(item), item]))`, onto a map
unfoldable pub map_onto : {A : Type 0} → (A → String) → List A → Dict A → Dict A
map_onto key [] m = m
map_onto key (x ∷ xs) m = map_onto key xs (set (key x) x m)

-- The loop over the entries of the left map
unfoldable pub all_match : {A : Type 0} → (A → A → Bool) → Dict A → Dict A → Bool
all_match equal [] right = true
all_match equal ((id, x) ∷ entries) right = elim (get id right) [
  | none ↦ false
  | some match ↦ if equal x match then all_match equal entries right else false
]

unfoldable pub are_maps_equal : {A : Type 0} → (A → A → Bool) → Dict A → Dict A → Bool
are_maps_equal equal left right =
    if eqb (length left) (length right) then all_match equal left right else false

pub data ConnectionStatus : Type 0 where
  connecting : ConnectionStatus
  live : ConnectionStatus
  error : ConnectionStatus

-- `status`, `snapshot` and `lastEventMs`
pub record StreamState (R : Type 0) : Type 0 where
  pub status : ConnectionStatus
  pub snapshot : TopologySnapshot R
  pub last_event_ms : ℕ

unfoldable pub onopen : {R : Type 0} → StreamState R → StreamState R
onopen s = record s { status = ConnectionStatus.live }

unfoldable pub onerror : {R : Type 0} → StreamState R → StreamState R
onerror s = record s { status = ConnectionStatus.error; snapshot = initial_snapshot }

module _ {R : Type 0} (same : R → R → Bool) where
  unfoldable pub are_service_edges_equal : ServiceEdge R → ServiceEdge R → Bool
  unfolding connection_number
  are_service_edges_equal left right =
      left.source_service_id == right.source_service_id
      && left.target_service == right.target_service
      && eqb (connection_number left.state) (connection_number right.state)
      && eqb left.last_activity_ms right.last_activity_ms
      && eqb left.total_requests right.total_requests
      && eqb left.total_errors right.total_errors
      && same left.avg_latency_ms right.avg_latency_ms
      && same left.rps right.rps

  unfoldable pub are_snapshots_equal : Bool → TopologySnapshot R → TopologySnapshot R → Bool
  are_snapshots_equal identical left right =
      if identical
      then true
      else if not (eqb (length left.nodes) (length right.nodes))
          || not (eqb (length left.edges) (length right.edges))
      then false
      else if are_maps_equal are_service_nodes_equal
          (map_onto (λ node. node.service_id) left.nodes [])
          (map_onto (λ node. node.service_id) right.nodes [])
      then are_maps_equal are_service_edges_equal (map_onto key_of left.edges [])
          (map_onto key_of right.edges [])
      else false

  -- `none` is a message that is not JSON.
  unfoldable pub onmessage : Bool → ℕ → Option (TopologyUpdate R) → StreamState R → StreamState R
  onmessage identical now none s = record s { status = ConnectionStatus.error }
  onmessage identical now (some update) s =
      let next = apply_update now s.snapshot update in
      if are_snapshots_equal identical s.snapshot next
      then s
      else record s { snapshot = next; last_event_ms = now }
