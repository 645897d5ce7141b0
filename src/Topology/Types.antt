-- ===== src/Topology/Types.antt =====
-- The messages that the topology store exchanges (packages/proto/runtime/v1/topology.proto, from
-- which the build generates the TypeScript types) and the records of
-- apps/topology/src/topology-store.ts. An int64 travels as decimal text, `String(n)`; the model
-- keeps the number n. `R` stands for the JavaScript numbers that need not be whole.
use modular_runtime.Shared.{ℕ, String, Bool, Option, List}

pub data ServiceType : Type 0 where
  unspecified server client hybrid : ServiceType

pub data ServiceLanguage : Type 0 where
  unspecified typescript rust cpp go python java csharp : ServiceLanguage

pub data HealthState : Type 0 where
  unknown starting healthy degraded unhealthy : HealthState

pub data ServiceState : Type 0 where
  unspecified registered idle active stale dead : ServiceState

pub data ConnectionState : Type 0 where
  unspecified idle active failed : ConnectionState

pub data UpdateType : Type 0 where
  unspecified snapshot node_added node_updated node_removed : UpdateType
  edge_added edge_updated edge_removed : UpdateType

pub data ActivityType : Type 0 where
  unspecified request_sent response_received error : ActivityType

-- An int32 as it comes off the wire; `negsuc n` is -(n + 1).
pub data ℤ : Type 0 where
  pos : ℕ → ℤ
  negsuc : ℕ → ℤ

pub record ServiceMetadata : Type 0 where
  pub region : Option String
  pub environment : Option String
  pub team : Option String
  pub version_hash : Option String
  pub service_interface : Option String
  pub service_role : Option String
  pub program_name : Option String

pub record ServiceNode : Type 0 where
  pub service_id : String
  pub service_name : String
  pub service_type : ServiceType
  pub language : ServiceLanguage
  pub version : Option String
  pub address : Option String
  pub host : Option String
  pub metadata : Option ServiceMetadata
  pub state : ServiceState
  pub last_heartbeat_ms : ℕ
  pub last_activity_ms : ℕ
  pub health : HealthState

pub record ServiceEdge (R : Type 0) : Type 0 where
  pub source_service_id : String
  pub target_service : String
  pub state : ConnectionState
  pub last_activity_ms : ℕ
  pub total_requests : ℕ
  pub total_errors : ℕ
  pub avg_latency_ms : R
  pub rps : R

pub record TopologySnapshot (R : Type 0) : Type 0 where
  pub nodes : List ServiceNode
  pub edges : List (ServiceEdge R)
  pub timestamp_ms : ℕ

pub record TopologyUpdate (R : Type 0) : Type 0 where
  pub type : UpdateType
  pub node : Option ServiceNode
  pub edge : Option (ServiceEdge R)
  pub snapshot : Option (TopologySnapshot R)

pub record RegisterServiceRequest : Type 0 where
  pub service_name : String
  pub service_type : ServiceType
  pub language : ServiceLanguage
  pub version : Option String
  pub address : Option String
  pub host : Option String
  pub metadata : Option ServiceMetadata

pub record ServiceHandle : Type 0 where
  pub service_id : String
  pub heartbeat_interval_ms : ℕ
  pub timeout_multiplier : ℕ

pub record ApplicationHealth : Type 0 where
  pub state : HealthState
  pub message : Option String

pub record HeartbeatRequest : Type 0 where
  pub service_id : String
  pub sequence : ℕ
  pub health : Option ApplicationHealth

pub record ReportActivityRequest (R : Type 0) : Type 0 where
  pub service_id : String
  pub target_service : String
  pub type : ActivityType
  pub latency_ms : Option R
  pub success : Option Bool
  pub batch_size : Option ℤ

-- The arithmetic of JavaScript on numbers that need not be whole. Nothing is assumed of it.
pub record Number (R : Type 0) : Type 0 where
  pub of_ℕ : ℕ → R
  pub add : R → R → R
  pub mul : R → R → R
  pub div : R → R → R
