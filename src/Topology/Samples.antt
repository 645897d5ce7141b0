-- ===== src/Topology/Samples.antt =====
-- apps/topology/src: two services and some activity, on which the theorems are tried. Times and means
-- are rounded down to whole numbers here.
use modular_runtime.Shared.{
  ℕ, ◌+◌, ◌*◌, String, Option, some, none, List, [], ◌∷◌, Bool, true, false, ◌≡◌, refl,
}
use modular_runtime.Shared.Dict.{get, set}
use modular_runtime.Topology.Types.{
  Number, ℤ, pos, negsuc, ServiceType, ServiceLanguage, ActivityType, TopologyUpdate,
  RegisterServiceRequest, HeartbeatRequest, ReportActivityRequest, HealthState,
}
use modular_runtime.Topology.Store.State.{
  ServiceRecord, TopologyStore, TopologyStoreOptions, settings_of, new_store,
}
use modular_runtime.Topology.Store.Services.{register_service, new_record}
use modular_runtime.Topology.Store.WellFormed.{IsWellFormed, new_store-IsWellFormed}
use modular_runtime.Topology.Store.Preservation.{register_service-IsWellFormed}
use modular_runtime.Topology.Service.{Watcher, Service}

instance abbrev pub whole : Number ℕ
whole = record { of_ℕ = λ n. n; add = ◌+◌; mul = ◌*◌; div = λ m n. m }

abbrev pub no_options : TopologyStoreOptions
no_options = record {
  heartbeat_interval_ms = none;
  timeout_multiplier = none;
  idle_timeout_ms = none;
  unknown_edge_timeout_ms = none;
  rps_window_ms = none;
  activity_flush_ms = none;
  node_update_throttle_ms = none;
}

abbrev pub request_of : String → RegisterServiceRequest
request_of name = record {
  service_name = name;
  service_type = ServiceType.server;
  language = ServiceLanguage.typescript;
  version = none;
  address = none;
  host = none;
  metadata = none;
}

abbrev pub empty_store : TopologyStore ℕ
empty_store = new_store no_options 0

abbrev pub one : TopologyStore ℕ
one = (register_service (request_of "Ingest") "a" 1000 empty_store).0

abbrev pub two : TopologyStore ℕ
two = (register_service (request_of "Parse") "b" 2000 one).0

pub two-IsWellFormed : IsWellFormed two
unfolding register_service new_store set
two-IsWellFormed = register_service-IsWellFormed (request_of "Parse") "b" 2000 one refl (
    register_service-IsWellFormed (request_of "Ingest") "a" 1000 empty_store refl
      (new_store-IsWellFormed no_options 0))

abbrev pub activity : String → String → Option ℤ → Option Bool → ReportActivityRequest ℕ
activity source target batch_size success = record {
  service_id = source;
  target_service = target;
  type = ActivityType.request_sent;
  latency_ms = some 7;
  success = success;
  batch_size = batch_size;
}

-- A batch of five, a failed request without a batch size, and a report of an unknown service.
abbrev pub events : List (ℕ × ReportActivityRequest ℕ)
events =
    (2100, activity "a" "Parse" (some (pos 5)) none)
    ∷ (2200, activity "a" "Parse" (some (negsuc 2)) (some false))
    ∷ (2300, activity "x" "Parse" (some (pos 9)) none)
    ∷ []

abbrev pub alpha : ServiceRecord
alpha = new_record (settings_of no_options) (request_of "Ingest") "a" 1000

abbrev pub served : Service ℕ
served = record { store = two; watchers = [] }

abbrev pub accepts_all : Watcher ℕ → TopologyUpdate ℕ → Bool
accepts_all w u = true

abbrev pub beat : String → HeartbeatRequest
beat id = record {
  service_id = id;
  sequence = 4;
  health = some (record { state = HealthState.healthy; message = none });
}

pub found_a : get "a" two.services ≡ some alpha
unfolding register_service new_store set get
found_a = refl
