-- ===== src/Dashboard/Stream/Tests.antt =====
-- apps/dashboard/src/hooks/useTopologyStream.ts: an update on which the theorem is tried, and one that is passed over.
use modular_runtime.Shared.{ℕ, Option, some, none, [], ◌∷◌, true, false, eqb, ◌≡◌, refl, ◌⊎◌}
use modular_runtime.Topology.Types.{
  ServiceType, ServiceLanguage, HealthState, ServiceState, ServiceMetadata, ServiceNode,
  TopologyUpdate, UpdateType,
}
use modular_runtime.Dashboard.{apply_update}
use modular_runtime.Dashboard.Stream.{
  ConnectionStatus, StreamState, are_service_nodes_equal, same_text, onmessage,
}
use modular_runtime.Dashboard.Stream.Kept.{ShowSame, onmessage-shows}

abbrev node_with : Option ServiceMetadata → ServiceNode
node_with m = record {
  service_id = "a";
  service_name = "Ingest";
  service_type = ServiceType.server;
  language = ServiceLanguage.typescript;
  version = none;
  address = some "127.0.0.1:6001";
  host = none;
  metadata = m;
  state = ServiceState.active;
  last_heartbeat_ms = 1000;
  last_activity_ms = 900;
  health = HealthState.healthy;
}

abbrev role : ServiceMetadata
role = record {
  region = none;
  environment = none;
  team = none;
  version_hash = none;
  service_interface = none;
  service_role = some "default";
  program_name = none;
}

-- The metadata is not compared.
metadata_not_compared : are_service_nodes_equal (node_with none) (node_with (some role)) ≡ true
unfolding are_service_nodes_equal same_text
metadata_not_compared = refl

abbrev shown : StreamState ℕ
shown = record {
  status = ConnectionStatus.live;
  snapshot = record { nodes = node_with none ∷ []; edges = []; timestamp_ms = 1000 };
  last_event_ms = 1000;
}

abbrev updated : TopologyUpdate ℕ
updated = record {
  type = UpdateType.node_updated;
  node = some (node_with (some role));
  edge = none;
  snapshot = none;
}

onmessage-shows_example :
    ((onmessage eqb false 2000 (some updated) shown).snapshot
      ≡ apply_update 2000 shown.snapshot updated)
    ⊎ ((onmessage eqb false 2000 (some updated) shown ≡ shown)
        × ShowSame eqb shown.snapshot (apply_update 2000 shown.snapshot updated))
onmessage-shows_example = onmessage-shows eqb false 2000 updated shown (λ e. cc)
