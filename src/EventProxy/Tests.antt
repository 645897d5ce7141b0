-- ===== src/EventProxy/Tests.antt =====
-- apps/topology/src/topology-proxy.ts: a run of the proxy on which the theorems are tried.
use modular_runtime.Shared.{ℕ, some, none, List, [], ◌∷◌, true, false, ◌≡◌, refl, eqb, any}
use modular_runtime.Topology.Types.{TopologySnapshot, TopologyUpdate, UpdateType}
use modular_runtime.Dashboard.{apply_updates}
use modular_runtime.EventProxy.{
  TopologyProxy, handle_sse, handle_stream_data, start_watch_stream, snapshot_fetched, closed,
  broadcast, write_each,
}
use modular_runtime.EventProxy.Replay.{
  written_to, deliver, dashboard_after_snapshot, closed_listener_stays,
}

abbrev snapshot_at : ℕ → TopologySnapshot ℕ
snapshot_at ms = record { nodes = []; edges = []; timestamp_ms = ms }

abbrev update_at : ℕ → TopologyUpdate ℕ
update_at ms = record {
  type = UpdateType.snapshot;
  node = none;
  edge = none;
  snapshot = some (snapshot_at ms);
}

abbrev fresh : TopologyProxy ℕ
fresh = record {
  listeners = [];
  last_snapshot = none;
  watch_stream = none;
  is_stopping = false;
  fetching = [];
  delays = 0;
}

-- A browser listens, and an update comes before its snapshot.
abbrev waiting : TopologyProxy ℕ
unfolding start_watch_stream handle_sse handle_stream_data broadcast write_each
waiting = handle_stream_data (some (update_at 4)) (handle_sse 1 (start_watch_stream 9 fresh))

dashboard_after_snapshot_example :
    (written : List (TopologyUpdate ℕ)) × (written_to 1
        (deliver (update_at 6 ∷ []) (snapshot_fetched 1 (some (snapshot_at 3)) waiting)).listeners
      ≡ some written)
    × (apply_updates 0 (snapshot_at 0) written ≡ apply_updates 0 (snapshot_at 3) (update_at 6 ∷ []))
unfolding start_watch_stream handle_sse handle_stream_data broadcast write_each
dashboard_after_snapshot_example =
    dashboard_after_snapshot 0 1 (snapshot_at 0) (snapshot_at 3) (update_at 4 ∷ [])
      (update_at 6 ∷ []) waiting refl refl

closed_listener_stays_example :
    any
      (λ l. eqb l.response 2)
      (snapshot_fetched 2 (some (snapshot_at 8)) (closed 2 (handle_sse 2 waiting))).listeners
    ≡ true
closed_listener_stays_example = closed_listener_stays 2 (some (snapshot_at 8)) waiting
