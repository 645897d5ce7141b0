-- ===== src/Topology/Store/Activity.antt =====
-- apps/topology/src/topology-store.ts: activity reports and their aggregation into edge metrics.
use modular_runtime.Shared.{
  ℕ, ◌+◌, ◌-◌, max, String, Option, some, none, List, [], ◌∷◌, ◌++◌, Bool, true, false, ◌&&◌, ltb,
  leb, eqb, if◌then◌else◌, or_else, length, last?,
}
use modular_runtime.Shared.Dict.{Dict, keys, get, set}
use modular_runtime.Shared.Loops.{for_each}
use modular_runtime.Topology.Types.{
  ServiceState, ConnectionState, ActivityType, UpdateType, TopologyUpdate, ReportActivityRequest,
  Number, ℤ, pos, negsuc,
}
use modular_runtime.Topology.Store.State.{
  ServiceRecord, EdgeRecord, RateSample, Settings, TopologyStore, edge_key, create_edge_update,
  emit_node_update,
}

abbrev pub is_active : ServiceState → Bool
is_active ServiceState.active = true
is_active _ = false

-- `Math.max(1, event.batchSize ?? 1)`
unfoldable pub batch_size_of : Option ℤ → ℕ
batch_size_of none = max 1 1
batch_size_of (some (pos n)) = max 1 n
batch_size_of (some (negsuc n)) = 1

-- `event.type === ACTIVITY_TYPE_ERROR || event.success === false`
unfoldable pub is_error : ActivityType → Option Bool → Bool
is_error ActivityType.error success = true
is_error _ (some false) = true
is_error _ _ = false

-- What a report does to the record of its sender, and whether an update is forced.
unfoldable pub activity_record : ℕ → ServiceRecord → ServiceRecord × Bool
activity_record now r =
    let timed = record r {
      last_activity_ms = now;
      node = record r.node { last_activity_ms = now };
    } in
    if is_active r.node.state
    then (timed, false)
    else (record timed { node = record timed.node { state = ServiceState.active } }, true)

-- `while (rateSamples.length > 2 && rateSamples[0].timeMs < cutoff) rateSamples.shift()`
unfoldable pub drop_samples : ℕ → List RateSample → List RateSample
drop_samples cutoff [] = []
drop_samples cutoff (x ∷ xs) =
    let shorter = drop_samples cutoff xs in
    if ltb 2 (length (x ∷ xs)) && ltb x.time_ms cutoff then shorter else x ∷ xs

module _ {R : Type 0} ⦃num : Number R⦄ where
  unfoldable pub new_edge : String → String → ℕ → EdgeRecord R
  new_edge source target now = record {
    edge = record {
      source_service_id = source;
      target_service = target;
      state = ConnectionState.active;
      last_activity_ms = now;
      total_requests = 0;
      total_errors = 0;
      avg_latency_ms = num.of_ℕ 0;
      rps = num.of_ℕ 0;
    };
    last_activity_ms = now;
    last_flush_ms = now;
    pending_count = 0;
    pending_error_count = 0;
    pending_latency_total = num.of_ℕ 0;
    total_count = 0;
    total_error_count = 0;
    avg_latency_ms = num.of_ℕ 0;
    rate_samples = record { time_ms = now; total_count = 0 } ∷ [];
  }

  -- The report is added to what is pending on the edge.
  unfoldable pub count_activity : ReportActivityRequest R → ℕ → EdgeRecord R → EdgeRecord R
  count_activity event now e =
      let batch_size = batch_size_of event.batch_size in
      record e {
        pending_count = e.pending_count + batch_size;
        pending_latency_total =
            num.add e.pending_latency_total
              (num.mul (or_else event.latency_ms (num.of_ℕ 0)) (num.of_ℕ batch_size));
        pending_error_count =
            if is_error event.type event.success
            then e.pending_error_count + batch_size
            else e.pending_error_count;
        last_activity_ms = now;
        edge = record e.edge { last_activity_ms = now; state = ConnectionState.active };
      }

  -- The part of `recordActivity` that concerns the edge: it is created when it is missing.
  unfoldable pub edge_activity :
      ReportActivityRequest R
      → ℕ
      → Dict (EdgeRecord R)
      → Dict (EdgeRecord R) × List (TopologyUpdate R)
  edge_activity event now edges =
      let key = edge_key event.service_id event.target_service in
      elim (get key edges) [
        | none ↦
            let created = new_edge event.service_id event.target_service now in
            (
              set key (count_activity event now created) edges,
              create_edge_update UpdateType.edge_added created.edge ∷ [],
            )
        | some e ↦ (set key (count_activity event now e) edges, [])
      ]

  unfoldable pub record_activity :
      ReportActivityRequest R → ℕ → TopologyStore R → TopologyStore R × List (TopologyUpdate R)
  record_activity event now s = elim (get event.service_id s.services) [
    | none ↦ (s, [])
    | some r ↦
        let (active, force) = activity_record now r in
        let (r', node_updates) = emit_node_update s.settings force active now in
        let (edges, edge_updates) = edge_activity event now s.edges in
        (
          record s { services = set event.service_id r' s.services; edges = edges },
          node_updates ++ edge_updates,
        )
  ]

  unfoldable pub rate_of : List RateSample → R
  rate_of [] = num.of_ℕ 0
  rate_of (oldest ∷ rest) = elim (last? rest) [
    | none ↦ num.of_ℕ 0
    | some latest ↦
        num.div (num.of_ℕ (latest.total_count - oldest.total_count))
          (num.div (num.of_ℕ (max 1 (latest.time_ms - oldest.time_ms))) (num.of_ℕ 1000))
  ]

  unfoldable pub update_edge_rps : Settings → ℕ → R → EdgeRecord R → EdgeRecord R
  update_edge_rps cfg now elapsed_seconds e =
      if leb cfg.rps_window_ms 0
      then record e {
        edge = record e.edge { rps = num.div (num.of_ℕ e.pending_count) elapsed_seconds };
      }
      else let pushed =
          e.rate_samples ++ record { time_ms = now; total_count = e.total_count } ∷ [] in
        let samples = drop_samples (now - cfg.rps_window_ms) pushed in
        record e { rate_samples = samples; edge = record e.edge { rps = rate_of samples } }

  -- The body of the loop of `flushActivity` on an edge with pending activity.
  unfoldable pub flush_record : Settings → ℕ → R → EdgeRecord R → EdgeRecord R
  flush_record cfg now elapsed_seconds e =
      let total_count = e.total_count + e.pending_count in
      let total_error_count = e.total_error_count + e.pending_error_count in
      let previous_count = total_count - e.pending_count in
      let previous_latency_total = num.mul e.avg_latency_ms (num.of_ℕ (max 0 previous_count)) in
      let avg_latency_ms =
        if eqb total_count 0
        then num.of_ℕ 0
        else num.div (num.add previous_latency_total e.pending_latency_total)
            (num.of_ℕ total_count) in
      let counted = record e {
        total_count = total_count;
        total_error_count = total_error_count;
        avg_latency_ms = avg_latency_ms;
        edge = record e.edge {
          total_requests = total_count;
          total_errors = total_error_count;
          avg_latency_ms = avg_latency_ms;
        };
      } in
      let rated = update_edge_rps cfg now elapsed_seconds counted in
      record rated {
        pending_count = 0;
        pending_error_count = 0;
        pending_latency_total = num.of_ℕ 0;
        last_flush_ms = now;
      }

  unfoldable pub flush_edge :
      Settings
      → ℕ
      → R
      → String
      → Dict (EdgeRecord R)
      → Dict (EdgeRecord R) × List (TopologyUpdate R)
  flush_edge cfg now elapsed_seconds key edges = elim (get key edges) [
    | none ↦ (edges, [])
    | some e ↦
        if eqb e.pending_count 0
        then (edges, [])
        else let flushed = flush_record cfg now elapsed_seconds e in
          (set key flushed edges, create_edge_update UpdateType.edge_updated flushed.edge ∷ [])
  ]

  unfoldable pub flush_activity : ℕ → TopologyStore R → TopologyStore R × List (TopologyUpdate R)
  flush_activity now s =
      let elapsed_ms = max 1 (now - s.last_activity_flush_ms) in
      let elapsed_seconds = num.div (num.of_ℕ elapsed_ms) (num.of_ℕ 1000) in
      let (edges, updates) =
        for_each (flush_edge s.settings now elapsed_seconds) (keys s.edges) s.edges in
      (record s { edges = edges; last_activity_flush_ms = now }, updates)
