-- ===== src/Topology/Store/Laws/Accounting.antt =====
-- apps/topology/src/topology-store.ts: reported requests and errors, from the reports to the flush.
use modular_runtime.Shared.{
  ℕ, ◌+◌, ◌-◌, max, String, Option, some, none, List, [], ◌∷◌, ◌==◌, ◌≡◌, refl, ◌∙◌, arith, eqb,
  if◌then◌else◌, elem, inl, inr, Option-cases, Bool-cases, eq_iff,
}
use modular_runtime.Shared.Dict.{
  Dict, keys, get, get-set, keys-set_old, elem_of_get, not_elem_of_get, All-get,
}
use modular_runtime.Shared.Loops.{for_each}
use modular_runtime.Shared.Pointwise.{then_apply, for_each-get}
use modular_runtime.Topology.Types.{Number, ReportActivityRequest}
use modular_runtime.Topology.Store.State.{EdgeRecord, Settings, TopologyStore, edge_key}
use modular_runtime.Topology.Store.Activity.{
  record_activity, edge_activity, count_activity, new_edge, batch_size_of, is_error, flush_activity,
  flush_edge, flush_record, update_edge_rps,
}
use modular_runtime.Topology.Store.EdgeRules.{flush_rule, flush_edge-IsPointwise}
use modular_runtime.Topology.Store.WellFormed.{IsWellFormed, IsEdgeOk, IsCounted}
use modular_runtime.Topology.Store.Preservation.{record_activity-IsWellFormed}

-- Requests and errors of an edge, flushed or not, and as the update shows them.
abbrev pub Tally : Type 0
Tally = ℕ × ℕ

abbrev pub plus : Tally → Tally → Tally
plus a b = (a.0 + b.0, a.1 + b.1)

module _ {R : Type 0} where
  abbrev pub volume : Option (EdgeRecord R) → Tally
  volume none = (0, 0)
  volume (some e) = (e.total_count + e.pending_count, e.total_error_count + e.pending_error_count)

  abbrev pub shown : Option (EdgeRecord R) → Tally
  shown none = (0, 0)
  shown (some e) = (e.edge.total_requests, e.edge.total_errors)

  -- What a report adds to the edge under `key`.
  unfoldable pub reported_by : String → ReportActivityRequest R → Tally
  reported_by key event =
      let n = batch_size_of event.batch_size in
      if edge_key event.service_id event.target_service == key
      then (n, if is_error event.type event.success then n else 0)
      else (0, 0)

  -- All that reports of known services add to it.
  unfoldable pub reported : String → List String → List (ℕ × ReportActivityRequest R) → Tally
  unfolding reported_by
  reported key known [] = (0, 0)
  reported key known ((now, event) ∷ events) =
      let rest = reported key known events in
      if elem event.service_id known then plus (reported_by key event) rest else rest

module _ {R : Type 0} ⦃num : Number R⦄ where
  unfoldable pub report_all : List (ℕ × ReportActivityRequest R) → TopologyStore R → TopologyStore R
  report_all [] s = s
  report_all ((now, event) ∷ events) s = report_all events (record_activity event now s).0

  volume-edge_activity :
      (key : String) (event : ReportActivityRequest R) (now : ℕ) (m : Dict (EdgeRecord R))
      → volume (get key (edge_activity event now m).0)
        ≡ plus (reported_by key event) (volume (get key m))
  unfolding edge_activity reported_by count_activity new_edge
  volume-edge_activity key event now m =
      elim (Option-cases (get (edge_key event.service_id event.target_service) m)) [
        | inl e ↦
            let made : EdgeRecord R = new_edge event.service_id event.target_service now in
            rw (e, edge_activity)
              (ground (
                arith,
                get-set (edge_key event.service_id event.target_service) key
                    (count_activity event now made) m,
                eq_iff (edge_key event.service_id event.target_service) key,
              ))
        | inr (r, e) ↦
            rw (e, edge_activity)
              (ground (
                arith,
                get-set (edge_key event.service_id event.target_service) key
                    (count_activity event now r) m,
                eq_iff (edge_key event.service_id event.target_service) key,
              ))
      ]

  volume-record_activity :
      (key : String) (event : ReportActivityRequest R) (now : ℕ) (s : TopologyStore R)
      → volume (get key (record_activity event now s).0.edges) ≡ (
          if elem event.service_id (keys s.services)
          then plus (reported_by key event) (volume (get key s.edges))
          else volume (get key s.edges))
  unfolding record_activity
  volume-record_activity key event now s = elim (Option-cases (get event.service_id s.services)) [
    | inl e ↦ rw (e, record_activity) (rw (not_elem_of_get _ s.services e))
    | inr (r, e) ↦
        rw (e, record_activity)
          (rw (elem_of_get _ s.services r e) (volume-edge_activity key event now s.edges))
  ]

  keys-record_activity :
      (event : ReportActivityRequest R) (now : ℕ) (s : TopologyStore R)
      → keys (record_activity event now s).0.services ≡ keys s.services
  unfolding record_activity
  keys-record_activity event now s = elim (Option-cases (get event.service_id s.services)) [
    | inl e ↦ rw (e, record_activity)
    | inr (r, e) ↦
        rw (e, record_activity) (keys-set_old _ _ s.services (elem_of_get _ s.services r e))
  ]

  volume-report_all :
      (key : String) (events : List (ℕ × ReportActivityRequest R)) (s : TopologyStore R)
      → volume (get key (report_all events s).edges)
        ≡ plus (reported key (keys s.services) events) (volume (get key s.edges))
  unfolding report_all reported
  volume-report_all key [] s = ground arith
  volume-report_all key ((now, event) ∷ events) s =
      let known = keys-record_activity event now s in
      rw
        (
          volume-report_all key events (record_activity event now s).0,
          known,
          volume-record_activity key event now s,
        )
        (ground arith)

  shown-flush_record :
      (cfg : Settings) (now : ℕ) (secs : R) (e : EdgeRecord R)
      → shown (some (flush_record cfg now secs e)) ≡ volume (some e)
  unfolding flush_record update_edge_rps
  shown-flush_record cfg now secs e = ground arith

  report_all-IsWellFormed :
      (events : List (ℕ × ReportActivityRequest R)) (s : TopologyStore R)
      → IsWellFormed s
      → IsWellFormed (report_all events s)
  unfolding report_all
  report_all-IsWellFormed [] s w = w
  report_all-IsWellFormed ((now, event) ∷ events) s w =
      report_all-IsWellFormed events (record_activity event now s).0
        (record_activity-IsWellFormed event now s w)

  -- A flush shows the whole volume of an edge.
  shown-flush_rule :
      (cfg : Settings) (now : ℕ) (secs : R) (e : EdgeRecord R)
      → IsCounted e
      → shown (flush_rule cfg now secs e) ≡ volume (some e)
  unfolding flush_rule
  shown-flush_rule cfg now secs e c = elim (Bool-cases (eqb e.pending_count 0)) [
    | inl none_pending ↦
        rw (none_pending, c.requests_shown, c.errors_shown) (ground (arith, c.pending_errors))
    | inr pending ↦ rw pending (shown-flush_record cfg now secs e)
  ]

  shown-flush_activity :
      (key : String) (now : ℕ) (s : TopologyStore R)
      → IsWellFormed s
      → shown (get key (flush_activity now s).0.edges) ≡ volume (get key s.edges)
  unfolding flush_activity
  shown-flush_activity key now s w = elim (Option-cases (get key s.edges)) [
    | inl e ↦ rw (flushed, e) refl
    | inr (r, e) ↦
        rw (flushed, e)
          (shown-flush_rule s.settings now seconds r
            (All-get (IsEdgeOk (keys s.services)) key s.edges r w.edges_ok e).counted)
  ]
    where
      seconds : R
      seconds = num.div (num.of_ℕ (max 1 (now - s.last_activity_flush_ms))) (num.of_ℕ 1000)

      flushed :
          get key (for_each (flush_edge s.settings now seconds) (keys s.edges) s.edges).0
          ≡ then_apply (flush_rule s.settings now seconds) (get key s.edges)
      flushed =
          for_each-get (flush_edge-IsPointwise s.settings now seconds) s.edges key w.edges_unique

  -- After any sequence of activity reports to a well-formed store and a flush, the requests and the
  -- errors that the edge under `key` shows are those it had, flushed or not, plus the batch sizes
  -- (at least 1 each) of all reports for that key from known services, as requests, and of the
  -- failed ones among them, as errors.
  pub reports-flush_activity :
      (key : String) (events : List (ℕ × ReportActivityRequest R)) (now : ℕ) (s : TopologyStore R)
      → IsWellFormed s
      → shown (get key (flush_activity now (report_all events s)).0.edges)
        ≡ plus (reported key (keys s.services) events) (volume (get key s.edges))
  reports-flush_activity key events now s w =
      shown-flush_activity key now (report_all events s) (report_all-IsWellFormed events s w)
      ∙ volume-report_all key events s
