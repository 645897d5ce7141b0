-- ===== src/Topology/Store/Preservation/Reports.antt =====
-- apps/topology/src/topology-store.ts: a report of activity keeps the store well formed.
use modular_runtime.Shared.{
  ℕ, String, List, true, ◌≡◌, refl, ◌∙◌, arith, elem, inl, inr, Option-cases, IsUnique, All,
  eq_refl,
}
use modular_runtime.Shared.Dict.{
  Dict, keys, get, set, elem-keys-set, set-IsUnique, All-set, All-get,
}
use modular_runtime.Topology.Types.{Number, ReportActivityRequest}
use modular_runtime.Topology.Store.State.{EdgeRecord, TopologyStore, edge_key, emit_node_update}
use modular_runtime.Topology.Store.Activity.{
  record_activity, activity_record, edge_activity, new_edge, count_activity,
}
use modular_runtime.Topology.Store.WellFormed.{IsEdgeOk, IsWellFormed}
use modular_runtime.Topology.Store.Preservation.Identity.{activity_record-IsSame, emit-IsSame}
use modular_runtime.Topology.Store.Preservation.Services.{put-IsWellFormed}

module _ {R : Type 0} ⦃num : Number R⦄ where
  pub count_activity-IsEdgeOk :
      (event : ReportActivityRequest R) (now : ℕ) (live : List String) (j : String)
      (e : EdgeRecord R)
      → IsEdgeOk live (j, e)
      → IsEdgeOk live (j, count_activity event now e)
  unfolding count_activity
  count_activity-IsEdgeOk event now live j e ok = ground arith

  pub new_edge-IsEdgeOk :
      (event : ReportActivityRequest R) (now : ℕ) (live : List String)
      → elem event.service_id live ≡ true
      → IsEdgeOk {R = R} live (
        edge_key event.service_id event.target_service,
        new_edge event.service_id event.target_service now,
      )
  unfolding new_edge
  new_edge-IsEdgeOk event now live h = record {
    key = refl;
    source = h;
    counted = record {
      errors = omega arith;
      pending_errors = omega arith;
      requests_shown = refl;
      errors_shown = refl;
      samples_rise = omega arith;
    };
  }

  edge_activity-IsUnique :
      (event : ReportActivityRequest R) (now : ℕ) (m : Dict (EdgeRecord R))
      → IsUnique (keys m)
      → IsUnique (keys (edge_activity event now m).0)
  unfolding edge_activity
  edge_activity-IsUnique event now m u =
      elim (Option-cases (get (edge_key event.service_id event.target_service) m)) [
        | inl e ↦ rw (e, edge_activity) (set-IsUnique _ _ m u)
        | inr (r, e) ↦ rw (e, edge_activity) (set-IsUnique _ _ m u)
      ]

  edge_activity-IsEdgeOk :
      (event : ReportActivityRequest R) (now : ℕ) (live : List String) (m : Dict (EdgeRecord R))
      → elem event.service_id live ≡ true
      → All (IsEdgeOk live) m
      → All (IsEdgeOk live) (edge_activity event now m).0
  unfolding edge_activity
  edge_activity-IsEdgeOk event now live m known h =
      elim (Option-cases (get (edge_key event.service_id event.target_service) m)) [
        | inl e ↦
            rw (e, edge_activity)
              (All-set (IsEdgeOk live) _ _ m
                (count_activity-IsEdgeOk event now live _ _
                  (new_edge-IsEdgeOk event now live known))
                h)
        | inr (r, e) ↦
            rw (e, edge_activity)
              (All-set (IsEdgeOk live) _ _ m
                (count_activity-IsEdgeOk event now live _ r (All-get (IsEdgeOk live) _ m r h e)) h)
      ]

  -- A report of activity, from a known or an unknown service, keeps a well-formed store well formed.
  pub record_activity-IsWellFormed :
      (event : ReportActivityRequest R) (now : ℕ) (s : TopologyStore R)
      → IsWellFormed s
      → IsWellFormed (record_activity event now s).0
  unfolding record_activity
  record_activity-IsWellFormed event now s w =
      elim (Option-cases (get event.service_id s.services)) [
        | inl e ↦ rw (e, record_activity) w
        | inr (r, e) ↦
            let id = event.service_id in
            let active = activity_record-IsSame now r in
            let emitted =
              emit-IsSame R s.settings (activity_record now r).1 (activity_record now r).0 now in
            let r' =
              (emit_node_update {R = R} s.settings (activity_record now r).1
                (activity_record now r).0 now).0 in
            let put =
              put-IsWellFormed id r r' s e
                (record { id = emitted.id ∙ active.id; name = emitted.name ∙ active.name }) w in
            let lives : elem id (keys (set id r' s.services)) ≡ true =
              ground (arith, elem-keys-set id id r' s.services, eq_refl id) in
            rw (e, record_activity)
              (record {
                services_unique = put.services_unique;
                services_named = put.services_named;
                edges_unique = edge_activity-IsUnique event now s.edges w.edges_unique;
                edges_ok = edge_activity-IsEdgeOk event now _ s.edges lives put.edges_ok;
                index_unique = put.index_unique;
                indexed = put.indexed;
              })
      ]
