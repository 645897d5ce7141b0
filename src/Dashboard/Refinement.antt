-- ===== src/Dashboard/Refinement.antt =====
-- Playing the updates of an operation of the store (apps/topology/src/topology-store.ts) on a dashboard
-- that shows the store gives a dashboard that shows the store after the operation.
use modular_runtime.Shared.{
  ℕ, String, List, [], map, ◌≡◌, refl, sym, ◌∙◌, ap, inl, inr, Option-cases, Bool-cases,
}
use modular_runtime.Shared.Dict.{Dict, keys, values, get, All-get}
use modular_runtime.Shared.Loops.{for_each, for_each-refines}
use modular_runtime.Topology.Types.{Number, TopologySnapshot, ReportActivityRequest}
use modular_runtime.Topology.Store.State.{EdgeRecord, TopologyStore, edge_key, emit_node_update}
use modular_runtime.Topology.Store.Activity.{
  record_activity, activity_record, edge_activity, new_edge, count_activity, flush_activity,
}
use modular_runtime.Topology.Store.Sweep.{
  sweep, sweep_service, sweep_edge, has_timed_out, collect_targets,
}
use modular_runtime.Topology.Store.WellFormed.{IsWellFormed, IsNamed}
use modular_runtime.Topology.Store.Preservation.{sweep_service-IsWellFormed, activity_record-IsSame}
use modular_runtime.Dashboard.{apply_update, apply_updates, upsert_edge}
use modular_runtime.Dashboard.Sync.{
  IsSynced, AreEdgesSynced, put_edge, apply_updates-append, apply_updates-nil,
}
use modular_runtime.Dashboard.Upsert.{map-values-set_same}
use modular_runtime.Dashboard.Services.{emit_node_update-IsPlayed, marks-IsPlayed, activity_quiet}
use modular_runtime.Dashboard.Edges.{
  AreEdgesPlayed, sweep_edges-AreEdgesPlayed, flush_edges-AreEdgesPlayed,
}
use modular_runtime.Dashboard.Removal.{remove_service-IsSynced}

module _ {R : Type 0} where
  sweep_service-IsSynced :
      (now t : ℕ) (id : String) (snap : TopologySnapshot R) (s : TopologyStore R)
      → IsWellFormed s
      → IsSynced snap s
      → IsSynced (apply_updates t snap (sweep_service now id s).1) (sweep_service now id s).0
  unfolding sweep_service
  sweep_service-IsSynced now t id snap s w h = elim (Option-cases (get id s.services)) [
    | inl e ↦ rw (e, sweep_service) (rw (apply_updates-nil t snap) h)
    | inr (r, e) ↦ elim (Bool-cases (has_timed_out now r)) [
      | inl dead ↦ rw (e, sweep_service, dead) (remove_service-IsSynced t snap s w h id)
      | inr live ↦
          let (nodes, edges) =
            marks-IsPlayed t snap s.services w.services_named w.services_unique h.nodes s.settings
              now id r e (All-get IsNamed id s.services r w.services_named e) in
          rw (e, sweep_service, live) (record { nodes = nodes; edges = rw edges h.edges })
    ]
  ]

  sweep_services-IsSynced :
      (now t : ℕ) (ids : List String) (snap : TopologySnapshot R) (s : TopologyStore R)
      → IsWellFormed s × IsSynced snap s
      → let (s', us) = for_each (sweep_service now) ids s in
        IsWellFormed s' × IsSynced (apply_updates t snap us) s'
  sweep_services-IsSynced now t ids snap s =
      for_each-refines (apply_updates t) (apply_updates-append t) (apply_updates-nil t)
        (λ a b. IsWellFormed b × IsSynced a b) (sweep_service now) ids snap s
        λ id a b h.
          (sweep_service-IsWellFormed now id b h.0, sweep_service-IsSynced now t id a b h.0 h.1)

  edges_ready :
      (snap : TopologySnapshot R) (s : TopologyStore R)
      → IsWellFormed s
      → IsSynced snap s
      → AreEdgesPlayed (keys s.services) snap.nodes snap s.edges
  edges_ready snap s w h = record {
    unique = w.edges_unique;
    ok = w.edges_ok;
    same_nodes = refl;
    edges = h.edges;
  }

  -- A dashboard in step with a well-formed store is in step with the store after a sweep once it has
  -- applied the updates of the sweep.
  pub sweep-IsSynced :
      (now t : ℕ) (snap : TopologySnapshot R) (s : TopologyStore R)
      → IsWellFormed s
      → IsSynced snap s
      → IsSynced (apply_updates t snap (sweep now s).1) (sweep now s).0
  unfolding sweep
  sweep-IsSynced now t snap s w h =
      let known = collect_targets (values s.services) [] in
      let (s', us) = for_each (sweep_service {R = R} now) (keys s.services) s in
      let (w', h') = sweep_services-IsSynced now t (keys s.services) snap s (w, h) in
      let played =
        sweep_edges-AreEdgesPlayed (keys s'.services) s'.settings now t known
          (apply_updates t snap us).nodes (apply_updates t snap us) s'.edges
          (edges_ready (apply_updates t snap us) s' w' h') in
      rw
        (apply_updates-append t snap us
          (for_each (sweep_edge s'.settings now known) (keys s'.edges) s'.edges).1)
        (record { nodes = ap (map _) played.same_nodes ∙ h'.nodes; edges = played.edges })

module _ {R : Type 0} ⦃num : Number R⦄ where
  -- A dashboard in step with a well-formed store is in step with the store after a flush once it has
  -- applied the updates of the flush.
  pub flush_activity-IsSynced :
      (now t : ℕ) (snap : TopologySnapshot R) (s : TopologyStore R)
      → IsWellFormed s
      → IsSynced snap s
      → IsSynced (apply_updates t snap (flush_activity now s).1) (flush_activity now s).0
  unfolding flush_activity
  flush_activity-IsSynced now t snap s w h =
      let played =
        flush_edges-AreEdgesPlayed (keys s.services) s.settings now t _ snap.nodes snap s.edges
          (edges_ready snap s w h) in
      record { nodes = ap (map _) played.same_nodes ∙ h.nodes; edges = played.edges }

  edge_activity-shown :
      (event : ReportActivityRequest R) (now t : ℕ) (live : List String) (snap : TopologySnapshot R)
      (m : Dict (EdgeRecord R))
      → AreEdgesPlayed live snap.nodes snap m
      → ((apply_updates t snap (edge_activity event now m).1).nodes ≡ snap.nodes)
        × AreEdgesSynced
            (apply_updates t snap (edge_activity event now m).1).edges
            (edge_activity event now m).0
  unfolding edge_activity apply_updates apply_update upsert_edge count_activity new_edge
  edge_activity-shown event now t live snap m h =
      elim (Option-cases (get (edge_key event.service_id event.target_service) m)) [
        | inl e ↦
            rw (e, edge_activity)
              (refl, put_edge _ _ _ live snap.edges m h.ok h.unique refl refl h.edges)
        | inr (r, e) ↦
            rw (e, edge_activity) (refl, h.edges ∙ sym (map-values-set_same _ _ _ r m e refl))
      ]

  -- A dashboard in step with a well-formed store is in step with the store after a report of activity
  -- once it has applied the updates of the report.
  pub record_activity-IsSynced :
      (event : ReportActivityRequest R) (now t : ℕ) (snap : TopologySnapshot R)
      (s : TopologyStore R)
      → IsWellFormed s
      → IsSynced snap s
      → IsSynced
          (apply_updates t snap (record_activity event now s).1)
          (record_activity event now s).0
  unfolding record_activity
  record_activity-IsSynced event now t snap s w h =
      elim (Option-cases (get event.service_id s.services)) [
        | inl e ↦ rw (e, record_activity) (rw (apply_updates-nil t snap) h)
        | inr (r, e) ↦
            let (active, force) = activity_record now r in
            let (r', us) = emit_node_update {R = R} s.settings force active now in
            let (nodes, edges) =
              emit_node_update-IsPlayed t snap s.services w.services_named w.services_unique h.nodes
                s.settings force now event.service_id r active e
                ((activity_record-IsSame now r).id
                  ∙ All-get IsNamed event.service_id s.services r w.services_named e)
                (activity_quiet now r) in
            let (kept, shown) =
              edge_activity-shown event now t (keys s.services) (apply_updates t snap us) s.edges
                (record {
                  unique = w.edges_unique;
                  ok = w.edges_ok;
                  same_nodes = refl;
                  edges = rw edges h.edges;
                }) in
            rw (e, record_activity)
              (rw (apply_updates-append t snap us (edge_activity event now s.edges).1)
                (record { nodes = ap (map _) kept ∙ nodes; edges = shown }))
      ]
