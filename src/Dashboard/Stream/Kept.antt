-- ===== src/Dashboard/Stream/Kept.antt =====
-- apps/dashboard/src/hooks/useTopologyStream.ts: what the hook shows after a message.
use modular_runtime.Shared.{
  ℕ, String, some, [], Bool, true, false, if◌then◌else◌, ◌≡◌, sym, ap, ◌∙◌, arith, Bool-cases, inl,
  inr, ◌⊎◌,
}
use modular_runtime.Shared.Dict.{get}
use modular_runtime.Topology.Types.{TopologySnapshot, TopologyUpdate}
use modular_runtime.Topology.Store.State.{key_of}
use modular_runtime.Dashboard.{apply_update}
use modular_runtime.Dashboard.Stream.{
  map_onto, are_maps_equal, are_service_nodes_equal, are_service_edges_equal, are_snapshots_equal,
  StreamState, onmessage,
}
use modular_runtime.Dashboard.Stream.Agreement.{AreSame, are_maps_equal-AreSame, map_onto-IsUnique}

module _ {R : Type 0} (same : R → R → Bool) where
  -- Under every service identifier and every edge key, the two snapshots have both nothing, or entries that count as equal.
  pub record ShowSame (left right : TopologySnapshot R) : Type 0 where
    pub nodes :
        (id : String)
        → AreSame are_service_nodes_equal
            (get id (map_onto (λ node. node.service_id) left.nodes []))
            (get id (map_onto (λ node. node.service_id) right.nodes []))
    pub edges :
        (key : String)
        → AreSame
            (are_service_edges_equal same)
            (get key (map_onto key_of left.edges []))
            (get key (map_onto key_of right.edges []))

  are_snapshots_equal-ShowSame :
      (left right : TopologySnapshot R)
      → are_snapshots_equal same false left right ≡ true
      → ShowSame left right
  unfolding are_snapshots_equal
  are_snapshots_equal-ShowSame left right h =
      let nodes_equal : are_maps_equal are_service_nodes_equal
            (map_onto (λ node. node.service_id) left.nodes [])
            (map_onto (λ node. node.service_id) right.nodes [])
          ≡ true =
        ground (arith, h) in
      let edges_equal : are_maps_equal (are_service_edges_equal same)
            (map_onto key_of left.edges []) (map_onto key_of right.edges [])
          ≡ true =
        ground (arith, h) in
      record {
        nodes =
            are_maps_equal-AreSame are_service_nodes_equal _ _
              (map_onto-IsUnique (λ node. node.service_id) left.nodes [] tt) nodes_equal;
        edges =
            are_maps_equal-AreSame (are_service_edges_equal same) _ _
              (map_onto-IsUnique key_of left.edges [] tt) edges_equal;
      }

  -- Let two snapshots that are the same object have the same contents. After a message that carries an update, the dashboard
  -- either shows just what the update makes of the snapshot, or nothing has changed, and then it and what the
  -- update makes of it have the same service identifiers and the same edge keys, and under each of them entries that agree in all
  -- fields that are compared.
  pub onmessage-shows :
      (identical : Bool) (now : ℕ) (update : TopologyUpdate R) (s : StreamState R)
      → (identical ≡ true → s.snapshot ≡ apply_update now s.snapshot update)
      → ((onmessage same identical now (some update) s).snapshot
          ≡ apply_update now s.snapshot update)
        ⊎ ((onmessage same identical now (some update) s ≡ s)
            × ShowSame s.snapshot (apply_update now s.snapshot update))
  unfolding onmessage
  onmessage-shows identical now update s h =
      let next = apply_update now s.snapshot update in
      let changed : StreamState R = record s { snapshot = next; last_event_ms = now } in
      elim (Bool-cases (are_snapshots_equal same identical s.snapshot next)) [
        | inr differ ↦ inl (ap (λ b. (if b then s else changed).snapshot) differ)
        | inl equal ↦ elim (Bool-cases identical) [
          | inl one ↦ inl (ap (λ b. (if b then s else changed).snapshot) equal ∙ h one)
          | inr two ↦ inr (
            ap (λ b. if b then s else changed) equal,
            are_snapshots_equal-ShowSame s.snapshot next
                (ap (λ b. are_snapshots_equal same b s.snapshot next) (sym two) ∙ equal),
          )
        ]
      ]
