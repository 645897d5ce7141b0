-- ===== src/Topology/Store/Laws/Liveness.antt =====
-- apps/topology/src/topology-store.ts: which services a sweep removes, marks stale or marks idle.
use modular_runtime.Shared.{
  leb, eqb, ltb, not, ◌||◌, ◌&&◌, Bool, false, ℕ, ◌-◌, ◌*◌, ◌≤◌, String, Option, some, none, List,
  [], ◌∷◌, true, ◌==◌, ◌≡◌, ◌∙◌, refl, arith, if◌then◌else◌, elem, IsUnique, inl, inr, Option-cases,
  Bool-cases, eq_iff,
}
use modular_runtime.Shared.Dict.{keys, get, get-set, get-delete, get_of_not_elem}
use modular_runtime.Shared.Loops.{for_each}
use modular_runtime.Shared.Pointwise.{then_apply}
use modular_runtime.Topology.Types.{UpdateType, ServiceState}
use modular_runtime.Topology.Store.State.{ServiceRecord, Settings, TopologyStore}
use modular_runtime.Topology.Store.Services.{is_stale, remove_service, remove_record}
use modular_runtime.Topology.Store.Activity.{is_active}
use modular_runtime.Topology.Store.Sweep.{
  sweep, sweep_service, has_timed_out, mark_stale, mark_idle,
}
use modular_runtime.Topology.Store.WellFormed.{IsWellFormed}
use modular_runtime.Topology.Store.Preservation.{sweep_service-IsWellFormed}

-- What the rounds of the sweep make of one service; `none` is removal.
unfoldable pub sweep_record : Settings → ℕ → ServiceRecord → Option ServiceRecord
sweep_record cfg now r =
    if has_timed_out now r then none else some (mark_idle cfg now (mark_stale now r).0).0

-- The state to which a sweep moves a service, if it moves it: a service that missed two intervals is stale, and an
-- active one that did not, and is not busy, is idle.
abbrev pub moved_to : Bool → Bool → ServiceState → Option ServiceState
moved_to true unused ServiceState.stale = none
moved_to true unused s = some ServiceState.stale
moved_to false true ServiceState.active = some ServiceState.idle
moved_to false unused s = none

-- The service that is left, by the times alone; `none` is one that is past its timeout.
abbrev pub left_of : Settings → ℕ → ServiceRecord → Option ServiceRecord
left_of cfg now r =
    let silence = now - r.last_heartbeat_ms in
    let missed_two = ltb (r.heartbeat_interval_ms * 2) silence in
    let unused = ltb 0 r.last_activity_ms && ltb cfg.idle_timeout_ms (now - r.last_activity_ms) in
    let moved : ServiceRecord = elim (moved_to missed_two unused r.node.state) [
      | none ↦ r
      | some s ↦ record r { node = record r.node { state = s }; last_node_update_ms = now }
    ] in
    if ltb (r.heartbeat_interval_ms * r.timeout_multiplier) silence then none else some moved

sweep_record-left_of :
    (cfg : Settings) (now : ℕ) (r : ServiceRecord) → sweep_record cfg now r ≡ left_of cfg now r
unfolding sweep_record has_timed_out mark_stale mark_idle
sweep_record-left_of cfg now r = ground arith

module _ {R : Type 0} where
  get-remove_service :
      (id j : String) (s : TopologyStore R)
      → IsWellFormed s
      → get j (remove_service id UpdateType.node_removed s).0.services
        ≡ (if id == j then none else get j s.services)
  unfolding remove_service remove_record
  get-remove_service id j s w = elim (Option-cases (get id s.services)) [
    | inl e ↦ rw (e, remove_service) (ground (arith, eq_iff id j))
    | inr (r, e) ↦ rw (e, remove_service) (get-delete id j s.services w.services_unique)
  ]

  settings-remove_service :
      (id : String) (s : TopologyStore R)
      → (remove_service id UpdateType.node_removed s).0.settings ≡ s.settings
  unfolding remove_service remove_record
  settings-remove_service id s = ground arith

  settings-sweep_service :
      (now : ℕ) (id : String) (s : TopologyStore R)
      → (sweep_service now id s).0.settings ≡ s.settings
  unfolding sweep_service
  settings-sweep_service now id s = ground (arith, settings-remove_service id s)

  get-sweep_service :
      (now : ℕ) (id j : String) (s : TopologyStore R)
      → IsWellFormed s
      → get j (sweep_service now id s).0.services ≡ (
          if id == j
          then then_apply (sweep_record s.settings now) (get j s.services)
          else get j s.services)
  unfolding sweep_service sweep_record
  get-sweep_service now id j s w = elim (Option-cases (get id s.services)) [
    | inl e ↦ rw (e, sweep_service) (ground (arith, eq_iff id j))
    | inr (r, e) ↦ elim (Bool-cases (has_timed_out now r)) [
      | inl dead ↦
          rw (e, sweep_service, dead) (ground (arith, get-remove_service id j s w, eq_iff id j))
      | inr live ↦
          rw (e, sweep_service, live)
            (ground (
              arith,
              get-set id j (mark_idle s.settings now (mark_stale now r).0).0 s.services,
              eq_iff id j,
            ))
    ]
  ]

  get-sweep_services :
      (now : ℕ) (ids : List String) (j : String) (s : TopologyStore R)
      → IsUnique ids
      → IsWellFormed s
      → get j (for_each (sweep_service now) ids s).0.services ≡ (
          if elem j ids
          then then_apply (sweep_record s.settings now) (get j s.services)
          else get j s.services)
  unfolding for_each
  get-sweep_services now [] j s d w = refl
  get-sweep_services now (id ∷ ids) j s d w = ground (
    arith,
    eq_iff id j,
    get-sweep_service now id j s w,
    settings-sweep_service now id s,
    get-sweep_services now ids j (sweep_service now id s).0 d.1
        (sweep_service-IsWellFormed now id s w),
  )

  pub get-sweep_record :
      (now : ℕ) (id : String) (s : TopologyStore R)
      → IsWellFormed s
      → get id (sweep now s).0.services
        ≡ then_apply (sweep_record s.settings now) (get id s.services)
  unfolding sweep
  get-sweep_record now id s w = elim (Bool-cases (elem id (keys s.services))) [
    | inl there ↦ ground (arith, get-sweep_services now (keys s.services) id s w.services_unique w)
    | inr missing ↦ ground (
      arith,
      get-sweep_services now (keys s.services) id s w.services_unique w,
      get_of_not_elem id s.services missing,
    )
  ]

  -- In a well-formed store a sweep treats each service by itself, by its times alone. One whose last heartbeat is longer ago than
  -- its interval times its multiplier is removed, and no other is. Of the others, one whose last heartbeat is longer ago
  -- than two intervals is made stale if it is not, and an active one that is not that late, and whose last activity is known and
  -- longer ago than the idle timeout, is made idle, both with the present as the time of their last update; all the rest is left
  -- as it is.
  pub get-sweep :
      (now : ℕ) (id : String) (s : TopologyStore R)
      → IsWellFormed s
      → get id (sweep now s).0.services ≡ then_apply (left_of s.settings now) (get id s.services)
  get-sweep now id s w = get-sweep_record now id s w ∙ (elim (Option-cases (get id s.services)) [
    | inl missing ↦ rw missing refl
    | inr (r, found) ↦ rw found (sweep_record-left_of s.settings now r)
  ])

-- What a sweep at `now` leaves of a service.
pub record IsSwept (cfg : Settings) (now : ℕ) (r : ServiceRecord) : Type 0 where
  pub alive : now - r.last_heartbeat_ms ≤ r.heartbeat_interval_ms * r.timeout_multiplier
  pub late :
      (leb (now - r.last_heartbeat_ms) (r.heartbeat_interval_ms * 2) || is_stale r.node.state)
      ≡ true
  pub busy :
      (not (is_active r.node.state)
        || (eqb r.last_activity_ms 0 || leb (now - r.last_activity_ms) cfg.idle_timeout_ms))
      ≡ true

sweep_record-IsSwept :
    (cfg : Settings) (now : ℕ) (r r' : ServiceRecord)
    → sweep_record cfg now r ≡ some r'
    → IsSwept cfg now r'
unfolding sweep_record has_timed_out mark_stale mark_idle
sweep_record-IsSwept cfg now r r' e = record {
  alive = ground arith;
  late = ground arith;
  busy = ground arith;
}

module _ {R : Type 0} where
  -- After a sweep of a well-formed store every service is within its timeout, is stale if it missed
  -- two intervals, and is not active if its last activity is longer ago than the idle timeout.
  pub sweep-IsSwept :
      (now : ℕ) (id : String) (s : TopologyStore R) (r' : ServiceRecord)
      → IsWellFormed s
      → get id (sweep now s).0.services ≡ some r'
      → IsSwept s.settings now r'
  sweep-IsSwept now id s r' w e = elim (Option-cases (get id s.services)) [
    | inl missing ↦ cc (get-sweep_record now id s w)
    | inr (r, found) ↦
        sweep_record-IsSwept s.settings now r r' (ground (arith, get-sweep_record now id s w))
  ]
