-- ===== src/Topology/Store/EdgeRules.antt =====
-- apps/topology/src/topology-store.ts: the loops of `removeService`, `flushActivity` and `sweep` over
-- the edges, each with the rule that it applies to every edge by itself.
use modular_runtime.Shared.{
  ℕ, ◌-◌, String, Option, some, none, List, Bool, ◌&&◌, ◌||◌, ◌==◌, ◌≡◌, arith, ltb, eqb,
  if◌then◌else◌, elem, inl, inr, Option-cases, IsUnique, eq_iff,
}
use modular_runtime.Shared.Dict.{
  Dict, keys, get, get-set, get-delete, set-IsUnique, delete-IsUnique,
}
use modular_runtime.Shared.Pointwise.{IsPointwise, then_apply}
use modular_runtime.Topology.Types.{Number, ConnectionState}
use modular_runtime.Topology.Store.State.{EdgeRecord, Settings}
use modular_runtime.Topology.Store.Services.{remove_edge}
use modular_runtime.Topology.Store.Activity.{flush_edge, flush_record}
use modular_runtime.Topology.Store.Sweep.{sweep_edge, is_lost, is_active_edge}

module _ {R : Type 0} where
  pub touches : String → List String → EdgeRecord R → Bool
  touches service_id service_keys e =
      e.edge.source_service_id == service_id || elem e.edge.target_service service_keys

  unfoldable pub remove_rule : String → List String → EdgeRecord R → Option (EdgeRecord R)
  unfolding touches
  remove_rule service_id service_keys e = if touches service_id service_keys e then none else some e

  unfoldable pub sweep_rule : Settings → ℕ → List String → EdgeRecord R → Option (EdgeRecord R)
  sweep_rule cfg now known e =
      if is_lost cfg now known e
      then none
      else if is_active_edge e.edge.state && ltb cfg.idle_timeout_ms (now - e.last_activity_ms)
      then some (record e { edge = record e.edge { state = ConnectionState.idle } })
      else some e

  module _ (service_id : String) (service_keys : List String) where
    remove_edge-IsUnique :
        (k : String) (m : Dict (EdgeRecord R))
        → IsUnique (keys m)
        → IsUnique (keys (remove_edge service_id service_keys k m).0)
    unfolding remove_edge
    remove_edge-IsUnique k m u = ground (arith, delete-IsUnique k m u)

    get-remove_edge :
        (k j : String) (m : Dict (EdgeRecord R))
        → IsUnique (keys m)
        → get j (remove_edge service_id service_keys k m).0
          ≡ (if k == j then then_apply (remove_rule service_id service_keys) (get j m) else get j m)
    unfolding remove_edge remove_rule
    get-remove_edge k j m u = ground (arith, eq_iff k j, get-delete k j m u)

    pub remove_edge-IsPointwise :
        IsPointwise
          (remove_edge {R = R} service_id service_keys)
          (remove_rule service_id service_keys)
    remove_edge-IsPointwise = record { keeps = remove_edge-IsUnique; acts = get-remove_edge }

  module _ (cfg : Settings) (now : ℕ) (known : List String) where
    abbrev idled : EdgeRecord R → EdgeRecord R
    idled e = record e { edge = record e.edge { state = ConnectionState.idle } }

    sweep_edge-IsUnique :
        (k : String) (m : Dict (EdgeRecord R))
        → IsUnique (keys m)
        → IsUnique (keys (sweep_edge cfg now known k m).0)
    unfolding sweep_edge
    sweep_edge-IsUnique k m u = elim (Option-cases (get k m)) [
      | inl e ↦ rw (e, sweep_edge) u
      | inr (r, e) ↦
          rw (e, sweep_edge) (ground (arith, delete-IsUnique k m u, set-IsUnique k (idled r) m u))
    ]

    get-sweep_edge :
        (k j : String) (m : Dict (EdgeRecord R))
        → IsUnique (keys m)
        → get j (sweep_edge cfg now known k m).0
          ≡ (if k == j then then_apply (sweep_rule cfg now known) (get j m) else get j m)
    unfolding sweep_edge sweep_rule
    get-sweep_edge k j m u = elim (Option-cases (get k m)) [
      | inl e ↦ ground (arith, eq_iff k j)
      | inr (r, e) ↦ ground (arith, eq_iff k j, get-delete k j m u, get-set k j (idled r) m)
    ]

    pub sweep_edge-IsPointwise :
        IsPointwise (sweep_edge {R = R} cfg now known) (sweep_rule cfg now known)
    sweep_edge-IsPointwise = record { keeps = sweep_edge-IsUnique; acts = get-sweep_edge }

module _ {R : Type 0} ⦃num : Number R⦄ where
  unfoldable pub flush_rule : Settings → ℕ → R → EdgeRecord R → Option (EdgeRecord R)
  flush_rule cfg now elapsed_seconds e =
      if eqb e.pending_count 0 then some e else some (flush_record cfg now elapsed_seconds e)

  module _ (cfg : Settings) (now : ℕ) (elapsed_seconds : R) where
    flush_edge-IsUnique :
        (k : String) (m : Dict (EdgeRecord R))
        → IsUnique (keys m)
        → IsUnique (keys (flush_edge cfg now elapsed_seconds k m).0)
    unfolding flush_edge
    flush_edge-IsUnique k m u = elim (Option-cases (get k m)) [
      | inl e ↦ rw (e, flush_edge) u
      | inr (r, e) ↦
          rw (e, flush_edge)
            (ground (arith, set-IsUnique k (flush_record cfg now elapsed_seconds r) m u))
    ]

    get-flush_edge :
        (k j : String) (m : Dict (EdgeRecord R))
        → IsUnique (keys m)
        → get j (flush_edge cfg now elapsed_seconds k m).0
          ≡ (if k == j then then_apply (flush_rule cfg now elapsed_seconds) (get j m) else get j m)
    unfolding flush_edge flush_rule
    get-flush_edge k j m u = elim (Option-cases (get k m)) [
      | inl e ↦ ground (arith, eq_iff k j)
      | inr (r, e) ↦
          ground (arith, eq_iff k j, get-set k j (flush_record cfg now elapsed_seconds r) m)
    ]

    pub flush_edge-IsPointwise :
        IsPointwise (flush_edge cfg now elapsed_seconds) (flush_rule cfg now elapsed_seconds)
    flush_edge-IsPointwise = record { keeps = flush_edge-IsUnique; acts = get-flush_edge }
