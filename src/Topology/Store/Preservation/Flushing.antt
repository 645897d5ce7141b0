-- ===== src/Topology/Store/Preservation/Flushing.antt =====
-- apps/topology/src/topology-store.ts: a flush keeps the store well formed.
use modular_runtime.Shared.{
  ℕ, ◌≤◌, ◌+◌, ◌-◌, ltb, length, ◌&&◌, String, some, List, [], ◌∷◌, ◌++◌, ◌≡◌, arith, inl, inr,
  Bool-cases,
}
use modular_runtime.Topology.Types.{Number}
use modular_runtime.Topology.Store.State.{RateSample, EdgeRecord, Settings, TopologyStore}
use modular_runtime.Topology.Store.Activity.{
  flush_activity, flush_record, update_edge_rps, drop_samples,
}
use modular_runtime.Topology.Store.EdgeRules.{flush_rule, flush_edge-IsPointwise}
use modular_runtime.Topology.Store.WellFormed.{AreRising, IsEdgeOk, IsWellFormed}
use modular_runtime.Topology.Store.Preservation.Loops.{with_edges-IsWellFormed}

pub AreRising-mono :
    (lo hi top : ℕ) (xs : List RateSample) → AreRising lo xs hi → hi ≤ top → AreRising lo xs top
AreRising-mono lo hi top [] h le = omega arith
AreRising-mono lo hi top (x ∷ xs) h le = (h.0, AreRising-mono x.total_count hi top xs h.1 le)

AreRising-push :
    (lo hi top now : ℕ) (xs : List RateSample)
    → AreRising lo xs hi
    → hi ≤ top
    → AreRising lo (xs ++ record { time_ms = now; total_count = top } ∷ []) top
AreRising-push lo hi top now [] h le = (omega arith, omega arith)
AreRising-push lo hi top now (x ∷ xs) h le =
    (h.0, AreRising-push x.total_count hi top now xs h.1 le)

AreRising-from :
    (lo lo' hi : ℕ) (xs : List RateSample) → lo' ≤ lo → AreRising lo xs hi → AreRising lo' xs hi
AreRising-from lo lo' hi [] le h = omega arith
AreRising-from lo lo' hi (x ∷ xs) le h = (omega arith, h.1)

AreRising-drop :
    (lo hi cutoff : ℕ) (xs : List RateSample)
    → AreRising lo xs hi
    → AreRising lo (drop_samples cutoff xs) hi
unfolding drop_samples
AreRising-drop lo hi cutoff [] h = h
AreRising-drop lo hi cutoff (x ∷ xs) h =
    elim (Bool-cases (ltb 2 (length (x ∷ xs)) && ltb x.time_ms cutoff)) [
      | inl old ↦ rw old (
          AreRising-from x.total_count lo hi (drop_samples cutoff xs) h.0
            (AreRising-drop x.total_count hi cutoff xs h.1))
      | inr kept ↦ rw kept h
    ]

pub push_sample :
    (cutoff now hi top : ℕ) (xs : List RateSample)
    → AreRising 0 xs hi
    → hi ≤ top
    → AreRising 0 (drop_samples cutoff (xs ++ record { time_ms = now; total_count = top } ∷ [])) top
push_sample cutoff now hi top xs h le =
    AreRising-drop 0 top cutoff _ (AreRising-push 0 hi top now xs h le)

module _ {R : Type 0} ⦃num : Number R⦄ where
  pub flush_record-IsEdgeOk :
      (cfg : Settings) (now : ℕ) (secs : R) (live : List String) (j : String) (e : EdgeRecord R)
      → IsEdgeOk live (j, e)
      → IsEdgeOk live (j, flush_record cfg now secs e)
  unfolding flush_record update_edge_rps
  flush_record-IsEdgeOk cfg now secs live j e ok = ground (
    arith,
    push_sample (now - cfg.rps_window_ms) now e.total_count (e.total_count + e.pending_count)
        e.rate_samples ok.counted.samples_rise,
    AreRising-mono 0 e.total_count (e.total_count + e.pending_count) e.rate_samples
        ok.counted.samples_rise,
  )

  pub flush_rule-IsEdgeOk :
      (cfg : Settings) (now : ℕ) (secs : R) (live : List String) (j : String) (e e' : EdgeRecord R)
      → IsEdgeOk live (j, e)
      → flush_rule cfg now secs e ≡ some e'
      → IsEdgeOk live (j, e')
  unfolding flush_rule
  flush_rule-IsEdgeOk cfg now secs live j e e' ok h =
      ground (arith, flush_record-IsEdgeOk cfg now secs live j e ok)

  -- A flush of the pending counters at any time keeps a well-formed store well formed.
  pub flush_activity-IsWellFormed :
      (now : ℕ) (s : TopologyStore R) → IsWellFormed s → IsWellFormed (flush_activity now s).0
  unfolding flush_activity
  flush_activity-IsWellFormed now s w =
      with_edges-IsWellFormed (flush_edge-IsPointwise _ now _)
        (record s { last_activity_flush_ms = now }) (flush_rule-IsEdgeOk _ now _)
        (record {
          services_unique = w.services_unique;
          services_named = w.services_named;
          edges_unique = w.edges_unique;
          edges_ok = w.edges_ok;
          index_unique = w.index_unique;
          indexed = w.indexed;
        })
