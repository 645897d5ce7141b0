-- ===== src/EventProxy/Replay.antt =====
-- apps/topology/src/topology-proxy.ts with apps/dashboard/src/hooks/useTopologyStream.ts: what a dashboard behind the proxy makes of
-- what is written to it.
use mathlib.Core.List.{append_assoc, append-nil}
use modular_runtime.Shared.{
  ℕ, Option, some, none, List, [], ◌∷◌, ◌++◌, map, true, false, not, eqb, if◌then◌else◌, any, keep,
  ◌≡◌, refl, sym, ap, ◌∙◌, arith, inl, inr, Bool-cases,
}
use modular_runtime.Topology.Types.{TopologySnapshot, TopologyUpdate, UpdateType}
use modular_runtime.Dashboard.{apply_update, apply_snapshot, apply_updates}
use modular_runtime.Dashboard.Sync.{apply_updates-append}
use modular_runtime.EventProxy.{
  Listener, TopologyProxy, write_event, write_each, broadcast, handle_stream_data, handle_sse,
  write_to, snapshot_fetched, closed,
}

any_at_end : (response : ℕ) (rs : List ℕ) → any (λ r. eqb r response) (rs ++ response ∷ []) ≡ true
any_at_end response [] = ground arith
any_at_end response (r ∷ rs) = ground (arith, any_at_end response rs)

module _ {R : Type 0} where
  -- What was written to a response, if it listens
  abbrev pub written_to : ℕ → List (Listener R) → Option (List (TopologyUpdate R))
  written_to response [] = none
  written_to response (l ∷ ls) =
      if eqb l.response response then some l.written else written_to response ls

  abbrev pub and_also :
      TopologyUpdate R → Option (List (TopologyUpdate R)) → Option (List (TopologyUpdate R))
  and_also update none = none
  and_also update (some us) = some (us ++ update ∷ [])

  written_to-write_each :
      (response : ℕ) (update : TopologyUpdate R) (ls : List (Listener R))
      → written_to response (map (write_each update) ls) ≡ and_also update (written_to response ls)
  unfolding write_each
  written_to-write_each response update [] = refl
  written_to-write_each response update (l ∷ ls) = elim (Bool-cases (eqb l.response response)) [
    | inl here ↦ rw here refl
    | inr there ↦ rw there (written_to-write_each response update ls)
  ]

  written_to-write_event :
      (response : ℕ) (update : TopologyUpdate R) (ls : List (Listener R))
      → written_to response (map (write_event response update) ls)
        ≡ and_also update (written_to response ls)
  unfolding write_event
  written_to-write_event response update [] = refl
  written_to-write_event response update (l ∷ ls) = elim (Bool-cases (eqb l.response response)) [
    | inl here ↦ rw (written_to, write_event, here) (rw here refl)
    | inr there ↦
        rw (written_to, write_event, there) (rw there (written_to-write_event response update ls))
  ]

  -- The updates come one after the other.
  abbrev pub deliver : List (TopologyUpdate R) → TopologyProxy R → TopologyProxy R
  deliver [] p = p
  deliver (u ∷ us) p = deliver us (handle_stream_data (some u) p)

  written_to-deliver :
      (response : ℕ) (us before : List (TopologyUpdate R)) (p : TopologyProxy R)
      → p.is_stopping ≡ false
      → written_to response p.listeners ≡ some before
      → written_to response (deliver us p).listeners ≡ some (before ++ us)
  unfolding handle_stream_data broadcast
  written_to-deliver response [] before p up h = h ∙ ap (λ us. some us) (sym (append-nil before))
  written_to-deliver response (u ∷ us) before p up h =
      let passed : handle_stream_data (some u) p ≡ broadcast u p =
        ap (λ b. if b then p else broadcast u p) up in
      ap (λ q. written_to response (deliver us q).listeners) passed
      ∙ written_to-deliver response us (before ++ u ∷ []) (broadcast u p) up
          (written_to-write_each response u p.listeners ∙ ap (and_also u) h)
      ∙ ap (λ xs. some xs) (append_assoc before (u ∷ []) us)

  abbrev pub snapshot_update : TopologySnapshot R → TopologyUpdate R
  snapshot_update snapshot = record {
    type = UpdateType.snapshot;
    node = none;
    edge = none;
    snapshot = some snapshot;
  }

  -- A browser listens and waits for its snapshot, the proxy is not stopping, the snapshot comes, and then updates. A
  -- dashboard that plays all that is written to it, from whatever it shows at first, shows the snapshot followed by those
  -- updates: of the updates that were passed on before the snapshot came, nothing is left.
  pub dashboard_after_snapshot :
      (t response : ℕ) (shown snapshot : TopologySnapshot R) (before us : List (TopologyUpdate R))
      (p : TopologyProxy R)
      → p.is_stopping ≡ false
      → written_to response p.listeners ≡ some before
      → (written : List (TopologyUpdate R)) × (written_to response
            (deliver us (snapshot_fetched response (some snapshot) p)).listeners
          ≡ some written)
        × (apply_updates t shown written ≡ apply_updates t snapshot us)
  unfolding snapshot_fetched write_to apply_updates apply_update apply_snapshot
  dashboard_after_snapshot t response shown snapshot before us p up h =
      let u = snapshot_update snapshot in
      (
        (before ++ u ∷ []) ++ us,
        written_to-deliver response us (before ++ u ∷ [])
            (snapshot_fetched response (some snapshot) p) up
            (written_to-write_event response u p.listeners ∙ ap (and_also u) h),
        apply_updates-append t shown (before ++ u ∷ []) us
            ∙ ap (λ s. apply_updates t s us) (apply_updates-append t shown before (u ∷ [])),
      )

  listens_with_write :
      (response other : ℕ) (update : TopologyUpdate R) (ls : List (Listener R))
      → any (λ l. eqb l.response response) (map (write_event other update) ls)
        ≡ any (λ l. eqb l.response response) ls
  unfolding write_event
  listens_with_write response other update [] = refl
  listens_with_write response other update (l ∷ ls) =
      ground (arith, listens_with_write response other update ls)

  listens_at_end :
      (response : ℕ) (ls : List (Listener R))
      → any (λ l. eqb l.response response) (ls ++ record { response = response; written = [] } ∷ [])
        ≡ true
  listens_at_end response [] = ground arith
  listens_at_end response (l ∷ ls) = ground (arith, listens_at_end response ls)

  still_listens :
      (response : ℕ) (fetched : Option (TopologySnapshot R)) (p : TopologyProxy R)
      → any (λ l. eqb l.response response) (snapshot_fetched response fetched p).listeners
        ≡ any (λ l. eqb l.response response) p.listeners
  unfolding snapshot_fetched write_to
  still_listens response (some snapshot) p =
      listens_with_write response response (snapshot_update snapshot) p.listeners
  still_listens response none p =
      let waited : TopologyProxy R = record p {
        fetching = keep (λ r. not (eqb r response)) p.fetching;
      } in
      let written_known : Option (TopologyUpdate R) → TopologyProxy R =
        λ last. elim last [ none ↦ waited | some update ↦ write_to response update waited ] in
      elim p.last_snapshot
        as (λ last.
          any (λ l. eqb l.response response) (written_known last).listeners
          ≡ any (λ l. eqb l.response response) p.listeners) [
            | none ↦ refl
            | some update ↦ listens_with_write response response update p.listeners
          ]

  -- A browser that closes the connection while its request waits for the snapshot is not removed: when the answer has come, of
  -- whatever kind, its response is still among the listeners.
  pub closed_listener_stays :
      (response : ℕ) (fetched : Option (TopologySnapshot R)) (p : TopologyProxy R)
      → any
          (λ l. eqb l.response response)
          (snapshot_fetched response fetched (closed response (handle_sse response p))).listeners
        ≡ true
  unfolding snapshot_fetched closed handle_sse write_to
  closed_listener_stays response fetched p =
      let waiting = handle_sse response p in
      let gone : TopologyProxy R = record waiting {
        listeners = keep (λ l. not (eqb l.response response)) waiting.listeners;
      } in
      let kept : closed response waiting ≡ waiting =
        ap (λ b. if b then waiting else gone) (any_at_end response p.fetching) in
      ap (λ q. any (λ l. eqb l.response response) (snapshot_fetched response fetched q).listeners)
        kept
      ∙ still_listens response fetched waiting
      ∙ listens_at_end response p.listeners
