-- ===== src/EventProxy.antt =====
-- apps/topology/src/topology-proxy.ts: a proxy that passes the updates of the topology service on to browsers. A
-- response, and a stream of the service, is a number; what is written to a response is kept with it as long as it
-- listens. What waits is split: a request that waits for its snapshot, and the delay before a stream is opened
-- again, are kept, and their end is an operation of its own. Headers, the line with the retry time, logging and the HTTP server are left out.
pub mod Replay
pub mod Tests
use modular_runtime.Shared.{
  ℕ, ◌+◌, ◌-◌, Option, some, none, List, [], ◌∷◌, ◌++◌, map, Bool, true, false, not, ◌||◌, eqb,
  if◌then◌else◌, any, keep,
}
use modular_runtime.Topology.Types.{TopologySnapshot, TopologyUpdate, UpdateType}

pub record Listener (R : Type 0) : Type 0 where
  pub response : ℕ
  pub written : List (TopologyUpdate R)

pub record TopologyProxy (R : Type 0) : Type 0 where
  pub listeners : List (Listener R)
  pub last_snapshot : Option (TopologyUpdate R)
  pub watch_stream : Option ℕ
  pub is_stopping : Bool
  -- The responses whose handler waits for a snapshot, and the delays that run
  pub fetching : List ℕ
  pub delays : ℕ

unfoldable pub is_snapshot : UpdateType → Bool
is_snapshot UpdateType.snapshot = true
is_snapshot type = false

module _ {R : Type 0} where
  unfoldable pub write_event : ℕ → TopologyUpdate R → Listener R → Listener R
  write_event response update l =
      if eqb l.response response then record l { written = l.written ++ update ∷ [] } else l

  unfoldable pub write_each : TopologyUpdate R → Listener R → Listener R
  write_each update l = record l { written = l.written ++ update ∷ [] }

  unfoldable pub broadcast : TopologyUpdate R → TopologyProxy R → TopologyProxy R
  broadcast update p = record p {
    last_snapshot = if is_snapshot update.type then some update else p.last_snapshot;
    listeners = map (write_each update) p.listeners;
  }

  unfoldable pub handle_stream_data : Option (TopologyUpdate R) → TopologyProxy R → TopologyProxy R
  handle_stream_data none p = p
  handle_stream_data (some update) p = if p.is_stopping then p else broadcast update p

  unfoldable pub start_watch_stream : ℕ → TopologyProxy R → TopologyProxy R
  start_watch_stream stream p = elim p.watch_stream [
    | some s ↦ p
    | none ↦ if p.is_stopping then p else record p { watch_stream = some stream }
  ]

  -- `handleStreamError` and `handleStreamEnd`, up to the delay, and after it
  unfoldable pub handle_stream_end : TopologyProxy R → TopologyProxy R
  handle_stream_end p =
      if p.is_stopping then p else record p { watch_stream = none; delays = p.delays + 1 }

  unfoldable pub delay_over : ℕ → TopologyProxy R → TopologyProxy R
  delay_over stream p = start_watch_stream stream (record p { delays = p.delays - 1 })

  -- `handleSse` up to the request for the snapshot
  unfoldable pub handle_sse : ℕ → TopologyProxy R → TopologyProxy R
  handle_sse response p = record p {
    listeners = p.listeners ++ record { response = response; written = [] } ∷ [];
    fetching = p.fetching ++ response ∷ [];
  }

  unfoldable pub write_to : ℕ → TopologyUpdate R → TopologyProxy R → TopologyProxy R
  write_to response update p = record p {
    listeners = map (write_event response update) p.listeners;
  }

  -- The rest of `handleSse`: `none` is a request that failed, or an answer without a snapshot. From here on the end
  -- of the request is listened for.
  unfoldable pub snapshot_fetched :
      ℕ → Option (TopologySnapshot R) → TopologyProxy R → TopologyProxy R
  snapshot_fetched response fetched p =
      let waited = record p { fetching = keep (λ r. not (eqb r response)) p.fetching } in
      elim fetched [
        | some snapshot ↦
            let update : TopologyUpdate R = record {
              type = UpdateType.snapshot;
              node = none;
              edge = none;
              snapshot = some snapshot;
            } in
            write_to response update (record waited { last_snapshot = some update })
        | none ↦ elim p.last_snapshot [
          | none ↦ waited
          | some update ↦ write_to response update waited
        ]
      ]

  -- The browser closes the connection; nothing listens for that while the handler waits.
  unfoldable pub closed : ℕ → TopologyProxy R → TopologyProxy R
  closed response p =
      if any (λ r. eqb r response) p.fetching
      then p
      else record p { listeners = keep (λ l. not (eqb l.response response)) p.listeners }

  unfoldable pub stop : TopologyProxy R → TopologyProxy R
  stop p = record p { is_stopping = true; watch_stream = none; listeners = [] }
