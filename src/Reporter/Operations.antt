-- ===== src/Reporter/Operations.antt =====
-- packages/topology-reporter/src/topology-reporter.ts: heartbeats, the answers to a registration, reports of
-- activity and the shutdown.
use modular_runtime.Shared.{
  ℕ, ◌+◌, String, Option, some, none, [], ◌∷◌, ◌++◌, Bool, true, false, not, ◌||◌, if◌then◌else◌,
  or_else,
}
use modular_runtime.Topology.Types.{ServiceHandle, ApplicationHealth}
use modular_runtime.Reporter.{
  Attempt, ActivityReport, TopologyReporterStatus, TopologyReporter, next_retry_delay_ms,
  stop_heartbeat, end_activity_stream, connect_with_retry, handle_stream_error,
}

module _ {R : Type 0} where
  unfoldable pub send_heartbeat : Bool → TopologyReporter R → TopologyReporter R
  send_heartbeat throws r =
      let counted = record r { heartbeat_seq = r.heartbeat_seq + 1 } in
      elim r.service_id [
        | none ↦ r
        | some id ↦ elim r.heartbeat_stream [
          | none ↦ r
          | some stream ↦ if throws then handle_stream_error counted else record counted {
            heartbeats =
                r.heartbeats
                ++ record {
                  service_id = id;
                  sequence = r.heartbeat_seq + 1;
                  health = r.current_health;
                }
                  ∷ [];
          }
        ]
      ]

  -- `stream` is what the call opens; the interval is set after the first heartbeat, whatever became of
  -- that.
  unfoldable pub start_heartbeat : ℕ → Bool → TopologyReporter R → TopologyReporter R
  start_heartbeat stream throws r =
      let sent = send_heartbeat throws (record r { heartbeat_stream = some stream }) in
      let timed = record sent { heartbeat_timer = true; timers = sent.timers + 1 } in
      elim r.service_id [
        | none ↦ r
        | some id ↦ elim r.heartbeat_interval_ms [
          | none ↦ r
          | some ms ↦ elim r.heartbeat_stream [ none ↦ timed | some s ↦ r ]
        ]
      ]

  unfoldable pub start_activity_stream : ℕ → TopologyReporter R → TopologyReporter R
  start_activity_stream stream r = elim r.activity_stream [
    | none ↦ record r { activity_stream = some stream }
    | some s ↦ r
  ]

  -- `performRegister` has its handle.
  unfoldable pub accept_handle :
      ServiceHandle → ℕ → ℕ → Bool → TopologyReporter R → TopologyReporter R
  accept_handle handle heartbeat activity throws r =
      let started = start_heartbeat heartbeat throws (record r {
        service_id = some handle.service_id;
        heartbeat_interval_ms = some handle.heartbeat_interval_ms;
        timeout_multiplier = some handle.timeout_multiplier;
        heartbeat_seq = 0;
      }) in
      if or_else r.enable_activity true then start_activity_stream activity started else started

  -- The `catch` of `connectWithRetry`.
  unfoldable pub registration_failed : TopologyReporter R → TopologyReporter R
  registration_failed r =
      let (delay_ms, counted) = next_retry_delay_ms r in
      if r.is_shutting_down || not r.auto_reconnect
      then record r { attempt = Attempt.rests; reconnecting = false }
      else record counted { attempt = Attempt.waits delay_ms }

  -- The awaited answer: `none` is a failed call or an answer without a handle.
  unfoldable pub registration_answered :
      Option ServiceHandle → ℕ → ℕ → Bool → TopologyReporter R → TopologyReporter R
  registration_answered answer heartbeat activity throws r = elim r.attempt [
    | Attempt.rests ↦ r
    | Attempt.waits ms ↦ r
    | Attempt.calls ↦ if r.is_shutting_down then registration_failed r else elim answer [
      | none ↦ registration_failed r
      | some handle ↦ record (accept_handle handle heartbeat activity throws r) {
        retry_attempt = 0;
        attempt = Attempt.rests;
        reconnecting = false;
      }
    ]
  ]

  -- A retry delay is over.
  unfoldable pub retry_delay_over : TopologyReporter R → TopologyReporter R
  retry_delay_over r = elim r.attempt [
    | Attempt.rests ↦ r
    | Attempt.calls ↦ r
    | Attempt.waits ms ↦ connect_with_retry r
  ]

  unfoldable pub report_activity : Bool → ActivityReport R → TopologyReporter R → TopologyReporter R
  report_activity throws report r = elim r.activity_stream [
    | none ↦ r
    | some stream ↦ elim r.service_id [
      | none ↦ r
      | some id ↦ if throws then handle_stream_error r else record r {
        activities =
            r.activities
            ++ record {
              service_id = id;
              target_service = report.target_service;
              type = report.type;
              latency_ms = report.latency_ms;
              success = report.success;
              batch_size = report.batch_size;
            }
              ∷ [];
      }
    ]
  ]

  unfoldable pub set_health : Option ApplicationHealth → TopologyReporter R → TopologyReporter R
  set_health health r = record r { current_health = health }

  unfoldable pub status : TopologyReporter R → TopologyReporterStatus
  status r = record {
    service_id = r.service_id;
    heartbeat_interval_ms = r.heartbeat_interval_ms;
    activity_enabled = elim r.activity_stream [ none ↦ false | some s ↦ true ];
  }

  -- The second component is the identifier that is unregistered.
  unfoldable pub shutdown : TopologyReporter R → TopologyReporter R × Option String
  shutdown r = if r.is_shutting_down then (r, none) else (
    record (end_activity_stream (
        stop_heartbeat
          (record r { is_shutting_down = true; auto_reconnect = false; reconnecting = false }))) {
            service_id = none;
            heartbeat_interval_ms = none;
            timeout_multiplier = none;
            heartbeat_seq = 0;
          },
    r.service_id,
  )
