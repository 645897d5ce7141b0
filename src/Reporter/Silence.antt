-- ===== src/Reporter/Silence.antt =====
-- packages/topology-reporter/src/topology-reporter.ts: runs of a reporter, before and
-- after its shutdown.
use modular_runtime.Shared.{
  ℕ, ◌+◌, Option, some, none, List, [], ◌∷◌, Bool, true, false, not, ◌||◌, ◌≡◌, refl, arith,
  if◌then◌else◌, All,
}
use modular_runtime.Topology.Types.{ServiceHandle, ApplicationHealth}
use modular_runtime.Reporter.{
  TopologyReporter, ActivityReport, Attempt, new_reporter, start, handle_stream_error,
  reset_connection_state, stop_heartbeat, end_activity_stream, trigger_reconnect,
  connect_with_retry, next_retry_delay_ms,
}
use modular_runtime.Reporter.Operations.{
  send_heartbeat, registration_answered, retry_delay_over, report_activity, set_health, shutdown,
  accept_handle, start_heartbeat, start_activity_stream, registration_failed,
}

-- What can happen to a reporter. `throws` says of a write that it throws.
pub data Operation (R : Type 0) : Type 0 where
  starts : Operation R
  stream_fails : Operation R
  beats : Bool → Operation R
  answered : Option ServiceHandle → ℕ → ℕ → Bool → Operation R
  delayed : Operation R
  reports : Bool → ActivityReport R → Operation R
  sets_health : Option ApplicationHealth → Operation R
  shuts_down : Operation R

module _ {R : Type 0} where
  unfoldable pub perform : Operation R → TopologyReporter R → TopologyReporter R
  perform starts r = start r
  perform stream_fails r = handle_stream_error r
  perform (beats throws) r = send_heartbeat throws r
  perform (answered answer heartbeat activity throws) r =
      registration_answered answer heartbeat activity throws r
  perform delayed r = retry_delay_over r
  perform (reports throws report) r = report_activity throws report r
  perform (sets_health health) r = set_health health r
  perform shuts_down r = (shutdown r).0

  unfoldable pub run : List (Operation R) → TopologyReporter R → TopologyReporter R
  run [] r = r
  run (o ∷ os) r = run os (perform o r)

  -- The reporter is down, has no identifier and no stream, and has written no more than `was`.
  pub record IsSilent (was r : TopologyReporter R) : Type 0 where
    pub down : r.is_shutting_down ≡ true
    pub nameless : r.service_id ≡ none
    pub no_heartbeat : r.heartbeat_stream ≡ none
    pub no_activity : r.activity_stream ≡ none
    pub heartbeats : r.heartbeats ≡ was.heartbeats
    pub activities : r.activities ≡ was.activities

  perform-IsSilent :
      (o : Operation R) (was r : TopologyReporter R) → IsSilent was r → IsSilent was (perform o r)
  unfolding perform start handle_stream_error send_heartbeat registration_answered retry_delay_over
      report_activity set_health shutdown connect_with_retry registration_failed
  perform-IsSilent starts was r h = ground arith
  perform-IsSilent stream_fails was r h = ground arith
  perform-IsSilent (beats throws) was r h = ground arith
  perform-IsSilent (answered answer heartbeat activity throws) was r h = ground arith
  perform-IsSilent delayed was r h = ground arith
  perform-IsSilent (reports throws report) was r h = ground arith
  perform-IsSilent (sets_health health) was r h = ground arith
  perform-IsSilent shuts_down was r h = ground arith

  run-IsSilent :
      (os : List (Operation R)) (was r : TopologyReporter R)
      → IsSilent was r
      → IsSilent was (run os r)
  unfolding run
  run-IsSilent [] was r h = h
  run-IsSilent (o ∷ os) was r h = run-IsSilent os was (perform o r) (perform-IsSilent o was r h)

  shutdown-IsSilent :
      (r : TopologyReporter R) → r.is_shutting_down ≡ false → IsSilent r (shutdown r).0
  unfolding shutdown end_activity_stream stop_heartbeat
  shutdown-IsSilent r up = ground arith

  -- After the shutdown of a reporter that was not shutting down, whatever happens to it (late answers,
  -- retry delays, stream errors, reports, another start), it has no identifier and no stream and
  -- writes no heartbeat and no activity.
  pub run_after_shutdown :
      (r : TopologyReporter R) (os : List (Operation R))
      → r.is_shutting_down ≡ false
      → IsSilent r (run os (shutdown r).0)
  run_after_shutdown r os up = run-IsSilent os r (shutdown r).0 (shutdown-IsSilent r up)

abbrev pub is_busy : Attempt → Bool
is_busy Attempt.rests = false
is_busy Attempt.calls = true
is_busy (Attempt.waits ms) = true

abbrev pub is_set : {A : Type 0} → Option A → Bool
is_set none = false
is_set (some a) = true

-- No write of the operation throws.
abbrev pub IsSafe : {R : Type 0} → Operation R → Type 0
IsSafe (beats throws) = throws ≡ false
IsSafe (answered answer heartbeat activity throws) = throws ≡ false
IsSafe (reports throws report) = throws ≡ false
IsSafe o = Unit

module _ {R : Type 0} where
  -- Unless it is down: the reporter is registered or tries to be if it was started, it has a pending
  -- `reconnectPromise` exactly while it tries, and one interval runs exactly while it has a stream
  -- for heartbeats.
  pub record IsDriven (r : TopologyReporter R) : Type 0 where
    pub driven :
        (r.is_shutting_down || (not r.auto_reconnect || (is_set r.service_id || is_busy r.attempt)))
        ≡ true
    pub tied :
        (r.is_shutting_down
          || (if r.reconnecting then is_busy r.attempt else not (is_busy r.attempt)))
        ≡ true
    pub streamed : is_set r.heartbeat_stream ≡ r.heartbeat_timer
    pub timed : r.timers ≡ (if r.heartbeat_timer then 1 else 0)

  perform-IsDriven :
      (o : Operation R) (r : TopologyReporter R) → IsSafe o → IsDriven r → IsDriven (perform o r)
  unfolding perform start handle_stream_error send_heartbeat registration_answered retry_delay_over
      report_activity set_health shutdown connect_with_retry registration_failed accept_handle
      start_heartbeat start_activity_stream trigger_reconnect reset_connection_state stop_heartbeat
      end_activity_stream next_retry_delay_ms
  perform-IsDriven starts r safe h = ground arith
  perform-IsDriven stream_fails r safe h = ground arith
  perform-IsDriven (beats throws) r safe h = ground arith
  perform-IsDriven (answered answer heartbeat activity throws) r safe h = ground arith
  perform-IsDriven delayed r safe h = ground arith
  perform-IsDriven (reports throws report) r safe h = ground arith
  perform-IsDriven (sets_health health) r safe h = ground arith
  perform-IsDriven shuts_down r safe h = ground arith

  run-IsDriven :
      (os : List (Operation R)) (r : TopologyReporter R)
      → All IsSafe os
      → IsDriven r
      → IsDriven (run os r)
  unfolding run
  run-IsDriven [] r safe h = h
  run-IsDriven (o ∷ os) r safe h =
      run-IsDriven os (perform o r) safe.1 (perform-IsDriven o r safe.0 h)

  -- From a new reporter, as long as no write throws, whatever is called and happens in whatever order:
  -- unless it is shut down, a reporter that was started has an identifier or an attempt to register is
  -- under way, `reconnectPromise` is pending exactly during an attempt, and a heartbeat interval runs,
  -- a single one, exactly while a heartbeat stream is open.
  pub new_reporter-IsDriven :
      (enable_activity : Option Bool) (os : List (Operation R))
      → All IsSafe os
      → IsDriven (run os (new_reporter enable_activity))
  unfolding new_reporter
  new_reporter-IsDriven enable_activity os safe =
      run-IsDriven os (new_reporter enable_activity) safe
        (record { driven = refl; tied = refl; streamed = refl; timed = refl })

  -- If the first heartbeat after a successful registration throws, while the reporter is up and has no
  -- stream and no interval: it is left without an identifier and without any attempt to register, and
  -- with an interval that runs.
  pub thrown_heartbeat_strands :
      (handle : ServiceHandle) (heartbeat activity : ℕ) (r : TopologyReporter R)
      → r.attempt ≡ Attempt.calls
      → r.is_shutting_down ≡ false
      → r.auto_reconnect ≡ true
      → r.reconnecting ≡ true
      → r.heartbeat_stream ≡ none
      → r.heartbeat_timer ≡ false
      → let r' = registration_answered (some handle) heartbeat activity true r in
        (r'.service_id ≡ none)
        × (r'.attempt ≡ Attempt.rests)
        × (r'.reconnecting ≡ false)
        × (r'.timers ≡ r.timers + 1)
  unfolding registration_answered accept_handle start_heartbeat send_heartbeat handle_stream_error
      trigger_reconnect reset_connection_state stop_heartbeat end_activity_stream
      start_activity_stream connect_with_retry
  thrown_heartbeat_strands handle heartbeat activity r calling up auto trying closed idle =
      ground arith
