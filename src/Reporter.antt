-- ===== src/Reporter.antt =====
-- packages/topology-reporter/src/topology-reporter.ts: the reporter of one service as a state machine.
-- An asynchronous call is split where it waits: a registration is begun, and its answer is an
-- operation of its own, and so is the end of a retry delay. A stream is a number that its opening is
-- given; whether a write throws is an argument. An interval that runs is counted, whether or not its
-- handle is still kept. An identifier that the topology service gives is not empty. Logging and the fields of the registration request are left out.
pub mod Operations
pub mod Backoff
pub mod Silence
pub mod Tests
use modular_runtime.Shared.{
  ℕ, ◌+◌, ◌-◌, ◌*◌, ◌^◌, min, String, Option, some, none, List, [], ◌∷◌, ◌++◌, Bool, true, false,
  not, ◌&&◌, ◌||◌, if◌then◌else◌, or_else,
}
use modular_runtime.Topology.Types.{
  ServiceHandle, ApplicationHealth, HeartbeatRequest, ReportActivityRequest, ActivityType, ℤ,
}

-- What the reporter is doing about its registration: `calls` while the answer is awaited, `waits` during
-- a retry delay.
pub data Attempt : Type 0 where
  rests : Attempt
  calls : Attempt
  waits : ℕ → Attempt

pub record ActivityReport (R : Type 0) : Type 0 where
  pub target_service : String
  pub type : ActivityType
  pub latency_ms : Option R
  pub success : Option Bool
  pub batch_size : Option ℤ

pub record TopologyReporterStatus : Type 0 where
  pub service_id : Option String
  pub heartbeat_interval_ms : Option ℕ
  pub activity_enabled : Bool

pub record TopologyReporter (R : Type 0) : Type 0 where
  pub enable_activity : Option Bool
  pub service_id : Option String
  pub heartbeat_interval_ms : Option ℕ
  pub timeout_multiplier : Option ℕ
  pub heartbeat_seq : ℕ
  pub heartbeat_stream : Option ℕ
  pub heartbeat_timer : Bool
  pub activity_stream : Option ℕ
  pub current_health : Option ApplicationHealth
  pub retry_attempt : ℕ
  pub auto_reconnect : Bool
  pub is_shutting_down : Bool
  -- `reconnectPromise` is pending.
  pub reconnecting : Bool
  pub attempt : Attempt
  -- The intervals that run, and what was written to the streams.
  pub timers : ℕ
  pub heartbeats : List HeartbeatRequest
  pub activities : List (ReportActivityRequest R)

abbrev pub retry_base_delay_ms : ℕ
retry_base_delay_ms = 1000

abbrev pub retry_max_delay_ms : ℕ
retry_max_delay_ms = 15000

module _ {R : Type 0} where
  unfoldable pub new_reporter : Option Bool → TopologyReporter R
  new_reporter enable_activity = record {
    enable_activity = enable_activity;
    service_id = none;
    heartbeat_interval_ms = none;
    timeout_multiplier = none;
    heartbeat_seq = 0;
    heartbeat_stream = none;
    heartbeat_timer = false;
    activity_stream = none;
    current_health = none;
    retry_attempt = 0;
    auto_reconnect = false;
    is_shutting_down = false;
    reconnecting = false;
    attempt = Attempt.rests;
    timers = 0;
    heartbeats = [];
    activities = [];
  }

  -- The delay, and the reporter with the next attempt's number.
  unfoldable pub next_retry_delay_ms : TopologyReporter R → ℕ × TopologyReporter R
  next_retry_delay_ms r = (
    min retry_max_delay_ms (retry_base_delay_ms * 2 ^ r.retry_attempt),
    record r { retry_attempt = min (r.retry_attempt + 1) 10 },
  )

  unfoldable pub stop_heartbeat : TopologyReporter R → TopologyReporter R
  stop_heartbeat r = record r {
    timers = if r.heartbeat_timer then r.timers - 1 else r.timers;
    heartbeat_timer = false;
    heartbeat_stream = none;
  }

  unfoldable pub end_activity_stream : TopologyReporter R → TopologyReporter R
  end_activity_stream r = record r { activity_stream = none }

  unfoldable pub reset_connection_state : TopologyReporter R → TopologyReporter R
  reset_connection_state r = record (end_activity_stream (stop_heartbeat r)) {
    service_id = none;
    heartbeat_interval_ms = none;
    timeout_multiplier = none;
    heartbeat_seq = 0;
  }

  -- The head of the loop of `connectWithRetry`: without a service identifier a registration is begun,
  -- with one `register` returns it.
  unfoldable pub connect_with_retry : TopologyReporter R → TopologyReporter R
  connect_with_retry r =
      let registered = record r {
        retry_attempt = 0;
        attempt = Attempt.rests;
        reconnecting = false;
      } in
      if not r.is_shutting_down && r.auto_reconnect
      then elim r.service_id [ some id ↦ registered | none ↦ record r { attempt = Attempt.calls } ]
      else record r { attempt = Attempt.rests; reconnecting = false }

  unfoldable pub trigger_reconnect : TopologyReporter R → TopologyReporter R
  trigger_reconnect r =
      let begun = connect_with_retry (record r { reconnecting = true }) in
      if r.reconnecting || r.is_shutting_down || not r.auto_reconnect then r else begun

  unfoldable pub start : TopologyReporter R → TopologyReporter R
  start r =
      if r.auto_reconnect || r.is_shutting_down
      then r
      else trigger_reconnect (record r { auto_reconnect = true })

  -- An error or the end of a stream, of whichever: the handlers do not tell the streams apart.
  unfoldable pub handle_stream_error : TopologyReporter R → TopologyReporter R
  handle_stream_error r =
      if r.is_shutting_down
      then r
      else if not r.auto_reconnect
      then r
      else trigger_reconnect (reset_connection_state r)
