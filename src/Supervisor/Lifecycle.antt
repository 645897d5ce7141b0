-- ===== src/Supervisor/Lifecycle.antt =====
-- apps/supervisor/src/supervisor.tsx: what starts, ends and restarts one service. Each function takes
-- the entry of the service and the event log, and returns both; `supervisor_down` is the global
-- flag. Spawning returns a process, which is an argument; a kill is in the result.
use modular_runtime.Shared.{
  ℕ, ◌+◌, String, Option, some, none, List, Bool, true, false, ◌||◌, not, if◌then◌else◌, or_else,
}
use modular_runtime.Shared.Text.{◌⧺◌}
use modular_runtime.Supervisor.{
  ServiceEntry, ServiceStatus, EventEntry, push_event, default_restart_timeout_ms,
  determine_restart_decision,
}

abbrev pub Turn : Type 0
Turn = ServiceEntry × List EventEntry

module _ (text_of : ℕ → String) (stamp : String) where
  -- A timer that was pending is cleared, since the entry forgets it.
  unfoldable pub schedule_restart : ℕ → String → Turn → Turn
  schedule_restart delay reason (service, log) = (
    record service {
      status = ServiceStatus.waiting_restart;
      status_message = some ("waiting " ⧺ text_of delay ⧺ "ms before restart (" ⧺ reason ⧺ ")");
      pending_restart = some delay;
    },
    push_event stamp
        ("Service "
          ⧺ service.config.name
          ⧺ " will restart in "
          ⧺ text_of delay
          ⧺ "ms ("
          ⧺ reason
          ⧺ ")")
        log,
  )

  unfoldable pub exit_description : Option ℕ → Option String → String
  exit_description code (some signal) = "signal " ⧺ signal
  exit_description (some code) none = "exit code " ⧺ text_of code
  exit_description none none = "exit code unknown"

  -- The part of `handleExit` from `determineRestartDecision` on.
  unfoldable pub decide_restart : String → Turn → Turn
  decide_restart description (service, log) =
      let decision = determine_restart_decision text_of service in
      if decision.allow
      then schedule_restart (or_else service.config.restart_delay default_restart_timeout_ms)
          description (record service { restarts = service.restarts + 1 }, log)
      else (
        service,
        push_event stamp
            ("Restart prevented for "
              ⧺ service.config.name
              ⧺ ": "
              ⧺ or_else decision.reason "policy prevented restart")
            log,
      )

  unfoldable pub handle_exit : Bool → Option ℕ → Option String → Turn → Turn
  handle_exit supervisor_down code signal (service, log) =
      let description = exit_description code signal in
      let gone = record service {
        process = none;
        last_exit_code = code;
        status = ServiceStatus.stopped;
      } in
      let crashed = record gone {
        status_message = some ("unexpectedly exited (" ⧺ description ⧺ ")");
      } in
      let crash_log =
        push_event stamp
          ("Service " ⧺ service.config.name ⧺ " exited unexpectedly (" ⧺ description ⧺ ")") log in
      let decided = decide_restart description (crashed, crash_log) in
      if service.shutting_down || supervisor_down
      then (
        record gone { status_message = some ("stopped (" ⧺ description ⧺ ")") },
        push_event stamp ("Service " ⧺ service.config.name ⧺ " stopped (" ⧺ description ⧺ ")") log,
      )
      else if not (or_else service.config.restart_on_unexpected_exit true)
      then (
        crashed,
        push_event stamp
            ("Restart disabled for " ⧺ service.config.name ⧺ " (restartOnUnexpectedExit=false)")
            crash_log,
      )
      else decided

  unfoldable pub handle_spawn_error : String → Turn → Turn
  handle_spawn_error message (service, log) = (
    record service { status = ServiceStatus.failed; status_message = some message },
    push_event stamp ("Service " ⧺ service.config.name ⧺ " failed to start: " ⧺ message) log,
  )

  unfoldable pub start_service : ℕ → Turn → Turn
  start_service proc (service, log) = (
    record service {
      pending_restart = none;
      shutting_down = false;
      status = ServiceStatus.starting;
      status_message = some "launching";
      process = some proc;
    },
    push_event stamp ("Starting " ⧺ service.config.name) log,
  )

  -- The `spawn` event; `pid` is what the operating system calls the process.
  unfoldable pub handle_spawn : Option ℕ → Turn → Turn
  handle_spawn pid (service, log) =
      let pid_text : String = elim pid [ none ↦ "-" | some n ↦ text_of n ] in
      (
        record service {
          status = ServiceStatus.running;
          status_message = some ("running (pid " ⧺ pid_text ⧺ ")");
        },
        push_event stamp ("Service " ⧺ service.config.name ⧺ " is running (pid " ⧺ pid_text ⧺ ")")
            log,
      )

  -- The timer of `scheduleRestart` fires; `proc` is what `spawn` returns if it comes to that.
  unfoldable pub restart_timer : Bool → ℕ → Turn → Turn
  restart_timer supervisor_down proc (service, log) =
      let fired = record service { pending_restart = none } in
      if supervisor_down
      then (
        fired,
        push_event stamp
            ("Supervisor is shutting down; skipping restart for " ⧺ service.config.name) log,
      )
      else start_service proc (
        record fired { status = ServiceStatus.restarting; status_message = some "restarting now" },
        push_event stamp ("Restarting " ⧺ service.config.name) log,
      )

  -- The last component is what was killed.
  unfoldable pub stop_service : Turn → Turn × Option ℕ
  stop_service (service, log) =
      let stopping = record service { pending_restart = none; shutting_down = true } in
      elim service.process [
        | some p ↦ ((stopping, push_event stamp ("Stopped " ⧺ service.config.name) log), some p)
        | none ↦ (
          (stopping, push_event stamp ("Service " ⧺ service.config.name ⧺ " is not running") log),
          none,
        )
      ]

  -- A digit key on the service.
  unfoldable pub toggle_service : ℕ → Turn → Turn × Option ℕ
  toggle_service proc (service, log) =
      let started : Turn × Option ℕ = (start_service proc (service, log), none) in
      let stopped : Turn × Option ℕ = stop_service (service, log) in
      elim service.process [
        | some p ↦ if service.shutting_down then started else stopped
        | none ↦ started
      ]
