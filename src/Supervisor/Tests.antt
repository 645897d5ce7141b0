-- ===== src/Supervisor/Tests.antt =====
-- apps/supervisor/src/supervisor.tsx: a service on which the theorems are tried. Numbers are printed as
-- "n" here.
use modular_runtime.Shared.{
  ℕ, ◌≤◌, if◌then◌else◌, String, some, none, [], ◌∷◌, ◌++◌, true, false, ◌≡◌, refl, eqb, length,
  arith,
}
use modular_runtime.Supervisor.{
  ServiceEntry, ServiceStatus, RestartPolicy, OutputStream, max_output_entries, split_lines,
  log_service_output, determine_restart_decision, policy_decision,
}
use modular_runtime.Supervisor.Lifecycle.{
  Turn, handle_exit, decide_restart, schedule_restart, restart_timer, toggle_service,
}
use modular_runtime.Supervisor.Shutdown.{Supervisor, shutdown_supervisor, running_processes}
use modular_runtime.Supervisor.Logs.{IsRecent, entries, non_empty, log_service_output-IsRecent}
use modular_runtime.Supervisor.Laws.{
  may_restart, IsAfterExit, handle_exit-IsAfterExit, toggled_twice_loses_process,
}
use modular_runtime.Supervisor.Restarts.{
  Life, born, lives, exits, fires, restarts_in, restarts_in-IsWithinLimit,
}
use modular_runtime.Supervisor.Draining.{Exit, exit_all, without, shutdown-exits}

abbrev printed : ℕ → String
printed n = "n"

abbrev service : ServiceEntry
service = record {
  config = record {
    name = "ingest";
    command = "node";
    args = none;
    cwd = none;
    env = none;
    restart = some RestartPolicy.on_failure;
    max_restarts = some 2;
    restart_delay = none;
    restart_on_unexpected_exit = none;
    log_color = none;
  };
  process = some 7;
  restarts = 0;
  last_exit_code = none;
  status = ServiceStatus.running;
  status_message = none;
  shutting_down = false;
  pending_restart = none;
}

may_restart_test : may_restart false (some 1) service ≡ true
may_restart_test = refl

clean_exit_test : may_restart false (some 0) service ≡ false
clean_exit_test = refl

handle_exit-IsAfterExit_example :
    IsAfterExit
      (may_restart false (some 1) service)
      service
      (handle_exit printed "t" false (some 1) none (service, [])).0
handle_exit-IsAfterExit_example = handle_exit-IsAfterExit printed "t" false (some 1) none service []

abbrev crashed : Turn
crashed = handle_exit printed "t" false (some 1) none (service, [])

abbrev revived : Turn
revived = restart_timer printed "u" false 8 crashed

-- The service crashes, and its timer fires.
abbrev once_restarted : Life printed (service, []) revived
unfolding handle_exit decide_restart schedule_restart determine_restart_decision policy_decision
once_restarted =
    lives (lives born (exits "t" false (some 1) none (service, [])))
      (fires "u" false 8 2000 crashed refl)

restarts_in_test : restarts_in once_restarted ≡ 1
unfolding once_restarted
restarts_in_test = refl

restarts_in-IsWithinLimit_example : restarts_in once_restarted ≤ 2
restarts_in-IsWithinLimit_example =
    restarts_in-IsWithinLimit printed (service, []) revived once_restarted refl refl

toggled_twice_loses_process_example :
    let stopped = toggle_service printed "t" 8 (service, []) in
    let started = toggle_service printed "u" 9 stopped.0 in
    (stopped.1 ≡ some 7)
    × (started.1 ≡ none)
    × (started.0.0.process ≡ some 9)
    × ((handle_exit printed "v" false none (some "SIGTERM") started.0).0.process ≡ none)
toggled_twice_loses_process_example =
    toggled_twice_loses_process printed "t" "u" "v" 7 8 9 none (some "SIGTERM") (service, []) refl
      refl

abbrev stamps : ℕ → String
stamps n = if eqb n 0 then "t" else "u"

split_lines_test : split_lines "a\r\n\nb\r" ≡ "a" ∷ "" ∷ "b\r" ∷ []
unfolding split_lines
split_lines_test = refl

log_service_output-IsRecent_example :
    IsRecent max_output_entries
      ([] ++ entries stamps 0 service OutputStream.stdout (non_empty (split_lines "a\r\n\nb")))
      (log_service_output stamps service OutputStream.stdout "a\r\n\nb" [])
log_service_output-IsRecent_example =
    log_service_output-IsRecent service OutputStream.stdout stamps "a\r\n\nb" [] (omega arith)

abbrev supervisor : Supervisor
supervisor = record {
  services = service ∷ record service { process = none } ∷ record service { process = some 9 } ∷ [];
  event_log = [];
  shutting_down = false;
  awaited = [];
  remaining = 0;
  stopping = [];
  killed = [];
  exited = false;
}

abbrev exit_of : ℕ → ℕ → Exit
exit_of place process = record {
  place = place;
  process = process;
  code = none;
  signal = some "SIGTERM";
}

shutdown-exits_example :
    (exit_all printed "t"
      (exit_of 2 9 ∷ exit_of 0 7 ∷ [])
      (shutdown_supervisor printed "t" "SIGINT" supervisor)).exited
    ≡ eqb
        (length (without (exit_of 2 9 ∷ exit_of 0 7 ∷ []) (running_processes supervisor.services)))
        0
shutdown-exits_example =
    shutdown-exits printed "t" "SIGINT" (exit_of 2 9 ∷ exit_of 0 7 ∷ []) supervisor refl refl refl
      (refl, (refl, tt))
