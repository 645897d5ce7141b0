-- ===== src/Supervisor/Laws.antt =====
-- apps/supervisor/src/supervisor.tsx: when a service is restarted, and what is lost when a
-- service is started before its last process is gone.
use modular_runtime.Shared.{
  ℕ, ◌+◌, String, Option, some, none, List, Bool, true, false, not, ◌&&◌, ◌||◌, ◌≡◌, refl, arith,
  ltb, eqb, if◌then◌else◌, or_else, inl, inr, Bool-cases,
}
use modular_runtime.Supervisor.{
  ServiceEntry, ServiceStatus, RestartPolicy, EventEntry, default_restart_timeout_ms,
  determine_restart_decision, policy_decision,
}
use modular_runtime.Supervisor.Lifecycle.{
  Turn, handle_exit, decide_restart, schedule_restart, start_service, stop_service, toggle_service,
  exit_description,
}

-- The policies by which an exit with `code` may be followed by a restart.
abbrev pub wants_restart : RestartPolicy → Option ℕ → Bool
wants_restart RestartPolicy.never code = false
wants_restart RestartPolicy.always code = true
wants_restart RestartPolicy.on_failure none = true
wants_restart RestartPolicy.on_failure (some code) = not (eqb code 0)

abbrev pub may_restart : Bool → Option ℕ → ServiceEntry → Bool
may_restart supervisor_down code service =
    not (service.shutting_down || supervisor_down)
    && (or_else service.config.restart_on_unexpected_exit true
        && (ltb service.restarts (or_else service.config.max_restarts 5)
            && wants_restart (or_else service.config.restart RestartPolicy.never) code))

pub record IsAfterExit (restarted : Bool) (before after : ServiceEntry) : Type 0 where
  pub gone : after.process ≡ none
  pub counted : after.restarts ≡ (if restarted then before.restarts + 1 else before.restarts)
  pub timer : after.pending_restart ≡ (
      if restarted
      then some (or_else before.config.restart_delay default_restart_timeout_ms)
      else before.pending_restart)
  pub shown :
      after.status ≡ (if restarted then ServiceStatus.waiting_restart else ServiceStatus.stopped)

module _ (text_of : ℕ → String) (stamp : String) where
  policy_decision-allow :
      (policy : RestartPolicy) (code : Option ℕ)
      → (policy_decision text_of policy code).allow ≡ wants_restart policy code
  unfolding policy_decision
  policy_decision-allow RestartPolicy.never code = refl
  policy_decision-allow RestartPolicy.always code = refl
  policy_decision-allow RestartPolicy.on_failure none = refl
  policy_decision-allow RestartPolicy.on_failure (some code) = ground arith

  determine_restart_decision-allow :
      (service : ServiceEntry)
      → (determine_restart_decision text_of service).allow ≡ (
          ltb service.restarts (or_else service.config.max_restarts 5)
          && wants_restart
              (or_else service.config.restart RestartPolicy.never)
              service.last_exit_code)
  unfolding determine_restart_decision
  determine_restart_decision-allow service = ground (
    arith,
    policy_decision-allow (or_else service.config.restart RestartPolicy.never)
        service.last_exit_code,
  )

  decide_restart-IsAfterExit :
      (description : String) (service : ServiceEntry) (log : List EventEntry)
      → service.process ≡ none
      → service.status ≡ ServiceStatus.stopped
      → IsAfterExit
          (ltb service.restarts (or_else service.config.max_restarts 5)
            && wants_restart
                (or_else service.config.restart RestartPolicy.never)
                service.last_exit_code)
          service
          (decide_restart text_of stamp description (service, log)).0
  unfolding decide_restart schedule_restart
  decide_restart-IsAfterExit description service log gone stopped =
      elim (Bool-cases (determine_restart_decision text_of service).allow) [
        | inl allowed ↦
            rw (← determine_restart_decision-allow service, allowed)
              (record { gone = gone; counted = refl; timer = refl; shown = refl })
        | inr denied ↦
            rw (← determine_restart_decision-allow service, denied)
              (record { gone = gone; counted = refl; timer = refl; shown = stopped })
      ]

  -- When the process of a service exits, the service is restarted, with the configured delay or two
  -- seconds, exactly if neither it nor the supervisor is shutting down, restarts on unexpected exits
  -- are not disabled, its restarts are below the limit, and its policy wants it for that exit code.
  -- Otherwise it is stopped, with the number of restarts and the timer as before.
  pub handle_exit-IsAfterExit :
      (supervisor_down : Bool) (code : Option ℕ) (signal : Option String) (service : ServiceEntry)
      (log : List EventEntry)
      → IsAfterExit
          (may_restart supervisor_down code service)
          service
          (handle_exit text_of stamp supervisor_down code signal (service, log)).0
  unfolding handle_exit
  handle_exit-IsAfterExit supervisor_down code signal service log =
      elim (Bool-cases (service.shutting_down || supervisor_down)) [
        | inl down ↦ rw down (record { gone = refl; counted = refl; timer = refl; shown = refl })
        | inr up ↦ elim (Bool-cases (or_else service.config.restart_on_unexpected_exit true)) [
          | inr disabled ↦
              rw (up, disabled) (record { gone = refl; counted = refl; timer = refl; shown = refl })
          | inl enabled ↦
              let after =
                decide_restart-IsAfterExit (exit_description text_of stamp code signal) _ _ refl
                  refl in
              rw (up, enabled)
                (record {
                  gone = after.gone;
                  counted = after.counted;
                  timer = after.timer;
                  shown = after.shown;
                })
        ]
      ]

module _ (text_of : ℕ → String) where
  -- A service that runs is stopped and started again by hand before its first process, `p`, is gone,
  -- while the supervisor is up: when `p` exits, the service has no process any more, though the
  -- second process, `r`, was started and was not killed.
  pub toggled_twice_loses_process :
      (s1 s2 s3 : String) (p q r : ℕ) (code : Option ℕ) (signal : Option String) (t : Turn)
      → t.0.process ≡ some p
      → t.0.shutting_down ≡ false
      → let stopped = toggle_service text_of s1 q t in
        let started = toggle_service text_of s2 r stopped.0 in
        (stopped.1 ≡ some p)
        × (started.1 ≡ none)
        × (started.0.0.process ≡ some r)
        × ((handle_exit text_of s3 false code signal started.0).0.process ≡ none)
  unfolding toggle_service start_service stop_service
  toggled_twice_loses_process s1 s2 s3 p q r code signal t running up =
      let stopped = toggle_service text_of s1 q t in
      let started = toggle_service text_of s2 r stopped.0 in
      (
        rw (running, up) refl,
        rw (running, up) refl,
        rw (running, up) refl,
        (handle_exit-IsAfterExit text_of s3 false code signal started.0.0 started.0.1).gone,
      )
