-- ===== src/Supervisor/Shutdown.antt =====
-- apps/supervisor/src/supervisor.tsx: the supervisor over all services: the start, the shutdown
-- that waits for the processes, and the keys that act on services. What `shutdownSupervisor` keeps
-- in its closure (the services it waits for and their number) is part of the state.
use modular_runtime.Shared.{
  ℕ, zero, suc, ◌-◌, String, Option, some, none, List, [], ◌∷◌, ◌++◌, Bool, true, false, ltb, eqb,
  length, get_elem?, if◌then◌else◌,
}
use modular_runtime.Shared.Text.{◌⧺◌}
use modular_runtime.Supervisor.{ServiceEntry, EventEntry, push_event}
use modular_runtime.Supervisor.Lifecycle.{handle_exit, start_service, toggle_service}

pub record Supervisor : Type 0 where
  pub services : List ServiceEntry
  pub event_log : List EventEntry
  pub shutting_down : Bool
  -- The processes whose exit `shutdownSupervisor` counts, and the count.
  pub awaited : List ℕ
  pub remaining : ℕ
  -- `runningServices`, by their places in the list.
  pub stopping : List ℕ
  -- The processes that were sent a signal, and whether `process.exit(0)` was called.
  pub killed : List ℕ
  pub exited : Bool

-- `list[i] = x`
unfoldable pub replace {ℓ} : {A : Type ℓ} → ℕ → A → List A → List A
replace i x [] = []
replace zero x (y ∷ ys) = x ∷ ys
replace (suc i) x (y ∷ ys) = y ∷ replace i x ys

-- The loop of `shutdownSupervisor` on the services: those with a process are stopped.
unfoldable pub stop_running : List ServiceEntry → List ServiceEntry
stop_running [] = []
stop_running (s ∷ ss) =
    let rest = stop_running ss in
    elim s.process [
      | none ↦ s ∷ rest
      | some p ↦ record s { shutting_down = true; pending_restart = none } ∷ rest
    ]

-- `services.filter((s) => s.process)`, by their processes.
unfoldable pub running_processes : List ServiceEntry → List ℕ
running_processes [] = []
running_processes (s ∷ ss) =
    let rest = running_processes ss in elim s.process [ none ↦ rest | some p ↦ p ∷ rest ]

unfoldable pub running_from : ℕ → List ServiceEntry → List ℕ
running_from i [] = []
running_from i (s ∷ ss) =
    let rest = running_from (suc i) ss in elim s.process [ none ↦ rest | some p ↦ i ∷ rest ]

unfoldable pub processes_at : List ServiceEntry → List ℕ → List ℕ
processes_at services [] = []
processes_at services (i ∷ is) =
    let rest = processes_at services is in
    elim (get_elem? services i) [
      | none ↦ rest
      | some s ↦ elim s.process [ none ↦ rest | some p ↦ p ∷ rest ]
    ]

-- An `exit` listener is called once.
unfoldable pub remove : ℕ → List ℕ → List ℕ
remove p [] = []
remove p (q ∷ qs) = if eqb p q then qs else q ∷ remove p qs

unfoldable pub contains : ℕ → List ℕ → Bool
contains p [] = false
contains p (q ∷ qs) = if eqb p q then true else contains p qs

module _ (text_of : ℕ → String) (stamp : String) where
  unfoldable pub shutdown_supervisor : String → Supervisor → Supervisor
  shutdown_supervisor signal v =
      let log =
        push_event stamp ("Supervisor received " ⧺ signal ⧺ "; shutting down services")
          v.event_log in
      let running = running_processes v.services in
      let remaining = length running in
      if v.shutting_down
      then v
      else if eqb remaining 0
      then record v {
        shutting_down = true;
        remaining = 0;
        event_log = push_event stamp "No services running, supervisor exiting" log;
        exited = true;
      }
      else record v {
        shutting_down = true;
        event_log = log;
        awaited = running;
        remaining = remaining;
        stopping = running_from 0 v.services;
        services = stop_running v.services;
        killed = v.killed ++ running;
      }

  -- The listener that `shutdownSupervisor` adds to a process.
  unfoldable pub count_exit : ℕ → String → Supervisor → Supervisor
  count_exit p name v =
      let remaining = v.remaining - 1 in
      let log = push_event stamp ("Service " ⧺ name ⧺ " stopped") v.event_log in
      let counted = record v {
        awaited = remove p v.awaited;
        remaining = remaining;
        event_log = log;
      } in
      if eqb remaining 0
      then record counted {
        event_log = push_event stamp "All services stopped, supervisor exiting" log;
        exited = true;
      }
      else counted

  -- The process `p` of the service at `i` exits.
  unfoldable pub process_exit : ℕ → ℕ → Option ℕ → Option String → Supervisor → Supervisor
  process_exit i p code signal v = elim (get_elem? v.services i) [
    | none ↦ v
    | some service ↦
        let (service', log) =
          handle_exit text_of stamp v.shutting_down code signal (service, v.event_log) in
        let handled = record v { services = replace i service' v.services; event_log = log } in
        let counted = count_exit p service.config.name handled in
        if contains p v.awaited then counted else handled
  ]

  -- The timer of five seconds.
  unfoldable pub force_kill : Supervisor → Supervisor
  force_kill v =
      if ltb 0 v.remaining
      then record v {
        event_log = push_event stamp "Force killing remaining services" v.event_log;
        killed = v.killed ++ processes_at v.services v.stopping;
        exited = true;
      }
      else v

  -- The key `r`.
  unfoldable pub restart_all : Supervisor → Supervisor
  restart_all v = record v {
    event_log = push_event stamp "Manual restart of all services triggered" v.event_log;
    killed = v.killed ++ running_processes v.services;
  }

  -- A digit key; `proc` is what `spawn` returns if the service is started.
  unfoldable pub press_digit : ℕ → ℕ → Supervisor → Supervisor
  press_digit i proc v = elim (get_elem? v.services i) [
    | none ↦ v
    | some service ↦
        let ((service', log), signalled) =
          toggle_service text_of stamp proc (service, v.event_log) in
        record v {
          services = replace i service' v.services;
          event_log = log;
          killed = elim signalled [ none ↦ v.killed | some p ↦ v.killed ++ p ∷ [] ];
        }
  ]

  -- `startAllServices`; `procs` are what `spawn` returns.
  unfoldable pub start_all :
      List ℕ → List ServiceEntry → List EventEntry → List ServiceEntry × List EventEntry
  start_all (p ∷ procs) (s ∷ ss) log =
      let (s', log') = start_service text_of stamp p (s, log) in
      let (ss', log'') = start_all procs ss log' in (s' ∷ ss', log'')
  start_all procs ss log = (ss, log)
