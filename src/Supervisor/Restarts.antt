-- ===== src/Supervisor/Restarts.antt =====
-- apps/supervisor/src/supervisor.tsx: how often the supervisor restarts a service by itself. The timer of a restart is a
-- single one, `pendingRestart`, and it fires only while it is pending.
use modular_runtime.Shared.{
  ℕ, ◌+◌, ◌≤◌, String, Option, some, none, List, [], ◌∷◌, Option-cases, inl, inr, Bool, ◌≡◌, refl,
  ap, sym, ◌∙◌, arith, or_else,
}
use modular_runtime.Supervisor.{ServiceEntry, EventEntry}
use modular_runtime.Supervisor.Shutdown.{stop_running}
use modular_runtime.Supervisor.Lifecycle.{
  Turn, handle_exit, decide_restart, schedule_restart, handle_spawn_error, handle_spawn,
  start_service, stop_service, toggle_service, restart_timer,
}
use modular_runtime.Supervisor.Laws.{handle_exit-IsAfterExit}

-- What can happen to one service of a supervisor; `delay` is that of the timer that fires.
pub data Event (text_of : ℕ → String) : Turn → Turn → Type 0 where
  exits :
      (stamp : String) (down : Bool) (code : Option ℕ) (signal : Option String) (t : Turn)
      → Event text_of t (handle_exit text_of stamp down code signal t)
  fails :
      (stamp message : String) (t : Turn)
      → Event text_of t (handle_spawn_error text_of stamp message t)
  spawns :
      (stamp : String) (pid : Option ℕ) (t : Turn)
      → Event text_of t (handle_spawn text_of stamp pid t)
  fires :
      (stamp : String) (down : Bool) (proc delay : ℕ) (t : Turn)
      → t.0.pending_restart ≡ some delay
      → Event text_of t (restart_timer text_of stamp down proc t)
  toggles :
      (stamp : String) (proc : ℕ) (t : Turn)
      → Event text_of t (toggle_service text_of stamp proc t).0
  starts :
      (stamp : String) (proc : ℕ) (t : Turn) → Event text_of t (start_service text_of stamp proc t)
  -- The supervisor shuts down its services, of which this is one.
  ends :
      (service : ServiceEntry) (log : List EventEntry) (t : Turn)
      → stop_running (t.0 ∷ []) ≡ service ∷ []
      → Event text_of t (service, log)

pub data Life (text_of : ℕ → String) (t : Turn) : Turn → Type 0 where
  born : Life text_of t t
  lives : {u v : Turn} → Life text_of t u → Event text_of u v → Life text_of t v

module _ {text_of : ℕ → String} where
  -- The firings of the timer
  abbrev pub fired : {t u : Turn} → Event text_of t u → ℕ
  fired (fires stamp down proc delay t e) = 1
  fired (exits stamp down code signal t) = 0
  fired (fails stamp message t) = 0
  fired (spawns stamp pid t) = 0
  fired (toggles stamp proc t) = 0
  fired (starts stamp proc t) = 0
  fired (ends service log t e) = 0

  abbrev pub restarts_in : {t u : Turn} → Life text_of t u → ℕ
  restarts_in born = 0
  restarts_in (lives l e) = restarts_in l + fired e

abbrev pending : Option ℕ → ℕ
pending none = 0
pending (some delay) = 1

abbrev limit_of : ServiceEntry → ℕ
limit_of service = or_else service.config.max_restarts 5

-- After `n` firings, each of which and a pending one is counted
record IsCounted (n : ℕ) (service : ServiceEntry) : Type 0 where
  counted : n + pending service.pending_restart ≤ service.restarts
  limited : service.restarts ≤ limit_of service

record IsEnded (before after : ServiceEntry) : Type 0 where
  config : after.config ≡ before.config
  restarts : after.restarts ≡ before.restarts
  timer : pending after.pending_restart ≤ pending before.pending_restart

ended :
    (before after : ServiceEntry) → stop_running (before ∷ []) ≡ after ∷ [] → IsEnded before after
unfolding stop_running
ended before after e =
    let first : List ServiceEntry → ServiceEntry = λ ss. elim ss [ [] ↦ before | s ∷ rest ↦ s ] in
    let is_first : after ≡ first (stop_running (before ∷ [])) = ap first (sym e) in
    elim (Option-cases before.process) [
      | inl gone ↦
          rw (is_first, gone) (record { config = refl; restarts = refl; timer = omega arith })
      | inr (p, running) ↦
          rw (is_first, running) (record { config = refl; restarts = refl; timer = omega arith })
    ]

module _ (text_of : ℕ → String) where
  config-handle_exit :
      (stamp : String) (down : Bool) (code : Option ℕ) (signal : Option String) (t : Turn)
      → (handle_exit text_of stamp down code signal t).0.config ≡ t.0.config
  unfolding handle_exit decide_restart schedule_restart
  config-handle_exit stamp down code signal t = ground arith

  Event-IsCounted :
      {t u : Turn} (e : Event text_of t u) (n : ℕ) → IsCounted n t.0 → IsCounted (n + fired e) u.0
  unfolding handle_spawn_error handle_spawn restart_timer toggle_service start_service stop_service
  Event-IsCounted (exits stamp down code signal t) n h =
      let after = handle_exit-IsAfterExit text_of stamp down code signal t.0 t.1 in
      record {
        counted = rw (after.counted, after.timer) (ground (arith, h.counted));
        limited =
            rw (config-handle_exit stamp down code signal t, after.counted)
              (ground (arith, h.limited));
      }
  Event-IsCounted (fails stamp message t) n h = record {
    counted = ground (arith, h.counted);
    limited = ground (arith, h.limited);
  }
  Event-IsCounted (spawns stamp pid t) n h = record {
    counted = ground (arith, h.counted);
    limited = ground (arith, h.limited);
  }
  Event-IsCounted (fires stamp down proc delay t e) n h = record {
    counted = ground (arith, h.counted);
    limited = ground (arith, h.limited);
  }
  Event-IsCounted (toggles stamp proc t) n h = record {
    counted = ground (arith, h.counted);
    limited = ground (arith, h.limited);
  }
  Event-IsCounted (starts stamp proc t) n h = record {
    counted = ground (arith, h.counted);
    limited = ground (arith, h.limited);
  }
  Event-IsCounted (ends service log t e) n h =
      let after = ended t.0 service e in
      record {
        counted = rw (after.restarts) (omega (arith, h.counted, after.timer));
        limited = rw (after.config, after.restarts) h.limited;
      }

  Life-IsCounted :
      {t u : Turn} (l : Life text_of t u) → IsCounted 0 t.0 → IsCounted (restarts_in l) u.0
  Life-IsCounted born h = h
  Life-IsCounted (lives l e) h = Event-IsCounted e (restarts_in l) (Life-IsCounted l h)

  config-Event : {t u : Turn} → Event text_of t u → u.0.config ≡ t.0.config
  unfolding handle_spawn_error handle_spawn restart_timer toggle_service start_service stop_service
  config-Event (exits stamp down code signal t) = config-handle_exit stamp down code signal t
  config-Event (fails stamp message t) = refl
  config-Event (spawns stamp pid t) = refl
  config-Event (fires stamp down proc delay t e) = ground arith
  config-Event (toggles stamp proc t) = ground arith
  config-Event (starts stamp proc t) = refl
  config-Event (ends service log t e) = (ended t.0 service e).config

  config-Life : {t u : Turn} → Life text_of t u → u.0.config ≡ t.0.config
  config-Life born = refl
  config-Life (lives l e) = config-Event e ∙ config-Life l

  -- However a service that begins without restarts and without a pending timer is started, exits, fails, is restarted by its
  -- timer, is toggled by hand and is stopped when the supervisor shuts down: the timer of a restart fires at most
  -- as often as its configured limit, or five times if none is configured, so that the supervisor restarts the service at most
  -- so often.
  pub restarts_in-IsWithinLimit :
      (t u : Turn) (l : Life text_of t u)
      → t.0.restarts ≡ 0
      → t.0.pending_restart ≡ none
      → restarts_in l ≤ or_else t.0.config.max_restarts 5
  restarts_in-IsWithinLimit t u l none_yet no_timer =
      let start : IsCounted 0 t.0 = record {
        counted = rw (none_yet, no_timer) (omega arith);
        limited = rw none_yet (omega arith);
      } in
      let after = Life-IsCounted l start in
      let limited : u.0.restarts ≤ or_else t.0.config.max_restarts 5 =
        rw (← config-Life l) after.limited in
      omega (arith, after.counted, limited)
