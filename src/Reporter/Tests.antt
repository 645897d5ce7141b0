-- ===== src/Reporter/Tests.antt =====
-- packages/topology-reporter/src/topology-reporter.ts: a reporter on which the theorems are tried.
use modular_runtime.Shared.{
  ℕ, ◌+◌, ◌*◌, ◌^◌, min, some, none, List, [], ◌∷◌, true, false, ◌≡◌, refl,
}
use modular_runtime.Topology.Types.{ServiceHandle}
use modular_runtime.Reporter.{
  TopologyReporter, Attempt, new_reporter, start, retry_max_delay_ms, retry_base_delay_ms,
  trigger_reconnect, connect_with_retry,
}
use modular_runtime.Reporter.Operations.{registration_answered, shutdown}
use modular_runtime.Reporter.Backoff.{fail, fail-delay}
use modular_runtime.Reporter.Silence.{
  Operation, starts, answered, delayed, stream_fails, beats, run, IsSilent, run_after_shutdown,
  IsDriven, new_reporter-IsDriven, thrown_heartbeat_strands,
}

abbrev handle : ServiceHandle
handle = record { service_id = "a"; heartbeat_interval_ms = 5000; timeout_multiplier = 3 }

abbrev calling : TopologyReporter ℕ
calling = record (new_reporter none) {
  auto_reconnect = true;
  reconnecting = true;
  attempt = Attempt.calls;
}

start_test : start (new_reporter {R = ℕ} none) ≡ calling
unfolding start new_reporter trigger_reconnect connect_with_retry
start_test = refl

fail-delay_example :
    (fail 5 calling).attempt ≡ Attempt.waits (min retry_max_delay_ms (retry_base_delay_ms * 2 ^ 5))
unfolding new_reporter
fail-delay_example = fail-delay 5 calling refl refl refl refl refl

abbrev operations : List (Operation ℕ)
operations = starts ∷ answered (some handle) 1 2 false ∷ beats false ∷ stream_fails ∷ delayed ∷ []

run_after_shutdown_example : IsSilent calling (run operations (shutdown calling).0)
unfolding new_reporter
run_after_shutdown_example = run_after_shutdown calling operations refl

new_reporter-IsDriven_example : IsDriven (run operations (new_reporter none))
new_reporter-IsDriven_example =
    new_reporter-IsDriven none operations (tt, (refl, (refl, (tt, (tt, tt)))))

thrown_heartbeat_strands_example :
    let r' = registration_answered (some handle) 1 2 true calling in
    (r'.service_id ≡ none)
    × (r'.attempt ≡ Attempt.rests)
    × (r'.reconnecting ≡ false)
    × (r'.timers ≡ calling.timers + 1)
unfolding new_reporter
thrown_heartbeat_strands_example =
    thrown_heartbeat_strands handle 1 2 calling refl refl refl refl refl refl
