-- ===== src/Topology/Tests.antt =====
-- apps/topology/src: the theorems on the sample services.
use modular_runtime.Shared.{ℕ, ◌≢◌, some, [], ◌∷◌, false, ◌≡◌, refl, elem, arith}
use modular_runtime.Shared.Dict.{keys, get, set, delete}
use modular_runtime.Shared.Loops.{for_each}
use modular_runtime.Shared.Pointwise.{then_apply}
use modular_runtime.Topology.Types.{ServiceState}
use modular_runtime.Topology.Store.State.{ServiceRecord, settings_of, new_store, edge_key}
use modular_runtime.Topology.Store.Services.{
  register_service, new_record, new_node, record_heartbeat, remove_service, remove_record,
}
use modular_runtime.Topology.Store.Activity.{flush_activity, batch_size_of, is_error}
use modular_runtime.Topology.Store.Sweep.{
  mark_stale, mark_idle, sweep, sweep_service, has_timed_out,
}
use modular_runtime.Topology.Store.Laws.Liveness.{left_of, get-sweep, IsSwept, sweep-IsSwept}
use modular_runtime.Topology.Store.Laws.Heartbeats.{heartbeat_keeps_alive}
use modular_runtime.Topology.Store.Laws.Accounting.{
  reported_by, report_all, reported, plus, shown, volume, reports-flush_activity,
}
use modular_runtime.Topology.Service.{
  Service, register_handler, watch_topology, unregister_handler, sweep_timer,
}
use modular_runtime.Topology.Service.Watchers.{
  Reach, here, next, registers, watches, sweeps, IsServing, run-IsServing,
}
use modular_runtime.Topology.Service.Answers.{unregister_handler_answers}
use modular_runtime.Topology.Samples.{
  whole, no_options, request_of, empty_store, two, two-IsWellFormed, events, alpha, served,
  accepts_all, beat, found_a,
}

reported_test : reported "a::Parse" ("a" ∷ "b" ∷ []) events ≡ (6, 1)
unfolding reported reported_by edge_key batch_size_of is_error
reported_test = refl

reports-flush_activity_example :
    shown (get "a::Parse" (flush_activity 3000 (report_all events two)).0.edges)
    ≡ plus (reported "a::Parse" (keys two.services) events) (volume (get "a::Parse" two.edges))
reports-flush_activity_example = reports-flush_activity "a::Parse" events 3000 two two-IsWellFormed

get-sweep_example :
    get "a" (sweep 12000 two).0.services
    ≡ then_apply (left_of two.settings 12000) (get "a" two.services)
get-sweep_example = get-sweep 12000 "a" two two-IsWellFormed

-- The service "a" has missed its deadline of 15 seconds; "b" has not.
sweep_test : keys (sweep 16500 two).0.services ≡ "b" ∷ []
unfolding sweep register_service for_each set new_store sweep_service get has_timed_out new_record
    settings_of remove_service remove_record delete
sweep_test = refl

-- The service "a" beats just before its deadline and is swept ten seconds later.
heartbeat_keeps_alive_example :
    (r' : ServiceRecord) × (get "a"
        (sweep 26000 (record_heartbeat (beat "a") 16000 two).0).0.services
      ≡ some r')
    × (r'.node.state ≢ ServiceState.stale)
unfolding new_record settings_of
heartbeat_keeps_alive_example =
    heartbeat_keeps_alive (beat "a") 16000 26000 two alpha two-IsWellFormed found_a (omega arith)
      (omega arith)

abbrev swept_b : ServiceRecord
swept_b = new_record (settings_of no_options) (request_of "Parse") "b" 2000

found_b : get "b" (sweep 3000 two).0.services ≡ some swept_b
unfolding sweep register_service for_each set new_store sweep_service get has_timed_out new_record
    settings_of mark_stale mark_idle new_node
found_b = refl

sweep-IsSwept_example : IsSwept two.settings 3000 swept_b
sweep-IsSwept_example = sweep-IsSwept 3000 "b" two swept_b two-IsWellFormed found_b

unregister_handler_answers_example :
    ((unregister_handler accepts_all "a" served).1 ≡ elem "a" (keys two.services))
    × (unregister_handler accepts_all "a" (unregister_handler accepts_all "a" served).0
        ≡ ((unregister_handler accepts_all "a" served).0, false))
unregister_handler_answers_example =
    unregister_handler_answers accepts_all "a" served two-IsWellFormed

-- A watcher joins, a service registers, and the timer sweeps.
abbrev start : Service ℕ
start = record { store = empty_store; watchers = [] }

abbrev watched : Service ℕ
watched = watch_topology 1 500 start

abbrev joined : Service ℕ
joined = (register_handler accepts_all (request_of "Ingest") "a" 1000 watched).0

run : Reach start (sweep_timer accepts_all 2000 joined)
unfolding new_store watch_topology
run =
    next
      (next (next here (watches start 1 500))
        (registers watched accepts_all (request_of "Ingest") "a" 1000 refl))
      (sweeps joined accepts_all 2000)

run-IsServing_example : IsServing 9 (sweep_timer accepts_all 2000 joined)
run-IsServing_example = run-IsServing 9 no_options 0 (sweep_timer accepts_all 2000 joined) run
