-- ===== src/Client/Tests.antt =====
-- packages/common/src/index.ts and packages/broker/src/BrokerClientManager.ts: runs of client managers.
use modular_runtime.Shared.{some, none, List, [], ◌∷◌, true, false, ◌≡◌, refl, arith}
use modular_runtime.Broker.{IService, Broker, find_service, get_available_services}
use modular_runtime.Client.{
  ClientManager, new_client_manager, connect, reconnect, ready, watch_called, stream_ended,
  clear_reconnect_timer, lose_client, schedule_reconnect,
}
use modular_runtime.Client.Steady.{
  Reachable, begins, continues, delay_over, answers, changes, IsSteady, never_stranded, reconnects,
  stream_ended-strands,
}
use modular_runtime.Client.Registry.{
  BrokerClientManager, new_broker_client_manager, register_with, register_all, shutdown,
  get_service, find_entry,
}
use modular_runtime.Client.Announcing.{Service, shutdown-register_all, get_service-register_with}

abbrev first : ClientManager
first = connect (some 1) new_client_manager

abbrev connected : ClientManager
connected = (ready false (some 2) first).0

-- The connection was lost.
abbrev lost : ClientManager
lost = watch_called 0 4 false connected

first-Reachable : Reachable first
first-Reachable = begins (some 1)

lost-Reachable : Reachable lost
unfolding connect watch_called ready clear_reconnect_timer new_client_manager lose_client
    schedule_reconnect
lost-Reachable =
    continues (continues first-Reachable (answers false (some 2) first (omega arith)))
      (changes 0 4 false connected (omega arith))

never_stranded_example : IsSteady (reconnect none lost)
unfolding connect watch_called ready clear_reconnect_timer new_client_manager lose_client
    schedule_reconnect
never_stranded_example =
    never_stranded (reconnect none lost) (continues lost-Reachable (delay_over none lost refl))

reconnects_example :
    let d = reconnect (some 7) lost in
    let (e, thrown) = ready false (some 2) d in
    (lost.reconnect_timer ≡ true)
    × (d.client ≡ some 7)
    × (thrown ≡ false)
    × (e.client ≡ some 7)
    × (e.watched ≡ 2 ∷ [])
    × (e.notified ≡ 2)
unfolding connect watch_called ready clear_reconnect_timer new_client_manager lose_client
    schedule_reconnect
reconnects_example = reconnects 7 2 lost lost-Reachable refl

stream_ended-strands_example :
    let d = stream_ended connected in
    let e = watch_called 0 2 false d in
    (d.client ≡ none)
    × (d.reconnect_timer ≡ false)
    × (e.client ≡ none)
    × (e.reconnect_timer ≡ true)
    × (e.waiting ≡ 0)
    × (e.watched ≡ [])
unfolding connect watch_called ready clear_reconnect_timer new_client_manager lose_client
    schedule_reconnect
stream_ended-strands_example = stream_ended-strands 2 2 connected refl refl refl

abbrev server : BrokerClientManager
server = new_broker_client_manager (some 1)

abbrev parser : IService
parser = record { name = "parser.v1"; role = ""; url = "127.0.0.1"; port = 5002 }

abbrev broker : Broker
broker = record { services = parser ∷ []; service_change_listeners = [] }

abbrev announced : List Service
announced = ("calc.v1", "127.0.0.1", 5001) ∷ ("calc.v1", "127.0.0.1", 5003) ∷ []

shutdown-register_all_example :
    let (m', b') = register_all announced server broker in
    let (m'', b'', settled) = shutdown m' b' in
    (b''.services ≡ parser ∷ []) × (settled ≡ true) × (m''.registered_services ≡ [])
unfolding new_broker_client_manager connect new_client_manager find_entry get_available_services
    find_service
shutdown-register_all_example =
    shutdown-register_all 1 announced server broker refl refl (refl, (refl, tt))

-- A manager with a client of its own
abbrev asking : BrokerClientManager
asking = new_broker_client_manager (some 2)

get_service-register_with_example :
    get_service "calc.v1" none asking (register_with "calc.v1" "127.0.0.1" 5001 server broker).1
    ≡ some (some (record { url = "127.0.0.1"; port = 5001 }))
unfolding new_broker_client_manager connect new_client_manager find_entry get_available_services
    find_service
get_service-register_with_example =
    get_service-register_with 1 2 "calc.v1" none ("calc.v1", "127.0.0.1", 5001) server asking broker
      refl refl
