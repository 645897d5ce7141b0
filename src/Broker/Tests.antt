-- ===== src/Broker/Tests.antt =====
-- packages/broker/src/broker.ts: a broker on which the theorems are tried.
use modular_runtime.Shared.{ℕ, some, List, [], ◌∷◌, ◌≡◌, refl}
use modular_runtime.Broker.{
  IService, ServiceInfo, RegisterServiceRequest, Broker, find_service, register_service,
  lookup_service, unregister_service, notify_service_changes,
}
use modular_runtime.Broker.Laws.{lookup_service-register_service}
use modular_runtime.Broker.Following.{
  begins, continues, registers, unregisters, joins, AllFollow, Run-AllFollow,
}

abbrev calculator : ServiceInfo
calculator = record { interface_name = "calculator.v1"; role = "" }

abbrev request : RegisterServiceRequest
request = record { info = some calculator; url = "127.0.0.1"; port = 5001 }

abbrev parser : IService
parser = record { name = "parser.v1"; role = ""; url = "127.0.0.1"; port = 5002 }

abbrev broker : Broker
broker = record { services = parser ∷ []; service_change_listeners = [] }

lookup_service-register_service_example :
    lookup_service
      (record { interface_name = "calculator.v1"; role = "backup" })
      (register_service request broker).0
    ≡ record { url = "127.0.0.1"; port = 5001; error = "" }
unfolding find_service
lookup_service-register_service_example =
    lookup_service-register_service request calculator "calculator.v1" "backup" broker refl

abbrev joined_with : ℕ → List IService
joined_with call = parser ∷ []

abbrev listening : Broker
listening = notify_service_changes 1 broker

abbrev grown : Broker
grown = (register_service request listening).0

abbrev shrunk : Broker
shrunk = (unregister_service (record { interface_name = "parser.v1"; role = "" }) grown).0

Run-AllFollow_example : AllFollow joined_with shrunk
Run-AllFollow_example = Run-AllFollow joined_with (parser ∷ []) shrunk (
    continues (continues (continues begins (joins 1 broker refl)) (registers request listening))
      (unregisters (record { interface_name = "parser.v1"; role = "" }) grown))
