-- ===== src/Client/Registry.antt =====
-- packages/broker/src/BrokerClientManager.ts: services that are registered with the broker, and found by others.
-- A request to the broker is `none` where there is no client, and then its promise is never settled.
use modular_runtime.Shared.{
  ℕ, String, Option, some, none, List, [], ◌∷◌, ◌++◌, Bool, true, false, ◌&&◌, ◌==◌, if◌then◌else◌,
  or_else,
}
use modular_runtime.Broker.{
  ServiceEntry, RegisterServiceRequest, Broker, Reply, failed, replied, register_service,
  unregister_service, get_available_services,
}
use modular_runtime.Client.{ClientManager, new_client_manager, connect}

pub record ExtServiceInfo : Type 0 where
  pub name : String
  pub role : String
  pub url : String
  pub port : ℕ

pub record BrokerClientManager : Type 0 where
  pub manager : ClientManager
  pub registered_services : List ExtServiceInfo

unfoldable pub new_broker_client_manager : Option ℕ → BrokerClientManager
new_broker_client_manager made = record {
  manager = connect made new_client_manager;
  registered_services = [];
}

-- `BrokerClientManager.create`, with the manager that `instance` holds before and after.
unfoldable pub create :
    Option ℕ → Option BrokerClientManager → BrokerClientManager × Option BrokerClientManager
create made instance = elim instance [
  | some m ↦ (m, some m)
  | none ↦ let m = new_broker_client_manager made in (m, some m)
]

-- The role is the text that `role = 'default'` stands for, if none is given.
abbrev pub default_role : String
default_role = "default"

abbrev pub service_info : String → String → ℕ → ExtServiceInfo
service_info name url port = record { name = name; role = default_role; url = url; port = port }

abbrev pub registration_of : ExtServiceInfo → RegisterServiceRequest
registration_of info = record {
  info = some (record { interface_name = info.name; role = info.role });
  url = info.url;
  port = info.port;
}

-- The callback of `registerService`
unfoldable pub registration_answered :
    {A : Type 0} → ExtServiceInfo → Reply A → BrokerClientManager → BrokerClientManager
registration_answered info (failed message) m = m
registration_answered info (replied a) m = record m {
  registered_services = m.registered_services ++ info ∷ [];
}

-- `registerService`, with the broker that it calls
unfoldable pub register_with :
    String → String → ℕ → BrokerClientManager → Broker → BrokerClientManager × Broker
register_with name url port m b =
    let info = service_info name url port in
    let (b', reply) = register_service (registration_of info) b in
    elim m.manager.client [ none ↦ (m, b) | some id ↦ (registration_answered info reply m, b') ]

abbrev pub is_service : String → String → ServiceEntry → Bool
is_service name role service = service.info.interface_name == name && service.info.role == role

-- `clients.find`
unfoldable pub find_entry : String → String → List ServiceEntry → Option ServiceEntry
find_entry name role [] = none
find_entry name role (e ∷ es) = if is_service name role e then some e else find_entry name role es

pub record Address : Type 0 where
  pub url : String
  pub port : ℕ

-- `getAvailableServices` and `getService`: the inner option is the one that is returned.
unfoldable pub get_service :
    String → Option String → BrokerClientManager → Broker → Option (Option Address)
get_service name role m b = elim m.manager.client [
  | none ↦ none
  | some id ↦ some (elim (find_entry name (or_else role default_role) (get_available_services b)) [
    | none ↦ none
    | some e ↦ some (record { url = e.url; port = e.port })
  ])
]

unfoldable pub unregister_with :
    ExtServiceInfo → BrokerClientManager → Broker → Broker × Option (Reply Unit)
unregister_with info m b = elim m.manager.client [
  | none ↦ (b, none)
  | some id ↦ unregister_service (record { interface_name = info.name; role = info.role }) b
]

unfoldable pub unregister_all :
    List ExtServiceInfo → BrokerClientManager → Broker → Broker × List (Option (Reply Unit))
unregister_all [] m b = (b, [])
unregister_all (info ∷ infos) m b =
    let (b', answer) = unregister_with info m b in
    let (b'', answers) = unregister_all infos m b' in (b'', answer ∷ answers)

-- `Promise.all(promises)` settles: every request is answered, since a rejection is caught.
unfoldable pub all_settled : {A : Type 0} → List (Option A) → Bool
all_settled [] = true
all_settled (none ∷ answers) = false
all_settled (some a ∷ answers) = all_settled answers

unfoldable pub shutdown : BrokerClientManager → Broker → BrokerClientManager × Broker × Bool
shutdown m b =
    let (b', answers) = unregister_all m.registered_services m b in
    (record m { registered_services = [] }, b', all_settled answers)

-- Services that one process registers one after the other: name, URL and port.
unfoldable pub register_all :
    List (String × String × ℕ) → BrokerClientManager → Broker → BrokerClientManager × Broker
register_all [] m b = (m, b)
register_all ((name, url, port) ∷ services) m b =
    let (m', b') = register_with name url port m b in register_all services m' b'
