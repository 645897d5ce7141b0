-- ===== src/Broker.antt =====
-- packages/broker/src/broker.ts: the registry of services and its change listeners. A handler returns
-- the new state and what it passes to its callback, if it calls it. A listener is a number; what
-- is written to it is kept with it. Logging, the gRPC server and its binding are left out.
pub mod Laws
pub mod Following
pub mod Tests
use modular_runtime.Shared.{
  ℕ, String, Option, some, none, List, [], ◌∷◌, ◌++◌, map, ◌==◌, eqb, if◌then◌else◌,
}

pub record IService : Type 0 where
  pub name : String
  pub role : String
  pub url : String
  pub port : ℕ

pub record ServiceInfo : Type 0 where
  pub interface_name : String
  pub role : String

-- An entry of the list of available services.
pub record ServiceEntry : Type 0 where
  pub info : ServiceInfo
  pub url : String
  pub port : ℕ

pub record NotifyServiceChangesResponse : Type 0 where
  pub info : ServiceInfo
  pub url : String
  pub port : ℕ
  pub change_type : String

pub record RegisterServiceRequest : Type 0 where
  pub info : Option ServiceInfo
  pub url : String
  pub port : ℕ

pub record LookupServiceRequest : Type 0 where
  pub interface_name : String
  pub role : String

pub record UnregisterServiceRequest : Type 0 where
  pub interface_name : String
  pub role : String

pub record LookupServiceResponse : Type 0 where
  pub url : String
  pub port : ℕ
  pub error : String

pub record Listener : Type 0 where
  pub call : ℕ
  pub written : List NotifyServiceChangesResponse

pub record Broker : Type 0 where
  pub services : List IService
  pub service_change_listeners : List Listener

-- What a handler passes to its callback: an error, or a response.
pub data Reply (A : Type 0) : Type 0 where
  failed : String → Reply A
  replied : A → Reply A

unfoldable pub notify_all_listeners : NotifyServiceChangesResponse → List Listener → List Listener
notify_all_listeners notification =
    map {A = Listener}
      (λ listener. record listener { written = listener.written ++ notification ∷ [] })

unfoldable pub service_change : IService → String → Broker → Broker
service_change s change b = record b {
  service_change_listeners =
      notify_all_listeners
        (record {
          info = record { interface_name = s.name; role = s.role };
          url = s.url;
          port = s.port;
          change_type = change;
        })
        b.service_change_listeners;
}

abbrev pub service_of : ServiceInfo → RegisterServiceRequest → IService
service_of info rq = record {
  name = info.interface_name;
  role = info.role;
  url = rq.url;
  port = rq.port;
}

unfoldable pub register_service : RegisterServiceRequest → Broker → Broker × Reply Unit
register_service rq b = elim rq.info [
  | none ↦ (b, failed "Invalid request")
  | some info ↦
      let sv = service_of info rq in
      (service_change sv "added" (record b { services = b.services ++ sv ∷ [] }), replied tt)
]

unfoldable pub find_service : String → List IService → Option IService
find_service name [] = none
find_service name (s ∷ ss) = if s.name == name then some s else find_service name ss

unfoldable pub lookup_service : LookupServiceRequest → Broker → LookupServiceResponse
lookup_service rq b = elim (find_service rq.interface_name b.services) [
  | none ↦ record { url = ""; port = 0; error = "Service not found" }
  | some s ↦ record { url = s.url; port = s.port; error = "" }
]

unfoldable pub get_available_services : Broker → List ServiceEntry
get_available_services b =
    map
      (λ s. record {
        info = record { interface_name = s.name; role = s.role };
        url = s.url;
        port = s.port;
      })
      b.services

-- `services.splice(i, 1)` at the first service of that name, with the service it removes.
unfoldable pub splice_service : String → List IService → Option (IService × List IService)
splice_service name [] = none
splice_service name (s ∷ ss) =
    let rest : Option (IService × List IService) = elim (splice_service name ss) [
      | none ↦ none
      | some found ↦ some (found.0, s ∷ found.1)
    ] in
    if s.name == name then some (s, ss) else rest

-- `none`: the callback is not called.
unfoldable pub unregister_service : UnregisterServiceRequest → Broker → Broker × Option (Reply Unit)
unregister_service rq b = elim (splice_service rq.interface_name b.services) [
  | none ↦ (b, none)
  | some found ↦
      (service_change found.0 "removed" (record b { services = found.1 }), some (replied tt))
]

unfoldable pub notify_service_changes : ℕ → Broker → Broker
notify_service_changes call b = record b {
  service_change_listeners =
      b.service_change_listeners ++ record { call = call; written = [] } ∷ [];
}

-- The stream is cancelled.
unfoldable pub remove_listener : ℕ → List Listener → List Listener
remove_listener call [] = []
remove_listener call (l ∷ ls) = if eqb l.call call then ls else l ∷ remove_listener call ls

unfoldable pub cancel_listener : ℕ → Broker → Broker
cancel_listener call b = record b {
  service_change_listeners = remove_listener call b.service_change_listeners;
}
