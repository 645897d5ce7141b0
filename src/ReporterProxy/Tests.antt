-- ===== src/ReporterProxy/Tests.antt =====
-- apps/topology/src/topology-reporter-proxy.ts: requests on which the theorems are tried.
use modular_runtime.Shared.{ℕ, some, none, [], true, false, ◌≡◌, refl, ◌==◌, if◌then◌else◌}
use modular_runtime.Shared.Dict.{get, set}
use modular_runtime.Topology.Types.{
  ServiceType, ServiceLanguage, ActivityType, ServiceHandle, ServiceMetadata,
}
use modular_runtime.Reporter.{handle_stream_error, new_reporter}
use modular_runtime.Reporter.Operations.{accept_handle}
use modular_runtime.ReporterProxy.{
  Services, ServiceInstance, Language, status_ok, register_response, send_error,
}
use modular_runtime.ReporterProxy.Handlers.{
  Registration, responds, accepted, handle_request, handle_heartbeat, handle_unregister,
  register_answered, shutdown_answered,
}
use modular_runtime.ReporterProxy.Laws.{AreProxied, services_of, update}
use modular_runtime.ReporterProxy.Lifecycle.{
  Reachable, begins, continues, requested, registered, Reachable-AreProxied, about,
  stream_failure_unnoticed, unregister-register,
}

abbrev language : Language ℕ
language = record {
  is_nonzero = λ n. true;
  service_type = λ key. if key == "SERVICE_TYPE_SERVER" then some ServiceType.server else none;
  service_language = λ key. some ServiceLanguage.rust;
  activity_type = λ v. some ActivityType.request_sent;
  type_error = λ name. name;
}

abbrev no_metadata : ServiceMetadata
no_metadata = record {
  region = none;
  environment = none;
  team = none;
  version_hash = none;
  service_interface = none;
  service_role = none;
  program_name = none;
}

abbrev registration : Registration
registration = record {
  options = record {
    service_name = "calc";
    service_type = ServiceType.server;
    language = ServiceLanguage.rust;
    version = none;
    address = none;
    host = none;
    enable_activity = true;
    metadata = no_metadata;
  };
  service_name = " calc ";
}

abbrev handle : ServiceHandle
handle = record { service_id = "s1"; heartbeat_interval_ms = 5000; timeout_multiplier = 3 }

abbrev instance_of : ServiceInstance ℕ
instance_of = record {
  reporter = accept_handle handle 1 2 false (new_reporter (some true));
  service_name = " calc ";
}

abbrev joined : Services ℕ
joined = (register_answered registration (accepted handle) 1 2 false []).1

joined-Reachable : Reachable language joined
joined-Reachable = continues begins (registered registration (accepted handle) 1 2 false [])

Reachable-AreProxied_example : AreProxied (
    services_of joined
      (handle_request language "POST" "/unregister" false (about language "s1") joined))
Reachable-AreProxied_example =
    Reachable-AreProxied language _ (
      continues joined-Reachable
        (requested "POST" "/unregister" false (about language "s1") joined))

stream_failure_unnoticed_example :
    (set "s1" (update handle_stream_error instance_of) joined ≡ joined)
    × (handle_heartbeat language (about language "s1") joined
        ≡ responds (record { status_code = 200; body = status_ok }) joined)
unfolding register_answered set get
stream_failure_unnoticed_example =
    stream_failure_unnoticed language "s1" instance_of joined refl joined-Reachable refl

unregister-register_example :
    let (answer, joined') = register_answered registration (accepted handle) 1 2 false [] in
    let (last, left) =
      shutdown_answered "s1"
        (services_of joined' (handle_unregister language (about language "s1") joined')) in
    (answer.body ≡ register_response "s1" 5000)
    × (handle_heartbeat language (about language "s1") joined'
        ≡ responds (record { status_code = 200; body = status_ok }) joined')
    × (left ≡ [])
    × (handle_heartbeat language (about language "s1") left
        ≡ responds (send_error 404 "Service not found") left)
unfolding get
unregister-register_example =
    unregister-register language registration handle 1 2 false [] refl refl
