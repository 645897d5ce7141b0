-- ===== src/ReporterProxy/Handlers.antt =====
-- apps/topology/src/topology-reporter-proxy.ts: the handlers of the proxy.
use modular_runtime.Shared.{
  ℕ, String, Option, some, none, List, [], Bool, not, ◌||◌, ◌==◌, if◌then◌else◌, map, length,
}
use modular_runtime.Shared.Dict.{Dict, get, set, delete}
use modular_runtime.Topology.Types.{ServiceHandle}
use modular_runtime.Reporter.{ActivityReport, new_reporter}
use modular_runtime.Reporter.Operations.{accept_handle, report_activity, shutdown}
use modular_runtime.Shared.Json.{Value, text, field, text_of, number_of, boolean_of}
use modular_runtime.ReporterProxy.{
  Body, invalid, null_body, fields, ServiceInstance, Services, register_response, status_ok,
  healthy, Response, send_error, Language, TopologyReporterOptions, normalize_optional_string,
  truthy_value, or_true,
}

-- A registration that waits for its answer, with the name as it was sent
pub record Registration : Type 0 where
  pub options : TopologyReporterOptions
  pub service_name : String

-- What a handler does before it waits
pub data Reply (R : Type 0) : Type 0 where
  responds : Response → Services R → Reply R
  awaits_register : Registration → Reply R
  awaits_shutdown : String → Services R → Reply R

-- What `reporter.register()` comes to
pub data Answer : Type 0 where
  refused : String → Answer
  accepted : ServiceHandle → Answer

module _ {R : Type 0} (l : Language R) where
  unfoldable pub options_of :
      Dict (Value R) → Reply R → Reply R → (TopologyReporterOptions → Reply R) → Reply R
  options_of fs missing wrong next = elim (normalize_optional_string (field "serviceName" fs)) [
    | none ↦ missing
    | some name ↦ elim (normalize_optional_string (field "serviceType" fs)) [
      | none ↦ missing
      | some type_key ↦ elim (normalize_optional_string (field "language" fs)) [
        | none ↦ missing
        | some language_key ↦ elim (l.service_type type_key) [
          | none ↦ wrong
          | some service_type ↦ elim (l.service_language language_key) [
            | none ↦ wrong
            | some language ↦ next (record {
              service_name = name;
              service_type = service_type;
              language = language;
              version = normalize_optional_string (field "version" fs);
              address = normalize_optional_string (field "address" fs);
              host = normalize_optional_string (field "host" fs);
              enable_activity = or_true l (field "enableActivity" fs);
              metadata = record {
                region = none;
                environment = none;
                team = none;
                version_hash = none;
                service_interface = normalize_optional_string (field "serviceInterface" fs);
                service_role = normalize_optional_string (field "serviceRole" fs);
                program_name = normalize_optional_string (field "programName" fs);
              };
            })
          ]
        ]
      ]
    ]
  ]

  unfoldable pub handle_register : Body R → Services R → Reply R
  handle_register invalid services = responds (send_error 500 "Invalid JSON") services
  handle_register null_body services =
      responds (send_error 500 (l.type_error "serviceName")) services
  handle_register (fields fs) services =
      options_of fs
        (responds (send_error 400 "Missing required fields: serviceName, serviceType, language")
          services)
        (responds (send_error 400 "Invalid serviceType or language") services)
        (λ options.
          awaits_register
            (record { options = options; service_name = text_of (field "serviceName" fs) }))

  abbrev pub find_service : Value R → Services R → Option (ServiceInstance R)
  find_service (text id) services = get id services
  find_service v services = none

  unfoldable pub handle_heartbeat : Body R → Services R → Reply R
  handle_heartbeat invalid services = responds (send_error 500 "Invalid JSON") services
  handle_heartbeat null_body services =
      responds (send_error 500 (l.type_error "serviceId")) services
  handle_heartbeat (fields fs) services =
      let id = field "serviceId" fs in
      let found = elim (find_service id services) as (λ o. Reply R) [
        | none ↦ responds (send_error 404 "Service not found") services
        | some service ↦ responds (record { status_code = 200; body = status_ok }) services
      ] in
      if not (truthy_value l id)
      then responds (send_error 400 "Missing required field: serviceId") services
      else found

  -- `throws`: the write on the stream of the reporter throws.
  unfoldable pub handle_activity : Bool → Body R → Services R → Reply R
  handle_activity throws invalid services = responds (send_error 500 "Invalid JSON") services
  handle_activity throws null_body services =
      responds (send_error 500 (l.type_error "serviceId")) services
  handle_activity throws (fields fs) services =
      let id = field "serviceId" fs in
      let target = field "targetService" fs in
      let type = field "type" fs in
      let found = elim (find_service id services) as (λ o. Reply R) [
        | none ↦ responds (send_error 404 "Service not found") services
        | some service ↦ elim (l.activity_type type) [
          | none ↦ responds (send_error 400 "Invalid activity type") services
          | some activity_type ↦
              let report : ActivityReport R = record {
                target_service = text_of target;
                type = activity_type;
                latency_ms = number_of (field "latencyMs" fs);
                success = boolean_of (field "success" fs);
                batch_size = none;
              } in
              responds (record { status_code = 200; body = status_ok })
                (set (text_of id)
                  (record service { reporter = report_activity throws report service.reporter })
                  services)
        ]
      ] in
      if not (truthy_value l id) || (not (truthy_value l target) || not (truthy_value l type))
      then responds (send_error 400 "Missing required fields: serviceId, targetService, type")
          services
      else found

  unfoldable pub handle_unregister : Body R → Services R → Reply R
  handle_unregister invalid services = responds (send_error 500 "Invalid JSON") services
  handle_unregister null_body services =
      responds (send_error 500 (l.type_error "serviceId")) services
  handle_unregister (fields fs) services =
      let id = field "serviceId" fs in
      let found = elim (find_service id services) as (λ o. Reply R) [
        | none ↦ responds (send_error 404 "Service not found") services
        | some service ↦ awaits_shutdown (text_of id) (
            set (text_of id) (record service { reporter = (shutdown service.reporter).0 }) services)
      ] in
      if not (truthy_value l id)
      then responds (send_error 400 "Missing required field: serviceId") services
      else found

  unfoldable pub handle_request : String → String → Bool → Body R → Services R → Reply R
  handle_request method url throws body services =
      if not (method == "POST")
      then responds (send_error 405 "Method not allowed") services
      else if url == "/register"
      then handle_register body services
      else if url == "/heartbeat"
      then handle_heartbeat body services
      else if url == "/activity"
      then handle_activity throws body services
      else if url == "/unregister"
      then handle_unregister body services
      else if url == "/health"
      then responds (record { status_code = 200; body = healthy (length services) }) services
      else responds (send_error 404 "Not found") services

module _ {R : Type 0} where
  -- The streams that the reporter opens, and whether its first heartbeat throws.
  unfoldable pub register_answered :
      Registration → Answer → ℕ → ℕ → Bool → Services R → Response × Services R
  register_answered r (refused message) heartbeat activity throws services =
      (send_error 500 message, services)
  register_answered r (accepted handle) heartbeat activity throws services = (
    record {
      status_code = 200;
      body = register_response handle.service_id handle.heartbeat_interval_ms;
    },
    set handle.service_id
        (record {
          reporter =
              accept_handle handle heartbeat activity throws
                (new_reporter (some r.options.enable_activity));
          service_name = r.service_name;
        })
        services,
  )

  -- The shutdown of the reporter is over.
  unfoldable pub shutdown_answered : String → Services R → Response × Services R
  shutdown_answered id services =
      (record { status_code = 200; body = status_ok }, delete id services)

  -- `stop`: the identifiers that are unregistered, and no services any more.
  unfoldable pub stop : Services R → List (Option String) × Services R
  stop services = (map (λ entry. (shutdown entry.1.reporter).1) services, [])
