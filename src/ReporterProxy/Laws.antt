-- ===== src/ReporterProxy/Laws.antt =====
-- apps/topology/src/topology-reporter-proxy.ts: the services that a proxy keeps.
use modular_runtime.Shared.{
  String, some, none, Bool, true, false, not, ◌||◌, ◌==◌, if◌then◌else◌, ◌≡◌, refl, arith, inl, inr,
  Option-cases, All, IsUnique,
}
use modular_runtime.Shared.Dict.{keys, set, All-set, All-get, set-IsUnique}
use modular_runtime.Reporter.{
  TopologyReporter, ActivityReport, handle_stream_error, stop_heartbeat, end_activity_stream,
}
use modular_runtime.Reporter.Operations.{report_activity, shutdown, send_heartbeat}
use modular_runtime.Shared.Json.{Value, field, text, text_of}
use modular_runtime.ReporterProxy.{
  Body, invalid, null_body, fields, ServiceInstance, Services, Language, truthy_value,
}
use modular_runtime.ReporterProxy.Handlers.{
  Reply, responds, awaits_register, awaits_shutdown, options_of, handle_register, handle_heartbeat,
  handle_activity, handle_unregister, handle_request, find_service,
}

module _ {R : Type 0} where
  -- A reporter is down, or has the identifier under which it is kept; it never connects again by itself.
  abbrev pub IsProxied : String × ServiceInstance R → Type 0
  IsProxied entry =
      (entry.1.reporter.auto_reconnect ≡ false)
      × (entry.1.reporter.service_id
          ≡ (if entry.1.reporter.is_shutting_down then none else some entry.0))

  abbrev pub AreProxied : Services R → Type 0
  AreProxied services = All IsProxied services × IsUnique (keys services)

  abbrev pub services_of : Services R → Reply R → Services R
  services_of before (responds response services) = services
  services_of before (awaits_register r) = before
  services_of before (awaits_shutdown id services) = services

  -- What changes one reporter
  abbrev pub update :
      (TopologyReporter R → TopologyReporter R) → ServiceInstance R → ServiceInstance R
  update change service = record service { reporter = change service.reporter }

  pub handle_stream_error-stays :
      (r : TopologyReporter R) → r.auto_reconnect ≡ false → handle_stream_error r ≡ r
  unfolding handle_stream_error
  handle_stream_error-stays r h = rw h (ground arith)

  report_activity-IsProxied :
      (throws : Bool) (report : ActivityReport R) (id : String) (s : ServiceInstance R)
      → IsProxied (id, s)
      → IsProxied (id, update (report_activity throws report) s)
  unfolding report_activity handle_stream_error
  report_activity-IsProxied throws report id s h = ground arith

  pub send_heartbeat-IsProxied :
      (throws : Bool) (id : String) (s : ServiceInstance R)
      → IsProxied (id, s)
      → IsProxied (id, update (send_heartbeat throws) s)
  unfolding send_heartbeat handle_stream_error
  send_heartbeat-IsProxied throws id s h = ground arith

  shutdown-IsProxied :
      (id : String) (s : ServiceInstance R)
      → IsProxied (id, s)
      → IsProxied (id, update (λ r. (shutdown r).0) s)
  unfolding shutdown stop_heartbeat end_activity_stream
  shutdown-IsProxied id s h = ground arith

  found-IsProxied :
      (l : Language R) (v : Value R) (services : Services R) (s : ServiceInstance R)
      → AreProxied services
      → find_service l v services ≡ some s
      → IsProxied (text_of v, s)
  found-IsProxied l (text id) services s h e = All-get IsProxied id services s h.0 e
  found-IsProxied l _ services s h e = absurd (ground arith)

  pub set-AreProxied :
      (id : String) (s : ServiceInstance R) (services : Services R)
      → AreProxied services
      → IsProxied (id, s)
      → AreProxied (set id s services)
  set-AreProxied id s services h p =
      (All-set IsProxied id s services p h.0, set-IsUnique id s services h.1)

module _ {R : Type 0} (l : Language R) where
  abbrev Keeps : Services R → Reply R → Type 0
  Keeps services reply = AreProxied (services_of services reply)

  Keeps-if :
      (b : Bool) (services : Services R) (x y : Reply R)
      → Keeps services x
      → Keeps services y
      → Keeps services (if b then x else y)
  Keeps-if true services x y hx hy = hx
  Keeps-if false services x y hx hy = hy

  handle_register-services :
      (body : Body R) (services : Services R)
      → services_of services (handle_register l body services) ≡ services
  unfolding handle_register options_of
  handle_register-services invalid services = refl
  handle_register-services null_body services = refl
  handle_register-services (fields fs) services = ground arith

  handle_heartbeat-services :
      (body : Body R) (services : Services R)
      → services_of services (handle_heartbeat l body services) ≡ services
  unfolding handle_heartbeat
  handle_heartbeat-services invalid services = refl
  handle_heartbeat-services null_body services = refl
  handle_heartbeat-services (fields fs) services = ground arith

  handle_activity-AreProxied :
      (throws : Bool) (body : Body R) (services : Services R)
      → AreProxied services
      → Keeps services (handle_activity l throws body services)
  unfolding handle_activity
  handle_activity-AreProxied throws invalid services h = h
  handle_activity-AreProxied throws null_body services h = h
  handle_activity-AreProxied throws (fields fs) services h =
      Keeps-if
        (not (truthy_value l id) || (not (truthy_value l target) || not (truthy_value l type)))
        services _ _ h
        (elim (Option-cases (find_service l id services)) [
          | inl missing ↦ rw missing h
          | inr (s, found) ↦ rw found (elim (Option-cases (l.activity_type type)) [
            | inl wrong ↦ rw wrong h
            | inr (activity_type, e) ↦ rw e (
                set-AreProxied (text_of id) _ services h (
                  report_activity-IsProxied throws _ (text_of id) s
                    (found-IsProxied l id services s h found)))
          ])
        ])
    where
      id : Value R
      id = field "serviceId" fs

      target : Value R
      target = field "targetService" fs

      type : Value R
      type = field "type" fs

  handle_unregister-AreProxied :
      (body : Body R) (services : Services R)
      → AreProxied services
      → Keeps services (handle_unregister l body services)
  unfolding handle_unregister
  handle_unregister-AreProxied invalid services h = h
  handle_unregister-AreProxied null_body services h = h
  handle_unregister-AreProxied (fields fs) services h =
      let id : Value R = field "serviceId" fs in
      Keeps-if (not (truthy_value l id)) services _ _ h
        (elim (Option-cases (find_service l id services)) [
          | inl missing ↦ rw missing h
          | inr (s, found) ↦ rw found (
              set-AreProxied (text_of id) _ services h
                (shutdown-IsProxied (text_of id) s (found-IsProxied l id services s h found)))
        ])

  pub handle_request-AreProxied :
      (method url : String) (throws : Bool) (body : Body R) (services : Services R)
      → AreProxied services
      → Keeps services (handle_request l method url throws body services)
  unfolding handle_request
  handle_request-AreProxied method url throws body services h =
      Keeps-if (not (method == "POST")) services _ _ h (
        Keeps-if (url == "/register") services _ _ (rw (handle_register-services body services) h) (
          Keeps-if (url == "/heartbeat") services _ _
            (rw (handle_heartbeat-services body services) h)
            (Keeps-if (url == "/activity") services _ _
              (handle_activity-AreProxied throws body services h)
              (Keeps-if (url == "/unregister") services _ _
                (handle_unregister-AreProxied body services h)
                (Keeps-if (url == "/health") services _ _ h h)))))
