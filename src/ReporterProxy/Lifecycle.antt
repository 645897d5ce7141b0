-- ===== src/ReporterProxy/Lifecycle.antt =====
-- apps/topology/src/topology-reporter-proxy.ts: runs of a proxy.
use mathlib.Core.Path.{subst}
use modular_runtime.Shared.{
  ℕ, String, some, none, [], ◌∷◌, Bool, true, ◌≡◌, refl, sym, arith, eq_refl,
}
use modular_runtime.Shared.Dict.{get, set, delete, All-delete, All-get, delete-IsUnique, get-set}
use modular_runtime.Shared.Text.{truthy}
use modular_runtime.Topology.Types.{ServiceHandle}
use modular_runtime.Reporter.{new_reporter, handle_stream_error}
use modular_runtime.Reporter.Operations.{
  accept_handle, shutdown, send_heartbeat, start_heartbeat, start_activity_stream,
}
use modular_runtime.Shared.Json.{text}
use modular_runtime.ReporterProxy.{
  Body, fields, ServiceInstance, Services, status_ok, register_response, send_error, Language,
  truthy_value,
}
use modular_runtime.ReporterProxy.Handlers.{
  Registration, responds, Answer, refused, accepted, handle_heartbeat, handle_unregister,
  handle_request, register_answered, shutdown_answered, stop,
}
use modular_runtime.ReporterProxy.Laws.{
  IsProxied, AreProxied, services_of, update, handle_stream_error-stays, send_heartbeat-IsProxied,
  set-AreProxied, handle_request-AreProxied,
}

-- What can happen to the services of a proxy.
pub data Step {R : Type 0} (l : Language R) : Services R → Services R → Type 0 where
  requested :
      (method url : String) (throws : Bool) (body : Body R) (services : Services R)
      → Step l services (services_of services (handle_request l method url throws body services))
  registered :
      (r : Registration) (answer : Answer) (heartbeat activity : ℕ) (throws : Bool)
      (services : Services R)
      → Step l services (register_answered r answer heartbeat activity throws services).1
  shut_down :
      (id : String) (services : Services R) → Step l services (shutdown_answered id services).1
  stream_failed :
      (id : String) (s : ServiceInstance R) (services : Services R)
      → get id services ≡ some s
      → Step l services (set id (update handle_stream_error s) services)
  beaten :
      (id : String) (throws : Bool) (s : ServiceInstance R) (services : Services R)
      → get id services ≡ some s
      → Step l services (set id (update (send_heartbeat throws) s) services)
  stopped : (services : Services R) → Step l services (stop services).1

pub data Reachable {R : Type 0} (l : Language R) : Services R → Type 0 where
  begins : Reachable l []
  continues :
      {before after : Services R} → Reachable l before → Step l before after → Reachable l after

accept_handle-IsProxied :
    (R : Type 0) (handle : ServiceHandle) (heartbeat activity : ℕ) (throws enable : Bool)
    (name : String)
    → IsProxied {R = R} (
      handle.service_id,
      record {
        reporter = accept_handle handle heartbeat activity throws (new_reporter (some enable));
        service_name = name;
      },
    )
unfolding accept_handle new_reporter start_heartbeat start_activity_stream send_heartbeat
    handle_stream_error
accept_handle-IsProxied R handle heartbeat activity throws enable name = ground arith

module _ {R : Type 0} (l : Language R) where
  set_same :
      (id : String) (s : ServiceInstance R) (services : Services R)
      → get id services ≡ some s
      → set id s services ≡ services
  unfolding get set
  set_same id s [] h = absurd (ground arith)
  set_same id s ((j, t) ∷ services) h = ground (arith, set_same id s services)

  Step-AreProxied :
      {before after : Services R} → Step l before after → AreProxied before → AreProxied after
  unfolding register_answered shutdown_answered stop
  Step-AreProxied (requested method url throws body services) h =
      handle_request-AreProxied l method url throws body services h
  Step-AreProxied (registered r (refused message) heartbeat activity throws services) h = h
  Step-AreProxied (registered r (accepted handle) heartbeat activity throws services) h =
      set-AreProxied handle.service_id _ services h (
        accept_handle-IsProxied R handle heartbeat activity throws r.options.enable_activity
          r.service_name)
  Step-AreProxied (shut_down id services) h =
      (All-delete IsProxied id services h.0, delete-IsUnique id services h.1)
  Step-AreProxied (stream_failed id s services e) h =
      rw (handle_stream_error-stays s.reporter (All-get IsProxied id services s h.0 e).0)
        (set-AreProxied id s services h (All-get IsProxied id services s h.0 e))
  Step-AreProxied (beaten id throws s services e) h =
      set-AreProxied id _ services h
        (send_heartbeat-IsProxied throws id s (All-get IsProxied id services s h.0 e))
  Step-AreProxied (stopped services) h = (tt, tt)

  -- From an empty proxy on, whatever requests, answers, heartbeats and failures of streams come, in whatever
  -- order: no two services have the same identifier, and each reporter that is kept either is shut
  -- down and has no identifier, or has the one under which it is kept; none of them connects again by itself.
  pub Reachable-AreProxied : (services : Services R) → Reachable l services → AreProxied services
  Reachable-AreProxied _ begins = (tt, tt)
  Reachable-AreProxied _ (continues r st) = Step-AreProxied st (Reachable-AreProxied _ r)

  abbrev pub about : String → Body R
  about id = fields (("serviceId", text id) ∷ [])

  -- When a stream of a registered service fails, for instance since the topology service was restarted, the
  -- proxy's services stay as they are, the reporter with its identifier and streams included; none is
  -- registered again, and a heartbeat request for it is still answered with success.
  pub stream_failure_unnoticed :
      (id : String) (s : ServiceInstance R) (services : Services R)
      → truthy id ≡ true
      → Reachable l services
      → get id services ≡ some s
      → (set id (update handle_stream_error s) services ≡ services)
        × (handle_heartbeat l (about id) services
            ≡ responds (record { status_code = 200; body = status_ok }) services)
  unfolding handle_heartbeat get truthy_value
  stream_failure_unnoticed id s services named r e =
      let p = All-get IsProxied id services s (Reachable-AreProxied services r).0 e in
      (
        rw (handle_stream_error-stays s.reporter p.0) (set_same id s services e),
        rw (handle_heartbeat, truthy_value, named, e) refl,
      )

  delete-set-set :
      (id : String) (s t : ServiceInstance R) (services : Services R)
      → get id services ≡ none
      → delete id (set id t (set id s services)) ≡ services
  unfolding get set delete
  delete-set-set id s t [] h = ground (arith, eq_refl id)
  delete-set-set id s t ((j, u) ∷ services) h = ground (arith, delete-set-set id s t services)

  get-set_same :
      (id : String) (s : ServiceInstance R) (services : Services R)
      → get id (set id s services) ≡ some s
  get-set_same id s services = rw (get-set id id s services, eq_refl id) refl

  handle_heartbeat-unknown :
      (id : String) (services : Services R)
      → truthy id ≡ true
      → get id services ≡ none
      → handle_heartbeat l (about id) services
        ≡ responds (send_error 404 "Service not found") services
  unfolding handle_heartbeat truthy_value get
  handle_heartbeat-unknown id services named unknown =
      rw (handle_heartbeat, truthy_value, named, unknown) refl

  unregister-restores :
      (id : String) (s : ServiceInstance R) (services : Services R)
      → truthy id ≡ true
      → get id services ≡ none
      → (shutdown_answered id
          (services_of (set id s services) (handle_unregister l (about id) (set id s services)))).1
        ≡ services
  unfolding shutdown_answered handle_unregister get truthy_value
  unregister-restores id s services named new =
      rw (handle_unregister, truthy_value, named, get-set_same id s services)
        (delete-set-set id s (update (λ q. (shutdown q).0) s) services new)

  -- A service whose registration is answered with a new identifier, not empty, is found by its
  -- heartbeats. When a request to unregister it is then carried out, the services are what they were
  -- before its registration, and a heartbeat request for it is answered with 404.
  pub unregister-register :
      (r : Registration) (handle : ServiceHandle) (heartbeat activity : ℕ) (throws : Bool)
      (services : Services R)
      → truthy handle.service_id ≡ true
      → get handle.service_id services ≡ none
      → let id = handle.service_id in
        let (answer, joined) =
          register_answered r (accepted handle) heartbeat activity throws services in
        let (last, left) =
          shutdown_answered id (services_of joined (handle_unregister l (about id) joined)) in
        (answer.body ≡ register_response id handle.heartbeat_interval_ms)
        × (handle_heartbeat l (about id) joined
            ≡ responds (record { status_code = 200; body = status_ok }) joined)
        × (left ≡ services)
        × (handle_heartbeat l (about id) left ≡ responds (send_error 404 "Service not found") left)
  unfolding register_answered shutdown_answered handle_heartbeat handle_unregister get truthy_value
  unregister-register r handle heartbeat activity throws services named new =
      let id = handle.service_id in
      let s : ServiceInstance R = record {
        reporter =
            accept_handle handle heartbeat activity throws
              (new_reporter (some r.options.enable_activity));
        service_name = r.service_name;
      } in
      let back = unregister-restores id s services named new in
      (
        refl,
        rw (handle_heartbeat, truthy_value, named, get-set_same id s services) refl,
        back,
        subst
            (λ x. handle_heartbeat l (about id) x ≡ responds (send_error 404 "Service not found") x)
            (sym back) (handle_heartbeat-unknown id services named new),
      )
