-- ===== src/Broker/Laws.antt =====
-- packages/broker/src/broker.ts: what callers and listeners of the broker can rely on.
use modular_runtime.Shared.{
  String, Option, some, none, List, [], ◌∷◌, ◌++◌, ◌==◌, ◌≡◌, refl, if◌then◌else◌, inl, inr,
  Bool-cases, Option-cases, eq_refl,
}
use modular_runtime.Broker.{
  IService, ServiceInfo, RegisterServiceRequest, LookupServiceResponse, Broker, Reply,
  service_change, service_of, register_service, find_service, lookup_service, splice_service,
  unregister_service,
}

find_service-append :
    (name : String) (s : IService) (ss : List IService)
    → find_service name (ss ++ s ∷ []) ≡ (elim (find_service name ss) as (λ o. Option IService) [
      | some t ↦ some t
      | none ↦ if s.name == name then some s else none
    ])
unfolding find_service
find_service-append name s [] = refl
find_service-append name s (t ∷ ss) = elim (Bool-cases (t.name == name)) [
  | inl same ↦ rw same refl
  | inr other ↦ rw other (find_service-append name s ss)
]

-- After a registration that carries its service info, a lookup of any interface name answers with the service of that
-- name that was found before the registration; if there was none, with the one just registered if it has that name; and otherwise that
-- there is none. The roles play no part, neither that of the lookup, which broker.proto has to filter the services, nor
-- that of the registration: the service found may have another role than the one that is asked for.
pub lookup_service-register_service :
    (rq : RegisterServiceRequest) (info : ServiceInfo) (name role : String) (b : Broker)
    → rq.info ≡ some info
    → lookup_service (record { interface_name = name; role = role }) (register_service rq b).0
      ≡ (elim (find_service name b.services) as (λ o. LookupServiceResponse) [
        | some t ↦ record { url = t.url; port = t.port; error = "" }
        | none ↦
            if info.interface_name == name
            then record { url = rq.url; port = rq.port; error = "" }
            else record { url = ""; port = 0; error = "Service not found" }
      ])
unfolding lookup_service register_service service_change
lookup_service-register_service rq info name role b e =
    rw
      (
        e,
        register_service,
        lookup_service,
        service_change,
        find_service-append name (service_of info rq) b.services,
      )
      (elim (Option-cases (find_service name b.services)) [
        | inl missing ↦ rw missing (elim (Bool-cases (info.interface_name == name)) [
          | inl same ↦ rw same refl
          | inr other ↦ rw other refl
        ])
        | inr (t, found) ↦ rw found refl
      ])

splice_service-append :
    (name : String) (s : IService) (ss : List IService)
    → find_service name ss ≡ none
    → s.name ≡ name
    → splice_service name (ss ++ s ∷ []) ≡ some (s, ss)
unfolding splice_service find_service
splice_service-append name s [] h same = rw (same, eq_refl name) refl
splice_service-append name s (t ∷ ss) h same = elim (Bool-cases (t.name == name)) [
  | inl taken ↦ cc (rw taken at h)
  | inr other ↦ rw (other, splice_service-append name s ss (rw other at h) same) refl
]

-- Unregistering a service right after its registration under a name that was not taken restores
-- the list of services and answers.
pub unregister_service-register_service :
    (rq : RegisterServiceRequest) (info : ServiceInfo) (role : String) (b : Broker)
    → rq.info ≡ some info
    → find_service info.interface_name b.services ≡ none
    → let (b', reply) =
        unregister_service
          (record { interface_name = info.interface_name; role = role })
          (register_service rq b).0 in
      (b'.services ≡ b.services) × (reply ≡ some (Reply.replied tt))
unfolding unregister_service register_service service_change
unregister_service-register_service rq info role b e missing =
    rw
      (
        e,
        register_service,
        unregister_service,
        service_change,
        splice_service-append info.interface_name (service_of info rq) b.services missing refl,
      )
      (refl, refl)

splice_service-none :
    (name : String) (ss : List IService)
    → find_service name ss ≡ none
    → splice_service name ss ≡ none
unfolding splice_service find_service
splice_service-none name [] h = refl
splice_service-none name (t ∷ ss) h = elim (Bool-cases (t.name == name)) [
  | inl taken ↦ cc (rw taken at h)
  | inr other ↦ rw (other, splice_service-none name ss (rw other at h)) refl
]

-- For an interface name that no service has, a lookup answers that there is none, while an
-- unregistration changes nothing and never calls its callback.
pub unknown_interface :
    (name role : String) (b : Broker)
    → find_service name b.services ≡ none
    → (lookup_service (record { interface_name = name; role = role }) b
        ≡ record { url = ""; port = 0; error = "Service not found" })
      × (unregister_service (record { interface_name = name; role = role }) b ≡ (b, none))
unfolding lookup_service unregister_service
unknown_interface name role b h = (
  rw (h, lookup_service) refl,
  rw (splice_service-none name b.services h, unregister_service) refl,
)
