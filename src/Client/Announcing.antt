-- ===== src/Client/Announcing.antt =====
-- packages/broker/src/BrokerClientManager.ts: registering, finding and shutting down.
use mathlib.Core.List.{append-nil, append_assoc, map-append}
use modular_runtime.Shared.{
  ℕ, String, Option, some, none, List, [], ◌∷◌, ◌++◌, true, ◌==◌, ◌&&◌, or_else, ◌≡◌, refl, sym,
  ◌∙◌, if◌then◌else◌, map, inl, inr, Bool-cases, Option-cases, All, eq_refl,
}
use modular_runtime.Broker.{
  IService, ServiceEntry, Broker, replied, register_service, unregister_service, service_change,
  find_service, splice_service, get_available_services,
}
use modular_runtime.Client.Registry.{
  BrokerClientManager, ExtServiceInfo, Address, default_role, service_info, registration_of,
  registration_answered, register_with, register_all, unregister_with, unregister_all, shutdown,
  all_settled, get_service, find_entry, is_service,
}

abbrev pub Service : Type 0
Service = String × String × ℕ

abbrev pub info_of : Service → ExtServiceInfo
info_of s = service_info s.0 s.1 s.2

abbrev pub entry_of : Service → IService
entry_of s = record { name = s.0; role = default_role; url = s.1; port = s.2 }

-- No service of the broker has the name.
abbrev pub IsFree : List IService → Service → Type 0
IsFree base s = find_service s.0 base ≡ none

splice_service-middle :
    (base rest : List IService) (s : Service)
    → IsFree base s
    → splice_service s.0 (base ++ entry_of s ∷ rest) ≡ some (entry_of s, base ++ rest)
unfolding splice_service find_service
splice_service-middle [] rest s h = rw (eq_refl s.0) refl
splice_service-middle (t ∷ base) rest s h = elim (Bool-cases (t.name == s.0)) [
  | inl taken ↦ cc (rw taken at h)
  | inr other ↦ rw (other, splice_service-middle base rest s (rw other at h)) refl
]

-- The manager has the client with this number.
abbrev pub IsConnected : ℕ → BrokerClientManager → Type 0
IsConnected id m = m.manager.client ≡ some id

module _ (id : ℕ) where
  register_with-connected :
      (s : Service) (m : BrokerClientManager) (b : Broker)
      → IsConnected id m
      → register_with s.0 s.1 s.2 m b ≡ (
        record m { registered_services = m.registered_services ++ info_of s ∷ [] },
        (register_service (registration_of (info_of s)) b).0,
      )
  unfolding register_with registration_answered register_service
  register_with-connected s m b h = simp (h, register_with)

  register_all-services :
      (services : List Service) (m : BrokerClientManager) (b : Broker)
      → IsConnected id m
      → let (m', b') = register_all services m b in
        (b'.services ≡ b.services ++ map entry_of services)
        × (m'.registered_services ≡ m.registered_services ++ map info_of services)
        × (m'.manager ≡ m.manager)
  unfolding register_all register_service service_change
  register_all-services [] m b h =
      (sym (append-nil b.services), sym (append-nil m.registered_services), refl)
  register_all-services (s ∷ services) m b h =
      let m' : BrokerClientManager = record m {
        registered_services = m.registered_services ++ info_of s ∷ [];
      } in
      let ih =
        register_all-services services m' (register_service (registration_of (info_of s)) b).0 h in
      rw (register_all, register_with-connected s m b h)
        (ih.0 ∙ append_assoc b.services _ _, ih.1 ∙ append_assoc m.registered_services _ _, ih.2)

  unregister_all-services :
      (services : List Service) (base : List IService) (m : BrokerClientManager) (b : Broker)
      → IsConnected id m
      → All (IsFree base) services
      → b.services ≡ base ++ map entry_of services
      → let (b', answers) = unregister_all (map info_of services) m b in
        (b'.services ≡ base) × (all_settled answers ≡ true)
  unfolding unregister_all unregister_with unregister_service service_change all_settled
  unregister_all-services [] base m b h free e = (e ∙ append-nil base, refl)
  unregister_all-services (s ∷ services) base m b h free e =
      let b' : Broker =
        service_change (entry_of s) "removed"
          (record b { services = base ++ map entry_of services }) in
      let found : unregister_with (info_of s) m b ≡ (b', some (replied tt)) =
        rw
          (
            h,
            unregister_with,
            unregister_service,
            e,
            splice_service-middle base (map entry_of services) s free.0,
          )
          refl in
      rw (unregister_all, found) (unregister_all-services services base m b' h free.1 refl)

  -- A connected manager that has registered nothing registers services, one after the other, at a broker
  -- that has no service of any of their names. Its shutdown then settles, forgets them, and leaves
  -- the broker with the services it had before, also where services share a name.
  pub shutdown-register_all :
      (services : List Service) (m : BrokerClientManager) (b : Broker)
      → IsConnected id m
      → m.registered_services ≡ []
      → All (IsFree b.services) services
      → let (m', b') = register_all services m b in
        let (m'', b'', settled) = shutdown m' b' in
        (b''.services ≡ b.services) × (settled ≡ true) × (m''.registered_services ≡ [])
  unfolding shutdown
  shutdown-register_all services m b h none_yet free =
      let (m', b') = register_all services m b in
      let (kept, told, same) = register_all-services services m b h in
      let named : m'.registered_services ≡ map info_of services = told ∙ rw none_yet refl in
      let (restored, settled) =
        unregister_all-services services b.services m' b' (rw same h) free kept in
      rw (shutdown, named) (restored, settled, refl)

find_entry-append :
    (name role : String) (e : ServiceEntry) (es : List ServiceEntry)
    → find_entry name role (es ++ e ∷ [])
      ≡ (elim (find_entry name role es) as (λ o. Option ServiceEntry) [
        | some t ↦ some t
        | none ↦ if is_service name role e then some e else none
      ])
unfolding find_entry
find_entry-append name role e [] = refl
find_entry-append name role e (t ∷ es) = elim (Bool-cases (is_service name role t)) [
  | inl same ↦ rw same refl
  | inr other ↦ rw other (find_entry-append name role e es)
]

-- What a connected manager registers is found by any connected manager, itself or
-- another with a client of its own: for its name and the role
-- "default" (which is also the one that is looked for when none is given), the answer is the address
-- of the first service found before the registration, or, if there was none, the new one's; for
-- another name or role the answer stays what it was.
pub get_service-register_with :
    (id other_id : ℕ) (name : String) (role : Option String) (s : Service)
    (m other : BrokerClientManager) (b : Broker)
    → IsConnected id m
    → IsConnected other_id other
    → get_service name role other (register_with s.0 s.1 s.2 m b).1
      ≡ some
          (elim (find_entry name (or_else role default_role) (get_available_services b))
            as (λ o. Option Address) [
              | some e ↦ some (record { url = e.url; port = e.port })
              | none ↦
                  if s.0 == name && default_role == or_else role default_role
                  then some (record { url = s.1; port = s.2 })
                  else none
            ])
unfolding get_service get_available_services register_service service_change
get_service-register_with id other_id name role s m other b h h' =
    let r = or_else role default_role in
    let e : ServiceEntry = record {
      info = record { interface_name = s.0; role = default_role };
      url = s.1;
      port = s.2;
    } in
    rw
      (
        get_service,
        h',
        register_with-connected id s m b h,
        get_available_services,
        map-append _ b.services (entry_of s ∷ []),
        find_entry-append name r e (get_available_services b),
      )
      (elim (Option-cases (find_entry name r (get_available_services b))) [
        | inl missing ↦
            rw missing
              (elim (Bool-cases (is_service name r e)) [ inl t ↦ rw t refl | inr f ↦ rw f refl ])
        | inr (t, found) ↦ rw found refl
      ])
