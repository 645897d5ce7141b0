-- ===== src/Topology/Store/TargetKeys.antt =====
-- apps/topology/src/topology-store.ts: the names under which a service is a target (`buildServiceKeys`)
-- always contain its own name.
use modular_runtime.Shared.{
  String, Option, some, none, List, [], ◌∷◌, ◌++◌, true, ◌||◌, ◌≡◌, refl, arith, elem, eq_refl,
}
use modular_runtime.Shared.Text.{trim}
use modular_runtime.Topology.Types.{ServiceNode}
use modular_runtime.Shared.Text.{◌⧺◌}
use modular_runtime.Topology.Store.State.{
  add, add_address_keys, build_service_keys, build_service_key,
}
use mathlib.Core.Option

elem-append : (j : String) (xs ys : List String) → elem j (xs ++ ys) ≡ (elem j xs || elem j ys)
elem-append j [] ys = refl
elem-append j (x ∷ xs) ys = ground (arith, elem-append j xs ys)

elem-add_old : (j k : String) (ks : List String) → elem j ks ≡ true → elem j (add k ks) ≡ true
unfolding add
elem-add_old j k ks h = ground (arith, elem-append j ks (k ∷ []))

elem-add_self : (k : String) (ks : List String) → elem k (add k ks) ≡ true
unfolding add
elem-add_self k ks = ground (arith, elem-append k ks (k ∷ []), eq_refl k)

elem-add_address_keys :
    (j key : String) (address : Option String) (ks : List String)
    → elem j ks ≡ true
    → elem j (add_address_keys key address ks) ≡ true
unfolding add_address_keys
elem-add_address_keys j key none ks h = h
elem-add_address_keys j key (some a) ks h = ground (
  arith,
  elem-add_old j a ks h,
  elem-add_old j (key ⧺ "@" ⧺ a) (add a ks) (elem-add_old j a ks h),
)

pub service_name-elem :
    (node : ServiceNode) → elem node.service_name (build_service_keys node) ≡ true
unfolding build_service_keys
service_name-elem node =
    elem-add_address_keys node.service_name (build_service_key node) (Option.map trim node.address)
      _
      (elem-add_old node.service_name (build_service_key node) (add node.service_name [])
        (elem-add_self node.service_name []))
