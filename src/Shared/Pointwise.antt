-- ===== src/Shared/Pointwise.antt =====
-- A loop over the keys of a map whose body touches only the entry of its own key.
use Prim.Native.String.{String}
use mathlib.Core.Path.{◌≡◌, refl}
use mathlib.Core.Bool.{false}
use mathlib.Core.Option.{Option, none, some}
use mathlib.Core.List.{List, [], ◌∷◌}
use mathlib.Core.Logic.{inl, inr}
use native.Mathlib.Omega.{arith}
use text.Mathlib.Text.{◌==◌}
use text.Mathlib.TextEquality.{eq_iff}
use text.Mathlib.TextPositions.{eq_refl}
use modular_runtime.Shared.Tests.{if◌then◌else◌, Bool-cases, Option-cases}
use modular_runtime.Shared.Lists.{elem, IsUnique, All}
use modular_runtime.Shared.Dict.{Dict, keys, get, get_of_not_elem, All-get}
use modular_runtime.Shared.Loops.{for_each}

abbrev pub then_apply : {V : Type 0} → (V → Option V) → Option V → Option V
then_apply rule none = none
then_apply rule (some v) = rule v

-- `rule` says what becomes of the value; `none` is deletion.
pub record IsPointwise {V U : Type 0} (body : String → Dict V → Dict V × List U)
    (rule : V → Option V) : Type 0 where
  pub keeps : (k : String) (m : Dict V) → IsUnique (keys m) → IsUnique (keys (body k m).0)
  pub acts :
      (k j : String) (m : Dict V)
      → IsUnique (keys m)
      → get j (body k m).0 ≡ (if k == j then then_apply rule (get j m) else get j m)

module _ {V U : Type 0} {body : String → Dict V → Dict V × List U} {rule : V → Option V}
    (p : IsPointwise body rule) where
  pub for_each-IsUnique :
      (ks : List String) (m : Dict V) → IsUnique (keys m) → IsUnique (keys (for_each body ks m).0)
  unfolding for_each
  for_each-IsUnique [] m u = u
  for_each-IsUnique (k ∷ ks) m u = for_each-IsUnique ks (body k m).0 (p.keeps k m u)

  for_each-get_on :
      (ks : List String) (m : Dict V) (j : String)
      → IsUnique ks
      → IsUnique (keys m)
      → get j (for_each body ks m).0 ≡ (if elem j ks then then_apply rule (get j m) else get j m)
  unfolding for_each
  for_each-get_on [] m j d u = refl
  for_each-get_on (k ∷ ks) m j d u =
      ground
        (arith, eq_iff k j, p.acts k j m u, for_each-get_on ks (body k m).0 j d.1 (p.keeps k m u))

  elem_of_some : (j : String) (m : Dict V) → elem j (keys m) ≡ false → get j m ≡ none
  elem_of_some j m h = get_of_not_elem j m h

  -- The loop over all keys applies the rule to every entry once.
  pub for_each-get :
      (m : Dict V) (j : String)
      → IsUnique (keys m)
      → get j (for_each body (keys m) m).0 ≡ then_apply rule (get j m)
  for_each-get m j u = elim (Bool-cases (elem j (keys m))) [
    | inl old ↦ ground (arith, for_each-get_on (keys m) m j u u)
    | inr missing ↦ ground (arith, for_each-get_on (keys m) m j u u, get_of_not_elem j m missing)
  ]

module _ {V : Type 0} (P : String × V → Type 0) where
  from_tail :
      (k : String) (w : V) (m : Dict V)
      → elem k (keys m) ≡ false
      → ((j : String) (v : V) → get j ((k, w) ∷ m) ≡ some v → P (j, v))
      → (j : String) (v : V) → get j m ≡ some v
      → P (j, v)
  unfolding get
  from_tail k w m fresh h j v e = h j v (ground (arith, eq_iff k j, get_of_not_elem k m fresh))

  -- What holds of every entry that `get` finds holds of the whole map.
  pub All-of_get :
      (m : Dict V)
      → IsUnique (keys m)
      → ((j : String) (v : V) → get j m ≡ some v → P (j, v))
      → All P m
  unfolding get
  All-of_get [] u h = tt
  All-of_get ((k, w) ∷ m) u h = (h k w (rw (eq_refl k)), All-of_get m u.1 (from_tail k w m u.0 h))

module _ {V U : Type 0} {body : String → Dict V → Dict V × List U} {rule : V → Option V}
    (p : IsPointwise body rule) (P Q : String × V → Type 0) where
  -- What the rule makes of an entry with `P` has `Q`: so the loop makes of a map of the one a map
  -- of the other.
  pub for_each-All :
      (m : Dict V)
      → IsUnique (keys m)
      → ((j : String) (v v' : V) → P (j, v) → rule v ≡ some v' → Q (j, v'))
      → All P m
      → All Q (for_each body (keys m) m).0
  for_each-All m u step h = All-of_get Q _ (for_each-IsUnique p (keys m) m u) λ j v' e.
      elim (Option-cases (get j m)) [
        | inl missing ↦ cc (for_each-get p m j u)
        | inr (v, found) ↦
            step j v v' (All-get P j m v h found) (ground (arith, for_each-get p m j u))
      ]

module _ {V U : Type 0} {body : String → Dict V → Dict V × List U} {rule : V → Option V}
    (p : IsPointwise body rule) (P : String × V → Type 0) where
  -- One round keeps what the rule keeps.
  pub round-All :
      (k : String) (m : Dict V)
      → IsUnique (keys m)
      → ((j : String) (v v' : V) → P (j, v) → rule v ≡ some v' → P (j, v'))
      → All P m
      → All P (body k m).0
  round-All k m u step h = All-of_get P _ (p.keeps k m u) λ j v' e. elim (Bool-cases (k == j)) [
    | inr other ↦ All-get P j m v' h (ground (arith, p.acts k j m u))
    | inl same ↦ elim (Option-cases (get j m)) [
      | inl missing ↦ cc (rw (same, missing) at (p.acts k j m u))
      | inr (v, found) ↦ step j v v' (All-get P j m v h found) (ground (arith, p.acts k j m u))
    ]
  ]
