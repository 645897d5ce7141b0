-- ===== src/Shared/Dict.antt =====
-- A JavaScript `Map` with text keys: an association list in the order of insertion. `set` on a key
-- that is there replaces the value in place; `delete` on a missing key changes nothing.
use Prim.Native.String.{String}
use mathlib.Core.Path.{◌≡◌, refl, subst₂}
use mathlib.Core.Bool.{true, false}
use mathlib.Core.Option.{Option, none, some}
use mathlib.Core.List.{List, [], ◌∷◌, ◌++◌, map}
use mathlib.Core.Logic.{inl, inr}
use native.Mathlib.Omega.{arith}
use text.Mathlib.Text.{◌==◌}
use text.Mathlib.TextEquality.{eq_iff}
use modular_runtime.Shared.Tests.{if◌then◌else◌, Bool-cases}
use modular_runtime.Shared.Lists.{elem, IsUnique, All}

abbrev pub Dict : Type 0 → Type 0
Dict V = List (String × V)

module _ {V : Type 0} where
  abbrev pub keys : Dict V → List String
  keys = map (λ e. e.0)

  abbrev pub values : Dict V → List V
  values = map (λ e. e.1)

  unfoldable pub get : String → Dict V → Option V
  get k [] = none
  get k ((j, v) ∷ m) = if j == k then some v else get k m

  unfoldable pub set : String → V → Dict V → Dict V
  set k v [] = (k, v) ∷ []
  set k v ((j, w) ∷ m) = if j == k then (j, v) ∷ m else (j, w) ∷ set k v m

  unfoldable pub delete : String → Dict V → Dict V
  delete k [] = []
  delete k ((j, w) ∷ m) = if j == k then m else (j, w) ∷ delete k m

  pub get-set :
      (k j : String) (v : V) (m : Dict V) → get j (set k v m) ≡ (if k == j then some v else get j m)
  unfolding get set
  get-set k j v [] = refl
  get-set k j v ((i, w) ∷ m) = ground (arith, eq_iff k j, eq_iff i k, eq_iff i j, get-set k j v m)

  pub get_of_not_elem : (k : String) (m : Dict V) → elem k (keys m) ≡ false → get k m ≡ none
  unfolding get
  get_of_not_elem k [] h = refl
  get_of_not_elem k ((i, w) ∷ m) h = ground (arith, get_of_not_elem k m)

  pub not_elem_of_get : (k : String) (m : Dict V) → get k m ≡ none → elem k (keys m) ≡ false
  unfolding get
  not_elem_of_get k [] h = refl
  not_elem_of_get k ((i, w) ∷ m) h = ground (arith, not_elem_of_get k m)

  pub elem_of_get : (k : String) (m : Dict V) (v : V) → get k m ≡ some v → elem k (keys m) ≡ true
  unfolding get
  elem_of_get k [] v h = cc
  elem_of_get k ((i, w) ∷ m) v h = ground (arith, elem_of_get k m v)

  pub get_of_elem :
      (k : String) (m : Dict V) → elem k (keys m) ≡ true → (v : V) × (get k m ≡ some v)
  unfolding get
  get_of_elem k [] h = cc
  get_of_elem k ((i, w) ∷ m) h = elim (Bool-cases (i == k)) [
    | inl same ↦ (w, ground arith)
    | inr other ↦ let (v, e) = get_of_elem k m (ground arith) in (v, ground arith)
  ]

  pub get-delete :
      (k j : String) (m : Dict V)
      → IsUnique (keys m)
      → get j (delete k m) ≡ (if k == j then none else get j m)
  unfolding get delete
  get-delete k j [] u = ground arith
  get-delete k j ((i, w) ∷ m) u =
      ground
        (arith, eq_iff k j, eq_iff i k, eq_iff i j, get-delete k j m u.1, get_of_not_elem i m u.0)

  -- A new key goes to the end, and an old one keeps its place.
  pub keys-set_old :
      (k : String) (v : V) (m : Dict V) → elem k (keys m) ≡ true → keys (set k v m) ≡ keys m
  unfolding set
  keys-set_old k v [] h = cc
  keys-set_old k v ((i, w) ∷ m) h = ground (arith, keys-set_old k v m)

  pub set_new :
      (k : String) (v : V) (m : Dict V) → elem k (keys m) ≡ false → set k v m ≡ m ++ (k, v) ∷ []
  unfolding set
  set_new k v [] h = refl
  set_new k v ((i, w) ∷ m) h = ground (arith, set_new k v m)

  pub elem-keys-set :
      (k j : String) (v : V) (m : Dict V)
      → elem j (keys (set k v m)) ≡ (if k == j then true else elem j (keys m))
  unfolding set
  elem-keys-set k j v [] = ground arith
  elem-keys-set k j v ((i, w) ∷ m) =
      ground (arith, eq_iff k j, eq_iff i k, eq_iff i j, elem-keys-set k j v m)

  pub set-IsUnique :
      (k : String) (v : V) (m : Dict V) → IsUnique (keys m) → IsUnique (keys (set k v m))
  unfolding set
  set-IsUnique k v [] u = (refl, tt)
  set-IsUnique k v ((i, w) ∷ m) u =
      ground (arith, eq_iff i k, eq_iff k i, elem-keys-set k i v m, set-IsUnique k v m u.1)

  elem-keys-delete :
      (k j : String) (m : Dict V) → elem j (keys m) ≡ false → elem j (keys (delete k m)) ≡ false
  unfolding delete
  elem-keys-delete k j [] h = refl
  elem-keys-delete k j ((i, w) ∷ m) h = ground (arith, elem-keys-delete k j m)

  pub delete-IsUnique : (k : String) (m : Dict V) → IsUnique (keys m) → IsUnique (keys (delete k m))
  unfolding delete
  delete-IsUnique k [] u = tt
  delete-IsUnique k ((i, w) ∷ m) u =
      ground (arith, elem-keys-delete k i m u.0, delete-IsUnique k m u.1)

module _ {V : Type 0} (P : String × V → Type 0) where
  pub All-set : (k : String) (v : V) (m : Dict V) → P (k, v) → All P m → All P (set k v m)
  unfolding set
  All-set k v [] p h = (p, tt)
  All-set k v ((i, w) ∷ m) p h = elim (Bool-cases (i == k)) [
    | inl same ↦ rw (same, set) (rw ((eq_iff i k).0 same) p, h.1)
    | inr other ↦ rw (other, set) (h.0, All-set k v m p h.1)
  ]

  pub All-delete : (k : String) (m : Dict V) → All P m → All P (delete k m)
  unfolding delete
  All-delete k [] h = tt
  All-delete k ((i, w) ∷ m) h = ground (arith, All-delete k m h.1)

  pub All-get : (k : String) (m : Dict V) (v : V) → All P m → get k m ≡ some v → P (k, v)
  unfolding get
  All-get k [] v h e = cc
  All-get k ((i, w) ∷ m) v h e = elim (Bool-cases (i == k)) [
    | inl same ↦ subst₂ (λ j u. P (j, u)) ((eq_iff i k).0 same) (ground arith) h.0
    | inr other ↦ All-get k m v h.1 (ground arith)
  ]

-- A predicate on entries that follows from another one, entry by entry.
pub All-map {ℓ} :
    {A : Type ℓ} (P Q : A → Type 0) (xs : List A) → ((a : A) → P a → Q a) → All P xs → All Q xs
All-map P Q [] f h = tt
All-map P Q (x ∷ xs) f h = (f x h.0, All-map P Q xs f h.1)
