-- ===== src/Dashboard/Upsert.antt =====
-- apps/dashboard/src/hooks/useTopologyStream.ts: replacing or appending an item of a list
-- (`upsertNode`, `upsertEdge`), and how this meets a map from keys to items.
use modular_runtime.Shared.{
  String, some, List, [], ◌∷◌, ◌++◌, map, Bool, true, false, not, ◌==◌, ◌≡◌, refl, sym, ◌∙◌, ap,
  arith, if◌then◌else◌, any, keep, elem, All, IsUnique, eq_iff, inl, inr, Bool-cases,
}
use modular_runtime.Shared.Dict.{Dict, keys, values, get, set, delete, set_new}
use mathlib.Core.List.{map-append}

-- `findIndex(same) === -1 ? [...items, item] : items.map((i) => (same(i) ? item : i))`
unfoldable pub upsert {ℓ} : {A : Type ℓ} → (A → Bool) → A → List A → List A
upsert same item items =
    if any same items then map (λ i. if same i then item else i) items else items ++ item ∷ []

module _ {A B : Type 0} (f : A → B) (p : A → Bool) (q : B → Bool)
    (agree : (a : A) → q (f a) ≡ p a) where
  any-map : (xs : List A) → any q (map f xs) ≡ any p xs
  any-map [] = refl
  any-map (x ∷ xs) = rw (agree x, any-map xs)

  map-replace :
      (a : A) (xs : List A)
      → map f (map (λ i. if p i then a else i) xs) ≡ map (λ i. if q i then f a else i) (map f xs)
  map-replace a [] = refl
  map-replace a (x ∷ xs) = ground (arith, agree x, map-replace a xs)

  pub map-upsert : (a : A) (xs : List A) → map f (upsert p a xs) ≡ upsert q (f a) (map f xs)
  unfolding upsert
  map-upsert a xs = elim (Bool-cases (any p xs)) [
    | inl there ↦ rw (any-map xs, there) (map-replace a xs)
    | inr fresh ↦ rw (any-map xs, fresh) (map-append f xs (a ∷ []))
  ]

  pub map-keep : (xs : List A) → map f (keep p xs) ≡ keep q (map f xs)
  map-keep [] = refl
  map-keep (x ∷ xs) = ground (arith, agree x, map-keep xs)

pub keep_comm {ℓ} :
    {A : Type ℓ} (p q : A → Bool) (xs : List A) → keep p (keep q xs) ≡ keep q (keep p xs)
keep_comm p q [] = refl
keep_comm p q (x ∷ xs) = ground (arith, keep_comm p q xs)

pub keep-All {ℓ} :
    {A : Type ℓ} (p : A → Bool) (xs : List A) → All (λ x. p x ≡ true) xs → keep p xs ≡ xs
keep-All p [] h = refl
keep-All p (x ∷ xs) h = ground (arith, h.0, keep-All p xs h.1)

-- A map whose entries stand under the key of their image under `f`.
module _ {V B : Type 0} (f : V → B) (key : B → String) where
  abbrev pub IsKeyed : Dict V → Type 0
  IsKeyed m = All (λ e. e.0 ≡ key (f e.1)) m

  any_key :
      (k : String) (m : Dict V)
      → IsKeyed m
      → any (λ b. key b == k) (map f (values m)) ≡ elem k (keys m)
  any_key k [] h = refl
  any_key k ((j, w) ∷ m) h = rw (← h.0, any_key k m h.1)

  no_replace :
      (k : String) (v : V) (m : Dict V)
      → IsKeyed m
      → elem k (keys m) ≡ false
      → map (λ b. if key b == k then f v else b) (map f (values m)) ≡ map f (values m)
  no_replace k v [] h fresh = refl
  no_replace k v ((j, w) ∷ m) h fresh = ground (arith, h.0, no_replace k v m h.1)

  replaced :
      (k : String) (v : V) (m : Dict V)
      → IsKeyed m
      → IsUnique (keys m)
      → elem k (keys m) ≡ true
      → map f (values (set k v m)) ≡ map (λ b. if key b == k then f v else b) (map f (values m))
  unfolding set
  replaced k v [] h u there = cc
  replaced k v ((j, w) ∷ m) h u there =
      ground (arith, h.0, eq_iff j k, replaced k v m h.1 u.1, no_replace k v m h.1)

  pub map-values-set :
      (k : String) (v : V) (m : Dict V)
      → IsKeyed m
      → IsUnique (keys m)
      → map f (values (set k v m)) ≡ upsert (λ b. key b == k) (f v) (map f (values m))
  unfolding upsert
  map-values-set k v m h u = elim (Bool-cases (elem k (keys m))) [
    | inl there ↦ rw (any_key k m h, there) (replaced k v m h u there)
    | inr fresh ↦ rw (any_key k m h, fresh) (rw (set_new k v m fresh) (simp map-append))
  ]

  no_drop :
      (k : String) (m : Dict V)
      → IsKeyed m
      → elem k (keys m) ≡ false
      → keep (λ b. not (key b == k)) (map f (values m)) ≡ map f (values m)
  no_drop k [] h fresh = refl
  no_drop k ((j, w) ∷ m) h fresh = ground (arith, h.0, no_drop k m h.1)

  pub map-values-delete :
      (k : String) (m : Dict V)
      → IsKeyed m
      → IsUnique (keys m)
      → map f (values (delete k m)) ≡ keep (λ b. not (key b == k)) (map f (values m))
  unfolding delete
  map-values-delete k [] h u = refl
  map-values-delete k ((j, w) ∷ m) h u =
      ground (arith, h.0, eq_iff j k, map-values-delete k m h.1 u.1, no_drop k m h.1)

module _ {V B : Type 0} (f : V → B) where
  -- Writing a value with the same image changes no image.
  pub map-values-set_same :
      (k : String) (v w : V) (m : Dict V)
      → get k m ≡ some w
      → f v ≡ f w
      → map f (values (set k v m)) ≡ map f (values m)
  unfolding get set
  map-values-set_same k v w [] e same = cc
  map-values-set_same k v w ((j, x) ∷ m) e same = ground (arith, map-values-set_same k v w m)

-- An observer's list of items against a map: `g` and `f` forget what they need not agree on.
module _ {V A B : Type 0} (g : A → B) (f : V → B) (key : B → String) where
  pub upsert_synced :
      (item : A) (items : List A) (k : String) (v : V) (m : Dict V)
      → IsKeyed f key m
      → IsUnique (keys m)
      → g item ≡ f v
      → key (g item) ≡ k
      → map g items ≡ map f (values m)
      → map g (upsert (λ i. key (g i) == key (g item)) item items) ≡ map f (values (set k v m))
  upsert_synced item items k v m keyed u same at h =
      map-upsert g (λ i. key (g i) == key (g item)) (λ b. key b == key (g item)) (λ a. refl) item
        items
      ∙ rw (h, same, ap key (sym same) ∙ at) (sym (map-values-set f key k v m keyed u))

  pub drop_synced :
      (item : A) (items : List A) (k : String) (m : Dict V)
      → IsKeyed f key m
      → IsUnique (keys m)
      → key (g item) ≡ k
      → map g items ≡ map f (values m)
      → map g (keep (λ i. not (key (g i) == key (g item))) items) ≡ map f (values (delete k m))
  drop_synced item items k m keyed u at h =
      map-keep g (λ i. not (key (g i) == key (g item))) (λ b. not (key b == key (g item)))
        (λ a. refl) items
      ∙ rw (h, at) (sym (map-values-delete f key k m keyed u))
