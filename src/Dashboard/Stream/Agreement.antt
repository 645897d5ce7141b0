-- ===== src/Dashboard/Stream/Agreement.antt =====
-- apps/dashboard/src/hooks/useTopologyStream.ts: what `areSnapshotsEqual` finds out.
use modular_runtime.Shared.{
  suc, String, Option, some, none, List, [], ◌∷◌, Bool, true, false, ◌==◌, if◌then◌else◌, eqb,
  length, elem, IsUnique, ◌≡◌, refl, eq_iff, eq_refl, arith, Bool-cases, Option-cases, inl, inr, ap,
  ◌∙◌,
}
use modular_runtime.Shared.Dict.{Dict, get, set, keys, set-IsUnique, elem_of_get, get_of_elem}
use modular_runtime.Dashboard.Stream.{map_onto, all_match, are_maps_equal}

-- A list without one occurrence of a text
erase : String → List String → List String
erase k [] = []
erase k (x ∷ xs) = if x == k then xs else x ∷ erase k xs

length-erase :
    (k : String) (xs : List String) → elem k xs ≡ true → suc (length (erase k xs)) ≡ length xs
unfolding erase
length-erase k [] h = cc
length-erase k (x ∷ xs) h = ground (arith, length-erase k xs)

elem-erase : (k j : String) (xs : List String) → (k == j) ≡ false → elem j (erase k xs) ≡ elem j xs
unfolding erase
elem-erase k j [] h = refl
elem-erase k j (x ∷ xs) h = ground (arith, eq_iff k j, eq_iff x k, eq_iff x j, elem-erase k j xs h)

-- Distinct texts that are all in a list of the same length are all of that list.
contained_fills :
    (xs ys : List String)
    → IsUnique xs
    → length xs ≡ length ys
    → ((k : String) → elem k xs ≡ true → elem k ys ≡ true)
    → (k : String) → elem k ys ≡ true
    → elem k xs ≡ true
contained_fills [] [] u same inside k h = h
contained_fills [] (y ∷ ys) u same inside k h = ground (arith, same)
contained_fills (x ∷ xs) ys u same inside k h =
    let here = inside x (ground (arith, eq_refl x)) in
    let inside_rest : (j : String) → elem j xs ≡ true → elem j (erase x ys) ≡ true = λ j in_rest.
      elim (Bool-cases (x == j)) [
        | inl same_text ↦ ground (arith, eq_iff x j, u.0)
        | inr other ↦ elem-erase x j ys other ∙ inside j (ground (arith, in_rest))
      ] in
    elim (Bool-cases (x == k)) [
      | inl found ↦ ground (arith, found)
      | inr other ↦
          let rest =
            contained_fills xs (erase x ys) u.1 (omega (arith, same, length-erase x ys here))
              inside_rest k (elem-erase x k ys other ∙ h) in
          ground (arith, rest)
    ]

length-keys : {A : Type 0} (m : Dict A) → length (keys m) ≡ length m
length-keys [] = refl
length-keys (e ∷ m) = ap (λ n. suc n) (length-keys m)

pub map_onto-IsUnique :
    {A : Type 0} (key : A → String) (xs : List A) (m : Dict A)
    → IsUnique (keys m)
    → IsUnique (keys (map_onto key xs m))
unfolding map_onto
map_onto-IsUnique key [] m u = u
map_onto-IsUnique key (x ∷ xs) m u =
    map_onto-IsUnique key xs (set (key x) x m) (set-IsUnique (key x) x m u)

-- Both maps lack the key, or both have it with values that count as equal.
abbrev pub AreSame : {A : Type 0} → (A → A → Bool) → Option A → Option A → Type 0
AreSame equal none none = Unit
AreSame equal none (some y) = ⊥
AreSame equal (some x) none = ⊥
AreSame equal (some x) (some y) = equal x y ≡ true

module _ {A : Type 0} (equal : A → A → Bool) where
  all_match-get :
      (left right : Dict A) (k : String) (x : A)
      → all_match equal left right ≡ true
      → get k left ≡ some x
      → (y : A) × (get k right ≡ some y) × (equal x y ≡ true)
  unfolding all_match get
  all_match-get [] right k x h e = cc
  all_match-get ((j, z) ∷ left) right k x h e = elim (Option-cases (get j right)) [
    | inl missing ↦ ground (arith, missing, h)
    | inr (y, found) ↦ elim (Bool-cases (equal z y)) [
      | inl same ↦ elim (Bool-cases (j == k)) [
        | inl here ↦ (y, ground (arith, eq_iff j k, found, here), ground (arith, e, here, same))
        | inr there ↦
            all_match-get left right k x (ground (arith, found, same, h)) (ground (arith, there, e))
      ]
      | inr differ ↦ ground (arith, found, differ, h)
    ]
  ]

  pub are_maps_equal-AreSame :
      (left right : Dict A)
      → IsUnique (keys left)
      → are_maps_equal equal left right ≡ true
      → (k : String) → AreSame equal (get k left) (get k right)
  unfolding are_maps_equal
  are_maps_equal-AreSame left right u h k = elim (Bool-cases (eqb (length left) (length right))) [
    | inr differ ↦ ground (arith, differ, h)
    | inl same ↦
        let matched : all_match equal left right ≡ true = ground (arith, same, h) in
        let inside : (j : String) → elem j (keys left) ≡ true → elem j (keys right) ≡ true =
          λ j in_left.
            let (x, found) = get_of_elem j left in_left in
            let (y, e, _) = all_match-get left right j x matched found in elem_of_get j right y e in
        elim (Option-cases (get k left)) [
          | inr (x, found) ↦
              let (y, e, matches) = all_match-get left right k x matched found in
              rw (found, e) matches
          | inl missing ↦ elim (Option-cases (get k right)) [
            | inl also_missing ↦ rw (missing, also_missing) tt
            | inr (y, found) ↦
                let there =
                  contained_fills (keys left) (keys right) u
                    (ground (arith, same, length-keys left, length-keys right)) inside k
                    (elem_of_get k right y found) in
                let (x, e) = get_of_elem k left there in cc
          ]
        ]
  ]
