-- ===== src/Shared/Loops.antt =====
-- `for (const [key, …] of map.entries())`: the body is a step on the state that also yields
-- updates, which are collected in order. The keys are those at the start of the loop; the body
-- reads the live entry, as the iterator of a `Map` does.
use mathlib.Core.Path.{◌≡◌}
use mathlib.Core.List.{List, [], ◌∷◌, ◌++◌}
use Prim.Native.String.{String}

module _ {S U : Type 0} where
  unfoldable pub for_each : (String → S → S × List U) → List String → S → S × List U
  for_each body [] s = (s, [])
  for_each body (k ∷ ks) s =
      let (s', us) = body k s in let (s'', vs) = for_each body ks s' in (s'', us ++ vs)

  -- What every round keeps, the loop keeps.
  pub for_each-keeps {ℓ} :
      (P : S → Type ℓ) (body : String → S → S × List U) (ks : List String) (s : S)
      → ((k : String) (t : S) → P t → P (body k t).0)
      → P s
      → P (for_each body ks s).0
  unfolding for_each
  for_each-keeps P body [] s step h = h
  for_each-keeps P body (k ∷ ks) s step h = for_each-keeps P body ks (body k s).0 step (step k s h)

-- An observer plays the updates of the loop one after the other: what relates it to the state
-- round by round relates it to the state after the loop.
module _ {S U A : Type 0} (play : A → List U → A)
    (play-append : (a : A) (us vs : List U) → play a (us ++ vs) ≡ play (play a us) vs)
    (play-nil : (a : A) → play a [] ≡ a) where
  pub for_each-refines {ℓ} :
      (Q : A → S → Type ℓ) (body : String → S → S × List U) (ks : List String) (a : A) (s : S)
      → ((k : String) (b : A) (t : S) → Q b t → Q (play b (body k t).1) (body k t).0)
      → Q a s
      → Q (play a (for_each body ks s).1) (for_each body ks s).0
  unfolding for_each
  for_each-refines Q body [] a s step h = rw (play-nil a) h
  for_each-refines Q body (k ∷ ks) a s step h =
      rw (play-append a (body k s).1 (for_each body ks (body k s).0).1)
        (for_each-refines Q body ks (play a (body k s).1) (body k s).0 step (step k a s h))
