-- ===== src/Generator/Bounds.antt =====
-- apps/demo-domain/event-generator/src/generator.ts: what every event of a run keeps to.
use modular_runtime.Shared.{
  ℕ, zero, suc, ◌+◌, ◌≤◌, ◌<◌, String, Option, some, List, [], ◌∷◌, Bool, false, length, get_elem?,
  ltb, eqb, ◌==◌, inl, inr, ◌≡◌, refl, ap, arith, Bool-cases,
}
use modular_runtime.Shared.Text.{trim}
use modular_runtime.Generator.{
  GeneratorDistribution, GeneratorConfig, EventRecord, Picker, type_at, to_user_id, next_timestamp,
  pick_event_type, pick_uniform, start_burst, pick_user, generate_from, generated, positive,
  validate_config, normalize_event_types, normalize_distribution, generate_events,
}

-- The type is one of the list.
abbrev pub IsOneOf : List String → Option String → Type 0
IsOneOf types type = (index : ℕ) × (index < length types) × (type ≡ get_elem? types index)

-- The user is one of the first so many.
abbrev pub IsUser : (ℕ → String) → ℕ → String → Type 0
IsUser padded users user = (index : ℕ) × (index < users) × (user ≡ to_user_id padded index)

-- Event after event: the next number, a time that is 250 to 1249 milliseconds after the one before, one of the types, one of
-- the users, and a value from 1 to 100
abbrev pub AreEvents : (ℕ → String) → List String → ℕ → ℕ → ℕ → List EventRecord → Type 0
AreEvents padded types users seq time [] = Unit
AreEvents padded types users seq time (e ∷ es) =
    (e.seq ≡ seq)
    × (time + 250 ≤ e.ts)
    × (e.ts < time + 1250)
    × IsOneOf types e.type
    × IsUser padded users e.user
    × (1 ≤ e.value)
    × (e.value ≤ 100)
    × AreEvents padded types users (seq + 1) e.ts es

get_elem?-below :
    {A : Type 0} (xs : List A) (i : ℕ) → i < length xs → (x : A) × (get_elem? xs i ≡ some x)
get_elem?-below [] i h = ground (arith, h)
get_elem?-below (x ∷ xs) zero h = (x, refl)
get_elem?-below (x ∷ xs) (suc i) h = get_elem?-below xs i (omega (arith, h))

type_at-below :
    (types : List String) (i : ℕ) → i < length types → type_at types i ≡ get_elem? types i
unfolding type_at
type_at-below types i h = let found = get_elem?-below types i h in rw (type_at, found.1) refl

positive-some : (n : ℕ) → 0 < n → positive (some n) ≡ some n
unfolding positive
positive-some zero h = ground (arith, h)
positive-some (suc n) h = refl

some_types : (types : List String) → 0 < length (normalize_event_types types)
unfolding normalize_event_types
some_types [] = omega arith
some_types (t ∷ ts) = omega arith

has_types : (types : List String) → eqb (length (normalize_event_types types)) 0 ≡ false
unfolding normalize_event_types
has_types [] = refl
has_types (t ∷ ts) = ground arith

module _ {V S : Type 0} (next : S → V × S) (scaled : V → ℕ → ℕ) (cubed : V → V) (is_rare : V → Bool)
    (padded : ℕ → String) (scaled-below : (v : V) (n : ℕ) → 0 < n → scaled v n < n) where
  picked-IsUser :
      (d : GeneratorDistribution) (users : ℕ) (p : Picker) (s : S)
      → 0 < users
      → p.burst_user < users
      → IsUser padded users (pick_user next scaled cubed is_rare padded d users p s).0
        × ((pick_user next scaled cubed is_rare padded d users p s).1.0.burst_user < users)
  unfolding pick_user pick_uniform start_burst
  picked-IsUser GeneratorDistribution.uniform users p s some_users h =
      ((scaled (next s).0 users, scaled-below (next s).0 users some_users, refl), h)
  picked-IsUser GeneratorDistribution.zipf users p s some_users h =
      ((scaled (cubed (next s).0) users, scaled-below (cubed (next s).0) users some_users, refl), h)
  picked-IsUser GeneratorDistribution.burst users p s some_users h =
      let drawn = (next (next (next s).1).1).0 in
      let user_below = scaled-below drawn users some_users in
      elim (Bool-cases (ltb 0 p.burst_remaining)) [
        | inl on ↦ rw on ((p.burst_user, h, refl), h)
        | inr off ↦ rw off (elim (Bool-cases (is_rare (next s).0)) [
          | inl rare ↦ rw rare ((_, user_below, refl), user_below)
          | inr usual ↦ rw usual ((_, scaled-below (next (next s).1).0 users some_users, refl), h)
        ])
      ]

  generate_from-AreEvents :
      (d : GeneratorDistribution) (types : List String) (users left seq time : ℕ) (p : Picker)
      (s : S)
      → 0 < length types
      → 0 < users
      → p.burst_user < users
      → (length (generate_from next scaled cubed is_rare padded d types users left seq time p s)
          ≡ left)
        × AreEvents padded types users seq time
            (generate_from next scaled cubed is_rare padded d types users left seq time p s)
  unfolding generate_from next_timestamp pick_event_type
  generate_from-AreEvents d types users zero seq time p s some_type some_users h = (refl, tt)
  generate_from-AreEvents d types users (suc left) seq time p s some_type some_users h =
      let timed = next_timestamp next scaled cubed is_rare padded time s in
      let typed = pick_event_type next scaled cubed is_rare padded types timed.1 in
      let picked = pick_user next scaled cubed is_rare padded d users p typed.1 in
      let valued = next picked.1.1 in
      let user = picked-IsUser d users p typed.1 some_users h in
      let rest =
        generate_from-AreEvents d types users left (seq + 1) timed.0 picked.1.0 valued.1 some_type
          some_users user.1 in
      let delta = scaled-below (next s).0 1000 (omega arith) in
      let index = scaled-below (next timed.1).0 (length types) some_type in
      let value = scaled-below valued.0 100 (omega arith) in
      (
        ap (λ n. suc n) rest.0,
        (
          refl,
          omega arith,
          omega (arith, delta),
          (scaled (next timed.1).0 (length types), index, type_at-below types _ index),
          user.0,
          omega arith,
          omega (arith, value),
          rest.1,
        ),
      )

  -- Let `Math.floor(v * n)` be below n for every random number v and its third power, n positive. A configuration
  -- with a positive number of events and of users and an output file whose name is not blank is accepted, and
  -- exactly that many events are written, one after the other numbered from 0: each is 250 to 1249 ms after the one before it, the
  -- first after the present; it has one of the types (of the default ones if none is given), one of the first
  -- so many users, whatever the distribution, and a value from 1 to 100.
  pub generate_events-AreEvents :
      (config : GeneratorConfig) (events users now : ℕ) (s : S)
      → config.event_count ≡ some events
      → 0 < events
      → config.user_count ≡ some users
      → 0 < users
      → (trim config.output_file == "") ≡ false
      → (written : List EventRecord) × (generate_events next scaled cubed is_rare padded config now
            s
          ≡ generated written)
        × (length written ≡ events)
        × AreEvents padded (normalize_event_types config.event_types) users 0 now written
  unfolding generate_events validate_config
  generate_events-AreEvents config events users now s e some_events u some_users named =
      let all =
        generate_from-AreEvents (normalize_distribution config.distribution)
          (normalize_event_types config.event_types) users events 0 now
          (record { burst_remaining = 0; burst_user = 0 }) s (some_types config.event_types)
          some_users some_users in
      (
        _,
        rw
            (
              generate_events,
              validate_config,
              e,
              positive-some events some_events,
              u,
              positive-some users some_users,
              named,
              has_types config.event_types,
            )
            refl,
        all.0,
        all.1,
      )
