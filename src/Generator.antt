-- ===== src/Generator.antt =====
-- apps/demo-domain/event-generator/src/generator.ts: the events of a run, as they are written. `next` is the generator
-- of random numbers, with its state; `scaled v n` is `Math.floor(v * n)`, `cubed` is `Math.pow(v, 3)`, and
-- `is_rare` is `v < 0.02`. `padded` is `index.toString().padStart(4, '0')`. A time is in milliseconds, and its text is left
-- out, and so is the file. A count is `none` if it is negative or not an integer.
pub mod Arguments
pub mod Bounds
pub mod Mulberry
pub mod Tests
use modular_runtime.Shared.{
  ℕ, zero, suc, ◌+◌, ◌-◌, String, Option, some, none, List, [], ◌∷◌, Bool, true, false, length,
  get_elem?, ltb, eqb, if◌then◌else◌, ◌==◌, ◌⊎◌, inl, inr,
}
use modular_runtime.Shared.Text.{◌⧺◌, trim}

pub data GeneratorDistribution : Type 0 where
  uniform : GeneratorDistribution
  zipf : GeneratorDistribution
  burst : GeneratorDistribution

pub record GeneratorConfig : Type 0 where
  pub event_count : Option ℕ
  pub output_file : String
  pub user_count : Option ℕ
  pub event_types : List String
  pub distribution : Option GeneratorDistribution

pub record EventRecord : Type 0 where
  pub ts : ℕ
  pub type : Option String
  pub user : String
  pub value : ℕ
  pub seq : ℕ

-- `burstRemaining` and `burstUser` of `createUserPicker`
pub record Picker : Type 0 where
  pub burst_remaining : ℕ
  pub burst_user : ℕ

pub data Generated : Type 0 where
  generated : List EventRecord → Generated
  refused : String → Generated

abbrev pub default_event_types : List String
default_event_types = "click" ∷ "view" ∷ "purchase" ∷ []

unfoldable pub normalize_event_types : List String → List String
normalize_event_types [] = default_event_types
normalize_event_types (t ∷ ts) = t ∷ ts

unfoldable pub normalize_distribution : Option GeneratorDistribution → GeneratorDistribution
normalize_distribution none = GeneratorDistribution.uniform
normalize_distribution (some d) = d

-- A positive integer
unfoldable pub positive : Option ℕ → Option ℕ
positive none = none
positive (some zero) = none
positive (some (suc n)) = some (suc n)

-- The message of the error, or the two counts
unfoldable pub validate_config : GeneratorConfig → List String → String ⊎ (ℕ × ℕ)
validate_config config types = elim (positive config.event_count) [
  | none ↦ inl "eventCount must be a positive integer"
  | some events ↦ elim (positive config.user_count) [
    | none ↦ inl "userCount must be a positive integer"
    | some users ↦
        if trim config.output_file == ""
        then inl "outputFile must be provided"
        else if eqb (length types) 0
        then inl "eventTypes must include at least one entry"
        else inr (events, users)
  ]
]

-- `eventTypes[index] ?? eventTypes[0]`
unfoldable pub type_at : List String → ℕ → Option String
type_at types index = elim (get_elem? types index) [
  | some type ↦ some type
  | none ↦ get_elem? types 0
]

unfoldable pub to_user_id : (ℕ → String) → ℕ → String
to_user_id padded index = "u" ⧺ padded index

module _ {V S : Type 0} (next : S → V × S) (scaled : V → ℕ → ℕ) (cubed : V → V) (is_rare : V → Bool)
    (padded : ℕ → String) where
  unfoldable pub next_timestamp : ℕ → S → ℕ × S
  next_timestamp current_ms s = (current_ms + (250 + scaled (next s).0 1000), (next s).1)

  unfoldable pub pick_event_type : List String → S → Option String × S
  pick_event_type types s = (type_at types (scaled (next s).0 (length types)), (next s).1)

  -- The user is drawn from all.
  unfoldable pub pick_uniform : ℕ → Picker → S → String × (Picker × S)
  pick_uniform users p s = (to_user_id padded (scaled (next s).0 users), (p, (next s).1))

  -- A burst begins with its first event: its length and its user are drawn.
  unfoldable pub start_burst : ℕ → S → String × (Picker × S)
  start_burst users s =
      let size = next s in
      let user = next size.1 in
      (
        to_user_id padded (scaled user.0 users),
        (
          record { burst_remaining = 50 + scaled size.0 200 - 1; burst_user = scaled user.0 users },
          user.1,
        ),
      )

  unfoldable pub pick_user : GeneratorDistribution → ℕ → Picker → S → String × (Picker × S)
  pick_user GeneratorDistribution.uniform users p s = pick_uniform users p s
  pick_user GeneratorDistribution.zipf users p s =
      (to_user_id padded (scaled (cubed (next s).0) users), (p, (next s).1))
  pick_user GeneratorDistribution.burst users p s =
      if ltb 0 p.burst_remaining
      then (
        to_user_id padded p.burst_user,
        (record p { burst_remaining = p.burst_remaining - 1 }, s),
      )
      else if is_rare (next s).0
      then start_burst users (next s).1
      else pick_uniform users p (next s).1

  -- The loop of `generateEvents`, from event `seq` on, for the number of events that are left
  unfoldable pub generate_from :
      GeneratorDistribution → List String → ℕ → ℕ → ℕ → ℕ → Picker → S → List EventRecord
  generate_from d types users zero seq time p s = []
  generate_from d types users (suc left) seq time p s =
      let timed = next_timestamp time s in
      let typed = pick_event_type types timed.1 in
      let picked = pick_user d users p typed.1 in
      let valued = next picked.1.1 in
      let event : EventRecord = record {
        ts = timed.0;
        type = typed.0;
        user = picked.0;
        value = scaled valued.0 100 + 1;
        seq = seq;
      } in
      event ∷ generate_from d types users left (seq + 1) timed.0 picked.1.0 valued.1

  unfoldable pub generate_events : GeneratorConfig → ℕ → S → Generated
  generate_events config now s =
      let types = normalize_event_types config.event_types in
      elim (validate_config config types) [
        | inl message ↦ refused message
        | inr counts ↦ generated (
            generate_from (normalize_distribution config.distribution) types counts.1 counts.0 0 now
              (record { burst_remaining = 0; burst_user = 0 }) s)
      ]
