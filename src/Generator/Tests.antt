-- ===== src/Generator/Tests.antt =====
-- apps/demo-domain/event-generator: a run of the generator from a seed, its first random
-- number, and a command line.
use modular_runtime.Shared.{
  ℕ, ◌*◌, ◌/◌, ◌%◌, String, Option, some, none, ◌==◌, ◌∷◌, List, [], Bool, ◌≡◌, refl, arith, length,
  ltb, if◌then◌else◌,
}
use modular_runtime.Shared.Text.{trim}
use modular_runtime.Generator.{
  GeneratorDistribution, GeneratorConfig, EventRecord, generated, generate_events,
  normalize_event_types,
}
use modular_runtime.Shared.Parsed.{parsed}
use modular_runtime.Generator.Arguments.{
  parse_args, parse_from, set_option, types_of, default_arguments, parse_distribution,
}
use modular_runtime.Generator.Bounds.{AreEvents, generate_events-AreEvents}
use modular_runtime.Generator.Mulberry.{
  Numerator, two_32, xor, or, imul, create_rng, next_random, next_numerator, scaled_random,
  scaled_random-below,
}

first_random : (next_random (create_rng 42)).0 ≡ 2581720956
unfolding next_random create_rng xor or imul
first_random = refl

abbrev cube : Numerator → Numerator
cube v = (v.0 * v.0 / two_32 * v.0 / two_32 % two_32, omega arith)

-- Below 0.02
abbrev below_2_percent : Numerator → Bool
below_2_percent v = ltb (v.0 * 50) two_32

abbrev padded_texts : ℕ → String
padded_texts n = if ltb n 1 then "0000" else "0001"

abbrev bursts : GeneratorConfig
bursts = record {
  event_count = some 2;
  output_file = "events.ndjson";
  user_count = some 2;
  event_types = [];
  distribution = some GeneratorDistribution.burst;
}

generate_events-AreEvents_example :
    (written : List EventRecord) × (generate_events next_numerator scaled_random cube
        below_2_percent padded_texts bursts 1000
        (create_rng 42)
      ≡ generated written)
    × (length written ≡ 2)
    × AreEvents padded_texts (normalize_event_types []) 2 0 1000 written
unfolding trim
generate_events-AreEvents_example =
    generate_events-AreEvents next_numerator scaled_random cube below_2_percent padded_texts
      scaled_random-below bursts 2 2 1000 (create_rng 42) refl (omega arith) refl (omega arith) refl

-- A command line with a blank type among its types
abbrev counts : List String
counts =
    "--" ∷ "--count" ∷ "3" ∷ "--types" ∷ "click, " ∷ "--distribution" ∷ "burst" ∷ "--seed" ∷ "42"
    ∷ []

abbrev number_of : String → Option ℕ
number_of text = if text == "3" then some 3 else if text == "42" then some 42 else none

counts_parsed :
    parse_args number_of (λ n. n) (λ n. some n) (λ text. "click" ∷ " " ∷ []) counts
    ≡ parsed (record {
      config = record {
        event_count = some 3;
        output_file = "events.ndjson";
        user_count = some 10000;
        event_types = "click" ∷ [];
        distribution = some GeneratorDistribution.burst;
      };
      seed = some 42;
    })
unfolding parse_args parse_from set_option types_of default_arguments parse_distribution trim
counts_parsed = refl
