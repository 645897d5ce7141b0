-- ===== src/Generator/Arguments.antt =====
-- apps/demo-domain/event-generator/src/event-generator.ts: `parseArgs`. `finite` is `Number(text)` if it is finite, `trunc`
-- is `Math.trunc`, `count` is a whole number as a count (`none` if it is negative), and `split` is `split(',')`.
use modular_runtime.Shared.{
  ℕ, String, Option, some, none, List, [], ◌∷◌, map, not, ◌||◌, ◌==◌, if◌then◌else◌, keep, elem,
}
use modular_runtime.Shared.Parsed.{Parsed, parsed, failed, exited}
use modular_runtime.Shared.Text.{◌⧺◌, trim}
use modular_runtime.Generator.{GeneratorDistribution, GeneratorConfig}

-- The configuration with its seed
pub record Arguments (N : Type 0) : Type 0 where
  pub config : GeneratorConfig
  pub seed : Option N

unfoldable pub parse_distribution : String → Option GeneratorDistribution
parse_distribution value =
    if value == "uniform"
    then some GeneratorDistribution.uniform
    else if value == "zipf"
    then some GeneratorDistribution.zipf
    else if value == "burst"
    then some GeneratorDistribution.burst
    else none

abbrev pub option_flags : List String
option_flags = "--count" ∷ "--output" ∷ "--users" ∷ "--types" ∷ "--seed" ∷ "--distribution" ∷ []

module _ {N : Type 0} (finite : String → Option N) (trunc : N → N) (count : N → Option ℕ)
    (split : String → List String) where
  unfoldable pub default_arguments : Arguments N
  default_arguments = record {
    config = record {
      event_count = some 100000;
      output_file = "events.ndjson";
      user_count = some 10000;
      event_types = [];
      distribution = none;
    };
    seed = none;
  }

  unfoldable pub types_of : String → List String
  types_of value = keep (λ entry. not (entry == "")) (map trim (split value))

  -- A flag with its value, if it is one that has a value
  unfoldable pub set_option : String → String → Arguments N → Parsed (Arguments N)
  set_option flag value a =
      if flag == "--count"
      then elim (finite value) [
        | none ↦ failed "Invalid --count value"
        | some n ↦ parsed (record a { config = record a.config { event_count = count (trunc n) } })
      ]
      else if flag == "--output"
      then parsed (record a { config = record a.config { output_file = value } })
      else if flag == "--users"
      then elim (finite value) [
        | none ↦ failed "Invalid --users value"
        | some n ↦ parsed (record a { config = record a.config { user_count = count (trunc n) } })
      ]
      else if flag == "--types"
      then parsed (record a { config = record a.config { event_types = types_of value } })
      else if flag == "--seed"
      then elim (finite value) [
        | none ↦ failed "Invalid --seed value"
        | some n ↦ parsed (record a { seed = some (trunc n) })
      ]
      else elim (parse_distribution value) [
        | none ↦ failed ("Invalid distribution: " ⧺ value)
        | some d ↦ parsed (record a { config = record a.config { distribution = some d } })
      ]

  abbrev pub and_then :
      Parsed (Arguments N) → (Arguments N → Parsed (Arguments N)) → Parsed (Arguments N)
  and_then (parsed a) f = f a
  and_then (failed message) f = failed message
  and_then exited f = exited

  -- The loop over the arguments
  unfoldable pub parse_from : List String → Arguments N → Parsed (Arguments N)
  parse_from [] a = parsed a
  parse_from (arg ∷ []) a =
      if arg == "--help" || arg == "-h"
      then exited
      else if elem arg option_flags
      then failed "Missing value for argument"
      else failed ("Unknown argument: " ⧺ arg)
  parse_from (arg ∷ value ∷ argv) a =
      let after_value = and_then (set_option arg value a) (λ b. parse_from argv b) in
      if arg == "--help" || arg == "-h"
      then exited
      else if elem arg option_flags
      then after_value
      else failed ("Unknown argument: " ⧺ arg)

  -- A leading `--` is passed over.
  unfoldable pub parse_args : List String → Parsed (Arguments N)
  parse_args [] = parsed default_arguments
  parse_args (arg ∷ argv) =
      if arg == "--"
      then parse_from argv default_arguments
      else parse_from (arg ∷ argv) default_arguments
