-- ===== src/Ingest/Arguments.antt =====
-- apps/demo-domain/ingest-service/src/ingest-service.ts: `parseArgs`. `number` is `Number(text)`; `exited` is the
-- end of the process after the usage was printed.
use modular_runtime.Shared.{String, List, [], ◌∷◌, ◌++◌, ◌||◌, ◌==◌, if◌then◌else◌, ◌≡◌, arith}
use modular_runtime.Shared.Parsed.{Parsed, parsed, failed, exited}
use modular_runtime.Shared.Text.{◌⧺◌}

pub record IngestConfig (N : Type 0) : Type 0 where
  pub host : String
  pub port : N
  pub default_input_file : String

module _ {N : Type 0} (number : String → N) where
  unfoldable pub default_config : IngestConfig N
  default_config = record {
    host = "127.0.0.1";
    port = number "6001";
    default_input_file = "events.ndjson";
  }

  abbrev pub missing : Parsed (IngestConfig N)
  missing = failed "Missing value for argument"

  -- The loop over the arguments
  unfoldable pub parse_from : List String → IngestConfig N → Parsed (IngestConfig N)
  parse_from [] c = parsed c
  parse_from (arg ∷ []) c =
      if arg == "--help" || arg == "-h"
      then exited
      else if arg == "--host" || arg == "--port" || arg == "--input"
      then missing
      else failed ("Unknown argument: " ⧺ arg)
  parse_from (arg ∷ value ∷ argv) c =
      let host = parse_from argv (record c { host = value }) in
      let port = parse_from argv (record c { port = number value }) in
      let input = parse_from argv (record c { default_input_file = value }) in
      if arg == "--help" || arg == "-h"
      then exited
      else if arg == "--host"
      then host
      else if arg == "--port"
      then port
      else if arg == "--input"
      then input
      else failed ("Unknown argument: " ⧺ arg)

  unfoldable pub parse_args : List String → Parsed (IngestConfig N)
  parse_args argv = parse_from argv default_config

  -- Arguments that are accepted do not change what those after them do: these are parsed from the configuration
  -- that the first ones give.
  pub parse_from-append :
      (before after : List String) (c d : IngestConfig N)
      → parse_from before c ≡ parsed d
      → parse_from (before ++ after) c ≡ parse_from after d
  unfolding parse_from
  parse_from-append [] after c d h = ground arith
  parse_from-append (arg ∷ []) after c d h = absurd (ground arith)
  parse_from-append (arg ∷ value ∷ argv) after c d h = ground (
    arith,
    parse_from-append argv after (record c { host = value }) d,
    parse_from-append argv after (record c { port = number value }) d,
    parse_from-append argv after (record c { default_input_file = value }) d,
  )
