-- ===== src/Services/Arguments.antt =====
-- apps/demo-domain: `parseArgs` of the parse, rules, aggregate and sink services. `number` is `Number(text)`; `exited` is the end of
-- the process after the usage was printed.
use modular_runtime.Shared.{String, List, [], ◌∷◌, ◌++◌, ◌||◌, ◌==◌, if◌then◌else◌, ◌≡◌, arith}
use modular_runtime.Shared.Parsed.{Parsed, parsed, failed, exited}
use modular_runtime.Shared.Text.{◌⧺◌}

pub record ServiceConfig (N : Type 0) : Type 0 where
  pub host : String
  pub port : N

pub record SinkConfig (N : Type 0) : Type 0 where
  pub host : String
  pub port : N
  pub output_file : String

module _ {N : Type 0} (number : String → N) where
  -- The loop over the arguments, the same in the three services with a host and a port
  unfoldable pub parse_service_args : List String → ServiceConfig N → Parsed (ServiceConfig N)
  parse_service_args [] c = parsed c
  parse_service_args (arg ∷ []) c =
      if arg == "--help" || arg == "-h"
      then exited
      else if arg == "--host" || arg == "--port"
      then failed "Missing value for argument"
      else failed ("Unknown argument: " ⧺ arg)
  parse_service_args (arg ∷ value ∷ argv) c =
      let host = parse_service_args argv (record c { host = value }) in
      let port = parse_service_args argv (record c { port = number value }) in
      if arg == "--help" || arg == "-h"
      then exited
      else if arg == "--host"
      then host
      else if arg == "--port"
      then port
      else failed ("Unknown argument: " ⧺ arg)

  unfoldable pub parse_args_of_parse : List String → Parsed (ServiceConfig N)
  parse_args_of_parse argv =
      parse_service_args argv (record { host = "127.0.0.1"; port = number "6002" })

  unfoldable pub parse_args_of_rules : List String → Parsed (ServiceConfig N)
  parse_args_of_rules argv =
      parse_service_args argv (record { host = "127.0.0.1"; port = number "6003" })

  unfoldable pub parse_args_of_aggregate : List String → Parsed (ServiceConfig N)
  parse_args_of_aggregate argv =
      parse_service_args argv (record { host = "127.0.0.1"; port = number "6004" })

  unfoldable pub parse_sink_from : List String → SinkConfig N → Parsed (SinkConfig N)
  parse_sink_from [] c = parsed c
  parse_sink_from (arg ∷ []) c =
      if arg == "--help" || arg == "-h"
      then exited
      else if arg == "--host" || (arg == "--port" || arg == "--output")
      then failed "Missing value for argument"
      else failed ("Unknown argument: " ⧺ arg)
  parse_sink_from (arg ∷ value ∷ argv) c =
      let host = parse_sink_from argv (record c { host = value }) in
      let port = parse_sink_from argv (record c { port = number value }) in
      let output = parse_sink_from argv (record c { output_file = value }) in
      if arg == "--help" || arg == "-h"
      then exited
      else if arg == "--host"
      then host
      else if arg == "--port"
      then port
      else if arg == "--output"
      then output
      else failed ("Unknown argument: " ⧺ arg)

  unfoldable pub parse_args_of_sink : List String → Parsed (SinkConfig N)
  parse_args_of_sink argv = parse_sink_from argv (record {
    host = "127.0.0.1";
    port = number "6005";
    output_file = "aggregate-results.ndjson";
  })

  -- What was accepted is not looked at again: arguments that follow it are parsed from the
  -- configuration that it gives.
  parse_service_args-append :
      (before after : List String) (c d : ServiceConfig N)
      → parse_service_args before c ≡ parsed d
      → parse_service_args (before ++ after) c ≡ parse_service_args after d
  unfolding parse_service_args
  parse_service_args-append [] after c d h = ground arith
  parse_service_args-append (arg ∷ []) after c d h = absurd (ground arith)
  parse_service_args-append (arg ∷ value ∷ argv) after c d h = ground (
    arith,
    parse_service_args-append argv after (record c { host = value }) d,
    parse_service_args-append argv after (record c { port = number value }) d,
  )
