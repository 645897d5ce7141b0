-- ===== src/Pipeline/Options.antt =====
-- apps/demo-domain/pipeline-orchestrator/src/pipeline-orchestrator.ts: `parseArgs`, and the request that a run sends to the
-- ingest service. `number` is `Number(text)` and `print` is `toString()`. `exited` is the end of the process after the
-- usage was printed.
use modular_runtime.Shared.{
  String, Option, some, none, List, [], ◌∷◌, Bool, true, false, ◌||◌, ◌==◌, if◌then◌else◌, ◌≡◌,
  refl, elem,
}
use modular_runtime.Shared.Parsed.{Parsed, parsed, failed, exited}
use modular_runtime.Shared.Text.{◌⧺◌}
use modular_runtime.Ingest.{WorkloadMode, PayloadSize}

pub record PipelineConfig (N : Type 0) : Type 0 where
  pub input_file : String
  pub output_file : String
  pub max_events : N
  pub enable_batching : Bool
  pub batch_size : N
  pub workload_mode : WorkloadMode
  pub payload_size : PayloadSize
  pub compute_iterations : N
  pub ingest_host : String
  pub ingest_port : N
  pub parse_host : String
  pub parse_port : N
  pub rules_host : String
  pub rules_port : N
  pub aggregate_host : String
  pub aggregate_port : N
  pub sink_host : String
  pub sink_port : N

unfoldable pub workload_mode_of : String → Option WorkloadMode
workload_mode_of mode =
    if mode == "events"
    then some WorkloadMode.events
    else if mode == "work-items"
    then some WorkloadMode.work_items
    else if mode == "mixed"
    then some WorkloadMode.mixed
    else none

unfoldable pub payload_size_of : String → Option PayloadSize
payload_size_of size =
    if size == "small"
    then some PayloadSize.small
    else if size == "medium"
    then some PayloadSize.medium
    else if size == "large"
    then some PayloadSize.large
    else none

abbrev pub flags_with_value : List String
flags_with_value =
    "--input" ∷ "--output" ∷ "--max-events" ∷ "--batch-size" ∷ "--workload" ∷ "--payload-size"
    ∷ "--iterations" ∷ []

module _ {N : Type 0} (number : String → N) where
  unfoldable pub default_config : PipelineConfig N
  default_config = record {
    input_file = "examples/demo-scenarios/events.ndjson";
    output_file = "examples/demo-scenarios/aggregate-results-split.ndjson";
    max_events = number "0";
    enable_batching = false;
    batch_size = number "100";
    workload_mode = WorkloadMode.events;
    payload_size = PayloadSize.medium;
    compute_iterations = number "500";
    ingest_host = "127.0.0.1";
    ingest_port = number "6001";
    parse_host = "127.0.0.1";
    parse_port = number "6002";
    rules_host = "127.0.0.1";
    rules_port = number "6003";
    aggregate_host = "127.0.0.1";
    aggregate_port = number "6004";
    sink_host = "127.0.0.1";
    sink_port = number "6005";
  }

  -- A flag with its value, if it is one that has a value
  unfoldable pub set_value : String → String → PipelineConfig N → Parsed (PipelineConfig N)
  set_value flag value c =
      if flag == "--input"
      then parsed (record c { input_file = value })
      else if flag == "--output"
      then parsed (record c { output_file = value })
      else if flag == "--max-events"
      then parsed (record c { max_events = number value })
      else if flag == "--batch-size"
      then parsed (record c { batch_size = number value })
      else if flag == "--workload"
      then elim (workload_mode_of value) [
        | none ↦ failed ("Invalid workload mode: " ⧺ value)
        | some mode ↦ parsed (record c { workload_mode = mode })
      ]
      else if flag == "--payload-size"
      then elim (payload_size_of value) [
        | none ↦ failed ("Invalid payload size: " ⧺ value)
        | some size ↦ parsed (record c { payload_size = size })
      ]
      else parsed (record c { compute_iterations = number value })

  abbrev pub and_then :
      Parsed (PipelineConfig N)
      → (PipelineConfig N → Parsed (PipelineConfig N))
      → Parsed (PipelineConfig N)
  and_then (parsed c) f = f c
  and_then (failed message) f = failed message
  and_then exited f = exited

  -- The loop over the arguments; one that is not known is passed over.
  unfoldable pub parse_from : List String → PipelineConfig N → Parsed (PipelineConfig N)
  parse_from [] c = parsed c
  parse_from (arg ∷ []) c =
      if arg == "--help" || arg == "-h"
      then exited
      else if elem arg flags_with_value
      then failed "Missing value for argument"
      else if arg == "--enable-batching"
      then parsed (record c { enable_batching = true })
      else parsed c
  parse_from (arg ∷ value ∷ argv) c =
      let after_value = and_then (set_value arg value c) (λ d. parse_from argv d) in
      let batching = parse_from (value ∷ argv) (record c { enable_batching = true }) in
      let passed = parse_from (value ∷ argv) c in
      if arg == "--help" || arg == "-h"
      then exited
      else if elem arg flags_with_value
      then after_value
      else if arg == "--enable-batching"
      then batching
      else passed

  unfoldable pub parse_args : List String → Parsed (PipelineConfig N)
  parse_args argv = parse_from argv default_config

pub record Request (N : Type 0) : Type 0 where
  pub input_file : String
  pub batch_size : N
  pub max_events : String
  pub enable_batching : Bool
  pub workload_mode : WorkloadMode
  -- The payload's size and the iterations
  pub workload_config : Option (PayloadSize × N)

-- `request` of `runPipeline`; the ratio of work is 1.
unfoldable pub request_of : {N : Type 0} → (N → String) → PipelineConfig N → Request N
request_of print c = record {
  input_file = c.input_file;
  batch_size = c.batch_size;
  max_events = print c.max_events;
  enable_batching = c.enable_batching;
  workload_mode = c.workload_mode;
  workload_config = elim c.workload_mode [
    | WorkloadMode.events ↦ none
    | _ ↦ some (c.payload_size, c.compute_iterations)
  ];
}

abbrev pub mode_name : WorkloadMode → String
mode_name WorkloadMode.events = "events"
mode_name WorkloadMode.work_items = "work-items"
mode_name WorkloadMode.mixed = "mixed"

abbrev pub size_name : PayloadSize → String
size_name PayloadSize.small = "small"
size_name PayloadSize.medium = "medium"
size_name PayloadSize.large = "large"

workload_mode_of-name : (mode : WorkloadMode) → workload_mode_of (mode_name mode) ≡ some mode
unfolding workload_mode_of
workload_mode_of-name WorkloadMode.events = refl
workload_mode_of-name WorkloadMode.work_items = refl
workload_mode_of-name WorkloadMode.mixed = refl

payload_size_of-name : (size : PayloadSize) → payload_size_of (size_name size) ≡ some size
unfolding payload_size_of
payload_size_of-name PayloadSize.small = refl
payload_size_of-name PayloadSize.medium = refl
payload_size_of-name PayloadSize.large = refl

abbrev pub batching_flag : Bool → List String → List String
batching_flag on rest = if on then "--enable-batching" ∷ rest else rest

-- The arguments that say all that can be said of a configuration
unfoldable pub print_args : {N : Type 0} → (N → String) → PipelineConfig N → List String
print_args print c = batching_flag c.enable_batching (
    "--input"
    ∷ c.input_file
    ∷ "--output"
    ∷ c.output_file
    ∷ "--max-events"
    ∷ print c.max_events
    ∷ "--batch-size"
    ∷ print c.batch_size
    ∷ "--workload"
    ∷ mode_name c.workload_mode
    ∷ "--payload-size"
    ∷ size_name c.payload_size
    ∷ "--iterations"
    ∷ print c.compute_iterations
    ∷ [])

-- Numbers that are printed can be read. A configuration with the hosts and ports of the default, written out as arguments, is
-- parsed to what it was, also where a file's name looks like a flag.
pub parse_args-print_args :
    {N : Type 0} (number : String → N) (print : N → String) (reads : (n : N) → number (print n) ≡ n)
    (input_file output_file : String) (max_events batch_size compute_iterations : N)
    (enable_batching : Bool) (workload_mode : WorkloadMode) (payload_size : PayloadSize)
    → let c = record (default_config number) {
      input_file = input_file;
      output_file = output_file;
      max_events = max_events;
      enable_batching = enable_batching;
      batch_size = batch_size;
      workload_mode = workload_mode;
      payload_size = payload_size;
      compute_iterations = compute_iterations;
    } in
      parse_args number (print_args print c) ≡ parsed c
unfolding parse_args parse_from print_args set_value default_config
parse_args-print_args number print reads i o m b n true mode size =
    rw (workload_mode_of-name mode, payload_size_of-name size, reads m, reads b, reads n) refl
parse_args-print_args number print reads i o m b n false mode size =
    rw (workload_mode_of-name mode, payload_size_of-name size, reads m, reads b, reads n) refl
