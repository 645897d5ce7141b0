-- ===== src/Pipeline/Tests.antt =====
-- apps/demo-domain: runs on which the theorems are tried.
use modular_runtime.Shared.{
  ℕ, ◌+◌, ◌*◌, String, some, none, List, [], ◌∷◌, true, ◌≡◌, refl, leb, arith, if◌then◌else◌, ◌==◌,
}
use modular_runtime.Shared.Dict.{get}
use modular_runtime.Topology.Types.{Number}
use modular_runtime.Pipeline.Batching.{
  Callback, ingested, ingest_ended, was_parsed, ruled, rules_ended, aggregated, run_pipeline,
  start_pipeline,
}
use modular_runtime.Pipeline.Conservation.{IsConserved, run_pipeline-IsConserved}
use modular_runtime.Pipeline.Sizes.{IsSized, run_pipeline-IsSized}
use modular_runtime.Ingest.{WorkloadMode, PayloadSize}
use modular_runtime.Shared.Parsed.{parsed}
use modular_runtime.Pipeline.Options.{default_config, parse_args, print_args, parse_args-print_args}
use modular_runtime.Pipeline.Single.{Response}
use modular_runtime.Pipeline.Aggregation.{
  ParsedEvent, EnrichedEvent, Numbers, to_number, apply_rules, add_all,
}
use modular_runtime.Pipeline.Totals.{values_of, summary, get-add_all}

instance abbrev whole_numbers : Number ℕ
whole_numbers = record { of_ℕ = λ n. n; add = ◌+◌; mul = ◌*◌; div = λ m n. m }

-- Three events in batches of two.
abbrev callbacks : List (Callback String String String String)
callbacks =
    ingested (some "a")
    ∷ ingested (some "b")
    ∷ ingested (some "c")
    ∷ ingest_ended
    ∷ was_parsed (some ("A" ∷ "B" ∷ []))
    ∷ ruled none
    ∷ rules_ended
    ∷ aggregated (some ("x" ∷ "y" ∷ []))
    ∷ []

run_pipeline-IsConserved_example : IsConserved 2 callbacks start_pipeline
run_pipeline-IsConserved_example = run_pipeline-IsConserved 2 callbacks

run_pipeline-IsSized_example : IsSized 2 (run_pipeline 2 callbacks start_pipeline).ingest
run_pipeline-IsSized_example = run_pipeline-IsSized 2 callbacks (omega arith)

abbrev number_of : String → ℕ
number_of value = if value == "30" then 30 else 5

abbrev js : Numbers ℕ
js = record { number = number_of; is_finite = λ n. true; trunc = λ n. n; at_least = λ m n. leb n m }

abbrev event_of : String → String → ParsedEvent
event_of type value = record {
  type = type;
  user = "u";
  value = value;
  timestamp = "0";
  sequence = "0";
}

abbrev enriched : ParsedEvent → EnrichedEvent
enriched e = record { event = some e; metadata = []; passed_rules = true }

abbrev enriched_events : List EnrichedEvent
enriched_events =
    enriched (event_of "click" "30")
    ∷ enriched (event_of "purchase" "5")
    ∷ record { event = none; metadata = []; passed_rules = true }
    ∷ enriched (event_of "click" "5")
    ∷ []

rules_test : apply_rules js (event_of "view" "30") ≡ none
unfolding apply_rules to_number
rules_test = refl

summary_test :
    summary js none (values_of "click" enriched_events) ≡ some (record { count = 2; sum = 35 })
unfolding to_number
summary_test = refl

get-add_all_example :
    get "click" (add_all js enriched_events [])
    ≡ summary js (get "click" []) (values_of "click" enriched_events)
get-add_all_example = get-add_all js "click" enriched_events []

-- Numbers are their own texts. The input file is named like a flag.
parse_args-print_args_example :
    let c = record (default_config (λ s. s)) {
      input_file = "--help";
      output_file = "out";
      max_events = "7";
      enable_batching = true;
      batch_size = "50";
      workload_mode = WorkloadMode.mixed;
      payload_size = PayloadSize.large;
      compute_iterations = "9";
    } in
    parse_args (λ s. s) (print_args (λ s. s) c) ≡ parsed c
parse_args-print_args_example =
    parse_args-print_args (λ s. s) (λ s. s) (λ s. refl) "--help" "out" "7" "50" "9" true
      WorkloadMode.mixed PayloadSize.large

abbrev answers : List (Response String String String String)
answers =
    Response.ingested (some "a")
    ∷ Response.was_parsed none
    ∷ Response.ingested (some "b")
    ∷ Response.ingest_ended
    ∷ Response.aggregated (some "x")
    ∷ []
