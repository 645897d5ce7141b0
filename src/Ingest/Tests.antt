-- ===== src/Ingest/Tests.antt =====
-- apps/demo-domain/ingest-service/src/ingest-service.ts: calls on which the theorems are tried.
use modular_runtime.Shared.{
  ℕ, String, Option, some, none, List, [], ◌∷◌, true, false, eqb, ◌≡◌, refl, if◌then◌else◌,
}
use modular_runtime.Ingest.{
  WorkloadMode, PayloadSize, WorkloadConfig, StreamEventsRequest, Limits, Arrival, Output, ended,
  parse_max_events, stream_file,
}
use modular_runtime.Ingest.Equivalence.{batching_changes_nothing}
use modular_runtime.Ingest.Complete.{raw_lines, no_fault, stream_file-all}
use modular_runtime.Ingest.Handler.{Call, stream_events}
use modular_runtime.Ingest.Numbering.{IsNumbered, output_of}
use modular_runtime.Ingest.Events.{stream_events-IsNumbered}

abbrev show : ℕ → String
show n = if eqb n 0 then "0" else if eqb n 1 then "1" else "2"

abbrev at : String → ℕ → Arrival
at line now = record { line = line; cancelled = false; now = now; later = now }

abbrev three_lines : List Arrival
three_lines = at "a" 5 ∷ at "b" 30 ∷ at "c" 31 ∷ []

-- The second write fails.
abbrev second_fails : ℕ → Option String
second_fails n = if eqb n 1 then some "reset" else none

batching_changes_nothing_example :
    stream_file second_fails show none true 100 7 0 three_lines
    ≡ stream_file second_fails show none false 100 7 0 three_lines
batching_changes_nothing_example =
    batching_changes_nothing second_fails show none 100 7 0 three_lines

stream_file-all_example :
    (o : Output) × (stream_file no_fault show (some 2) true 100 7 0 three_lines ≡ ended o)
    × (raw_lines o ≡ "a" ∷ "b" ∷ [])
stream_file-all_example =
    stream_file-all show (some 2) true 100 7 0 three_lines (refl, (refl, (refl, tt)))

-- Every text is the number 2.
abbrev limits : Limits String
limits = record { number = λ s. s; is_finite = λ s. true; is_positive = λ s. true; trunc = λ s. 2 }

abbrev request : StreamEventsRequest ℕ
request = record {
  input_file = "";
  batch_size = 0;
  max_events = "2";
  enable_batching = true;
  workload_mode = WorkloadMode.events;
  workload_config = none;
}

abbrev call : Call
call = record { lines = λ file. three_lines; now = 0; cancellations = [] }

stream_events-IsNumbered_example : IsNumbered show (some 2) 7 (
    output_of (
      stream_events
        (λ i. i)
        (λ item. item.id)
        show
        second_fails
        0
        limits
        "events.ndjson"
        request
        call
        7))
unfolding parse_max_events
stream_events-IsNumbered_example =
    stream_events-IsNumbered (λ i. i) (λ item. item.id) show second_fails 0 limits "events.ndjson"
      request call 7

abbrev large : WorkloadConfig ℕ
large = record { work_ratio = 0; payload_size = PayloadSize.large; compute_iterations = 0 }
