-- ===== src/Ingest/Handler.antt =====
-- apps/demo-domain/ingest-service/src/ingest-service.ts: the handlers `streamEvents` and `getStatus`. `json` is
-- `JSON.stringify`, `show` prints a number, and `lines` is what reading a file by its name gives. In the mode
-- of work items, a list says of each test of the loop whether the call was cancelled by then; where it ends, the
-- call runs on. A negative number of the request does what 0 does. That a file cannot be read is left out.
use modular_runtime.Shared.{
  ℕ, suc, ◌+◌, ◌-◌, String, Option, List, [], ◌∷◌, Bool, true, not, ◌&&◌, eqb, if◌then◌else◌,
  or_else,
}
use modular_runtime.Shared.Text.{◌⧺◌, truthy}
use modular_runtime.Ingest.{
  Event, WorkloadMode, PayloadSize, WorkloadConfig, StreamEventsRequest, Limits, parse_max_events,
  is_over, Output, Sent, sent, thrown, Arrival, Outcome, ended, destroyed, running, write,
  stream_file,
}
use modular_runtime.Ingest.WorkItems.{WorkItem, repeat, generate_work_item}

text_length : String → ℕ
text_length String.[] = 0
text_length (String.◌∷◌ c s) = suc (text_length s)

-- `s.padStart(n, '0')`
unfoldable pub pad_start : ℕ → String → String
unfolding text_length
pad_start n s = repeat "0" (n - text_length s) ⧺ s

unfoldable pub after_write : Sent Output → (Output → Outcome) → Outcome
after_write (sent o) next = next o
after_write (thrown message o) next = destroyed message o

pub record GetStatusResponse : Type 0 where
  pub queued_events : String
  pub streamed_events : String
  pub healthy : Bool

-- What a call finds: the lines of a file, the clock at its start, and the tests of the loop of work items.
pub record Call : Type 0 where
  pub lines : String → List Arrival
  pub now : ℕ
  pub cancellations : List Bool

-- `zero_ratio` is the number 0.
unfoldable pub default_workload : {R : Type 0} → R → WorkloadConfig R
default_workload zero_ratio = record {
  work_ratio = zero_ratio;
  payload_size = PayloadSize.medium;
  compute_iterations = 500;
}

module _ {R : Type 0} (random : ℕ → R) (json : WorkItem R → String) (show : ℕ → String)
    (fault : ℕ → Option String) where
  -- `WORK_ITEMS` mode, with the number of the next random number.
  unfoldable pub stream_work_items :
      Option ℕ → WorkloadConfig R → List Bool → ℕ → ℕ → Output → Outcome
  stream_work_items max_events config [] sequence i o = running o
  stream_work_items max_events config (cancelled ∷ rest) sequence i o =
      let (item, i') = generate_work_item random ("w-" ⧺ pad_start 6 (show sequence)) config i in
      let event : Event = record { raw_json = json item; sequence = show sequence } in
      let written =
        after_write (write fault event o)
          (stream_work_items max_events config rest (sequence + 1) i') in
      if not (is_over max_events sequence) && not cancelled then written else ended o

  unfoldable pub stream_events :
      {N : Type 0} → R → Limits N → String → StreamEventsRequest R → Call → ℕ → Outcome
  stream_events zero_ratio limits default_input_file request call streamed =
      let input_file =
        if truthy request.input_file then request.input_file else default_input_file in
      let max_events = parse_max_events limits request.max_events in
      let batch_size = if eqb request.batch_size 0 then 100 else request.batch_size in
      let config = or_else request.workload_config (default_workload zero_ratio) in
      elim request.workload_mode [
        | WorkloadMode.work_items ↦
            stream_work_items max_events config call.cancellations 0 0
              (record { written = []; streamed_events = streamed })
        | _ ↦
            stream_file fault show max_events request.enable_batching batch_size streamed call.now
              (call.lines input_file)
      ]

unfoldable pub get_status : (ℕ → String) → ℕ → GetStatusResponse
get_status show streamed_events = record {
  queued_events = "0";
  streamed_events = show streamed_events;
  healthy = true;
}
