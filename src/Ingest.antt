-- ===== src/Ingest.antt =====
-- apps/demo-domain/ingest-service/src/ingest-service.ts: the streams of events and of work items that a call
-- gets. A line comes with what the loop finds while it has it: whether the call was cancelled, and the
-- clock. `fault` says which write fails, by the number of writes before it, and with what message. A
-- message counts as written when its write, with the wait for the drain, is over. Metrics and logging are left out.
pub mod WorkItems
pub mod Arguments
pub mod Equivalence
pub mod Numbering
pub mod Events
pub mod Complete
pub mod Handler
pub mod Tests
use modular_runtime.Shared.{
  ℕ, suc, ◌+◌, ◌-◌, String, Option, some, none, List, [], ◌∷◌, ◌++◌, Bool, true, false, not, ◌&&◌,
  ◌||◌, ltb, leb, eqb, if◌then◌else◌, length,
}
use modular_runtime.Shared.Text.{truthy}

pub record Event : Type 0 where
  pub raw_json : String
  pub sequence : String

pub data WorkloadMode : Type 0 where
  events work_items mixed : WorkloadMode

pub data PayloadSize : Type 0 where
  small medium large : PayloadSize

pub record WorkloadConfig (R : Type 0) : Type 0 where
  pub work_ratio : R
  pub payload_size : PayloadSize
  pub compute_iterations : ℕ

pub record StreamEventsRequest (R : Type 0) : Type 0 where
  pub input_file : String
  pub batch_size : ℕ
  pub max_events : String
  pub enable_batching : Bool
  pub workload_mode : WorkloadMode
  pub workload_config : Option (WorkloadConfig R)

-- `Number.isFinite(n)`, `n <= 0` and `Math.trunc(n)` on a number that is neither negative nor infinite
pub record Limits (N : Type 0) : Type 0 where
  pub number : String → N
  pub is_finite : N → Bool
  pub is_positive : N → Bool
  pub trunc : N → ℕ

-- `none` for infinity
unfoldable pub parse_max_events : {N : Type 0} → Limits N → String → Option ℕ
parse_max_events l value =
    let parsed = l.number value in
    if not (l.is_finite parsed) || not (l.is_positive parsed) then none else some (l.trunc parsed)

-- `sequence >= maxEvents`
abbrev pub is_over : Option ℕ → ℕ → Bool
is_over none sequence = false
is_over (some most) sequence = leb most sequence

-- The messages that were written, and the service's count over all calls.
pub record Output : Type 0 where
  pub written : List Event
  pub streamed_events : ℕ

pub data Sent (A : Type 0) : Type 0 where
  sent : A → Sent A
  thrown : String → Output → Sent A

infixl 5 ◌>>=◌
abbrev pub ◌>>=◌ : {A B : Type 0} → Sent A → (A → Sent B) → Sent B
sent a >>= f = f a
thrown message o >>= f = thrown message o

pub record Arrival : Type 0 where
  pub line : String
  pub cancelled : Bool
  -- `Date.now()` when the batch is tested, and after it was sent.
  pub now : ℕ
  pub later : ℕ

-- The variables of the loop over the lines.
pub record Reading : Type 0 where
  pub output : Output
  pub sequence : ℕ
  pub batch : List Event
  pub batch_start : ℕ

-- How the call ends: `call.end()`, or `call.destroy` with an error.
pub data Outcome : Type 0 where
  ended : Output → Outcome
  destroyed : String → Output → Outcome
  -- The call has not ended.
  running : Output → Outcome

unfoldable pub outcome : Sent Output → Outcome
outcome (sent o) = ended o
outcome (thrown message o) = destroyed message o

abbrev pub should_flush : ℕ → ℕ → Reading → Bool
should_flush batch_size now r = leb batch_size (length r.batch) || ltb 10 (now - r.batch_start)

abbrev pub next_line : Reading → Reading
next_line r = record r { sequence = r.sequence + 1 }

module _ (fault : ℕ → Option String) where
  -- `writeWithBackpressure`, and the count after it
  unfoldable pub write : Event → Output → Sent Output
  write event o = elim (fault (length o.written)) [
    | none ↦
        sent (record { written = o.written ++ event ∷ []; streamed_events = o.streamed_events + 1 })
    | some message ↦ thrown message o
  ]

  unfoldable pub write_all : List Event → Output → Sent Output
  write_all [] o = sent o
  write_all (event ∷ rest) o = write event o >>= write_all rest

  unfoldable pub flush : ℕ → Reading → Sent Reading
  flush later r =
      write_all r.batch r.output
      >>= (λ o. sent (record r { output = o; batch = []; batch_start = later }))

  -- The body of the loop after its tests, but for the count of the line.
  unfoldable pub take_line : Bool → ℕ → ℕ → ℕ → Event → Reading → Sent Reading
  take_line enable_batching batch_size now later event r =
      let collected = record r { batch = r.batch ++ event ∷ [] } in
      let sent_now = write event r.output >>= (λ o. sent (record r { output = o })) in
      if enable_batching
      then if should_flush batch_size now collected then flush later collected else sent collected
      else sent_now

  -- The batch that remains
  unfoldable pub flush_rest : Bool → Reading → Sent Output
  flush_rest enable_batching r =
      if enable_batching && ltb 0 (length r.batch)
      then write_all r.batch r.output
      else sent r.output

  module _ (show : ℕ → String) (max_events : Option ℕ) (enable_batching : Bool)
      (batch_size : ℕ) where
    unfoldable pub stream_lines : List Arrival → Reading → Sent Reading
    stream_lines [] r = sent r
    stream_lines (a ∷ arrivals) r =
        let event : Event = record { raw_json = a.line; sequence = show r.sequence } in
        let taken =
          take_line enable_batching batch_size a.now a.later event r
          >>= (λ r'. stream_lines arrivals (next_line r')) in
        if a.cancelled || is_over max_events r.sequence then sent r else taken

    -- `EVENTS` mode, on a service that has streamed some events and a clock.
    unfoldable pub stream_file : ℕ → ℕ → List Arrival → Outcome
    stream_file streamed now arrivals = outcome (
        stream_lines arrivals (record {
          output = record { written = []; streamed_events = streamed };
          sequence = 0;
          batch = [];
          batch_start = now;
        })
        >>= flush_rest enable_batching)
