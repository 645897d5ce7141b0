-- ===== src/Pipeline/Batching.antt =====
-- apps/demo-domain/pipeline-orchestrator/src/pipeline-orchestrator.ts: `runPipeline` in batching mode. The
-- streams to the services are what was written to them and whether they were ended; the stream
-- callbacks are operations. The events of the stages are types of their own, about which nothing is
-- assumed. Progress output, errors that end the process and the connection setup are left out.
use modular_runtime.Shared.{
  ℕ, ◌+◌, Option, some, none, List, [], ◌∷◌, ◌++◌, Bool, true, false, leb, eqb, if◌then◌else◌,
  length,
}

pub record Stream (A : Type 0) : Type 0 where
  pub written : List A
  pub ended : Bool

unfoldable pub write : {A : Type 0} → A → Stream A → Stream A
write a s = record s { written = s.written ++ a ∷ [] }

unfoldable pub end : {A : Type 0} → Stream A → Stream A
end s = record s { ended = true }

-- A batch that is being collected, and the stream that batches are written to.
pub record Stage (A : Type 0) : Type 0 where
  pub batch : List A
  pub stream : Stream (List A)
  pub count : ℕ

unfoldable pub empty_stage : {A : Type 0} → Stage A
empty_stage = record { batch = []; stream = record { written = []; ended = false }; count = 0 }

-- `flushBatch`, `flushParseBatch` and `flushRulesBatch`
unfoldable pub flush_batch : {A : Type 0} → Stage A → Stage A
flush_batch s =
    if eqb (length s.batch) 0 then s else record s { stream = write s.batch s.stream; batch = [] }

unfoldable pub flush_if_full : {A : Type 0} → ℕ → Stage A → Stage A
flush_if_full batch_size s = if leb batch_size (length s.batch) then flush_batch s else s

unfoldable pub end_stage : {A : Type 0} → Stage A → Stage A
end_stage s = let flushed = flush_batch s in record flushed { stream = end flushed.stream }

-- A response of the ingest service.
unfoldable pub ingest_data : {A : Type 0} → ℕ → Option A → Stage A → Stage A
ingest_data batch_size none s = flush_if_full batch_size (record s { count = s.count + 1 })
ingest_data batch_size (some event) s =
    flush_if_full batch_size (record s { count = s.count + 1; batch = s.batch ++ event ∷ [] })

-- A response of the parse service, or of the rules service.
unfoldable pub batch_data : {A : Type 0} → ℕ → Option (List A) → Stage A → Stage A
batch_data batch_size none s = s
batch_data batch_size (some events) s =
    flush_if_full batch_size
      (record s { count = s.count + length events; batch = s.batch ++ events })

pub record Pipeline (E P X R : Type 0) : Type 0 where
  pub ingest : Stage E
  pub parse : Stage P
  pub rules : Stage X
  pub sink : Stream R
  pub aggregate_count : ℕ

module _ {E P X R : Type 0} where
  unfoldable pub start_pipeline : Pipeline E P X R
  start_pipeline = record {
    ingest = empty_stage;
    parse = empty_stage;
    rules = empty_stage;
    sink = record { written = []; ended = false };
    aggregate_count = 0;
  }

  unfoldable pub write_results : List R → Pipeline E P X R → Pipeline E P X R
  write_results [] p = p
  write_results (result ∷ results) p =
      write_results results
        (record p { aggregate_count = p.aggregate_count + 1; sink = write result p.sink })

  unfoldable pub aggregate_data : Option (List R) → Pipeline E P X R → Pipeline E P X R
  aggregate_data none p = p
  aggregate_data (some results) p = write_results results p

-- What the streams call back with.
pub data Callback (E P X R : Type 0) : Type 0 where
  ingested : Option E → Callback E P X R
  ingest_ended : Callback E P X R
  was_parsed : Option (List P) → Callback E P X R
  parse_ended : Callback E P X R
  ruled : Option (List X) → Callback E P X R
  rules_ended : Callback E P X R
  aggregated : Option (List R) → Callback E P X R
  aggregate_ended : Callback E P X R

module _ {E P X R : Type 0} where
  unfoldable pub on : ℕ → Callback E P X R → Pipeline E P X R → Pipeline E P X R
  on n (ingested event) p = record p { ingest = ingest_data n event p.ingest }
  on n ingest_ended p = record p { ingest = end_stage p.ingest }
  on n (was_parsed events) p = record p { parse = batch_data n events p.parse }
  on n parse_ended p = record p { parse = end_stage p.parse }
  on n (ruled events) p = record p { rules = batch_data n events p.rules }
  on n rules_ended p = record p { rules = end_stage p.rules }
  on n (aggregated results) p = aggregate_data results p
  on n aggregate_ended p = record p { sink = end p.sink }

  unfoldable pub run_pipeline : ℕ → List (Callback E P X R) → Pipeline E P X R → Pipeline E P X R
  run_pipeline n [] p = p
  run_pipeline n (c ∷ cs) p = run_pipeline n cs (on n c p)
