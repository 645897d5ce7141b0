-- ===== src/Pipeline/Sizes.antt =====
-- apps/demo-domain/pipeline-orchestrator/src/pipeline-orchestrator.ts: the sizes of the batches that
-- are sent to the parse service.
use modular_runtime.Shared.{
  ℕ, ◌≤◌, ◌<◌, Option, some, none, List, [], ◌∷◌, ◌≡◌, refl, arith, leb, eqb, length, length-append,
  All, All-append, inl, inr, Bool-cases,
}
use modular_runtime.Pipeline.Batching.{
  Stage, Pipeline, Callback, ingested, ingest_ended, was_parsed, parse_ended, ruled, rules_ended,
  aggregated, aggregate_ended, empty_stage, start_pipeline, write, end, flush_batch, flush_if_full,
  end_stage, ingest_data, aggregate_data, on, run_pipeline,
}
use modular_runtime.Pipeline.Conservation.{write_results-keeps}

abbrev pub IsBatch : {A : Type 0} → ℕ → List A → Type 0
IsBatch n batch = (1 ≤ length batch) × (length batch ≤ n)

pub record IsSized {A : Type 0} (n : ℕ) (s : Stage A) : Type 0 where
  pub sent : All (IsBatch n) s.stream.written
  pub room : length s.batch < n

module _ {A : Type 0} (n : ℕ) where
  flush_batch-sent :
      (s : Stage A)
      → All (IsBatch n) s.stream.written
      → length s.batch ≤ n
      → All (IsBatch n) (flush_batch s).stream.written
  unfolding flush_batch write
  flush_batch-sent s h le = elim (Bool-cases (eqb (length s.batch) 0)) [
    | inl empty ↦ rw empty h
    | inr full ↦
        rw full (All-append (IsBatch n) s.stream.written (s.batch ∷ []) h ((ground arith, le), tt))
  ]

  flush_batch-empty : (s : Stage A) → length (flush_batch s).batch ≡ 0
  unfolding flush_batch
  flush_batch-empty s = elim (Bool-cases (eqb (length s.batch) 0)) [
    | inl empty ↦ rw empty (ground arith)
    | inr full ↦ rw full refl
  ]

  flush_if_full-IsSized :
      (s : Stage A)
      → 1 ≤ n
      → All (IsBatch n) s.stream.written
      → length s.batch ≤ n
      → IsSized n (flush_if_full n s)
  unfolding flush_if_full
  flush_if_full-IsSized s positive h le = elim (Bool-cases (leb n (length s.batch))) [
    | inl full ↦
        rw full
          (record { sent = flush_batch-sent s h le; room = rw (flush_batch-empty s) (omega arith) })
    | inr room ↦ rw room (record { sent = h; room = ground arith })
  ]

  ingest_data-IsSized :
      (event : Option A) (s : Stage A) → 1 ≤ n → IsSized n s → IsSized n (ingest_data n event s)
  unfolding ingest_data
  ingest_data-IsSized none s positive h =
      flush_if_full-IsSized _ positive h.sent (omega (arith, h.room))
  ingest_data-IsSized (some event) s positive h =
      flush_if_full-IsSized _ positive h.sent
        (omega (arith, h.room, length-append s.batch (event ∷ [])))

  end_stage-IsSized : (s : Stage A) → 1 ≤ n → IsSized n s → IsSized n (end_stage s)
  unfolding end_stage end
  end_stage-IsSized s positive h = record {
    sent = flush_batch-sent s h.sent (omega (arith, h.room));
    room = rw (flush_batch-empty s) (omega arith);
  }

module _ {E P X R : Type 0} (n : ℕ) where
  run-IsSized :
      (cs : List (Callback E P X R)) (p : Pipeline E P X R)
      → 1 ≤ n
      → IsSized n p.ingest
      → IsSized n (run_pipeline n cs p).ingest
  unfolding run_pipeline on aggregate_data
  run-IsSized [] p positive h = h
  run-IsSized (ingested event ∷ cs) p positive h =
      run-IsSized cs _ positive (ingest_data-IsSized n event p.ingest positive h)
  run-IsSized (ingest_ended ∷ cs) p positive h =
      run-IsSized cs _ positive (end_stage-IsSized n p.ingest positive h)
  run-IsSized (was_parsed events ∷ cs) p positive h = run-IsSized cs _ positive h
  run-IsSized (parse_ended ∷ cs) p positive h = run-IsSized cs _ positive h
  run-IsSized (ruled events ∷ cs) p positive h = run-IsSized cs _ positive h
  run-IsSized (rules_ended ∷ cs) p positive h = run-IsSized cs _ positive h
  run-IsSized (aggregated none ∷ cs) p positive h = run-IsSized cs _ positive h
  run-IsSized (aggregated (some results) ∷ cs) p positive h =
      run-IsSized cs _ positive (rw ((write_results-keeps results p).0) h)
  run-IsSized (aggregate_ended ∷ cs) p positive h = run-IsSized cs _ positive h

  -- With a batch size of at least 1, whatever the streams call back with: every batch that is sent to
  -- the parse service has at least one event and at most the batch size, and fewer than the batch size
  -- are being collected.
  pub run_pipeline-IsSized :
      (cs : List (Callback E P X R)) → 1 ≤ n → IsSized n (run_pipeline n cs start_pipeline).ingest
  unfolding start_pipeline empty_stage
  run_pipeline-IsSized cs positive =
      run-IsSized cs start_pipeline positive (record { sent = tt; room = omega arith })
