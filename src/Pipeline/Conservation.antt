-- ===== src/Pipeline/Conservation.antt =====
-- apps/demo-domain/pipeline-orchestrator/src/pipeline-orchestrator.ts: what becomes of the
-- events that each stage receives.
use modular_runtime.Shared.{
  ℕ, ◌+◌, Option, some, none, List, [], ◌∷◌, ◌++◌, ◌≡◌, refl, sym, ap, ◌∙◌, leb, eqb, length, inl,
  inr, Bool-cases,
}
use mathlib.Core.List.{append_assoc, append-nil}
use modular_runtime.Pipeline.Batching.{
  Stage, Pipeline, Callback, ingested, ingest_ended, was_parsed, parse_ended, ruled, rules_ended,
  aggregated, aggregate_ended, start_pipeline, write, end, flush_batch, flush_if_full, end_stage,
  ingest_data, batch_data, write_results, aggregate_data, on, run_pipeline,
}

abbrev pub concat : {A : Type 0} → List (List A) → List A
concat [] = []
concat (xs ∷ xss) = xs ++ concat xss

abbrev pub to_list : {A : Type 0} → Option A → List A
to_list none = []
to_list (some a) = a ∷ []

abbrev pub or_empty : {A : Type 0} → Option (List A) → List A
or_empty none = []
or_empty (some xs) = xs

module _ {E P X R : Type 0} where
  -- What each stage has received, in its order.
  abbrev pub events_in : List (Callback E P X R) → List E
  events_in [] = []
  events_in (ingested event ∷ cs) = to_list event ++ events_in cs
  events_in (_ ∷ cs) = events_in cs

  abbrev pub parsed_in : List (Callback E P X R) → List P
  parsed_in [] = []
  parsed_in (was_parsed events ∷ cs) = or_empty events ++ parsed_in cs
  parsed_in (_ ∷ cs) = parsed_in cs

  abbrev pub ruled_in : List (Callback E P X R) → List X
  ruled_in [] = []
  ruled_in (ruled events ∷ cs) = or_empty events ++ ruled_in cs
  ruled_in (_ ∷ cs) = ruled_in cs

  abbrev pub results_in : List (Callback E P X R) → List R
  results_in [] = []
  results_in (aggregated results ∷ cs) = or_empty results ++ results_in cs
  results_in (_ ∷ cs) = results_in cs

-- All that went into a stage: the batches that were written, and the one being collected.
unfoldable pub contents : {A : Type 0} → Stage A → List A
contents s = concat s.stream.written ++ s.batch

module _ {A : Type 0} where
  concat-push : (xss : List (List A)) (xs : List A) → concat (xss ++ xs ∷ []) ≡ concat xss ++ xs
  concat-push [] xs = append-nil xs
  concat-push (ys ∷ yss) xs =
      ap (λ zs. ys ++ zs) (concat-push yss xs) ∙ sym (append_assoc ys (concat yss) xs)

  contents-flush_batch : (s : Stage A) → contents (flush_batch s) ≡ contents s
  unfolding contents flush_batch write
  contents-flush_batch s = elim (Bool-cases (eqb (length s.batch) 0)) [
    | inl empty ↦ rw empty refl
    | inr full ↦ rw full (
        append-nil (concat (s.stream.written ++ s.batch ∷ []))
        ∙ concat-push s.stream.written s.batch)
  ]

  contents-flush_if_full : (n : ℕ) (s : Stage A) → contents (flush_if_full n s) ≡ contents s
  unfolding flush_if_full
  contents-flush_if_full n s = elim (Bool-cases (leb n (length s.batch))) [
    | inl full ↦ rw full (contents-flush_batch s)
    | inr room ↦ rw room refl
  ]

  contents-end_stage : (s : Stage A) → contents (end_stage s) ≡ contents s
  unfolding end_stage end contents
  contents-end_stage s = contents-flush_batch s

  contents-ingest_data :
      (n : ℕ) (event : Option A) (s : Stage A)
      → contents (ingest_data n event s) ≡ contents s ++ to_list event
  unfolding ingest_data contents
  contents-ingest_data n none s =
      contents-flush_if_full n (record s { count = s.count + 1 }) ∙ sym (append-nil (contents s))
  contents-ingest_data n (some event) s =
      contents-flush_if_full n (record s { count = s.count + 1; batch = s.batch ++ event ∷ [] })
      ∙ sym (append_assoc (concat s.stream.written) s.batch (event ∷ []))

  contents-batch_data :
      (n : ℕ) (events : Option (List A)) (s : Stage A)
      → contents (batch_data n events s) ≡ contents s ++ or_empty events
  unfolding batch_data contents
  contents-batch_data n none s = sym (append-nil (contents s))
  contents-batch_data n (some events) s =
      contents-flush_if_full n
        (record s { count = s.count + length events; batch = s.batch ++ events })
      ∙ sym (append_assoc (concat s.stream.written) s.batch events)

module _ {E P X R : Type 0} where
  written-write_results :
      (results : List R) (p : Pipeline E P X R)
      → (write_results results p).sink.written ≡ p.sink.written ++ results
  unfolding write_results write
  written-write_results [] p = sym (append-nil p.sink.written)
  written-write_results (r ∷ rs) p =
      written-write_results rs _ ∙ append_assoc p.sink.written (r ∷ []) rs

  pub write_results-keeps :
      (results : List R) (p : Pipeline E P X R)
      → ((write_results results p).ingest ≡ p.ingest)
        × ((write_results results p).parse ≡ p.parse)
        × ((write_results results p).rules ≡ p.rules)
  unfolding write_results
  write_results-keeps [] p = (refl, refl, refl)
  write_results-keeps (r ∷ rs) p = write_results-keeps rs _

  -- Each stage holds, in order, what it held in `p` followed by what it received.
  pub record IsConserved (n : ℕ) (cs : List (Callback E P X R)) (p : Pipeline E P X R)
      : Type 0 where
    pub ingest : contents (run_pipeline n cs p).ingest ≡ contents p.ingest ++ events_in cs
    pub parse : contents (run_pipeline n cs p).parse ≡ contents p.parse ++ parsed_in cs
    pub rules : contents (run_pipeline n cs p).rules ≡ contents p.rules ++ ruled_in cs
    pub sink : (run_pipeline n cs p).sink.written ≡ p.sink.written ++ results_in cs

  module _ (n : ℕ) where
    run-ingest :
        (cs : List (Callback E P X R)) (p : Pipeline E P X R)
        → contents (run_pipeline n cs p).ingest ≡ contents p.ingest ++ events_in cs
    unfolding run_pipeline on aggregate_data
    run-ingest [] p = sym (append-nil (contents p.ingest))
    run-ingest (ingested event ∷ cs) p =
        run-ingest cs _
        ∙ ap (λ xs. xs ++ events_in cs) (contents-ingest_data n event p.ingest)
        ∙ append_assoc (contents p.ingest) (to_list event) (events_in cs)
    run-ingest (ingest_ended ∷ cs) p =
        run-ingest cs _ ∙ ap (λ xs. xs ++ events_in cs) (contents-end_stage p.ingest)
    run-ingest (was_parsed events ∷ cs) p = run-ingest cs _
    run-ingest (parse_ended ∷ cs) p = run-ingest cs _
    run-ingest (ruled events ∷ cs) p = run-ingest cs _
    run-ingest (rules_ended ∷ cs) p = run-ingest cs _
    run-ingest (aggregated none ∷ cs) p = run-ingest cs _
    run-ingest (aggregated (some results) ∷ cs) p =
        run-ingest cs _ ∙ rw ((write_results-keeps results p).0) refl
    run-ingest (aggregate_ended ∷ cs) p = run-ingest cs _

    run-parse :
        (cs : List (Callback E P X R)) (p : Pipeline E P X R)
        → contents (run_pipeline n cs p).parse ≡ contents p.parse ++ parsed_in cs
    unfolding run_pipeline on aggregate_data
    run-parse [] p = sym (append-nil (contents p.parse))
    run-parse (was_parsed events ∷ cs) p =
        run-parse cs _
        ∙ ap (λ xs. xs ++ parsed_in cs) (contents-batch_data n events p.parse)
        ∙ append_assoc (contents p.parse) (or_empty events) (parsed_in cs)
    run-parse (parse_ended ∷ cs) p =
        run-parse cs _ ∙ ap (λ xs. xs ++ parsed_in cs) (contents-end_stage p.parse)
    run-parse (ingested event ∷ cs) p = run-parse cs _
    run-parse (ingest_ended ∷ cs) p = run-parse cs _
    run-parse (ruled events ∷ cs) p = run-parse cs _
    run-parse (rules_ended ∷ cs) p = run-parse cs _
    run-parse (aggregated none ∷ cs) p = run-parse cs _
    run-parse (aggregated (some results) ∷ cs) p =
        run-parse cs _ ∙ rw ((write_results-keeps results p).1) refl
    run-parse (aggregate_ended ∷ cs) p = run-parse cs _

    run-rules :
        (cs : List (Callback E P X R)) (p : Pipeline E P X R)
        → contents (run_pipeline n cs p).rules ≡ contents p.rules ++ ruled_in cs
    unfolding run_pipeline on aggregate_data
    run-rules [] p = sym (append-nil (contents p.rules))
    run-rules (ruled events ∷ cs) p =
        run-rules cs _
        ∙ ap (λ xs. xs ++ ruled_in cs) (contents-batch_data n events p.rules)
        ∙ append_assoc (contents p.rules) (or_empty events) (ruled_in cs)
    run-rules (rules_ended ∷ cs) p =
        run-rules cs _ ∙ ap (λ xs. xs ++ ruled_in cs) (contents-end_stage p.rules)
    run-rules (ingested event ∷ cs) p = run-rules cs _
    run-rules (ingest_ended ∷ cs) p = run-rules cs _
    run-rules (was_parsed events ∷ cs) p = run-rules cs _
    run-rules (parse_ended ∷ cs) p = run-rules cs _
    run-rules (aggregated none ∷ cs) p = run-rules cs _
    run-rules (aggregated (some results) ∷ cs) p =
        run-rules cs _ ∙ rw ((write_results-keeps results p).2) refl
    run-rules (aggregate_ended ∷ cs) p = run-rules cs _

    run-sink :
        (cs : List (Callback E P X R)) (p : Pipeline E P X R)
        → (run_pipeline n cs p).sink.written ≡ p.sink.written ++ results_in cs
    unfolding run_pipeline on aggregate_data end
    run-sink [] p = sym (append-nil p.sink.written)
    run-sink (aggregated none ∷ cs) p = run-sink cs _
    run-sink (aggregated (some results) ∷ cs) p =
        run-sink cs _
        ∙ ap (λ xs. xs ++ results_in cs) (written-write_results results p)
        ∙ append_assoc p.sink.written results (results_in cs)
    run-sink (ingested event ∷ cs) p = run-sink cs _
    run-sink (ingest_ended ∷ cs) p = run-sink cs _
    run-sink (was_parsed events ∷ cs) p = run-sink cs _
    run-sink (parse_ended ∷ cs) p = run-sink cs _
    run-sink (ruled events ∷ cs) p = run-sink cs _
    run-sink (rules_ended ∷ cs) p = run-sink cs _
    run-sink (aggregate_ended ∷ cs) p = run-sink cs _

    -- Whatever the streams call back with, in whatever order and for whatever batch size: for each
    -- stage, the batches that were written to the next service followed by the one being collected are
    -- what the stage received, in order, without loss or repetition, and the sink is written exactly
    -- the results.
    pub run_pipeline-IsConserved : (cs : List (Callback E P X R)) → IsConserved n cs start_pipeline
    run_pipeline-IsConserved cs = record {
      ingest = run-ingest cs start_pipeline;
      parse = run-parse cs start_pipeline;
      rules = run-rules cs start_pipeline;
      sink = run-sink cs start_pipeline;
    }
