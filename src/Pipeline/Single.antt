-- ===== src/Pipeline/Single.antt =====
-- apps/demo-domain/pipeline-orchestrator/src/pipeline-orchestrator.ts: `runPipeline` without batches. A link is the stream
-- to the next service with the count of what came in; a response's event may be undefined, and is passed on as it is.
use mathlib.Core.List.{append-nil, append_assoc}
use modular_runtime.Shared.{
  ℕ, ◌+◌, Option, List, [], ◌∷◌, ◌++◌, false, ◌≡◌, sym, ◌∙◌, arith, length,
}
use modular_runtime.Pipeline.Batching.{Stream, write, end}

pub record Link (A : Type 0) : Type 0 where
  pub stream : Stream (Option A)
  pub count : ℕ

unfoldable pub new_link : {A : Type 0} → Link A
new_link = record { stream = record { written = []; ended = false }; count = 0 }

unfoldable pub forward : {A : Type 0} → Option A → Link A → Link A
forward event link = record link { count = link.count + 1; stream = write event link.stream }

unfoldable pub end_link : {A : Type 0} → Link A → Link A
end_link link = record link { stream = end link.stream }

pub record SinglePipeline (E P X R : Type 0) : Type 0 where
  pub ingest : Link E
  pub parse : Link P
  pub rules : Link X
  pub aggregate : Link R

pub data Response (E P X R : Type 0) : Type 0 where
  ingested : Option E → Response E P X R
  ingest_ended : Response E P X R
  was_parsed : Option P → Response E P X R
  parse_ended : Response E P X R
  ruled : Option X → Response E P X R
  rules_ended : Response E P X R
  aggregated : Option R → Response E P X R
  aggregate_ended : Response E P X R

module _ {E P X R : Type 0} where
  unfoldable pub start_single : SinglePipeline E P X R
  start_single = record {
    ingest = new_link;
    parse = new_link;
    rules = new_link;
    aggregate = new_link;
  }

  unfoldable pub on_response : Response E P X R → SinglePipeline E P X R → SinglePipeline E P X R
  on_response (ingested event) p = record p { ingest = forward event p.ingest }
  on_response ingest_ended p = record p { ingest = end_link p.ingest }
  on_response (was_parsed event) p = record p { parse = forward event p.parse }
  on_response parse_ended p = record p { parse = end_link p.parse }
  on_response (ruled event) p = record p { rules = forward event p.rules }
  on_response rules_ended p = record p { rules = end_link p.rules }
  on_response (aggregated result) p = record p { aggregate = forward result p.aggregate }
  on_response aggregate_ended p = record p { aggregate = end_link p.aggregate }

  unfoldable pub run_responses :
      List (Response E P X R) → SinglePipeline E P X R → SinglePipeline E P X R
  run_responses [] p = p
  run_responses (r ∷ rs) p = run_responses rs (on_response r p)

  -- What each service answered, in order, and whether it ended
  abbrev pub events_of : List (Response E P X R) → List (Option E)
  events_of [] = []
  events_of (ingested event ∷ rs) = event ∷ events_of rs
  events_of (_ ∷ rs) = events_of rs

  abbrev pub parsed_of : List (Response E P X R) → List (Option P)
  parsed_of [] = []
  parsed_of (was_parsed event ∷ rs) = event ∷ parsed_of rs
  parsed_of (_ ∷ rs) = parsed_of rs

  abbrev pub ruled_of : List (Response E P X R) → List (Option X)
  ruled_of [] = []
  ruled_of (ruled event ∷ rs) = event ∷ ruled_of rs
  ruled_of (_ ∷ rs) = ruled_of rs

  abbrev pub results_of : List (Response E P X R) → List (Option R)
  results_of [] = []
  results_of (aggregated result ∷ rs) = result ∷ results_of rs
  results_of (_ ∷ rs) = results_of rs

-- The link has passed on `events` after what it had, and counted each of them once.
abbrev pub IsPassedOn : {A : Type 0} → Link A → List (Option A) → Link A → Type 0
IsPassedOn before events after =
    (after.stream.written ≡ before.stream.written ++ events)
    × (after.count ≡ before.count + length events)

module _ {A : Type 0} where
  passed_nothing : (link : Link A) → IsPassedOn link [] link
  passed_nothing link = (sym (append-nil link.stream.written), omega arith)

  passed_one :
      (event : Option A) (events : List (Option A)) (before after : Link A)
      → IsPassedOn (forward event before) events after
      → IsPassedOn before (event ∷ events) after
  unfolding forward write
  passed_one event events before after h =
      (h.0 ∙ append_assoc before.stream.written (event ∷ []) events, omega (arith, h.1))

module _ {E P X R : Type 0} where
  pub record IsForwarded (rs : List (Response E P X R)) (p q : SinglePipeline E P X R)
      : Type 0 where
    pub ingest : IsPassedOn p.ingest (events_of rs) q.ingest
    pub parse : IsPassedOn p.parse (parsed_of rs) q.parse
    pub rules : IsPassedOn p.rules (ruled_of rs) q.rules
    pub aggregate : IsPassedOn p.aggregate (results_of rs) q.aggregate

  run_responses-from :
      (rs : List (Response E P X R)) (p : SinglePipeline E P X R)
      → IsForwarded rs p (run_responses rs p)
  unfolding run_responses on_response end_link end
  run_responses-from [] p = record {
    ingest = passed_nothing p.ingest;
    parse = passed_nothing p.parse;
    rules = passed_nothing p.rules;
    aggregate = passed_nothing p.aggregate;
  }
  run_responses-from (ingested event ∷ rs) p =
      let h = run_responses-from rs (on_response (ingested event) p) in
      record {
        ingest =
            passed_one event (events_of rs) p.ingest
              (run_responses rs (on_response (ingested event) p)).ingest h.ingest;
        parse = h.parse;
        rules = h.rules;
        aggregate = h.aggregate;
      }
  run_responses-from (ingest_ended ∷ rs) p =
      let h = run_responses-from rs (on_response ingest_ended p) in
      record { ingest = h.ingest; parse = h.parse; rules = h.rules; aggregate = h.aggregate }
  run_responses-from (was_parsed event ∷ rs) p =
      let h = run_responses-from rs (on_response (was_parsed event) p) in
      record {
        ingest = h.ingest;
        parse =
            passed_one event (parsed_of rs) p.parse
              (run_responses rs (on_response (was_parsed event) p)).parse h.parse;
        rules = h.rules;
        aggregate = h.aggregate;
      }
  run_responses-from (parse_ended ∷ rs) p =
      let h = run_responses-from rs (on_response parse_ended p) in
      record { ingest = h.ingest; parse = h.parse; rules = h.rules; aggregate = h.aggregate }
  run_responses-from (ruled event ∷ rs) p =
      let h = run_responses-from rs (on_response (ruled event) p) in
      record {
        ingest = h.ingest;
        parse = h.parse;
        rules =
            passed_one event (ruled_of rs) p.rules
              (run_responses rs (on_response (ruled event) p)).rules h.rules;
        aggregate = h.aggregate;
      }
  run_responses-from (rules_ended ∷ rs) p =
      let h = run_responses-from rs (on_response rules_ended p) in
      record { ingest = h.ingest; parse = h.parse; rules = h.rules; aggregate = h.aggregate }
  run_responses-from (aggregated result ∷ rs) p =
      let h = run_responses-from rs (on_response (aggregated result) p) in
      record {
        ingest = h.ingest;
        parse = h.parse;
        rules = h.rules;
        aggregate =
            passed_one result (results_of rs) p.aggregate
              (run_responses rs (on_response (aggregated result) p)).aggregate h.aggregate;
      }
  run_responses-from (aggregate_ended ∷ rs) p =
      let h = run_responses-from rs (on_response aggregate_ended p) in
      record { ingest = h.ingest; parse = h.parse; rules = h.rules; aggregate = h.aggregate }

  -- Without batches, whatever the services answer in whatever order: each stream is written just what the
  -- service before it answered, in order, and each count is the number of those answers.
  pub run_responses-IsForwarded :
      (rs : List (Response E P X R)) → IsForwarded rs start_single (run_responses rs start_single)
  run_responses-IsForwarded rs = run_responses-from rs start_single
