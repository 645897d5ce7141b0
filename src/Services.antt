-- ===== src/Services.antt =====
-- apps/demo-domain: the services of the pipeline. This file is parse-service/src/parse.ts and the handlers of
-- parse-service/src/parse-service.ts. `JSON.parse` gives a document, or nothing where it throws. A document is given with
-- its fields and, where `id`, `vectors` and `matrix` are truthy, with the work item that the program takes it for, of
-- which the fields are of the declared types. Numbers, their printing and the clock, which may differ from event to
-- event, are parameters. Command lines, logging and the gRPC servers are left out.
pub mod WorkItems
pub mod Arguments
pub mod Rules
pub mod Aggregate
pub mod Sink
pub mod Batches
pub mod Equivalence
pub mod LostItems
pub mod Transposing
pub mod Tests
use modular_runtime.Shared.{
  ℕ, String, Option, some, none, List, [], ◌∷◌, Bool, true, false, not, eqb, ltb, length,
  if◌then◌else◌, elem,
}
use modular_runtime.Shared.Json.{Value, field, number, text}
use modular_runtime.Shared.Dict.{Dict}
use modular_runtime.Shared.Text.{truthy}
use modular_runtime.Topology.Types.{Number}
use modular_runtime.Pipeline.Aggregation.{ParsedEvent}
use modular_runtime.Ingest.{Event}
use modular_runtime.Ingest.WorkItems.{WorkItem, Vector, Matrix}
use modular_runtime.Services.WorkItems.{ProcessedWorkItem, Floats, process_work_item}

abbrev pub filter_map : {A B : Type 0} → (A → Option B) → List A → List B
filter_map f [] = []
filter_map f (x ∷ xs) = let rest = filter_map f xs in elim (f x) [ none ↦ rest | some y ↦ y ∷ rest ]

pub record Document (R : Type 0) : Type 0 where
  pub is_record : Bool
  pub fields : Dict (Value R)
  pub item : Option (WorkItem R)

-- `JSON.parse`, `JSON.stringify`, `Number.isFinite`, `Math.trunc`, the printing of a number, `Date.parse` and
-- `Date.now` while an event is handled
pub record Reader (R : Type 0) : Type 0 where
  pub parse_json : String → Option (Document R)
  pub stringify : ProcessedWorkItem R → String
  pub is_finite : R → Bool
  pub trunc : R → R
  pub print : R → String
  pub date_parse : String → R
  pub now : Event → String

abbrev pub supported_types : List String
supported_types = "click" ∷ "view" ∷ "purchase" ∷ []

module _ {R : Type 0} ⦃num : Number R⦄ (js : Reader R) where
  -- The event of fields that have their types
  unfoldable pub parsed_event : Event → String → String → String → R → ParsedEvent
  parsed_event raw_event ts type user value =
      let timestamp_ms = js.date_parse ts in
      record {
        type = type;
        user = user;
        value = js.print (js.trunc value);
        timestamp =
            js.print (if js.is_finite timestamp_ms then js.trunc timestamp_ms else num.of_ℕ 0);
        sequence = raw_event.sequence;
      }

  unfoldable pub parse_fields : Event → Value R → Value R → Value R → Value R → Option ParsedEvent
  parse_fields raw_event (text ts) (text type) (text user) (number value) =
      if not (elem type supported_types)
      then none
      else if not (js.is_finite value)
      then none
      else some (parsed_event raw_event ts type user value)
  parse_fields raw_event ts type user value = none

  unfoldable pub parse_event : Event → Option ParsedEvent
  parse_event raw_event =
      let read = elim (js.parse_json raw_event.raw_json) as (λ o. Option ParsedEvent) [
        | none ↦ none
        | some d ↦
            if not d.is_record
            then none
            else parse_fields raw_event (field "ts" d.fields) (field "type" d.fields)
                (field "user" d.fields) (field "value" d.fields)
      ] in
      if not (truthy raw_event.raw_json) then none else read

  -- One event of a request, in both modes
  unfoldable pub parse_one : Floats R → Event → Option ParsedEvent
  parse_one fl event = elim (js.parse_json event.raw_json) [
    | none ↦ parse_event event
    | some d ↦ elim d.item [
      | none ↦ parse_event event
      | some item ↦ some (record {
        type = "work-item";
        user = js.stringify (process_work_item fl item);
        value = "0";
        timestamp = js.now event;
        sequence = event.sequence;
      })
    ]
  ]

  -- What the handler of `parseEvents` writes for a request
  unfoldable pub parse_events : Floats R → Option Event → Option ParsedEvent
  parse_events fl none = none
  parse_events fl (some event) = parse_one fl event

-- What a handler of batches writes for a request, if anything
unfoldable pub batch_response : {A B : Type 0} → (A → Option B) → List A → Option (List B)
batch_response one events =
    let made = filter_map one events in
    if eqb (length events) 0 then none else if ltb 0 (length made) then some made else none

unfoldable pub parse_events_batch :
    {R : Type 0} ⦃num : Number R⦄ → Reader R → Floats R → List Event → Option (List ParsedEvent)
parse_events_batch js fl = batch_response (parse_one js fl)
