-- ===== src/Services/Aggregate.antt =====
-- apps/demo-domain/aggregate-service/src/aggregate-service.ts: the handlers of the aggregate, for one stream. `parse_json` is
-- what `JSON.parse` gives of an enriched item, or nothing where it throws. `vector_checksum` and `work_item_id`, which a result
-- does not have, are undefined: the first is 0 after `|| 0`, and is not a number when it is rounded; the second goes out as
-- an empty text.
use modular_runtime.Shared.{
  String, Option, some, none, List, [], ◌∷◌, ◌++◌, map, Bool, false, ◌==◌, eqb, length,
  if◌then◌else◌,
}
use modular_runtime.Shared.Dict.{Dict}
use modular_runtime.Topology.Types.{Number}
use modular_runtime.Pipeline.Aggregation.{
  EnrichedEvent, AggregateStats, AggregateResult, Numbers, add, results,
}
use modular_runtime.Services.WorkItems.{
  Floats, EnrichedFields, WorkItemResult, process_enriched_work_item,
}

pub record Aggregating (R : Type 0) : Type 0 where
  pub stats : Dict (AggregateStats R)
  pub work_item_results : List (WorkItemResult R)

unfoldable pub new_aggregating : {R : Type 0} → Aggregating R
new_aggregating = record { stats = []; work_item_results = [] }

-- `event.event?.type === 'work-item'`
abbrev pub is_work_item : EnrichedEvent → Bool
is_work_item event = elim event.event as (λ o. Bool) [
  | none ↦ false
  | some e ↦ e.type == "work-item"
]

abbrev pub user_of : EnrichedEvent → String
user_of event = elim event.event as (λ o. String) [ none ↦ "" | some e ↦ e.user ]

module _ {R : Type 0} ⦃num : Number R⦄ (js : Numbers R)
    (parse_json : String → Option (EnrichedFields R)) (fl : Floats R) where
  unfoldable pub keep_work_item : EnrichedEvent → Aggregating R → Aggregating R
  keep_work_item event a = elim (parse_json (user_of event)) [
    | none ↦ a
    | some item ↦ record a {
      work_item_results = a.work_item_results ++ process_enriched_work_item fl item ∷ [];
    }
  ]

  unfoldable pub aggregate_event : EnrichedEvent → Aggregating R → Aggregating R
  aggregate_event event a =
      if is_work_item event
      then keep_work_item event a
      else record a { stats = add js event a.stats }

  -- A request of `aggregate`
  unfoldable pub aggregate_data : Option EnrichedEvent → Aggregating R → Aggregating R
  aggregate_data none a = a
  aggregate_data (some event) a = aggregate_event event a

  unfoldable pub aggregate_events : List EnrichedEvent → Aggregating R → Aggregating R
  aggregate_events [] a = a
  aggregate_events (event ∷ rest) a = aggregate_events rest (aggregate_event event a)

  -- A request of `aggregateBatch`
  unfoldable pub aggregate_batch_data : List EnrichedEvent → Aggregating R → Aggregating R
  aggregate_batch_data events a = if eqb (length events) 0 then a else aggregate_events events a

-- The end of the stream: what is written, one by one
unfoldable pub aggregate_end :
    {R : Type 0} ⦃num : Number R⦄ → Numbers R → Aggregating R → List (AggregateResult R)
aggregate_end {R} ⦃num = num⦄ js a =
    results js a.stats
    ++ map {A = WorkItemResult R}
        (λ item. record { key = item.id; count = 0; sum = num.of_ℕ 0; avg = item.final_score })
        a.work_item_results

-- The end of the stream: the results of the one response. `nan` is NaN.
unfoldable pub aggregate_batch_end :
    {R : Type 0} ⦃num : Number R⦄ → Numbers R → R → Aggregating R → List (AggregateResult R)
aggregate_batch_end {R} js nan a =
    results js a.stats
    ++ map {A = WorkItemResult R}
        (λ item. record { key = ""; count = 0; sum = nan; avg = item.final_score })
        a.work_item_results
