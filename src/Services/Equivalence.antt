-- ===== src/Services/Equivalence.antt =====
-- apps/demo-domain: the whole pipeline in the mode of batches and in that of single events.
use modular_runtime.Shared.{
  String, Option, some, none, List, [], ◌∷◌, ◌++◌, false, ◌≡◌, refl, sym, ap, ◌∙◌, arith, All,
}
use modular_runtime.Topology.Types.{Number}
use modular_runtime.Pipeline.Aggregation.{
  ParsedEvent, EnrichedEvent, AggregateResult, Numbers, apply_rules,
}
use modular_runtime.Pipeline.Conservation.{concat}
use modular_runtime.Ingest.{Event}
use modular_runtime.Services.WorkItems.{Floats, EnrichedFields}
use modular_runtime.Services.{filter_map, Reader, parse_one, parse_events_batch}
use modular_runtime.Services.Rules.{RulesReader, rule_one, apply_rules_batch}
use modular_runtime.Services.Aggregate.{
  Aggregating, new_aggregating, is_work_item, aggregate_event, aggregate_events,
  aggregate_batch_data, aggregate_end, aggregate_batch_end,
}
use modular_runtime.Services.Batches.{
  HasNoItem, IsPlain, concat-batch_response, filter_map-All, parse_one-IsPlain,
}

abbrev IsNoItem : EnrichedEvent → Type 0
IsNoItem event = is_work_item event ≡ false

module _ {R : Type 0} ⦃num : Number R⦄ (rd : Reader R) (rules : RulesReader R)
    (parse_json : String → Option (EnrichedFields R)) (fl : Floats R) (js : Numbers R)
    (nan : R) where
  -- The results of the pipeline, when the services get the events one by one
  abbrev pub run_single : List Event → List (AggregateResult R)
  run_single events = aggregate_end js (
      aggregate_events js parse_json fl
        (filter_map (rule_one rules fl js) (filter_map (parse_one rd fl) events)) new_aggregating)

  abbrev pub aggregate_batches : List (List EnrichedEvent) → Aggregating R → Aggregating R
  aggregate_batches [] a = a
  aggregate_batches (events ∷ batches) a =
      aggregate_batches batches (aggregate_batch_data js parse_json fl events a)

  rule_one-plain :
      (events : List ParsedEvent)
      → All IsPlain events
      → filter_map (rule_one rules fl js) events ≡ filter_map (apply_rules js) events
  unfolding rule_one
  rule_one-plain [] h = refl
  rule_one-plain (e ∷ events) h =
      let same : rule_one rules fl js e ≡ apply_rules js e = rw (rule_one, h.0) refl in
      ap
        (λ o. elim o as (λ p. List EnrichedEvent) [
          | none ↦ filter_map (rule_one rules fl js) events
          | some x ↦ x ∷ filter_map (rule_one rules fl js) events
        ])
        same
      ∙ ap
          (λ rest. elim (apply_rules js e) as (λ p. List EnrichedEvent) [
            | none ↦ rest
            | some x ↦ x ∷ rest
          ])
          (rule_one-plain events h.1)

  apply_rules-IsNoItem :
      (e : ParsedEvent) (x : EnrichedEvent) → IsPlain e → apply_rules js e ≡ some x → IsNoItem x
  unfolding apply_rules
  apply_rules-IsNoItem e x h made = ground arith

  aggregate_events-append :
      (xs ys : List EnrichedEvent) (a : Aggregating R)
      → aggregate_events js parse_json fl (xs ++ ys) a
        ≡ aggregate_events js parse_json fl ys (aggregate_events js parse_json fl xs a)
  unfolding aggregate_events
  aggregate_events-append [] ys a = refl
  aggregate_events-append (x ∷ xs) ys a = aggregate_events-append xs ys _

  aggregate_batches-concat :
      (batches : List (List EnrichedEvent)) (a : Aggregating R)
      → aggregate_batches batches a ≡ aggregate_events js parse_json fl (concat batches) a
  unfolding aggregate_batch_data aggregate_events
  aggregate_batches-concat [] a = refl
  aggregate_batches-concat (xs ∷ batches) a =
      aggregate_batches-concat batches _
      ∙ sym (
          aggregate_events-append xs (concat batches) a
          ∙ ap (aggregate_events js parse_json fl (concat batches)) (sym (batch-events xs a)))
    where
      batch-events :
          (ys : List EnrichedEvent) (b : Aggregating R)
          → aggregate_batch_data js parse_json fl ys b ≡ aggregate_events js parse_json fl ys b
      batch-events [] b = refl
      batch-events (y ∷ ys) b = ground arith

  aggregate_events-no_items :
      (events : List EnrichedEvent) (a : Aggregating R)
      → All IsNoItem events
      → (aggregate_events js parse_json fl events a).work_item_results ≡ a.work_item_results
  unfolding aggregate_events aggregate_event
  aggregate_events-no_items [] a h = refl
  aggregate_events-no_items (x ∷ events) a h =
      rw (aggregate_events, aggregate_event, h.0) (aggregate_events-no_items events _ h.1)

  ends-agree :
      (a : Aggregating R)
      → a.work_item_results ≡ []
      → aggregate_batch_end js nan a ≡ aggregate_end js a
  unfolding aggregate_batch_end aggregate_end
  ends-agree a h = rw (aggregate_batch_end, aggregate_end, h) refl

  -- For events that are no work items: however the events are split into batches, and however the orchestrator splits what the
  -- services of parsing and of rules answer into batches again, the results are those of the pipeline that handles the
  -- events one by one.
  pub batches_change_nothing :
      (events : List (List Event)) (parsed : List (List ParsedEvent))
      (enriched : List (List EnrichedEvent))
      → All (HasNoItem rd fl) (concat events)
      → concat parsed ≡ concat (filter_map (parse_events_batch rd fl) events)
      → concat enriched ≡ concat (filter_map (apply_rules_batch js) parsed)
      → aggregate_batch_end js nan (aggregate_batches enriched new_aggregating)
        ≡ run_single (concat events)
  unfolding parse_events_batch apply_rules_batch new_aggregating
  batches_change_nothing events parsed enriched plain e1 e2 =
      let one_by_one = filter_map (parse_one rd fl) (concat events) in
      let all_plain : All IsPlain one_by_one =
        filter_map-All (parse_one rd fl) (HasNoItem rd fl) IsPlain (concat events)
          (λ raw e. parse_one-IsPlain rd fl raw e) plain in
      let no_items : All IsNoItem (filter_map (apply_rules js) one_by_one) =
        filter_map-All (apply_rules js) IsPlain IsNoItem one_by_one apply_rules-IsNoItem
          all_plain in
      let parsed_same : concat parsed ≡ one_by_one =
        e1 ∙ concat-batch_response (parse_one rd fl) events in
      let enriched_same : concat enriched ≡ filter_map (apply_rules js) one_by_one =
        e2
        ∙ concat-batch_response (apply_rules js) parsed
        ∙ ap (filter_map (apply_rules js)) parsed_same in
      let kept =
        aggregate_events js parse_json fl (filter_map (apply_rules js) one_by_one)
          new_aggregating in
      ap (aggregate_batch_end js nan) (aggregate_batches-concat enriched new_aggregating)
      ∙ ap (λ xs. aggregate_batch_end js nan (aggregate_events js parse_json fl xs new_aggregating))
          enriched_same
      ∙ ends-agree kept (
          aggregate_events-no_items (filter_map (apply_rules js) one_by_one) new_aggregating
            no_items)
      ∙ ap (λ xs. aggregate_end js (aggregate_events js parse_json fl xs new_aggregating))
          (sym (rule_one-plain one_by_one all_plain))
