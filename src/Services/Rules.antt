-- ===== src/Services/Rules.antt =====
-- apps/demo-domain/rules-service/src/rules-service.ts: the handlers of the rules. `parse_json` is what `JSON.parse` gives
-- of a processed item, with the fields that the rules read, or nothing where it throws.
use modular_runtime.Shared.{String, Option, some, none, List, [], ◌∷◌, true, ◌==◌, if◌then◌else◌}
use modular_runtime.Topology.Types.{Number}
use modular_runtime.Pipeline.Aggregation.{ParsedEvent, EnrichedEvent, Numbers, apply_rules}
use modular_runtime.Services.{batch_response}
use modular_runtime.Services.WorkItems.{Floats, ProcessedFields, EnrichedWorkItem, enrich_work_item}

pub record RulesReader (R : Type 0) : Type 0 where
  pub parse_json : String → Option (ProcessedFields R)
  pub stringify : EnrichedWorkItem R → String

module _ {R : Type 0} ⦃num : Number R⦄ (rd : RulesReader R) (fl : Floats R) where
  unfoldable pub enrich_event : ParsedEvent → Option EnrichedEvent
  enrich_event event = elim (rd.parse_json event.user) [
    | none ↦ none
    | some processed ↦ some (record {
      event = some (record event { user = rd.stringify (enrich_work_item processed fl) });
      metadata = ("workload", "compute-heavy") ∷ [];
      passed_rules = true;
    })
  ]

  unfoldable pub rule_one : Numbers R → ParsedEvent → Option EnrichedEvent
  rule_one js event = if event.type == "work-item" then enrich_event event else apply_rules js event

  -- What the handler of `applyRules` writes for a request
  unfoldable pub apply_rules_data : Numbers R → Option ParsedEvent → Option EnrichedEvent
  apply_rules_data js none = none
  apply_rules_data js (some event) = rule_one js event

unfoldable pub apply_rules_batch :
    {R : Type 0} ⦃num : Number R⦄ → Numbers R → List ParsedEvent → Option (List EnrichedEvent)
apply_rules_batch js = batch_response (apply_rules js)
