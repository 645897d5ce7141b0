-- ===== src/Pipeline/Aggregation.antt =====
-- apps/demo-domain/rules-service/src/rules.ts and apps/demo-domain/aggregate-service/src/aggregate.ts. `R`
-- are JavaScript's numbers, with the functions of the language that both files call.
use modular_runtime.Shared.{
  ℕ, ◌+◌, String, Option, some, none, List, [], ◌∷◌, map, Bool, true, not, ◌&&◌, ◌==◌, eqb,
  if◌then◌else◌,
}
use modular_runtime.Shared.Dict.{Dict, get, set}
use modular_runtime.Topology.Types.{Number}

pub record ParsedEvent : Type 0 where
  pub type : String
  pub user : String
  pub value : String
  pub timestamp : String
  pub sequence : String

pub record EnrichedEvent : Type 0 where
  pub event : Option ParsedEvent
  pub metadata : Dict String
  pub passed_rules : Bool

pub record AggregateStats (R : Type 0) : Type 0 where
  pub count : ℕ
  pub sum : R

pub record AggregateResult (R : Type 0) : Type 0 where
  pub key : String
  pub count : ℕ
  pub sum : R
  pub avg : R

-- `Number(text)`, `Number.isFinite`, `Math.trunc` and `>=`
pub record Numbers (R : Type 0) : Type 0 where
  pub number : String → R
  pub is_finite : R → Bool
  pub trunc : R → R
  pub at_least : R → R → Bool

-- `parseValue` of the rules and `toNumber` of the aggregate
unfoldable pub to_number : {R : Type 0} ⦃num : Number R⦄ → Numbers R → String → R
to_number ⦃num = num⦄ js value =
    let parsed = js.number value in
    if not (js.is_finite parsed) then num.of_ℕ 0 else js.trunc parsed

module _ {R : Type 0} ⦃num : Number R⦄ (js : Numbers R) where
  unfoldable pub apply_rules : ParsedEvent → Option EnrichedEvent
  apply_rules event =
      let passed =
        js.at_least (to_number js event.value) (num.of_ℕ 10) && not (event.type == "view") in
      if not passed
      then none
      else some (record {
        event = some event;
        metadata = ("rule", "min_value_and_type") ∷ [];
        passed_rules = true;
      })

  -- `add` on the event itself, when it is there and passed.
  unfoldable pub count_event : ParsedEvent → Dict (AggregateStats R) → Dict (AggregateStats R)
  count_event event stats = elim (get event.type stats) [
    | none ↦
        set event.type
          (record { count = 0 + 1; sum = num.add (num.of_ℕ 0) (to_number js event.value) }) stats
    | some current ↦
        set event.type
          (record {
            count = current.count + 1;
            sum = num.add current.sum (to_number js event.value);
          })
          stats
  ]

  unfoldable pub add : EnrichedEvent → Dict (AggregateStats R) → Dict (AggregateStats R)
  add event stats = elim event.event [
    | none ↦ stats
    | some e ↦ if not event.passed_rules then stats else count_event e stats
  ]

  unfoldable pub add_all : List EnrichedEvent → Dict (AggregateStats R) → Dict (AggregateStats R)
  add_all [] stats = stats
  add_all (event ∷ events) stats = add_all events (add event stats)

  unfoldable pub results : Dict (AggregateStats R) → List (AggregateResult R)
  results = map {A = String × AggregateStats R} (λ entry. record {
    key = entry.0;
    count = entry.1.count;
    sum = entry.1.sum;
    avg = if eqb entry.1.count 0 then num.of_ℕ 0 else num.div entry.1.sum (num.of_ℕ entry.1.count);
  })
