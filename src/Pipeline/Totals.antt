-- ===== src/Pipeline/Totals.antt =====
-- apps/demo-domain/aggregate-service/src/aggregate.ts: the aggregate of each type of event.
use modular_runtime.Shared.{
  ◌+◌, String, Option, some, none, List, [], ◌∷◌, ◌==◌, ◌≡◌, refl, ◌∙◌, if◌then◌else◌, inl, inr,
  Bool-cases, Option-cases, eq_iff, eq_refl,
}
use modular_runtime.Shared.Dict.{Dict, get, get-set}
use modular_runtime.Topology.Types.{Number}
use modular_runtime.Pipeline.Aggregation.{
  ParsedEvent, EnrichedEvent, Numbers, to_number, AggregateStats, count_event, add, add_all,
}

-- The values of the events of a type that are there and passed the rules.
abbrev pub values_of : String → List EnrichedEvent → List String
values_of key [] = []
values_of key (event ∷ events) =
    let rest = values_of key events in
    elim event.event [
      | none ↦ rest
      | some e ↦
          if event.passed_rules then (if e.type == key then e.value ∷ rest else rest) else rest
    ]

module _ {R : Type 0} ⦃num : Number R⦄ (js : Numbers R) where
  abbrev pub one_more : Option (AggregateStats R) → String → AggregateStats R
  one_more none v = record { count = 0 + 1; sum = num.add (num.of_ℕ 0) (to_number js v) }
  one_more (some s) v = record { count = s.count + 1; sum = num.add s.sum (to_number js v) }

  -- The statistics of some values, on top of those that are there.
  abbrev pub summary : Option (AggregateStats R) → List String → Option (AggregateStats R)
  summary before [] = before
  summary before (v ∷ vs) = summary (some (one_more before v)) vs

  get-count_event :
      (key : String) (e : ParsedEvent) (stats : Dict (AggregateStats R))
      → get key (count_event js e stats)
        ≡ (if e.type == key then summary (get key stats) (e.value ∷ []) else get key stats)
  unfolding count_event
  get-count_event key e stats = elim (Bool-cases (e.type == key)) [
    | inl same ↦
        let k : e.type ≡ key = (eq_iff e.type key).0 same in
        elim (Option-cases (get e.type stats)) [
          | inl missing ↦
              rw (← k, missing, count_event, get-set e.type e.type _ stats, eq_refl e.type) refl
          | inr (s, found) ↦
              rw (← k, found, count_event, get-set e.type e.type _ stats, eq_refl e.type) refl
        ]
    | inr other ↦ elim (Option-cases (get e.type stats)) [
      | inl missing ↦ rw (missing, count_event, get-set e.type key _ stats, other) refl
      | inr (s, found) ↦ rw (found, count_event, get-set e.type key _ stats, other) refl
    ]
  ]

  -- After any events, the statistics of a type are those before, followed by the values of all events
  -- of that type that are there and passed the rules: one more in the count for each, and their sum in
  -- their order, from 0 if there were none before.
  pub get-add_all :
      (key : String) (events : List EnrichedEvent) (stats : Dict (AggregateStats R))
      → get key (add_all js events stats) ≡ summary (get key stats) (values_of key events)
  unfolding add_all add
  get-add_all key [] stats = refl
  get-add_all key (event ∷ events) stats = elim (Option-cases event.event) [
    | inl missing ↦ rw (missing, add) (get-add_all key events stats)
    | inr (e, there) ↦ elim (Bool-cases event.passed_rules) [
      | inr dropped ↦ rw (there, add, dropped) (get-add_all key events stats)
      | inl passed ↦
          rw (there, add, passed)
            (get-add_all key events (count_event js e stats)
              ∙ rw (get-count_event key e stats) (elim (Bool-cases (e.type == key)) [
                | inl same ↦ rw same refl
                | inr other ↦ rw other refl
              ]))
    ]
  ]
