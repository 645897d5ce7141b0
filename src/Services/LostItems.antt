-- ===== src/Services/LostItems.antt =====
-- apps/demo-domain: work items in the mode of batches.
use modular_runtime.Shared.{
  Option, some, none, List, [], ◌∷◌, Bool, true, false, length, ◌≡◌, refl, ap, ◌∙◌, arith, inl, inr,
  Option-cases, All, eq_iff,
}
use modular_runtime.Topology.Types.{Number}
use modular_runtime.Pipeline.Aggregation.{
  ParsedEvent, EnrichedEvent, Numbers, apply_rules, to_number,
}
use modular_runtime.Pipeline.Conservation.{concat}
use modular_runtime.Ingest.{Event}
use modular_runtime.Services.WorkItems.{Floats, ProcessedFields}
use modular_runtime.Services.{filter_map, Reader, parse_one, parse_events_batch}
use modular_runtime.Services.Rules.{RulesReader, rule_one, enrich_event, apply_rules_batch}
use modular_runtime.Services.Batches.{concat-batch_response, filter_map-All}

filter_map-length :
    {A B : Type 0} (one : A → Option B) (Q : A → Type 0) (xs : List A)
    → ((x : A) → Q x → (y : B) × (one x ≡ some y))
    → All Q xs
    → length (filter_map one xs) ≡ length xs
filter_map-length one Q [] h q = refl
filter_map-length one Q (x ∷ xs) h q =
    let (y, made) = h x q.0 in
    rw (filter_map, made) (omega (arith, filter_map-length one Q xs h q.1))

module _ {R : Type 0} ⦃num : Number R⦄ (rd : Reader R) (rules : RulesReader R) (fl : Floats R)
    (js : Numbers R) where
  abbrev pub HasItem : Event → Type 0
  HasItem event =
      (elim (rd.parse_json event.raw_json) as (λ o. Bool) [
        | none ↦ false
        | some d ↦ elim d.item as (λ o. Bool) [ none ↦ false | some item ↦ true ]
      ])
      ≡ true

  -- A work item whose processed form, as `parseEvents` writes it, is one that the rules can parse
  pub record IsReadable (event : Event) : Type 0 where
    pub has_item : HasItem event
    pub reads :
        (e : ParsedEvent)
        → parse_one rd fl event ≡ some e
        → (x : ProcessedFields R) × (rules.parse_json e.user ≡ some x)

  abbrev pub IsZeroItem : ParsedEvent → Type 0
  IsZeroItem e = (e.type ≡ "work-item") × (e.value ≡ "0")

  -- What is made of such a work item
  record IsReadItem (e : ParsedEvent) : Type 0 where
    zero : IsZeroItem e
    read : (x : ProcessedFields R) × (rules.parse_json e.user ≡ some x)

  parse_one-IsZeroItem :
      (raw : Event) (e : ParsedEvent) → HasItem raw → parse_one rd fl raw ≡ some e → IsZeroItem e
  unfolding parse_one
  parse_one-IsZeroItem raw e there h = ground arith

  apply_rules-zero :
      (events : List ParsedEvent)
      → js.at_least (to_number js "0") (num.of_ℕ 10) ≡ false
      → All IsZeroItem events
      → filter_map (apply_rules js) events ≡ []
  unfolding apply_rules
  apply_rules-zero [] small h = refl
  apply_rules-zero (e ∷ events) small h =
      let dropped : apply_rules js e ≡ none = rw (apply_rules, h.0.1, small) refl in
      ap
        (λ o. elim o as (λ p. List EnrichedEvent) [
          | none ↦ filter_map (apply_rules js) events
          | some x ↦ x ∷ filter_map (apply_rules js) events
        ])
        dropped
      ∙ apply_rules-zero events small h.1

  parse_one-made : (raw : Event) → HasItem raw → (e : ParsedEvent) × (parse_one rd fl raw ≡ some e)
  unfolding parse_one
  parse_one-made raw there = elim (Option-cases (parse_one rd fl raw)) [
    | inl nothing ↦ absurd (ground arith)
    | inr made ↦ made
  ]

  rule_one-made :
      (e : ParsedEvent) → IsReadItem e → (x : EnrichedEvent) × (rule_one rules fl js e ≡ some x)
  unfolding rule_one enrich_event
  rule_one-made e h =
      let (x, read) = h.read in
      let zero = h.zero in
      elim (Option-cases (rule_one rules fl js e)) [
        | inl nothing ↦ absurd (ground (arith, zero, read, eq_iff e.type "work-item"))
        | inr made ↦ made
      ]

  parse_one-IsReadItem :
      (raw : Event) (e : ParsedEvent) → IsReadable raw → parse_one rd fl raw ≡ some e → IsReadItem e
  parse_one-IsReadItem raw e h made = record {
    zero = parse_one-IsZeroItem raw e h.has_item made;
    read = h.reads e made;
  }

  All-zero : (events : List ParsedEvent) → All IsReadItem events → All IsZeroItem events
  All-zero [] h = tt
  All-zero (e ∷ events) h = (h.0.zero, All-zero events h.1)

  -- Work items, each with a processed form that the rules can parse, and 0 is less than 10: when the services get them one by one,
  -- the rules let all of them through; in the mode of batches they let none through, however they are split.
  pub batches_lose_work_items :
      (events : List (List Event)) (parsed : List (List ParsedEvent))
      → js.at_least (to_number js "0") (num.of_ℕ 10) ≡ false
      → All IsReadable (concat events)
      → concat parsed ≡ concat (filter_map (parse_events_batch rd fl) events)
      → (length (filter_map (rule_one rules fl js) (filter_map (parse_one rd fl) (concat events)))
          ≡ length (concat events))
        × (concat (filter_map (apply_rules_batch js) parsed) ≡ [])
  unfolding parse_events_batch apply_rules_batch
  batches_lose_work_items events parsed small items e =
      let one_by_one = filter_map (parse_one rd fl) (concat events) in
      let made : All IsReadItem one_by_one =
        filter_map-All (parse_one rd fl) IsReadable IsReadItem (concat events) parse_one-IsReadItem
          items in
      (
        filter_map-length (rule_one rules fl js) IsReadItem one_by_one rule_one-made made
            ∙ filter_map-length (parse_one rd fl) IsReadable (concat events)
                (λ raw h. parse_one-made raw h.has_item) items,
        concat-batch_response (apply_rules js) parsed
            ∙ ap (filter_map (apply_rules js)) (e ∙ concat-batch_response (parse_one rd fl) events)
            ∙ apply_rules-zero one_by_one small (All-zero one_by_one made),
      )
