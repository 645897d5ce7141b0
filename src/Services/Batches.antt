-- ===== src/Services/Batches.antt =====
-- apps/demo-domain: the services of the pipeline in the mode of batches and in that of single events.
use mathlib.Core.Path.{subst}
use modular_runtime.Shared.{
  String, Option, some, none, List, [], ◌∷◌, ◌++◌, Bool, true, false, ◌==◌, eqb, ltb, length, ◌≡◌,
  refl, sym, ap, ◌∙◌, arith, if◌then◌else◌, elem, inl, inr, Bool-cases, Option-cases, All, eq_iff,
}
use modular_runtime.Shared.Json.{Value, field, text, number}
use modular_runtime.Topology.Types.{Number}
use modular_runtime.Pipeline.Aggregation.{ParsedEvent}
use modular_runtime.Pipeline.Conservation.{concat}
use modular_runtime.Ingest.{Event}
use modular_runtime.Services.WorkItems.{Floats}
use modular_runtime.Services.{
  filter_map, Reader, Document, supported_types, parsed_event, parse_fields, parse_event, parse_one,
  batch_response,
}

module _ {A B : Type 0} (one : A → Option B) where
  filter_map-append :
      (xs ys : List A) → filter_map one (xs ++ ys) ≡ filter_map one xs ++ filter_map one ys
  filter_map-append [] ys = refl
  filter_map-append (x ∷ xs) ys =
      elim (one x)
        as (λ o.
          (elim o as (λ p. List B) [
            | none ↦ filter_map one (xs ++ ys)
            | some y ↦ y ∷ filter_map one (xs ++ ys)
          ])
          ≡ (elim o as (λ p. List B) [ none ↦ filter_map one xs | some y ↦ y ∷ filter_map one xs ])
            ++ filter_map one ys) [
              | none ↦ filter_map-append xs ys
              | some y ↦ ap (λ zs. y ∷ zs) (filter_map-append xs ys)
            ]

  responses : Option (List B) → List B
  responses none = []
  responses (some ys) = ys

  batch_response-made : (xs : List A) → responses (batch_response one xs) ≡ filter_map one xs
  unfolding batch_response responses
  batch_response-made [] = refl
  batch_response-made (x ∷ xs) =
      elim (filter_map one (x ∷ xs))
        as (λ ys.
          responses
            (if eqb (length (x ∷ xs)) 0 then none else if ltb 0 (length ys) then some ys else none)
          ≡ ys) [ [] ↦ ground arith | y ∷ ys ↦ ground arith ]

  concat-response :
      (o : Option (List B)) (rest : List (List B))
      → concat (elim o as (λ p. List (List B)) [ none ↦ rest | some ys ↦ ys ∷ rest ])
        ≡ responses o ++ concat rest
  unfolding responses
  concat-response none rest = refl
  concat-response (some ys) rest = refl

  -- All that a handler of batches writes is what that of single events writes.
  pub concat-batch_response :
      (batches : List (List A))
      → concat (filter_map (batch_response one) batches) ≡ filter_map one (concat batches)
  concat-batch_response [] = refl
  concat-batch_response (xs ∷ batches) =
      concat-response (batch_response one xs) (filter_map (batch_response one) batches)
      ∙ rw (batch_response-made xs, concat-batch_response batches)
          (sym (filter_map-append xs (concat batches)))

  pub filter_map-All :
      (Q : A → Type 0) (P : B → Type 0) (xs : List A)
      → ((x : A) (y : B) → Q x → one x ≡ some y → P y)
      → All Q xs
      → All P (filter_map one xs)
  filter_map-All Q P [] h q = tt
  filter_map-All Q P (x ∷ xs) h q = elim (Option-cases (one x)) [
    | inl nothing ↦ rw (filter_map, nothing) (filter_map-All Q P xs h q.1)
    | inr (y, made) ↦ rw (filter_map, made) (h x y q.0 made, filter_map-All Q P xs h q.1)
  ]

abbrev pub IsPlain : ParsedEvent → Type 0
IsPlain e = (e.type == "work-item") ≡ false

supported-plain : (type : String) → elem type supported_types ≡ true → (type == "work-item") ≡ false
supported-plain type h = elim (Bool-cases (type == "work-item")) [
  | inl same ↦
      absurd (cc (subst (λ t. elem t supported_types ≡ true) ((eq_iff type "work-item").0 same) h))
  | inr other ↦ other
]

module _ {R : Type 0} ⦃num : Number R⦄ (rd : Reader R) (fl : Floats R) where
  abbrev pub HasNoItem : Event → Type 0
  HasNoItem event =
      (elim (rd.parse_json event.raw_json) as (λ o. Bool) [
        | none ↦ false
        | some d ↦ elim d.item as (λ o. Bool) [ none ↦ false | some item ↦ true ]
      ])
      ≡ false

  parse_fields-IsPlain :
      (raw : Event) (ts type user value : Value R) (e : ParsedEvent)
      → parse_fields rd raw ts type user value ≡ some e
      → IsPlain e
  unfolding parse_fields parsed_event
  parse_fields-IsPlain raw (text ts) (text type) (text user) (number value) e h =
      ground (arith, supported-plain type)
  parse_fields-IsPlain raw _ _ _ _ e h = absurd (ground arith)

  pub parse_one-IsPlain :
      (raw : Event) (e : ParsedEvent) → HasNoItem raw → parse_one rd fl raw ≡ some e → IsPlain e
  unfolding parse_one parse_event
  parse_one-IsPlain raw e none_there h =
      let fields-plain = λ (d : Document R).
        parse_fields-IsPlain raw (field "ts" d.fields) (field "type" d.fields)
          (field "user" d.fields) (field "value" d.fields) e in
      elim (Option-cases (rd.parse_json raw.raw_json)) [
        | inl invalid ↦ absurd (ground arith)
        | inr (d, read) ↦ ground (arith, fields-plain d)
      ]
