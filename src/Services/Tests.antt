-- ===== src/Services/Tests.antt =====
-- apps/demo-domain: events and work items on which the theorems are tried. Numbers are natural numbers here.
use modular_runtime.Shared.{
  ℕ, ◌+◌, ◌*◌, ◌/◌, String, Option, some, none, List, [], ◌∷◌, true, ◌==◌, eqb, leb, length, ◌≡◌,
  refl, sym, ap, if◌then◌else◌,
}
use modular_runtime.Shared.Json.{text, number}
use modular_runtime.Topology.Types.{Number}
use modular_runtime.Pipeline.Aggregation.{AggregateResult, ParsedEvent, Numbers, to_number}
use modular_runtime.Pipeline.Conservation.{concat}
use modular_runtime.Ingest.{Event}
use modular_runtime.Ingest.WorkItems.{WorkItem, Matrix}
use modular_runtime.Services.WorkItems.{
  Floats, ProcessedFields, process_work_item, transpose_matrix,
}
use modular_runtime.Services.{Reader, Document, filter_map, parse_one, parse_events_batch}
use modular_runtime.Services.Rules.{RulesReader, rule_one, apply_rules_batch}
use modular_runtime.Services.Aggregate.{new_aggregating, aggregate_batch_end}
use modular_runtime.Services.Equivalence.{run_single, aggregate_batches, batches_change_nothing}
use modular_runtime.Services.LostItems.{IsReadable, batches_lose_work_items}
use modular_runtime.Services.Transposing.{transpose_matrix-transpose_matrix}

instance natural : Number ℕ
natural = record { of_ℕ = λ n. n; add = λ a b. a + b; mul = λ a b. a * b; div = λ a b. a / b }

abbrev floats : Floats ℕ
floats = record {
  sqrt = λ n. n;
  abs = λ n. n;
  is_zero = λ n. eqb n 0;
  is_finite = λ n. true;
  thousandth = 1;
  tenth = 1;
}

abbrev numbers : Numbers ℕ
numbers = record {
  number = λ s. if s == "20" then 20 else 0;
  is_finite = λ n. true;
  trunc = λ n. n;
  at_least = λ a b. leb b a;
}

abbrev click : Document ℕ
click = record {
  is_record = true;
  fields =
      ("ts", text "now") ∷ ("type", text "click") ∷ ("user", text "u") ∷ ("value", number 20) ∷ [];
  item = none;
}

abbrev item : WorkItem ℕ
item = record {
  id = "w-000000";
  vectors = [];
  matrix = record { rows = [] };
  text = "";
  iterations = 0;
}

abbrev work : Document ℕ
work = record { is_record = true; fields = []; item = some item }

abbrev reader : Reader ℕ
reader = record {
  parse_json = λ s. if s == "click" then some click else if s == "work" then some work else none;
  stringify = λ p. p.id;
  is_finite = λ n. true;
  trunc = λ n. n;
  print = λ n. if eqb n 20 then "20" else "0";
  date_parse = λ s. 0;
  now = λ e. "1";
}

abbrev processed : String → ProcessedFields ℕ
processed user = record {
  id = user;
  normalized_vectors = none;
  transposed_matrix = none;
  checksum = none;
}

abbrev rules : RulesReader ℕ
rules = record {
  parse_json = λ user. if user == "w-000000" then some (processed user) else none;
  stringify = λ e. e.id;
}

abbrev event : String → Event
event raw_json = record { raw_json = raw_json; sequence = "0" }

abbrev click_batches : List (List Event)
click_batches = (event "click" ∷ event "no" ∷ []) ∷ (event "click" ∷ []) ∷ []

batches_change_nothing_example :
    let parsed = filter_map (parse_events_batch reader floats) click_batches in
    aggregate_batch_end numbers 0 (
      aggregate_batches reader rules
        (λ s. none)
        floats
        numbers
        0
        (filter_map (apply_rules_batch numbers) parsed)
        new_aggregating)
    ≡ run_single reader rules (λ s. none) floats numbers 0 (concat click_batches)
batches_change_nothing_example =
    batches_change_nothing reader rules (λ s. none) floats numbers 0 click_batches
      (filter_map (parse_events_batch reader floats) click_batches)
      (filter_map (apply_rules_batch numbers)
        (filter_map (parse_events_batch reader floats) click_batches))
      (refl, (refl, (refl, tt))) refl refl

abbrev work_batches : List (List Event)
work_batches = (event "work" ∷ []) ∷ (event "work" ∷ []) ∷ []

work-IsReadable : IsReadable reader rules floats numbers (event "work")
unfolding parse_one process_work_item
work-IsReadable = record {
  has_item = refl;
  reads = λ e h.
      let user_of : Option ParsedEvent → String = λ o. elim o [ none ↦ "" | some p ↦ p.user ] in
      let named : e.user ≡ "w-000000" = ap user_of (sym h) in (processed e.user, rw named refl);
}

batches_lose_work_items_example :
    let parsed = filter_map (parse_events_batch reader floats) work_batches in
    (length (
        filter_map
          (rule_one rules floats numbers)
          (filter_map (parse_one reader floats) (concat work_batches)))
      ≡ 2)
    × (concat (filter_map (apply_rules_batch numbers) parsed) ≡ [])
unfolding to_number natural
batches_lose_work_items_example =
    batches_lose_work_items reader rules floats numbers work_batches
      (filter_map (parse_events_batch reader floats) work_batches) refl
      (work-IsReadable, (work-IsReadable, tt)) refl

abbrev rectangle : Matrix ℕ
rectangle = record {
  rows =
      record { values = 1 ∷ 2 ∷ [] }
      ∷ record { values = 3 ∷ 4 ∷ [] }
      ∷ record { values = 5 ∷ 6 ∷ [] }
      ∷ [];
}

transpose_matrix-transpose_matrix_example :
    transpose_matrix (transpose_matrix rectangle) ≡ rectangle
transpose_matrix-transpose_matrix_example =
    transpose_matrix-transpose_matrix 1 rectangle (refl, (refl, (refl, tt)))

abbrev result : AggregateResult ℕ
result = record { key = "click"; count = 2; sum = 40; avg = 20 }

abbrev sent : List (Option (AggregateResult ℕ))
sent = some result ∷ none ∷ some result ∷ []
