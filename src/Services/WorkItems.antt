-- ===== src/Services/WorkItems.antt =====
-- apps/demo-domain/parse-service/src/workitem-processor.ts, rules-service/src/workitem-processor.ts and
-- aggregate-service/src/workitem-processor.ts: what is computed of work items. The rules read the fields of a processed item by
-- names of their own, `normalized_vectors` and `transposed_matrix`, and a field that is missing is `none`. Sums are in the
-- order of the code; the processing time and the warnings are left out.
use modular_runtime.Shared.{
  ℕ, zero, suc, ◌+◌, String, Option, some, none, List, [], ◌∷◌, ◌++◌, map, Bool, not, ltb, length,
  get_elem?, if◌then◌else◌, or_else,
}
use modular_runtime.Shared.Text.{truthy}
use modular_runtime.Topology.Types.{Number}
use modular_runtime.Ingest.WorkItems.{WorkItem, Vector, Matrix}

-- `Math.sqrt`, `Math.abs`, `=== 0`, `Number.isFinite`, 0.001 and 0.1
pub record Floats (R : Type 0) : Type 0 where
  pub sqrt : R → R
  pub abs : R → R
  pub is_zero : R → Bool
  pub is_finite : R → Bool
  pub thousandth : R
  pub tenth : R

pub record ProcessedWorkItem (R : Type 0) : Type 0 where
  pub id : String
  pub normalized_vectors : List (Vector R)
  pub transposed_matrix : Matrix R
  pub checksum : R

-- A processed item as the rules read it
pub record ProcessedFields (R : Type 0) : Type 0 where
  pub id : String
  pub normalized_vectors : Option (List (Vector R))
  pub transposed_matrix : Option (Matrix R)
  pub checksum : Option R

pub record EnrichedWorkItem (R : Type 0) : Type 0 where
  pub id : String
  pub eigenvalues : List R
  pub score : R

-- An enriched item as the aggregate reads it
pub record EnrichedFields (R : Type 0) : Type 0 where
  pub id : String
  pub eigenvalues : Option (List R)
  pub score : R

pub record WorkItemResult (R : Type 0) : Type 0 where
  pub id : String
  pub final_score : R
  pub processed_count : ℕ

-- `xs.slice(0, n)`
abbrev pub first : {A : Type 0} → ℕ → List A → List A
first zero xs = []
first (suc n) [] = []
first (suc n) (x ∷ xs) = x ∷ first n xs

-- `rows[row].values[col] ?? 0`, for each row
abbrev pub column : {R : Type 0} → R → ℕ → List (Vector R) → List R
column default col [] = []
column default col (row ∷ rows) =
    or_else (get_elem? row.values col) default ∷ column default col rows

-- The columns from one on, of so many
unfoldable pub columns : {R : Type 0} → R → ℕ → ℕ → List (Vector R) → List (Vector R)
columns default zero col rows = []
columns default (suc n) col rows =
    record { values = column default col rows } ∷ columns default n (suc col) rows

unfoldable pub transpose_rows : {R : Type 0} → R → List (Vector R) → List (Vector R)
transpose_rows default [] = []
transpose_rows default (row ∷ rows) = columns default (length row.values) 0 (row ∷ rows)

module _ {R : Type 0} ⦃num : Number R⦄ where
  unfoldable pub transpose_matrix : Matrix R → Matrix R
  transpose_matrix matrix = record { rows = transpose_rows (num.of_ℕ 0) matrix.rows }

  -- `xs.reduce((s, x) => s + f(x), start)`
  abbrev pub sum_from : R → (R → R) → List R → R
  sum_from s f [] = s
  sum_from s f (x ∷ xs) = sum_from (num.add s (f x)) f xs

  abbrev pub sum : (R → R) → List R → R
  sum f xs = sum_from (num.of_ℕ 0) f xs

  unfoldable pub normalize_vector : Floats R → Vector R → Vector R
  normalize_vector fl vec =
      let magnitude = fl.sqrt (sum (λ v. num.mul v v) vec.values) in
      if fl.is_zero magnitude
      then vec
      else record { values = map (λ v. num.div v magnitude) vec.values }

  abbrev pub checksum_term : Floats R → ℕ → R → R
  checksum_term fl iteration v = num.mul (num.mul v (num.of_ℕ (iteration + 1))) fl.thousandth

  unfoldable pub checksum_from : Floats R → ℕ → R → List (Vector R) → R
  checksum_from fl iteration s [] = s
  checksum_from fl iteration s (vec ∷ vectors) =
      checksum_from fl iteration (sum_from s (checksum_term fl iteration) vec.values) vectors

  unfoldable pub compute_checksum : Floats R → List (Vector R) → ℕ → R
  compute_checksum fl vectors iteration = checksum_from fl iteration (num.of_ℕ 0) vectors

  -- A loop that adds up what `f` gives for so many numbers, from one on
  unfoldable pub sum_loop : (ℕ → R) → ℕ → ℕ → R → R
  sum_loop f zero i s = s
  sum_loop f (suc n) i s = sum_loop f n (i + 1) (num.add s (f i))

  unfoldable pub process_work_item : Floats R → WorkItem R → ProcessedWorkItem R
  process_work_item fl item =
      let normalized = map (normalize_vector fl) item.vectors in
      record {
        id = item.id;
        normalized_vectors = normalized;
        transposed_matrix = transpose_matrix item.matrix;
        checksum = sum_loop (compute_checksum fl normalized) item.iterations 0 (num.of_ℕ 0);
      }

  abbrev pub all_values : List (Vector R) → List R
  all_values [] = []
  all_values (vec ∷ vectors) = vec.values ++ all_values vectors

  abbrev pub mean_of : (R → R) → List R → R
  mean_of f values =
      if ltb 0 (length values)
      then num.div (sum f values) (num.of_ℕ (length values))
      else num.of_ℕ 0

  unfoldable pub matrix_score_from : R → List (Vector R) → R
  matrix_score_from s [] = s
  matrix_score_from s (row ∷ rows) = matrix_score_from (num.add s (sum (λ v. v) row.values)) rows

  -- `processWorkItem` of the rules; the variance and its root go into nothing.
  unfoldable pub enrich_work_item : ProcessedFields R → Floats R → EnrichedWorkItem R
  enrich_work_item item fl =
      let values = all_values (or_else item.normalized_vectors []) in
      let mean = mean_of (λ v. v) values in
      let score = elim item.transposed_matrix as (λ o. R) [
        | none ↦ num.of_ℕ 0
        | some m ↦ matrix_score_from (num.of_ℕ 0) m.rows
      ] in
      let base = num.add (num.add (or_else item.checksum (num.of_ℕ 0)) score) mean in
      record {
        id = item.id;
        eigenvalues = first 5 values;
        score =
            sum_loop (λ i. num.mul (num.mul base (num.of_ℕ (i + 1))) fl.thousandth) 500 0
              (num.of_ℕ 0);
      }

  unfoldable pub dot_products : List R → List R
  dot_products [] = []
  dot_products (x ∷ []) = []
  dot_products (x ∷ y ∷ xs) = num.mul x y ∷ dot_products (y ∷ xs)

  unfoldable pub process_enriched_work_item : Floats R → EnrichedFields R → WorkItemResult R
  process_enriched_work_item fl item = elim item.eigenvalues [
    | none ↦ record {
      id = if truthy item.id then item.id else "unknown";
      final_score = num.of_ℕ 0;
      processed_count = 0;
    }
    | some eigenvalues ↦
        let base = num.add item.score (sum (λ v. v) eigenvalues) in
        let looped =
          sum_loop (λ i. num.mul (num.mul base (num.of_ℕ (i + 1))) fl.thousandth) 50 0
            (num.of_ℕ 0) in
        let score =
          sum_from looped (λ dp. num.mul (fl.abs dp) fl.tenth) (dot_products eigenvalues) in
        record {
          id = item.id;
          final_score = if not (fl.is_finite score) then num.of_ℕ 0 else score;
          processed_count = 1;
        }
  ]
