-- ===== src/Ingest/WorkItems.antt =====
-- apps/demo-domain/ingest-service/src/workitem-generator.ts. `random i` is what the `i`-th call of `Math.random`
-- gives; a generator returns the number of the next call with its result.
use modular_runtime.Shared.{
  ℕ, zero, suc, ◌+◌, ◌*◌, String, List, [], ◌∷◌, eqb, if◌then◌else◌, length, ◌≡◌, refl, arith, All,
  ◌<◌,
}
use modular_runtime.Shared.Text.{◌⧺◌}
use modular_runtime.Ingest.{WorkloadConfig, PayloadSize}

pub record Vector (R : Type 0) : Type 0 where
  pub values : List R

pub record Matrix (R : Type 0) : Type 0 where
  pub rows : List (Vector R)

pub record WorkItem (R : Type 0) : Type 0 where
  pub id : String
  pub vectors : List (Vector R)
  pub matrix : Matrix R
  pub text : String
  pub iterations : ℕ

-- `s.repeat(n)`
unfoldable pub repeat : String → ℕ → String
repeat s zero = ""
repeat s (suc n) = s ⧺ repeat s n

unfoldable pub text_repetitions : PayloadSize → ℕ
text_repetitions PayloadSize.large = 50
text_repetitions PayloadSize.medium = 20
text_repetitions PayloadSize.small = 5

unfoldable pub generate_text : PayloadSize → String
generate_text payload_size =
    repeat "Lorem ipsum dolor sit amet, consectetur adipiscing elit. "
      (text_repetitions payload_size)

unfoldable pub get_size_from_config : PayloadSize → ℕ
get_size_from_config PayloadSize.large = 20
get_size_from_config PayloadSize.medium = 10
get_size_from_config PayloadSize.small = 5

module _ {R : Type 0} (random : ℕ → R) where
  unfoldable pub random_values : ℕ → ℕ → List R × ℕ
  random_values zero i = ([], i)
  random_values (suc n) i =
      let (values, next) = random_values n (i + 1) in (random i ∷ values, next)

  unfoldable pub generate_vectors : ℕ → ℕ → ℕ → List (Vector R) × ℕ
  generate_vectors zero size i = ([], i)
  generate_vectors (suc count) size i =
      let (values, i') = random_values size i in
      let (vectors, i'') = generate_vectors count size i' in
      (record { values = values } ∷ vectors, i'')

  -- The rows are made as the vectors are.
  unfoldable pub generate_matrix : ℕ → ℕ → ℕ → Matrix R × ℕ
  generate_matrix rows cols i =
      let (made, next) = generate_vectors rows cols i in (record { rows = made }, next)

  unfoldable pub generate_work_item : String → WorkloadConfig R → ℕ → WorkItem R × ℕ
  generate_work_item id config i =
      let size = get_size_from_config config.payload_size in
      let (vectors, i') = generate_vectors 2 size i in
      let (matrix, i'') = generate_matrix size size i' in
      let item : WorkItem R = record {
        id = id;
        vectors = vectors;
        matrix = matrix;
        text = generate_text config.payload_size;
        iterations = if eqb config.compute_iterations 0 then 500 else config.compute_iterations;
      } in
      (item, i'')

  abbrev pub IsLong : ℕ → Vector R → Type 0
  IsLong size v = length v.values ≡ size

  random_values-length :
      (n i : ℕ) → let (values, next) = random_values n i in (length values ≡ n) × (next ≡ i + n)
  unfolding random_values
  random_values-length zero i = omega arith
  random_values-length (suc n) i = omega (arith, random_values-length n (i + 1))

  generate_vectors-IsLong :
      (count size i : ℕ)
      → let (vectors, next) = generate_vectors count size i in
        (length vectors ≡ count) × All (IsLong size) vectors × (next ≡ i + count * size)
  unfolding generate_vectors
  generate_vectors-IsLong zero size i = (refl, tt, omega arith)
  generate_vectors-IsLong (suc count) size i =
      let (values, i') = random_values size i in
      let (long, after) = random_values-length size i in
      let (as_many, all, last) = generate_vectors-IsLong count size i' in
      (omega (arith, as_many), (long, all), omega (arith, after, last))

  -- A work item has two vectors and a square matrix of the size of its payload (all rows and vectors
  -- are that long) and a positive number of iterations; making it takes as many random numbers as it holds.
  pub generate_work_item-IsSized :
      (id : String) (config : WorkloadConfig R) (i : ℕ)
      → let size = get_size_from_config config.payload_size in
        let (item, next) = generate_work_item id config i in
        (length item.vectors ≡ 2)
        × All (IsLong size) item.vectors
        × (length item.matrix.rows ≡ size)
        × All (IsLong size) item.matrix.rows
        × (0 < item.iterations)
        × (next ≡ i + 2 * size + size * size)
  unfolding generate_work_item generate_matrix
  generate_work_item-IsSized id config i =
      let size = get_size_from_config config.payload_size in
      let (two, vectors, i') = generate_vectors-IsLong 2 size i in
      let (square, rows, i'') = generate_vectors-IsLong size size (generate_vectors 2 size i).1 in
      (two, vectors, square, rows, ground arith, omega (arith, i', i''))
