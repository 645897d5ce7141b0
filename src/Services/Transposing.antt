-- ===== src/Services/Transposing.antt =====
-- apps/demo-domain/parse-service/src/workitem-processor.ts: matrices that are transposed twice.
use mathlib.Core.List.{append_assoc}
use modular_runtime.Shared.{
  ℕ, zero, suc, Option, some, none, List, [], ◌∷◌, ◌++◌, length, length-append, get_elem?, or_else,
  ◌≡◌, refl, sym, ap, ◌∙◌, arith, All,
}
use modular_runtime.Topology.Types.{Number}
use modular_runtime.Ingest.WorkItems.{Vector, Matrix}
use modular_runtime.Services.WorkItems.{column, columns, transpose_rows, transpose_matrix}

abbrev pub IsWide : {R : Type 0} → ℕ → Vector R → Type 0
IsWide n row = length row.values ≡ n

module _ {R : Type 0} (default : R) where
  -- The values from one on, of so many
  abbrev slice : ℕ → ℕ → List R → List R
  slice zero col values = []
  slice (suc n) col values = or_else (get_elem? values col) default ∷ slice n (suc col) values

  slice-cons : (n col : ℕ) (x : R) (xs : List R) → slice n (suc col) (x ∷ xs) ≡ slice n col xs
  slice-cons zero col x xs = refl
  slice-cons (suc n) col x xs =
      ap (λ rest. or_else (get_elem? xs col) default ∷ rest) (slice-cons n (suc col) x xs)

  slice-all : (xs : List R) → slice (length xs) 0 xs ≡ xs
  slice-all [] = refl
  slice-all (x ∷ xs) = ap (λ rest. x ∷ rest) (slice-cons (length xs) 0 x xs ∙ slice-all xs)

  get_elem?-column :
      (col i : ℕ) (rows : List (Vector R)) (row : Vector R)
      → get_elem? rows i ≡ some row
      → get_elem? (column default col rows) i ≡ some (or_else (get_elem? row.values col) default)
  get_elem?-column col i [] row h = cc
  get_elem?-column col zero (r ∷ rows) row h =
      ap
        (λ o. elim o as (λ p. Option R) [
          | none ↦ none
          | some v ↦ some (or_else (get_elem? v.values col) default)
        ])
        h
  get_elem?-column col (suc i) (r ∷ rows) row h = get_elem?-column col i rows row h

  column-columns :
      (n col i : ℕ) (rows : List (Vector R)) (row : Vector R)
      → get_elem? rows i ≡ some row
      → column default i (columns default n col rows) ≡ slice n col row.values
  unfolding columns
  column-columns zero col i rows row h = refl
  column-columns (suc n) col i rows row h = rw (get_elem?-column col i rows row h) (
      ap (λ rest. or_else (get_elem? row.values col) default ∷ rest)
        (column-columns n (suc col) i rows row h))

  get_elem?-append :
      (before after : List (Vector R)) (row : Vector R)
      → get_elem? (before ++ row ∷ after) (length before) ≡ some row
  get_elem?-append [] after row = refl
  get_elem?-append (r ∷ before) after row = get_elem?-append before after row

  columns-columns :
      (n : ℕ) (before after : List (Vector R))
      → All (IsWide n) after
      → columns default (length after) (length before) (columns default n 0 (before ++ after))
        ≡ after
  unfolding columns
  columns-columns n before [] h = refl
  columns-columns n before (row ∷ after) h =
      let row_back : column default (length before) (columns default n 0 (before ++ row ∷ after))
          ≡ row.values =
        column-columns n 0 (length before) (before ++ row ∷ after) row
          (get_elem?-append before after row)
        ∙ ap (λ k. slice k 0 row.values) (sym h.0)
        ∙ slice-all row.values in
      let next : length (before ++ row ∷ []) ≡ suc (length before) =
        omega (arith, length-append before (row ∷ [])) in
      let rest : columns default (length after) (suc (length before))
            (columns default n 0 (before ++ row ∷ after))
          ≡ after =
        sym (
          ap
            (λ k.
              columns default (length after) k
                (columns default n 0 ((before ++ row ∷ []) ++ after)))
            next
          ∙ ap (λ xs. columns default (length after) (suc (length before)) (columns default n 0 xs))
              (append_assoc before (row ∷ []) after))
        ∙ columns-columns n (before ++ row ∷ []) after h.1 in
      ap
        (λ v.
          record { values = v }
          ∷ columns default (length after) (suc (length before))
              (columns default n 0 (before ++ row ∷ after)))
        row_back
      ∙ ap (λ xs. row ∷ xs) rest

  column-length :
      (col : ℕ) (rows : List (Vector R)) → length (column default col rows) ≡ length rows
  column-length col [] = refl
  column-length col (row ∷ rows) = ap (λ k. suc k) (column-length col rows)

  transpose_rows-twice :
      (n : ℕ) (rows : List (Vector R))
      → All (IsWide (suc n)) rows
      → transpose_rows default (transpose_rows default rows) ≡ rows
  unfolding transpose_rows columns
  transpose_rows-twice n [] h = refl
  transpose_rows-twice n (row ∷ rows) h =
      ap (λ k. transpose_rows default (columns default k 0 (row ∷ rows))) h.0
      ∙ ap (λ k. columns default k 0 (columns default (suc n) 0 (row ∷ rows)))
          (column-length 0 (row ∷ rows))
      ∙ columns-columns (suc n) [] (row ∷ rows) h

-- A matrix whose rows all have the same length, which is not 0, is what it was when it is transposed twice.
pub transpose_matrix-transpose_matrix :
    {R : Type 0} ⦃num : Number R⦄ (n : ℕ) (matrix : Matrix R)
    → All (IsWide (suc n)) matrix.rows
    → transpose_matrix (transpose_matrix matrix) ≡ matrix
unfolding transpose_matrix transpose_rows columns
transpose_matrix-transpose_matrix ⦃num = num⦄ n matrix h =
    ap (λ rows. record { rows = rows }) (transpose_rows-twice (num.of_ℕ 0) n matrix.rows h)
