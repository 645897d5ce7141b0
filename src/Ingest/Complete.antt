-- ===== src/Ingest/Complete.antt =====
-- apps/demo-domain/ingest-service/src/ingest-service.ts: a call in which nothing fails.
use mathlib.Core.List.{map-append, append_assoc, append-nil}
use modular_runtime.Shared.{
  ℕ, zero, suc, ◌+◌, ◌-◌, String, Option, some, none, List, [], ◌∷◌, ◌++◌, map, Bool, true, false,
  ◌≡◌, refl, sym, ap, ◌∙◌, inl, inr, Bool-cases, arith, All,
}
use modular_runtime.Ingest.{
  Event, Output, sent, Arrival, Reading, ended, write, is_over, stream_lines, flush_rest,
  stream_file, outcome,
}
use modular_runtime.Ingest.Equivalence.{
  batching_changes_nothing, at_once, at_once-stops, at_once-goes, event_of,
}

abbrev pub take : List String → ℕ → List String
take xs zero = []
take [] (suc n) = []
take (x ∷ xs) (suc n) = x ∷ take xs n

-- The lines up to a limit on their number, if `passed` are behind
abbrev pub up_to : Option ℕ → ℕ → List String → List String
up_to none passed lines = lines
up_to (some most) passed lines = take lines (most - passed)

abbrev pub IsUncancelled : Arrival → Type 0
IsUncancelled a = a.cancelled ≡ false

abbrev pub no_fault : ℕ → Option String
no_fault n = none

abbrev pub raw_lines : Output → List String
raw_lines o = map (λ e. e.raw_json) o.written

up_to-over :
    (max_events : Option ℕ) (sequence : ℕ) (lines : List String)
    → is_over max_events sequence ≡ true
    → up_to max_events sequence lines ≡ []
up_to-over none sequence lines h = cc
up_to-over (some most) sequence lines h =
    let over : most - sequence ≡ 0 = ground arith in ap (take lines) over

up_to-below :
    (max_events : Option ℕ) (sequence : ℕ) (line : String) (lines : List String)
    → is_over max_events sequence ≡ false
    → up_to max_events sequence (line ∷ lines) ≡ line ∷ up_to max_events (sequence + 1) lines
up_to-below none sequence line lines h = refl
up_to-below (some most) sequence line lines h =
    let one_less : most - sequence ≡ suc (most - (sequence + 1)) = ground arith in
    ap (take (line ∷ lines)) one_less

up_to-nil : (max_events : Option ℕ) (sequence : ℕ) → up_to max_events sequence [] ≡ []
up_to-nil none sequence = refl
up_to-nil (some most) sequence = elim (most - sequence) as (λ n. take [] n ≡ []) [
  | zero ↦ refl
  | suc n ↦ refl
]

module _ (show : ℕ → String) (max_events : Option ℕ) (batch_size : ℕ) where
  at_once-all :
      (arrivals : List Arrival) (q : Reading) (sequence : ℕ) (o : Output)
      → All IsUncancelled arrivals
      → (o' : Output) × (at_once no_fault show max_events batch_size arrivals q sequence o
          ≡ sent o')
        × (raw_lines o' ≡ raw_lines o ++ up_to max_events sequence (map (λ a. a.line) arrivals))
  unfolding stream_lines flush_rest write
  at_once-all [] q sequence o h =
      (o, refl, rw (up_to-nil max_events sequence) (sym (append-nil (raw_lines o))))
  at_once-all (a ∷ arrivals) q sequence o h = elim (Bool-cases (is_over max_events sequence)) [
    | inl over ↦ (
      o,
      at_once-stops no_fault show max_events batch_size a arrivals q sequence o (ground arith),
      rw (up_to-over max_events sequence (a.line ∷ map (λ x. x.line) arrivals) over)
          (sym (append-nil (raw_lines o))),
    )
    | inr below ↦
        let o1 : Output = record {
          written = o.written ++ event_of no_fault show max_events batch_size a sequence ∷ [];
          streamed_events = o.streamed_events + 1;
        } in
        let (o', e, lines) = at_once-all arrivals q (sequence + 1) o1 h.1 in
        (
          o',
          at_once-goes no_fault show max_events batch_size a arrivals q sequence o (ground arith)
              ∙ e,
          lines
              ∙ rw
                  (
                    map-append {A = Event} (λ x. x.raw_json) o.written
                        (event_of no_fault show max_events batch_size a sequence ∷ []),
                    up_to-below max_events sequence a.line (map (λ x. x.line) arrivals) below,
                  )
                  (append_assoc (raw_lines o) _ _),
        )
  ]

-- A call whose lines all arrive before it is cancelled, and whose writes succeed, ends, and has written the
-- lines of the file in their order, with a limit as many as that allows, with batching or without.
pub stream_file-all :
    (show : ℕ → String) (max_events : Option ℕ) (enable_batching : Bool)
    (batch_size streamed now : ℕ) (arrivals : List Arrival)
    → All IsUncancelled arrivals
    → (o : Output) × (stream_file no_fault show max_events enable_batching batch_size streamed now
          arrivals
        ≡ ended o)
      × (raw_lines o ≡ up_to max_events 0 (map (λ a. a.line) arrivals))
unfolding stream_file outcome
stream_file-all show max_events false batch_size streamed now arrivals h =
    let o : Output = record { written = []; streamed_events = streamed } in
    let q : Reading = record { output = o; sequence = 0; batch = []; batch_start = now } in
    let (o', e, lines) = at_once-all show max_events batch_size arrivals q 0 o h in
    (o', ap outcome e, lines)
stream_file-all show max_events true batch_size streamed now arrivals h =
    let o : Output = record { written = []; streamed_events = streamed } in
    let q : Reading = record { output = o; sequence = 0; batch = []; batch_start = now } in
    let (o', e, lines) = at_once-all show max_events batch_size arrivals q 0 o h in
    (
      o',
      batching_changes_nothing no_fault show max_events batch_size streamed now arrivals
          ∙ ap outcome e,
      lines,
    )
