-- ===== src/Ingest/Numbering.antt =====
-- apps/demo-domain/ingest-service/src/ingest-service.ts: how events are numbered, limited and counted.
use mathlib.Core.List.{map-append}
use mathlib.Core.Path.{subst}
use modular_runtime.Shared.{
  ℕ, zero, suc, ◌+◌, ◌≤◌, String, Option, some, none, List, [], ◌∷◌, ◌++◌, map, false, length,
  length-append, ◌≡◌, refl, inl, inr, Option-cases, arith,
}
use modular_runtime.Ingest.{
  Event, Output, Sent, sent, thrown, Outcome, ended, destroyed, running, write, is_over,
}

abbrev pub output_of : Outcome → Output
output_of (ended o) = o
output_of (destroyed message o) = o
output_of (running o) = o

abbrev pub AtMost : Option ℕ → ℕ → Type 0
AtMost none n = Unit
AtMost (some most) n = n ≤ most

module _ (show : ℕ → String) where
  -- The numbers from 0 on, printed
  abbrev pub numbers : ℕ → List String
  numbers zero = []
  numbers (suc n) = numbers n ++ show n ∷ []

  -- The events bear the numbers from 0 on, are no more than asked for, and each is counted once.
  pub record IsNumbered (max_events : Option ℕ) (streamed : ℕ) (o : Output) : Type 0 where
    pub sequences : map (λ e. e.sequence) o.written ≡ numbers (length o.written)
    pub at_most : AtMost max_events (length o.written)
    pub counted : o.streamed_events ≡ streamed + length o.written

  module _ (fault : ℕ → Option String) (max_events : Option ℕ) (streamed : ℕ) where
    abbrev pub IsNumberedSent : Sent Output → Type 0
    IsNumberedSent (sent o) = IsNumbered max_events streamed o
    IsNumberedSent (thrown message o) = IsNumbered max_events streamed o

    abbrev pub IsOneMore : ℕ → Sent Output → Type 0
    IsOneMore n (sent o) = length o.written ≡ n + 1
    IsOneMore n (thrown message o) = Unit

    longer : (e : Event) (xs : List Event) → length (xs ++ e ∷ []) ≡ suc (length xs)
    longer e xs = omega (arith, length-append xs (e ∷ []))

    written-IsNumbered :
        (e : Event) (o : Output)
        → IsNumbered max_events streamed o
        → e.sequence ≡ show (length o.written)
        → is_over max_events (length o.written) ≡ false
        → IsNumbered max_events streamed
            (record { written = o.written ++ e ∷ []; streamed_events = o.streamed_events + 1 })
    written-IsNumbered e o h n below = record {
      sequences =
          rw
            (
              longer e o.written,
              map-append {A = Event} (λ x. x.sequence) o.written (e ∷ []),
              h.sequences,
              n,
            )
            refl;
      at_most = rw (longer e o.written) (ground arith);
      counted = rw (longer e o.written) (omega (arith, h.counted));
    }

    write-IsNumbered :
        (e : Event) (o : Output)
        → IsNumbered max_events streamed o
        → e.sequence ≡ show (length o.written)
        → is_over max_events (length o.written) ≡ false
        → IsNumberedSent (write fault e o) × IsOneMore (length o.written) (write fault e o)
    unfolding write
    write-IsNumbered e o h n below = elim (Option-cases (fault (length o.written))) [
      | inl fine ↦
          rw (fine, write, longer e o.written) (written-IsNumbered e o h n below, omega arith)
      | inr (message, failed) ↦ rw (failed, write) (h, tt)
    ]

    pub numbered_write :
        (e : Event) (o : Output) (sequence : ℕ)
        → IsNumbered max_events streamed o
        → length o.written ≡ sequence
        → e.sequence ≡ show sequence
        → is_over max_events sequence ≡ false
        → IsNumberedSent (write fault e o) × IsOneMore sequence (write fault e o)
    numbered_write e o sequence h at =
        subst
          (λ n.
            e.sequence ≡ show n
            → is_over max_events n ≡ false
            → IsNumberedSent (write fault e o) × IsOneMore n (write fault e o))
          at (write-IsNumbered e o h)
