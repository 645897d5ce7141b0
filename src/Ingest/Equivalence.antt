-- ===== src/Ingest/Equivalence.antt =====
-- apps/demo-domain/ingest-service/src/ingest-service.ts: events that are collected in batches and events that are sent
-- at once.
use modular_runtime.Shared.{
  ℕ, ◌+◌, String, Option, List, [], ◌∷◌, ◌++◌, Bool, true, false, ◌||◌, ltb, if◌then◌else◌, length,
  ◌≡◌, refl, sym, ap, ◌∙◌, inl, inr, Bool-cases, arith,
}
use modular_runtime.Ingest.{
  Event, Output, Sent, sent, thrown, ◌>>=◌, Arrival, Reading, write, write_all, flush, should_flush,
  take_line, next_line, is_over, stream_lines, flush_rest, stream_file, outcome,
}

bind_assoc :
    {A B C : Type 0} (m : Sent A) (f : A → Sent B) (g : B → Sent C)
    → ((m >>= f) >>= g) ≡ (m >>= (λ a. f a >>= g))
bind_assoc (sent a) f g = refl
bind_assoc (thrown message o) f g = refl

bind_cong :
    {A B : Type 0} (m : Sent A) (f g : A → Sent B) → ((a : A) → f a ≡ g a) → (m >>= f) ≡ (m >>= g)
bind_cong (sent a) f g h = h a
bind_cong (thrown message o) f g h = refl

bind_sent : {A : Type 0} (m : Sent A) → (m >>= (λ a. sent a)) ≡ m
bind_sent (sent a) = refl
bind_sent (thrown message o) = refl

module _ (fault : ℕ → Option String) where
  write_all-snoc :
      (xs : List Event) (e : Event) (o : Output)
      → write_all fault (xs ++ e ∷ []) o ≡ (write_all fault xs o >>= write fault e)
  unfolding write_all
  write_all-snoc [] e o = bind_sent (write fault e o)
  write_all-snoc (x ∷ xs) e o =
      bind_cong (write fault x o) _ _ (write_all-snoc xs e)
      ∙ sym (bind_assoc (write fault x o) (write_all fault xs) (write fault e))

  module _ (show : ℕ → String) (max_events : Option ℕ) (batch_size : ℕ) where
    -- The rest of the unbatched run, from an output and a sequence number on
    abbrev pub at_once : List Arrival → Reading → ℕ → Output → Sent Output
    at_once arrivals r sequence o =
        stream_lines fault show max_events false batch_size arrivals
          (record r { output = o; sequence = sequence })
        >>= flush_rest fault false

    abbrev collecting : List Arrival → Reading → Sent Output
    collecting arrivals r =
        stream_lines fault show max_events true batch_size arrivals r >>= flush_rest fault true

    flush_rest-write_all :
        (r : Reading) → flush_rest fault true r ≡ write_all fault r.batch r.output
    unfolding flush_rest write_all
    flush_rest-write_all r =
        elim r.batch
          as (λ b.
            (if ltb 0 (length b) then write_all fault b r.output else sent r.output)
            ≡ write_all fault b r.output) [ [] ↦ refl | x ∷ xs ↦ ground arith ]

    stream_lines-stops :
        (enable_batching : Bool) (a : Arrival) (arrivals : List Arrival) (r : Reading)
        → (a.cancelled || is_over max_events r.sequence) ≡ true
        → stream_lines fault show max_events enable_batching batch_size (a ∷ arrivals) r ≡ sent r
    unfolding stream_lines
    stream_lines-stops enable_batching a arrivals r h = rw (stream_lines, h) refl

    abbrev pub event_of : Arrival → ℕ → Event
    event_of a sequence = record { raw_json = a.line; sequence = show sequence }

    stream_lines-goes :
        (enable_batching : Bool) (a : Arrival) (arrivals : List Arrival) (r : Reading)
        → (a.cancelled || is_over max_events r.sequence) ≡ false
        → stream_lines fault show max_events enable_batching batch_size (a ∷ arrivals) r ≡ (
            take_line fault enable_batching batch_size a.now a.later (event_of a r.sequence) r
            >>= (λ r'.
                stream_lines fault show max_events enable_batching batch_size arrivals
                  (next_line r')))
    unfolding stream_lines
    stream_lines-goes enable_batching a arrivals r h = rw (stream_lines, h) refl

    pub at_once-stops :
        (a : Arrival) (arrivals : List Arrival) (q : Reading) (sequence : ℕ) (o : Output)
        → (a.cancelled || is_over max_events sequence) ≡ true
        → at_once (a ∷ arrivals) q sequence o ≡ sent o
    unfolding flush_rest
    at_once-stops a arrivals q sequence o h =
        ap (λ s. s >>= flush_rest fault false)
          (stream_lines-stops false a arrivals (record q { output = o; sequence = sequence }) h)

    pub at_once-goes :
        (a : Arrival) (arrivals : List Arrival) (q : Reading) (sequence : ℕ) (o : Output)
        → (a.cancelled || is_over max_events sequence) ≡ false
        → at_once (a ∷ arrivals) q sequence o
          ≡ (write fault (event_of a sequence) o >>= at_once arrivals q (sequence + 1))
    unfolding take_line flush_rest
    at_once-goes a arrivals q sequence o h =
        let r : Reading = record q { output = o; sequence = sequence } in
        let w = write fault (event_of a sequence) o in
        ap (λ s. s >>= flush_rest fault false) (stream_lines-goes false a arrivals r h)
        ∙ ap (λ s. s >>= flush_rest fault false) (bind_assoc w _ _)
        ∙ bind_assoc w _ _

    -- A line that is collected, whether or not the batch is then sent
    collected-at_once :
        (a : Arrival) (arrivals : List Arrival) (r q : Reading)
        → ((r' : Reading)
            → collecting arrivals r'
              ≡ (write_all fault r'.batch r'.output >>= at_once arrivals q r'.sequence))
        → (take_line fault true batch_size a.now a.later (event_of a r.sequence) r
            >>= (λ r'. collecting arrivals (next_line r')))
          ≡ (write_all fault (r.batch ++ event_of a r.sequence ∷ []) r.output
              >>= at_once arrivals q (r.sequence + 1))
    unfolding take_line flush write_all
    collected-at_once a arrivals r q ih =
        let collected : Reading = record r { batch = r.batch ++ event_of a r.sequence ∷ [] } in
        let w = write_all fault collected.batch r.output in
        elim (Bool-cases (should_flush batch_size a.now collected)) [
          | inl full ↦
              rw (take_line, full)
                (bind_assoc w _ _
                  ∙ bind_cong w _ _ (λ o. ih (record r {
                    output = o;
                    batch = [];
                    batch_start = a.later;
                    sequence = r.sequence + 1;
                  })))
          | inr short ↦ rw (take_line, short) (ih (next_line collected))
        ]

    -- What is collected is written as the rest is.
    collecting-at_once :
        (arrivals : List Arrival) (r q : Reading)
        → collecting arrivals r
          ≡ (write_all fault r.batch r.output >>= at_once arrivals q r.sequence)
    unfolding stream_lines flush_rest
    collecting-at_once [] r q =
        flush_rest-write_all r ∙ sym (bind_sent (write_all fault r.batch r.output))
    collecting-at_once (a ∷ arrivals) r q =
        elim (Bool-cases (a.cancelled || is_over max_events r.sequence)) [
          | inl stops ↦
              ap (λ s. s >>= flush_rest fault true) (stream_lines-stops true a arrivals r stops)
              ∙ flush_rest-write_all r
              ∙ sym (bind_sent (write_all fault r.batch r.output))
              ∙ bind_cong (write_all fault r.batch r.output) _ _
                  (λ o. sym (at_once-stops a arrivals q r.sequence o stops))
          | inr goes ↦
              ap (λ s. s >>= flush_rest fault true) (stream_lines-goes true a arrivals r goes)
              ∙ bind_assoc (take_line fault true batch_size a.now a.later (event_of a r.sequence) r)
                  _ _
              ∙ collected-at_once a arrivals r q (λ r'. collecting-at_once arrivals r' q)
              ∙ ap (λ s. s >>= at_once arrivals q (r.sequence + 1))
                  (write_all-snoc r.batch (event_of a r.sequence) r.output)
              ∙ bind_assoc (write_all fault r.batch r.output) _ _
              ∙ bind_cong (write_all fault r.batch r.output) _ _
                  (λ o. sym (at_once-goes a arrivals q r.sequence o goes))
        ]

-- Whatever lines arrive, when they arrive, how many events are asked for, when the call is cancelled and which
-- writes fail: with batching, the same events are written in the same order, the same number is counted,
-- and the call ends in the same way as without.
pub batching_changes_nothing :
    (fault : ℕ → Option String) (show : ℕ → String) (max_events : Option ℕ)
    (batch_size streamed now : ℕ) (arrivals : List Arrival)
    → stream_file fault show max_events true batch_size streamed now arrivals
      ≡ stream_file fault show max_events false batch_size streamed now arrivals
unfolding stream_file write_all
batching_changes_nothing fault show max_events batch_size streamed now arrivals =
    let r : Reading = record {
      output = record { written = []; streamed_events = streamed };
      sequence = 0;
      batch = [];
      batch_start = now;
    } in
    ap outcome (collecting-at_once fault show max_events batch_size arrivals r r)
