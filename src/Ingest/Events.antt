-- ===== src/Ingest/Events.antt =====
-- apps/demo-domain/ingest-service/src/ingest-service.ts: the events that a call writes.
use modular_runtime.Shared.{
  ℕ, ◌+◌, String, Option, some, none, List, [], ◌∷◌, Bool, true, false, not, ◌||◌, ◌&&◌, length,
  ◌≡◌, refl, inl, inr, Bool-cases, arith,
}
use modular_runtime.Shared.Text.{◌⧺◌}
use modular_runtime.Ingest.{
  Event, WorkloadConfig, WorkloadMode, StreamEventsRequest, Limits, parse_max_events, Output, Sent,
  sent, thrown, ◌>>=◌, Arrival, Reading, Outcome, write, is_over, stream_lines, flush_rest,
  stream_file, outcome,
}
use modular_runtime.Ingest.Equivalence.{
  batching_changes_nothing, at_once, at_once-stops, at_once-goes, event_of,
}
use modular_runtime.Ingest.WorkItems.{WorkItem, generate_work_item}
use modular_runtime.Ingest.Handler.{Call, stream_work_items, stream_events, after_write, pad_start}
use modular_runtime.Ingest.Numbering.{
  output_of, AtMost, IsNumbered, IsNumberedSent, IsOneMore, numbered_write,
}

module _ (show : ℕ → String) where
  module _ (fault : ℕ → Option String) (max_events : Option ℕ) (streamed : ℕ) where
    bind-IsNumbered :
        (n : ℕ) (w : Sent Output) (f : Output → Sent Output)
        → IsNumberedSent show fault max_events streamed w
          × IsOneMore show fault max_events streamed n w
        → ((o : Output)
            → IsNumbered show max_events streamed o
            → length o.written ≡ n + 1
            → IsNumberedSent show fault max_events streamed (f o))
        → IsNumberedSent show fault max_events streamed (w >>= f)
    bind-IsNumbered n (sent o) f h next = next o h.0 h.1
    bind-IsNumbered n (thrown message o) f h next = h.0

    at_once-IsNumbered :
        (batch_size : ℕ) (arrivals : List Arrival) (q : Reading) (sequence : ℕ) (o : Output)
        → IsNumbered show max_events streamed o
        → length o.written ≡ sequence
        → IsNumberedSent show fault max_events streamed
            (at_once fault show max_events batch_size arrivals q sequence o)
    unfolding stream_lines flush_rest
    at_once-IsNumbered batch_size [] q sequence o h e = h
    at_once-IsNumbered batch_size (a ∷ arrivals) q sequence o h e =
        elim (Bool-cases (a.cancelled || is_over max_events sequence)) [
          | inl stops ↦
              rw (at_once-stops fault show max_events batch_size a arrivals q sequence o stops) h
          | inr goes ↦
              let event = event_of fault show max_events batch_size a sequence in
              rw (at_once-goes fault show max_events batch_size a arrivals q sequence o goes) (
                bind-IsNumbered sequence (write fault event o) _
                  (numbered_write show fault max_events streamed event o sequence h e refl
                    (ground arith))
                  (λ o' h' e'. at_once-IsNumbered batch_size arrivals q (sequence + 1) o' h' e'))
        ]

    start-IsNumbered :
        IsNumbered show max_events streamed (record { written = []; streamed_events = streamed })
    start-IsNumbered = record {
      sequences = refl;
      at_most = elim max_events as (λ m. AtMost m 0) [ none ↦ tt | some most ↦ omega arith ];
      counted = omega arith;
    }

    outcome-IsNumbered :
        (w : Sent Output)
        → IsNumberedSent show fault max_events streamed w
        → IsNumbered show max_events streamed (output_of (outcome w))
    unfolding outcome
    outcome-IsNumbered (sent o) h = h
    outcome-IsNumbered (thrown message o) h = h

    stream_at_once-IsNumbered :
        (batch_size now : ℕ) (arrivals : List Arrival)
        → IsNumbered show max_events streamed
            (output_of (stream_file fault show max_events false batch_size streamed now arrivals))
    unfolding stream_file
    stream_at_once-IsNumbered batch_size now arrivals =
        let o : Output = record { written = []; streamed_events = streamed } in
        outcome-IsNumbered _ (
          at_once-IsNumbered batch_size arrivals
            (record { output = o; sequence = 0; batch = []; batch_start = now }) 0 o
            start-IsNumbered refl)

    stream_file-IsNumbered :
        (enable_batching : Bool) (batch_size now : ℕ) (arrivals : List Arrival)
        → IsNumbered show max_events streamed (
            output_of
              (stream_file fault show max_events enable_batching batch_size streamed now arrivals))
    stream_file-IsNumbered false batch_size now arrivals =
        stream_at_once-IsNumbered batch_size now arrivals
    stream_file-IsNumbered true batch_size now arrivals =
        rw (batching_changes_nothing fault show max_events batch_size streamed now arrivals)
          (stream_at_once-IsNumbered batch_size now arrivals)

    after_write-IsNumbered :
        (n : ℕ) (w : Sent Output) (f : Output → Outcome)
        → IsNumberedSent show fault max_events streamed w
          × IsOneMore show fault max_events streamed n w
        → ((o : Output)
            → IsNumbered show max_events streamed o
            → length o.written ≡ n + 1
            → IsNumbered show max_events streamed (output_of (f o)))
        → IsNumbered show max_events streamed (output_of (after_write w f))
    unfolding after_write
    after_write-IsNumbered n (sent o) f h next = next o h.0 h.1
    after_write-IsNumbered n (thrown message o) f h next = h.0

    stream_work_items-IsNumbered :
        {R : Type 0} (random : ℕ → R) (json : WorkItem R → String) (config : WorkloadConfig R)
        (cancellations : List Bool) (sequence i : ℕ) (o : Output)
        → IsNumbered show max_events streamed o
        → length o.written ≡ sequence
        → IsNumbered show max_events streamed (
            output_of (
              stream_work_items random json show fault max_events config cancellations sequence i
                o))
    unfolding stream_work_items
    stream_work_items-IsNumbered random json config [] sequence i o h e = h
    stream_work_items-IsNumbered random json config (cancelled ∷ rest) sequence i o h e =
        let (item, i') = generate_work_item random ("w-" ⧺ pad_start 6 (show sequence)) config i in
        let event : Event = record { raw_json = json item; sequence = show sequence } in
        elim (Bool-cases (not (is_over max_events sequence) && not cancelled)) [
          | inl goes ↦
              rw (stream_work_items, goes)
                (after_write-IsNumbered sequence (write fault event o) _
                  (numbered_write show fault max_events streamed event o sequence h e refl
                    (ground arith))
                  (λ o' h' e'.
                    stream_work_items-IsNumbered random json config rest (sequence + 1) i' o' h'
                      e'))
          | inr stops ↦ rw (stream_work_items, stops) h
        ]

-- In either mode, whatever the input, however the call ends, and also while it runs: the events written bear the numbers
-- 0, 1, 2 and so on, in this order, are no more than the request's finite positive limit, and the
-- service's count has grown by just their number.
pub stream_events-IsNumbered :
    {R N : Type 0} (random : ℕ → R) (json : WorkItem R → String) (show : ℕ → String)
    (fault : ℕ → Option String) (zero_ratio : R) (limits : Limits N) (default_input_file : String)
    (request : StreamEventsRequest R) (call : Call) (streamed : ℕ)
    → IsNumbered show (parse_max_events limits request.max_events) streamed (
        output_of (
          stream_events random json show fault zero_ratio limits default_input_file request call
            streamed))
unfolding stream_events
stream_events-IsNumbered random json show fault zero_ratio limits default_input_file request call
      streamed =
    let max_events = parse_max_events limits request.max_events in
    elim request.workload_mode
      as (λ mode. IsNumbered show (parse_max_events limits request.max_events) streamed (
        output_of (
          stream_events random json show fault zero_ratio limits default_input_file
            (record request { workload_mode = mode }) call streamed))) [
              | WorkloadMode.work_items ↦
                  stream_work_items-IsNumbered show fault max_events streamed random json _
                    call.cancellations 0 0 _ (start-IsNumbered show fault max_events streamed) refl
              | WorkloadMode.events ↦
                  stream_file-IsNumbered show fault max_events streamed request.enable_batching _
                    call.now _
              | WorkloadMode.mixed ↦
                  stream_file-IsNumbered show fault max_events streamed request.enable_batching _
                    call.now _
            ]
