-- ===== src/Services/Sink.antt =====
-- apps/demo-domain/sink-service/src/sink-service.ts: `formatResult` and the handler of `writeResults`. `print` and `show`
-- print numbers, and `stringify` is `JSON.stringify` on the record of a work item. The file is the list of the lines that were
-- written to it; `fault` says which write of the chain fails, and with what message.
use mathlib.Core.Path.{subst}
use mathlib.Core.List.{append-nil, append_assoc}
use modular_runtime.Shared.{
  ℕ, ◌+◌, ◌/◌, String, Option, some, none, List, [], ◌∷◌, ◌++◌, Bool, true, false, ◌==◌,
  if◌then◌else◌, ◌≡◌, refl, sym, ◌∙◌, arith, length, length-append, Option-cases, inl, inr,
}
use modular_runtime.Shared.Text.{◌⧺◌}
use modular_runtime.Pipeline.Aggregation.{AggregateResult}

pub record FormattedWorkItem (R : Type 0) : Type 0 where
  pub work_item_id : String
  pub vector_checksum : R
  pub final_score : R
  pub timestamp : ℕ

-- `s.startsWith('w-')`
unfoldable pub starts_with : String → String → Bool
starts_with String.[] s = true
starts_with (String.◌∷◌ c prefix) String.[] = false
starts_with (String.◌∷◌ c prefix) (String.◌∷◌ d s) =
    let rest = starts_with prefix s in
    if String.◌∷◌ c String.[] == String.◌∷◌ d String.[] then rest else false

pub record Sink : Type 0 where
  pub chain : List String
  pub written : ℕ

unfoldable pub new_sink : Sink
new_sink = record { chain = []; written = 0 }

pub data SinkReply : Type 0 where
  failed : String → SinkReply
  wrote : ℕ → SinkReply

module _ {R : Type 0} (print : R → String) (show : ℕ → String)
    (stringify : FormattedWorkItem R → String) where
  unfoldable pub format_result : AggregateResult R → String
  format_result result =
      if starts_with "w-" result.key
      then stringify (record {
        work_item_id = result.key;
        vector_checksum = result.sum;
        final_score = result.avg;
        timestamp = result.count / 1000;
      })
      else "{\"key\":\""
        ⧺ (result.key
            ⧺ ("\",\"count\":"
                ⧺ (show result.count
                    ⧺ (",\"sum\":"
                        ⧺ (print result.sum ⧺ (",\"avg\":" ⧺ (print result.avg ⧺ "}")))))))

  unfoldable pub write_results_data : Option (AggregateResult R) → Sink → Sink
  write_results_data none s = s
  write_results_data (some result) s = record {
    chain = s.chain ++ (format_result result ⧺ "\n") ∷ [];
    written = s.written + 1;
  }

  unfoldable pub receive_all : List (Option (AggregateResult R)) → Sink → Sink
  receive_all [] s = s
  receive_all (result ∷ rest) s = receive_all rest (write_results_data result s)

-- The writes of the chain, from the `i`-th on; none is tried after one that failed.
unfoldable pub run_chain : (ℕ → Option String) → List String → ℕ → List String × Option String
run_chain fault [] i = ([], none)
run_chain fault (line ∷ rest) i =
    let (written, failure) = run_chain fault rest (i + 1) in
    elim (fault i) [ none ↦ (line ∷ written, failure) | some message ↦ ([], some message) ]

abbrev pub reply_of : Option String → ℕ → SinkReply
reply_of none written = wrote written
reply_of (some message) written = failed message

unfoldable pub write_results_end : (ℕ → Option String) → Sink → List String × SinkReply
write_results_end fault s =
    let (lines, failure) = run_chain fault s.chain 0 in (lines, reply_of failure s.written)

module _ {R : Type 0} (print : R → String) (show : ℕ → String)
    (stringify : FormattedWorkItem R → String) where
  abbrev pub lines_of : List (Option (AggregateResult R)) → List String
  lines_of [] = []
  lines_of (none ∷ rest) = lines_of rest
  lines_of (some result ∷ rest) = (format_result print show stringify result ⧺ "\n") ∷ lines_of rest

  receive_all-chain :
      (requests : List (Option (AggregateResult R))) (s : Sink)
      → s.written ≡ length s.chain
      → let s' = receive_all print show stringify requests s in
        (s'.chain ≡ s.chain ++ lines_of requests) × (s'.written ≡ length s'.chain)
  unfolding receive_all write_results_data
  receive_all-chain [] s h = (sym (append-nil s.chain), h)
  receive_all-chain (none ∷ rest) s h = receive_all-chain rest s h
  receive_all-chain (some result ∷ rest) s h =
      let line = format_result print show stringify result ⧺ "\n" in
      let s' : Sink = record { chain = s.chain ++ line ∷ []; written = s.written + 1 } in
      let (e, n) =
        receive_all-chain rest s' (omega (arith, h, length-append s.chain (line ∷ []))) in
      (e ∙ append_assoc s.chain (line ∷ []) (lines_of rest), n)

run_chain-done :
    (fault : ℕ → Option String) (lines : List String) (i : ℕ)
    → (run_chain fault lines i).1 ≡ none
    → (run_chain fault lines i).0 ≡ lines
unfolding run_chain
run_chain-done fault [] i h = refl
run_chain-done fault (line ∷ rest) i h = ground (arith, run_chain-done fault rest (i + 1))

-- When the sink answers with a number, each result that was sent, in order, is a line of the file, there are
-- no other lines, and the number is how many there are.
pub write_results-lines :
    {R : Type 0} (print : R → String) (show : ℕ → String) (stringify : FormattedWorkItem R → String)
    (fault : ℕ → Option String) (requests : List (Option (AggregateResult R))) (n : ℕ)
    → (write_results_end fault (receive_all print show stringify requests new_sink)).1 ≡ wrote n
    → let (lines, reply) =
        write_results_end fault (receive_all print show stringify requests new_sink) in
      (lines ≡ lines_of print show stringify requests) × (n ≡ length lines)
unfolding write_results_end new_sink
write_results-lines print show stringify fault requests n h =
    let s = receive_all print show stringify requests new_sink in
    let (e, counted) = receive_all-chain print show stringify requests new_sink refl in
    elim (Option-cases (run_chain fault s.chain 0).1) [
      | inl fine ↦
          let all = run_chain-done fault s.chain 0 fine in
          let told : wrote s.written ≡ wrote n =
            subst (λ o. reply_of o s.written ≡ wrote n) fine h in
          (all ∙ e, rw all (cc (told, counted)))
      | inr (message, failure) ↦
          (let told : failed message ≡ wrote n =
              subst (λ o. reply_of o s.written ≡ wrote n) failure h in
            absurd (cc told))
    ]
