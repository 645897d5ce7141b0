-- ===== src/Supervisor/Logs.antt =====
-- apps/supervisor/src/supervisor.tsx: what the bounded logs hold.
use modular_runtime.Shared.{
  ℕ, suc, ◌+◌, ◌≤◌, min, String, List, [], ◌∷◌, ◌++◌, not, ◌==◌, ◌≡◌, refl, ap, sym, ◌∙◌, arith,
  ltb, if◌then◌else◌, length, length-append, keep, some, inl, inr, Bool-cases,
}
use mathlib.Core.List.{append_assoc, append-nil}
use modular_runtime.Shared.Text.{truthy?}
use modular_runtime.Supervisor.{
  ServiceEntry, OutputStream, OutputEntry, push_bounded, push_output, split_lines, log_lines,
  log_service_output, shift, max_output_entries, default_color,
}

-- `new` is the end of `all` and has `limit` entries, or all if there are fewer.
pub record IsRecent {A : Type 0} (limit : ℕ) (all new : List A) : Type 0 where
  pub dropped : List A
  pub is_end : dropped ++ new ≡ all
  pub full : length new ≡ min limit (length all)

module _ {A : Type 0} where
  shift-IsRecent : (limit : ℕ) (xs : List A) → length xs ≡ suc limit → IsRecent limit xs (shift xs)
  shift-IsRecent limit [] h = absurd (omega arith)
  shift-IsRecent limit (x ∷ xs) h = record { dropped = x ∷ []; is_end = refl; full = omega arith }

  push_bounded-IsRecent :
      (limit : ℕ) (log : List A) (x : A)
      → length log ≤ limit
      → IsRecent limit (log ++ x ∷ []) (push_bounded limit log x)
  unfolding push_bounded
  push_bounded-IsRecent limit log x h = elim (Bool-cases (ltb limit (length (log ++ x ∷ [])))) [
    | inl over ↦
        rw over (shift-IsRecent limit (log ++ x ∷ []) (ground (arith, length-append log (x ∷ []))))
    | inr fits ↦ rw fits (record { dropped = []; is_end = refl; full = ground arith })
  ]

  IsRecent-trans :
      (limit : ℕ) (all new xs newer : List A)
      → IsRecent limit all new
      → IsRecent limit (new ++ xs) newer
      → IsRecent limit (all ++ xs) newer
  IsRecent-trans limit all new xs newer a b = record {
    dropped = a.dropped ++ b.dropped;
    is_end =
        append_assoc a.dropped b.dropped newer
        ∙ ap (λ ys. a.dropped ++ ys) b.is_end
        ∙ sym (append_assoc a.dropped new xs)
        ∙ ap (λ ys. ys ++ xs) a.is_end;
    full = b.full ∙ rw (length-append new xs, length-append all xs, a.full) (omega arith);
  }

  IsRecent-bound : (limit : ℕ) (all new : List A) → IsRecent limit all new → length new ≤ limit
  IsRecent-bound limit all new r = omega (arith, r.full)

-- What `pushOutput` makes of a line.
unfoldable pub output_entry : String → ServiceEntry → OutputStream → String → OutputEntry
output_entry stamp service stream line = record {
  timestamp = stamp;
  service_name = service.config.name;
  stream = stream;
  message = line;
  color =
      if truthy? service.config.log_color
      then service.config.log_color
      else some (default_color stream);
}

abbrev pub non_empty : List String → List String
non_empty = keep (λ line. not (line == ""))

-- One entry for each line, numbered from `n`
abbrev pub entries : (ℕ → String) → ℕ → ServiceEntry → OutputStream → List String → List OutputEntry
entries stamps n service stream [] = []
entries stamps n service stream (line ∷ lines) =
    output_entry (stamps n) service stream line ∷ entries stamps (n + 1) service stream lines

module _ (service : ServiceEntry) (stream : OutputStream) where
  push_output-IsRecent :
      (stamp line : String) (log : List OutputEntry)
      → length log ≤ max_output_entries
      → IsRecent max_output_entries
          (log ++ output_entry stamp service stream line ∷ [])
          (push_output stamp service stream line log)
  unfolding push_output output_entry
  push_output-IsRecent stamp line log h =
      push_bounded-IsRecent max_output_entries log (output_entry stamp service stream line) h

  log_lines-IsRecent :
      (stamps : ℕ → String) (n : ℕ) (lines : List String) (log : List OutputEntry)
      → length log ≤ max_output_entries
      → IsRecent max_output_entries
          (log ++ entries stamps n service stream (non_empty lines))
          (log_lines stamps n service stream lines log)
  unfolding log_lines
  log_lines-IsRecent stamps n [] log h = record {
    dropped = [];
    is_end = sym (append-nil log);
    full = rw (append-nil log) (omega arith);
  }
  log_lines-IsRecent stamps n (line ∷ lines) log h = elim (Bool-cases (line == "")) [
    | inl blank ↦ rw blank (log_lines-IsRecent stamps n lines log h)
    | inr written ↦
        let pushed = push_output-IsRecent (stamps n) line log h in
        let pushed_log = push_output (stamps n) service stream line log in
        let later =
          log_lines-IsRecent stamps (n + 1) lines pushed_log
            (IsRecent-bound max_output_entries _ pushed_log pushed) in
        rw
          (
            written,
            ← append_assoc log (output_entry (stamps n) service stream line ∷ [])
                (entries stamps (n + 1) service stream (non_empty lines)),
          )
          (IsRecent-trans max_output_entries _ pushed_log _ _ pushed later)
  ]

  -- After a chunk of output, whenever its entries are stamped, the output log holds the most recent 40 of what it held before
  -- followed by one entry for each line of the chunk that is not empty, or all of them if there are fewer. A line ends
  -- at a line feed, which may follow a carriage return.
  pub log_service_output-IsRecent :
      (stamps : ℕ → String) (text : String) (log : List OutputEntry)
      → length log ≤ max_output_entries
      → IsRecent max_output_entries
          (log ++ entries stamps 0 service stream (non_empty (split_lines text)))
          (log_service_output stamps service stream text log)
  unfolding log_service_output
  log_service_output-IsRecent stamps text log h =
      log_lines-IsRecent stamps 0 (split_lines text) log h
