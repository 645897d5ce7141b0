-- ===== src/Supervisor/Draining.antt =====
-- apps/supervisor/src/supervisor.tsx: the shutdown and the exits that it waits for.
use modular_runtime.Shared.{
  ℕ, zero, suc, ◌-◌, String, Option, some, List, [], ◌∷◌, true, false, ◌≡◌, refl, arith, ltb, eqb,
  length, nil-of_length, get_elem?, inl, inr, Bool-cases, Option-cases, All,
}
use modular_runtime.Supervisor.{ServiceEntry}
use modular_runtime.Supervisor.Lifecycle.{handle_exit}
use modular_runtime.Supervisor.Shutdown.{
  Supervisor, replace, remove, contains, running_processes, shutdown_supervisor, process_exit,
  count_exit, stop_running,
}

-- An exit of the process of the service at a place of the list.
pub record Exit : Type 0 where
  pub place : ℕ
  pub process : ℕ
  pub code : Option ℕ
  pub signal : Option String

-- What is awaited after some exits, in whatever order.
unfoldable pub without : List Exit → List ℕ → List ℕ
without [] ps = ps
without (e ∷ es) ps = without es (remove e.process ps)

abbrev pub IsPlace : ℕ → Exit → Type 0
IsPlace count e = ltb e.place count ≡ true

-- The count agrees with the list, and the supervisor has exited when it is empty.
record IsCounting (awaited : List ℕ) (v : Supervisor) : Type 0 where
  listed : v.awaited ≡ awaited
  counted : v.remaining ≡ length awaited
  left : v.exited ≡ eqb (length awaited) 0

length-replace {ℓ} :
    {A : Type ℓ} (i : ℕ) (x : A) (xs : List A) → length (replace i x xs) ≡ length xs
unfolding replace
length-replace i x [] = refl
length-replace zero x (y ∷ ys) = refl
length-replace (suc i) x (y ∷ ys) = omega (arith, length-replace i x ys)

length-remove :
    (p : ℕ) (ps : List ℕ) → contains p ps ≡ true → length ps ≡ suc (length (remove p ps))
unfolding remove contains
length-remove p [] h = cc
length-remove p (q ∷ qs) h = ground (arith, length-remove p qs)

remove-missing : (p : ℕ) (ps : List ℕ) → contains p ps ≡ false → remove p ps ≡ ps
unfolding remove contains
remove-missing p [] h = refl
remove-missing p (q ∷ qs) h = ground (arith, remove-missing p qs)

get_elem?-some {ℓ} :
    {A : Type ℓ} (xs : List A) (i : ℕ)
    → ltb i (length xs) ≡ true
    → (x : A) × (get_elem? xs i ≡ some x)
get_elem?-some [] i h = absurd (ground arith)
get_elem?-some (x ∷ xs) zero h = (x, refl)
get_elem?-some (x ∷ xs) (suc i) h = get_elem?-some xs i (ground arith)

length-stop_running : (ss : List ServiceEntry) → length (stop_running ss) ≡ length ss
unfolding stop_running
length-stop_running [] = refl
length-stop_running (s ∷ ss) = elim (Option-cases s.process) [
  | inl e ↦ rw e (omega (arith, length-stop_running ss))
  | inr (p, e) ↦ rw e (omega (arith, length-stop_running ss))
]

module _ (text_of : ℕ → String) (stamp : String) where
  unfoldable pub exit_all : List Exit → Supervisor → Supervisor
  exit_all [] v = v
  exit_all (e ∷ es) v = exit_all es (process_exit text_of stamp e.place e.process e.code e.signal v)

  count_exit-IsCounting :
      (p : ℕ) (name : String) (awaited : List ℕ) (v : Supervisor)
      → contains p awaited ≡ true
      → v.awaited ≡ awaited
      → v.remaining ≡ length awaited
      → v.exited ≡ eqb (length awaited) 0
      → IsCounting (remove p awaited) (count_exit text_of stamp p name v)
  unfolding count_exit
  count_exit-IsCounting p name awaited v h listed counted left =
      let shorter = length-remove p awaited h in
      elim (Bool-cases (eqb (v.remaining - 1) 0)) [
        | inl last ↦
            rw last
              (record { listed = rw listed refl; counted = ground arith; left = ground arith })
        | inr more ↦
            rw more
              (record { listed = rw listed refl; counted = ground arith; left = ground arith })
      ]

  process_exit-IsCounting :
      (e : Exit) (awaited : List ℕ) (v : Supervisor)
      → IsPlace (length v.services) e
      → IsCounting awaited v
      → IsCounting
          (remove e.process awaited)
          (process_exit text_of stamp e.place e.process e.code e.signal v)
  unfolding process_exit
  process_exit-IsCounting e awaited v h c =
      let (service, found) = get_elem?-some v.services e.place h in
      elim (Bool-cases (contains e.process v.awaited)) [
        | inl there ↦
            rw (found, process_exit, there, ← c.listed)
              (count_exit-IsCounting e.process service.config.name v.awaited _ there refl
                (rw c.listed c.counted) (rw c.listed c.left))
        | inr missing ↦
            rw
              (found, process_exit, missing, ← c.listed, remove-missing e.process v.awaited missing)
              (record { listed = refl; counted = rw c.listed c.counted; left = rw c.listed c.left })
      ]

  length-process_exit :
      (e : Exit) (v : Supervisor)
      → length (process_exit text_of stamp e.place e.process e.code e.signal v).services
        ≡ length v.services
  unfolding process_exit count_exit
  length-process_exit e v = elim (Option-cases (get_elem? v.services e.place)) [
    | inl none_there ↦ rw (none_there, process_exit) refl
    | inr (service, found) ↦
        rw (found, process_exit)
          (ground (
            arith,
            length-replace e.place
                (handle_exit text_of stamp v.shutting_down e.code e.signal (service, v.event_log)).0
                v.services,
          ))
  ]

  exit_all-IsCounting :
      (es : List Exit) (awaited : List ℕ) (v : Supervisor)
      → All (IsPlace (length v.services)) es
      → IsCounting awaited v
      → IsCounting (without es awaited) (exit_all es v)
  unfolding exit_all without
  exit_all-IsCounting [] awaited v h c = c
  exit_all-IsCounting (e ∷ es) awaited v h c =
      exit_all-IsCounting es (remove e.process awaited)
        (process_exit text_of stamp e.place e.process e.code e.signal v)
        (rw (length-process_exit e v) h.1) (process_exit-IsCounting e awaited v h.0 c)

  length-shutdown :
      (signal : String) (v : Supervisor)
      → length (shutdown_supervisor text_of stamp signal v).services ≡ length v.services
  unfolding shutdown_supervisor
  length-shutdown signal v = ground (arith, length-stop_running v.services)

  shutdown-IsCounting :
      (signal : String) (v : Supervisor)
      → v.shutting_down ≡ false
      → v.exited ≡ false
      → v.awaited ≡ []
      → IsCounting (running_processes v.services) (shutdown_supervisor text_of stamp signal v)
  unfolding shutdown_supervisor
  shutdown-IsCounting signal v up running empty =
      elim (Bool-cases (eqb (length (running_processes v.services)) 0)) [
        | inl quiet ↦
            let idle = nil-of_length (running_processes v.services) quiet in
            rw (up, quiet)
              (record {
                listed = rw (empty, idle) refl;
                counted = rw idle refl;
                left = rw idle refl;
              })
        | inr busy ↦
            rw (up, busy) (record { listed = refl; counted = refl; left = rw busy running })
      ]

  -- A supervisor that is told to shut down for the first time has, after any exits of processes of its
  -- services in any order, called `process.exit` exactly if every process that was running at the
  -- shutdown is among them.
  pub shutdown-exits :
      (signal : String) (es : List Exit) (v : Supervisor)
      → v.shutting_down ≡ false
      → v.exited ≡ false
      → v.awaited ≡ []
      → All (IsPlace (length v.services)) es
      → (exit_all es (shutdown_supervisor text_of stamp signal v)).exited
        ≡ eqb (length (without es (running_processes v.services))) 0
  shutdown-exits signal es v up running empty h =
      (exit_all-IsCounting es (running_processes v.services)
        (shutdown_supervisor text_of stamp signal v) (rw (length-shutdown signal v) h)
        (shutdown-IsCounting signal v up running empty)).left
