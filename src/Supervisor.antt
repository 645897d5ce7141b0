-- ===== src/Supervisor.antt =====
-- apps/supervisor/src/supervisor.tsx: the state of the supervisor, its two bounded logs, and the
-- policy by which it restarts a service. A child process is its number, and so is a pending timer
-- its delay. `text_of` prints a number; a time stamp is an argument, one for each turn of the event
-- loop. The terminal interface and the reading of the configuration file are left out.
pub mod Lifecycle
pub mod Shutdown
pub mod Logs
pub mod Laws
pub mod Draining
pub mod Restarts
pub mod Tests
use Prim.Native.Char.{Char, code}
use Prim.Native.String
use modular_runtime.Shared.{
  ℕ, ◌+◌, ◌&&◌, String, Option, some, none, List, [], ◌∷◌, ◌++◌, Bool, true, false, ◌==◌, ltb, leb,
  eqb, if◌then◌else◌, or_else, length,
}
use modular_runtime.Shared.Dict.{Dict}
use modular_runtime.Shared.Text.{◌⧺◌, truthy?}

pub data ServiceStatus : Type 0 where
  idle starting running waiting_restart restarting stopped failed : ServiceStatus

pub data StatusColor : Type 0 where
  green red yellow magenta gray : StatusColor

unfoldable pub get_status_color : ServiceStatus → StatusColor
get_status_color ServiceStatus.running = StatusColor.green
get_status_color ServiceStatus.failed = StatusColor.red
get_status_color ServiceStatus.stopped = StatusColor.red
get_status_color ServiceStatus.starting = StatusColor.yellow
get_status_color ServiceStatus.restarting = StatusColor.yellow
get_status_color ServiceStatus.waiting_restart = StatusColor.magenta
get_status_color ServiceStatus.idle = StatusColor.gray

pub data RestartPolicy : Type 0 where
  never on_failure always : RestartPolicy

pub data OutputStream : Type 0 where
  stdout stderr : OutputStream

pub record ServiceConfig : Type 0 where
  pub name : String
  pub command : String
  pub args : Option (List String)
  pub cwd : Option String
  pub env : Option (Dict String)
  pub restart : Option RestartPolicy
  pub max_restarts : Option ℕ
  pub restart_delay : Option ℕ
  pub restart_on_unexpected_exit : Option Bool
  pub log_color : Option String

pub record ServiceEntry : Type 0 where
  pub config : ServiceConfig
  pub process : Option ℕ
  pub restarts : ℕ
  pub last_exit_code : Option ℕ
  pub status : ServiceStatus
  pub status_message : Option String
  pub shutting_down : Bool
  pub pending_restart : Option ℕ

pub record EventEntry : Type 0 where
  pub timestamp : String
  pub message : String

pub record OutputEntry : Type 0 where
  pub timestamp : String
  pub service_name : String
  pub stream : OutputStream
  pub message : String
  pub color : Option String

pub record RestartDecision : Type 0 where
  pub allow : Bool
  pub reason : Option String

abbrev pub max_event_entries : ℕ
max_event_entries = 8

abbrev pub max_output_entries : ℕ
max_output_entries = 40

abbrev pub default_restart_timeout_ms : ℕ
default_restart_timeout_ms = 2000

-- `Array.shift`
abbrev pub shift {ℓ} : {A : Type ℓ} → List A → List A
shift [] = []
shift (x ∷ xs) = xs

-- A push that drops the oldest entry of a log that has grown beyond its limit.
unfoldable pub push_bounded {ℓ} : {A : Type ℓ} → ℕ → List A → A → List A
push_bounded limit log x =
    let pushed = log ++ x ∷ [] in if ltb limit (length pushed) then shift pushed else pushed

unfoldable pub push_event : String → String → List EventEntry → List EventEntry
push_event stamp message log =
    push_bounded max_event_entries log (record { timestamp = stamp; message = message })

abbrev pub default_color : OutputStream → String
default_color OutputStream.stdout = "green"
default_color OutputStream.stderr = "red"

unfoldable pub push_output :
    String → ServiceEntry → OutputStream → String → List OutputEntry → List OutputEntry
push_output stamp service stream message log = push_bounded max_output_entries log (record {
  timestamp = stamp;
  service_name = service.config.name;
  stream = stream;
  message = message;
  color =
      if truthy? service.config.log_color
      then service.config.log_color
      else some (default_color stream);
})

starts_line : String → Bool
starts_line String.[] = false
starts_line (String.◌∷◌ c s) = eqb (code c) 10

put_first : Char → List String → List String
put_first c [] = String.◌∷◌ c String.[] ∷ []
put_first c (line ∷ lines) = String.◌∷◌ c line ∷ lines

-- `text.split(/\r?\n/)`
unfoldable pub split_lines : String → List String
unfolding starts_line put_first
split_lines String.[] = "" ∷ []
split_lines (String.◌∷◌ c s) =
    let rest = split_lines s in
    if eqb (code c) 10
    then "" ∷ rest
    else if eqb (code c) 13 && starts_line s
    then rest
    else put_first c rest

-- The loop over the lines: empty lines are skipped. `stamps n` is the time stamp of the entry with number `n`.
unfoldable pub log_lines :
    (ℕ → String)
    → ℕ
    → ServiceEntry
    → OutputStream
    → List String
    → List OutputEntry
    → List OutputEntry
log_lines stamps n service stream [] log = log
log_lines stamps n service stream (raw_line ∷ lines) log =
    let skipped = log_lines stamps n service stream lines log in
    let logged =
      log_lines stamps (n + 1) service stream lines
        (push_output (stamps n) service stream raw_line log) in
    if raw_line == "" then skipped else logged

-- `logServiceOutput` on the decoded text of a chunk
unfoldable pub log_service_output :
    (ℕ → String) → ServiceEntry → OutputStream → String → List OutputEntry → List OutputEntry
log_service_output stamps service stream text log =
    log_lines stamps 0 service stream (split_lines text) log

module _ (text_of : ℕ → String) where
  -- The part of `determineRestartDecision` after the limit.
  unfoldable pub policy_decision : RestartPolicy → Option ℕ → RestartDecision
  policy_decision RestartPolicy.always code = record { allow = true; reason = none }
  policy_decision RestartPolicy.on_failure none = record { allow = true; reason = none }
  policy_decision RestartPolicy.on_failure (some code) =
      if eqb code 0
      then record { allow = false; reason = some "clean exit (exit code 0)" }
      else record { allow = true; reason = none }
  policy_decision RestartPolicy.never code = record {
    allow = false;
    reason = some "restart policy set to never";
  }

  unfoldable pub determine_restart_decision : ServiceEntry → RestartDecision
  determine_restart_decision service =
      let max_restarts = or_else service.config.max_restarts 5 in
      if leb max_restarts service.restarts
      then record {
        allow = false;
        reason = some ("max restarts (" ⧺ text_of max_restarts ⧺ ") reached");
      }
      else policy_decision (or_else service.config.restart RestartPolicy.never)
          service.last_exit_code
