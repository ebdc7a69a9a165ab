-- ===== src/Engine/Supervisor.antt =====
-- The supervisor of a core's process (`externalProcessSupervisor` of internal/engine/supervisor.go)
-- with a path for its process state. What the system does during an operation is an argument of it.
pub mod Records
pub mod Handoff
use boxctl.Base.{
  ℕ, ◌+◌, ◌≡◌, Bool, true, false, ◌||◌, ◌&&◌, not, Option, none, some, List, [], ◌∷◌, ◌++◌, nat_eq,
  leb, if◌then◌else◌, text_Eq, ◌==◌, nat_Eq,
}
use boxctl.Base.Text.{Text, codes}
use boxctl.State.Files.{Fault, fine, before_rename, after_rename}
use boxctl.Engine.StateFile.{
  SupervisorError, Result, refused, already_running, not_running, launch_failed, changed, not_exist,
  write_failed, PreparedCore, no_core, PersistedCore, persist_prepared_core, prepared_core,
  Execution, no_execution, PersistedProcess, Codec, Found, read_process_state, record_of,
  encode_state,
}
use boxctl.Base.Answers.{Answer, ok, err, ◌>>=◌, ◌>>◌, fail_if}

pub record Supervisor : Type 0 where
  pub cmd : Option ℕ
  pub pid : ℕ
  pub execution : Execution
  pub prepared : PreparedCore
  pub started_at : ℕ
  pub last_exit_error : Text

-- the supervisor, its state file, and the prepared cores that were cleaned up
pub record System : Type 0 where
  pub supervisor : Supervisor
  pub state_file : Option Text
  pub cleaned : List PreparedCore

abbrev pub cleared : Supervisor → Supervisor
cleared s = record s { cmd = none; pid = 0; execution = no_execution; prepared = no_core }

-- `clearRunningLocked`
abbrev pub clear_running : System → System
clear_running system = record system { supervisor = cleared system.supervisor }

abbrev pub remove_process_state : System → System
remove_process_state system = record system { state_file = none }

abbrev pub cleanup_prepared : PreparedCore → System → System
cleanup_prepared prepared system =
    if prepared.runtime_config_path == []
    then system
    else record system { cleaned = system.cleaned ++ prepared ∷ [] }

abbrev pub exit_error : Option Text → Text → Text
exit_error none before = before
exit_error (some e) before = e

-- What the system does during a start: whether the core is accepted, which command and process it
-- launches, what it says of the process, the time, and how the write of the state ends.
pub record Launch : Type 0 where
  pub accepted : Bool
  pub process : Option (ℕ × ℕ)
  pub captured : Option Execution
  pub now : ℕ
  pub writes : Fault

abbrev pub launched : ℕ → ℕ → ℕ → PreparedCore → System → System
launched command process_id now prepared system = record system {
  supervisor = record {
    cmd = some command;
    pid = process_id;
    execution = system.supervisor.execution;
    prepared = prepared;
    started_at = now;
    last_exit_error = [];
  };
}

abbrev pub identified : Execution → System → System
identified execution system = record system {
  supervisor = record system.supervisor { execution = execution };
}

-- the end of a start: the state is written, or the process is killed
abbrev pub recorded : System × Result (Unit {0}) → System × Result (Unit {0})
recorded (system, err e) = (remove_process_state (clear_running system), err e)
recorded (system, ok done) = (system, ok tt)

-- `state.WriteFileAtomic` of the state, if there is a text for it
abbrev pub write_text : Fault → System → Result Text → System × Result (Unit {0})
write_text fault system (err e) = (system, err e)
write_text fine system (ok text) = (record system { state_file = some text }, ok tt)
write_text before_rename system (ok text) = (system, err write_failed)
write_text after_rename system (ok text) =
    (record system { state_file = some text }, err write_failed)

abbrev pub is_command : ℕ → Option ℕ → Bool
is_command command none = false
is_command command (some c) = nat_eq c command

-- The part of `waitProcess` that holds the lock, with the core that has finished.
unfoldable pub finish_process : ℕ → Option Text → System → System × PreparedCore
finish_process command failure system =
    if is_command command system.supervisor.cmd
    then (
      record system {
        supervisor = record (cleared system.supervisor) {
          last_exit_error = exit_error failure system.supervisor.last_exit_error;
        };
      },
      system.supervisor.prepared,
    )
    else (system, no_core)

-- `waitProcess`, when no other operation takes place between its parts
abbrev pub after_finish : System × PreparedCore → System
after_finish (system, finished) = cleanup_prepared finished (remove_process_state system)

unfoldable pub wait_process : ℕ → Option Text → System → System
unfolding finish_process
wait_process command failure system = after_finish (finish_process command failure system)

-- `reapAdoptedChild` once the process has ended
unfoldable pub reap_adopted : Text → ℕ → Text → PreparedCore → System → System
reap_adopted display_name pid identity prepared system =
    if not (nat_eq system.supervisor.pid pid)
      || not (system.supervisor.execution.identity == identity)
    then system
    else cleanup_prepared prepared (
        remove_process_state (record system {
          supervisor = record (cleared system.supervisor) {
            last_exit_error = codes "adopted " ++ (display_name ++ codes " process exited");
          };
        }))

-- What the system says of a process that a former manager has left: whether the state file is
-- private and regular, and can be read, whether a core is accepted, whether a process is there, and
-- whether it is still the execution that was recorded. Of a record of version 1, whether the
-- process has its identity, binary and arguments, what its execution is, and how the write of the
-- new record ends.
pub record Inspection : Type 0 where
  pub private_file : Bool
  pub readable : Bool
  pub accepts : PreparedCore → Bool
  pub exists : ℕ → Bool
  pub matches : ℕ → Execution → Text → Bool
  pub matches_legacy : ℕ → Text → Text → List Text → Bool
  pub captured : ℕ → Option Execution
  pub upgrades : Fault

-- Whether a signal is sent to the process group, and whether the group was the supervisor's.
pub data Delivery : Type 0 where
  delivered gone failed : Delivery

abbrev pub kill_result : Delivery → Bool × Result Bool
kill_result delivered = (true, ok true)
kill_result gone = (true, ok false)
kill_result failed = (true, err refused)

-- `signalVerifiedProcessGroup`
unfoldable pub signal_verified :
    Inspection → Delivery → ℕ → Execution → Text → Bool → Bool × Result Bool
signal_verified inspection delivery pid execution binary alive =
    if not (execution.identity == []) && not (inspection.matches pid execution binary)
    then (false, if not alive then ok false else err changed)
    else if leb pid 1
    then (false, err refused)
    else kill_result delivery

module _ (codec : Codec) (engine : Text) where
  -- `writeProcessStateValues`
  unfoldable pub write_process_state : Fault → PreparedCore → System → System × Result (Unit {0})
  unfolding encode_state
  write_process_state fault prepared system =
      let s = system.supervisor in
      write_text fault system
        (encode_state codec engine (record_of codec engine s.pid s.execution s.started_at prepared))

  abbrev pub capture : Fault → PreparedCore → Option Execution → System → System × Result (Unit {0})
  capture writes prepared none system = (clear_running system, err launch_failed)
  capture writes prepared (some execution) system =
      recorded (write_process_state writes prepared (identified execution system))

  abbrev pub start_process :
      Launch → PreparedCore → Option (ℕ × ℕ) → System → System × Result (Unit {0})
  start_process launch prepared none system = (system, err launch_failed)
  start_process launch prepared (some (command, process_id)) system =
      capture launch.writes prepared launch.captured
        (launched command process_id launch.now prepared system)

  -- `Start`
  unfoldable pub start : Launch → PreparedCore → System → System × Result (Unit {0})
  unfolding write_process_state
  start launch prepared system =
      if not launch.accepted
      then (system, err refused)
      else if not (nat_eq system.supervisor.pid 0)
      then (system, err already_running)
      else start_process launch prepared launch.process system

  abbrev pub taken_over : PersistedProcess → PreparedCore → System → System
  taken_over p prepared system = record system {
    supervisor = record system.supervisor {
      pid = p.pid;
      execution = p.execution;
      prepared = prepared;
      started_at = p.started_at;
      last_exit_error = [];
    };
  }

  -- the execution of the process that is adopted, if it is the recorded one
  abbrev pub captured_execution : Option Execution → Result Execution
  captured_execution none = err launch_failed
  captured_execution (some execution) = ok execution

  abbrev pub inspect :
      Inspection → PersistedProcess → PreparedCore → Option (List Text) → Result Execution
  inspect inspection p prepared none = do
    fail_if (not (inspection.matches p.pid p.execution prepared.binary_path)) changed
    ok p.execution
  inspect inspection p prepared (some args) = do
    fail_if (not (inspection.matches_legacy p.pid p.execution.identity prepared.binary_path args))
        changed
    captured_execution (inspection.captured p.pid)

  -- the new record for a core whose record had version 1
  abbrev pub after_upgrade :
      PreparedCore → System × Result (Unit {0}) → System × Result PreparedCore
  after_upgrade prepared (system, err e) = (clear_running system, err e)
  after_upgrade prepared (system, ok done) = (system, ok prepared)

  abbrev pub upgrade :
      Fault → PreparedCore → Option (List Text) → System → System × Result PreparedCore
  upgrade fault prepared none system = (system, ok prepared)
  upgrade fault prepared (some args) system =
      after_upgrade prepared (write_process_state fault prepared system)

  -- the locked part of `Adopt`
  abbrev pub adopt_inspected :
      Fault
      → PersistedProcess
      → PreparedCore
      → Option (List Text)
      → Result Execution
      → System
      → System × Result PreparedCore
  adopt_inspected fault p prepared legacy (err e) system = (system, err e)
  adopt_inspected fault p prepared legacy (ok execution) system =
      if not (nat_eq system.supervisor.pid 0)
      then (system, err already_running)
      else upgrade fault prepared legacy
          (taken_over (record p { execution = execution }) prepared system)

  abbrev pub adopt_read : Inspection → Result Found → System → System × Result PreparedCore
  adopt_read inspection (err e) system = (system, err e)
  adopt_read inspection (ok found) system =
      let p = found.process in
      let prepared = prepared_core p.prepared in
      if not (inspection.accepts prepared)
      then (system, err refused)
      else if not (inspection.exists p.pid)
      then (cleanup_prepared prepared (remove_process_state system), err not_exist)
      else adopt_inspected inspection.upgrades p prepared found.legacy
          (inspect inspection p prepared found.legacy) system

  -- `Adopt`
  unfoldable pub adopt : Inspection → System → System × Result PreparedCore
  unfolding read_process_state write_process_state
  adopt inspection system =
      adopt_read inspection
        (read_process_state codec engine inspection.private_file inspection.readable
          system.state_file)
        system

  -- `replacePrepared`: the core in memory follows the running process also when it is not written
  unfoldable pub replace_prepared : Fault → PreparedCore → System → System
  unfolding write_process_state
  replace_prepared writes prepared system =
      if nat_eq system.supervisor.pid 0
      then system
      else (write_process_state writes prepared
          (record system { supervisor = record system.supervisor { prepared = prepared } })).0
