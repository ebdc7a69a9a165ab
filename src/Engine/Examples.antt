-- ===== src/Engine/Examples.antt =====
-- Tests and instances for internal/engine/supervisor.go.
use boxctl.Base.{ℕ, ◌≡◌, refl, true, none, some, List, [], ◌∷◌, ◌++◌, text_Eq}
use boxctl.Base.Text.{Text, codes}
use boxctl.Base.Answers.{err}
use boxctl.Engine.LineLog.{LineLogWriter, write, write_all, joined}
use boxctl.Engine.LineLog.Chunks.{write_all-joined}
use boxctl.State.Files.{fine, after_rename}
use boxctl.Engine.ToyCodec.{toy_codec, toy_laws}
use boxctl.Engine.StateFile.{
  PreparedCore, PersistedProcess, persist_prepared_core, Execution, no_core, no_execution,
  validate_persisted_state, not_exist, sing_box_engine,
}
use boxctl.Engine.Supervisor.{
  Supervisor, System, Launch, Inspection, start, finish_process, remove_process_state, adopt,
}
use boxctl.Engine.Supervisor.Records.{IsRecorded}
use boxctl.Engine.Supervisor.Handoff.{Operation, starts, exits, replaces, run-IsRecorded, left_by}

abbrev core : PreparedCore
core = record {
  engine = sing_box_engine;
  binary_path = codes "/usr/bin/sing-box";
  runtime_config_path = codes "/run/c.json";
  owned_path = [];
  details = [];
}

abbrev execution_of : Text → Execution
execution_of identity = record {
  identity = identity;
  executable = codes "/usr/bin/sing-box";
  argv = codes "sing-box" ∷ codes "run" ∷ [];
}

abbrev idle : Supervisor
idle = record {
  cmd = none;
  pid = 0;
  execution = no_execution;
  prepared = no_core;
  started_at = 0;
  last_exit_error = [];
}

abbrev empty_system : System
empty_system = record { supervisor = idle; state_file = none; cleaned = [] }

abbrev launch_of : ℕ → ℕ → Launch
launch_of command process_id = record {
  accepted = true;
  process = some (command, process_id);
  captured = some (execution_of (codes "boot/7"));
  now = 5;
  writes = fine;
}

abbrev trusting : Inspection
trusting = record {
  private_file = true;
  readable = true;
  accepts = λ _. true;
  exists = λ _. true;
  matches = λ _ _ _. true;
  matches_legacy = λ _ _ _ _. true;
  captured = λ _. none;
  upgrades = fine;
}

abbrev restarted : List Operation
restarted =
    starts (launch_of 1 100) core
    ∷ exits none
    ∷ starts (launch_of 2 200) core
    ∷ replaces after_rename core
    ∷ []

run-IsRecorded_example :
    IsRecorded toy_codec sing_box_engine
      (left_by toy_codec sing_box_engine trusting restarted empty_system)
run-IsRecorded_example =
    run-IsRecorded toy_codec toy_laws sing_box_engine trusting restarted empty_system refl

abbrev recorded_run : PersistedProcess
recorded_run = record {
  version = 2;
  engine = sing_box_engine;
  pid = 200;
  execution = execution_of (codes "boot/7");
  started_at = 5;
  prepared = persist_prepared_core core;
}

-- A start between the two parts of `waitProcess` loses its record: the second part removes it.
abbrev first_finished : System
first_finished =
    (finish_process 1 none
      (start toy_codec sing_box_engine (launch_of 1 100) core empty_system).0).0

abbrev overtaken : System
overtaken =
    remove_process_state (start toy_codec sing_box_engine (launch_of 2 200) core first_finished).0

overtaken_runs : overtaken.supervisor.pid ≡ 200
unfolding start finish_process validate_persisted_state
overtaken_runs = refl

overtaken_file : overtaken.state_file ≡ none
overtaken_file = refl

overtaken_lost :
    (adopt toy_codec sing_box_engine trusting (record overtaken { supervisor = idle })).1
    ≡ err not_exist
unfolding start finish_process adopt
overtaken_lost = refl

abbrev fresh_log : LineLogWriter
fresh_log = record { buffer = []; emitted = [] }

abbrev pieces : List Text
pieces = codes "on" ∷ (codes "e" ++ 13 ∷ 10 ∷ codes "tw") ∷ (codes "o" ++ 10 ∷ codes "rest") ∷ []

two_lines :
    write_all fresh_log pieces
    ≡ record { buffer = codes "rest"; emitted = codes "one" ∷ codes "two" ∷ [] }
unfolding write
two_lines = refl

write_all-joined_example : write_all fresh_log pieces ≡ write fresh_log (joined pieces)
write_all-joined_example =
    write_all-joined fresh_log (codes "on")
      ((codes "e" ++ 13 ∷ 10 ∷ codes "tw") ∷ (codes "o" ++ 10 ∷ codes "rest") ∷ []) refl
