-- ===== src/Engine/Supervisor/Handoff.antt =====
-- Whatever a supervisor has done, a running core can be taken over from its state file
-- (internal/engine/supervisor.go). Operations are whole: none begins within another.
use boxctl.Base.{
  ℕ, ◌≡◌, ◌⊎◌, inl, inr, refl, true, ◌||◌, not, Option, none, some, List, [], ◌∷◌, nat_eq, text_Eq,
  ◌==◌, nat_Eq, arith, Bool-cases,
}
use boxctl.Base.Text.{Text}
use boxctl.Base.Answers.{ok, err, fail_if-eq-ok, Answer-cases}
use boxctl.Base.Strings.{byte_length}
use boxctl.State.Files.{Fault}
use boxctl.Engine.StateFile.{
  Result, PreparedCore, prepared_core, Execution, Codec, CodecLaws, validate_persisted_state, Found,
  read_process_state, changed,
}
use boxctl.Engine.Supervisor.Records.{
  Holds, IsRecorded, read_process_state-eq-ok, write_process_state_cases, recorded-IsRecorded,
  after_upgrade-IsRecorded,
}
use boxctl.Engine.Supervisor.{
  taken_over, Supervisor, System, remove_process_state, cleanup_prepared, Launch, finish_process,
  wait_process, reap_adopted, Inspection, write_process_state, start, start_process, capture,
  identified, launched, adopt, adopt_read, adopt_inspected, inspect, replace_prepared,
}

pub data Operation : Type 0 where
  starts : Launch → PreparedCore → Operation
  exits : Option Text → Operation
  reaps : Text → ℕ → Text → PreparedCore → Operation
  replaces : Fault → PreparedCore → Operation

-- the process that the supervisor has started ends
abbrev pub exit_of : Option ℕ → Option Text → System → System
exit_of none failure system = system
exit_of (some command) failure system = wait_process command failure system

nat_eq_self : (n : ℕ) → nat_eq n n ≡ true
nat_eq_self n = ground arith

module _ (codec : Codec) (engine : Text) where
  unfoldable pub apply : Operation → System → System
  unfolding start wait_process reap_adopted replace_prepared
  apply (starts launch prepared) system = (start codec engine launch prepared system).0
  apply (exits failure) system = exit_of system.supervisor.cmd failure system
  apply (reaps name pid identity prepared) system = reap_adopted name pid identity prepared system
  apply (replaces writes prepared) system = replace_prepared codec engine writes prepared system

  abbrev pub run : List Operation → System → System
  run [] system = system
  run (op ∷ ops) system = run ops (apply op system)

  -- what a manager leaves behind
  abbrev pub left_by : Inspection → List Operation → System → System
  left_by inspection ops system = run ops (adopt codec engine inspection system).0

module _ (codec : Codec) (laws : CodecLaws codec) (engine : Text) where
  capture-IsRecorded :
      (writes : Fault) (prepared : PreparedCore) (captured : Option Execution) (system : System)
      → IsRecorded codec engine (capture codec engine writes prepared captured system).0
  capture-IsRecorded writes prepared none system = inl refl
  capture-IsRecorded writes prepared (some execution) system =
      recorded-IsRecorded codec laws engine (identified execution system)
        (write_process_state codec engine writes prepared (identified execution system))
        (write_process_state_cases codec laws engine writes prepared (identified execution system))

  start_process-IsRecorded :
      (launch : Launch) (prepared : PreparedCore) (process : Option (ℕ × ℕ)) (system : System)
      → IsRecorded codec engine system
      → IsRecorded codec engine (start_process codec engine launch prepared process system).0
  start_process-IsRecorded launch prepared none system h = h
  start_process-IsRecorded launch prepared (some (command, process_id)) system h =
      capture-IsRecorded launch.writes prepared launch.captured
        (launched command process_id launch.now prepared system)

  start-IsRecorded :
      (launch : Launch) (prepared : PreparedCore) (system : System)
      → IsRecorded codec engine system
      → IsRecorded codec engine (start codec engine launch prepared system).0
  unfolding start
  start-IsRecorded launch prepared system h = elim (Bool-cases launch.accepted) [
    | inr no_launch ↦ rw no_launch h
    | inl accepted ↦ elim (Bool-cases (nat_eq system.supervisor.pid 0)) [
      | inr runs ↦ rw accepted (rw runs h)
      | inl idle ↦
          rw accepted (rw idle (start_process-IsRecorded launch prepared launch.process system h))
    ]
  ]

  cleanup-IsRecorded :
      (prepared : PreparedCore) (system : System)
      → IsRecorded codec engine system
      → IsRecorded codec engine (cleanup_prepared prepared system)
  cleanup-IsRecorded prepared system h = elim (Bool-cases (prepared.runtime_config_path == [])) [
    | inl empty ↦ rw empty h
    | inr given ↦ rw given h
  ]

  finish_process-idle :
      (command : ℕ) (failure : Option Text) (system : System)
      → system.supervisor.cmd ≡ some command
      → (finish_process command failure system).0.supervisor.pid ≡ 0
  unfolding finish_process
  finish_process-idle command failure system e = rw e (rw (nat_eq_self command))

  exit_of-IsRecorded :
      (current : Option ℕ) (failure : Option Text) (system : System)
      → system.supervisor.cmd ≡ current
      → IsRecorded codec engine system
      → IsRecorded codec engine (exit_of current failure system)
  unfolding wait_process
  exit_of-IsRecorded none failure system e h = h
  exit_of-IsRecorded (some command) failure system e h =
      let (after, finished) = finish_process command failure system in
      cleanup-IsRecorded finished (remove_process_state after)
        (inl (finish_process-idle command failure system e))

  reap_adopted-IsRecorded :
      (name : Text) (pid : ℕ) (identity : Text) (prepared : PreparedCore) (system : System)
      → IsRecorded codec engine system
      → IsRecorded codec engine (reap_adopted name pid identity prepared system)
  unfolding reap_adopted
  reap_adopted-IsRecorded name pid identity prepared system h =
      elim (Bool-cases (
        not (nat_eq system.supervisor.pid pid)
        || not (system.supervisor.execution.identity == identity))) [
          | inl other ↦ rw other h
          | inr same ↦ rw same (cleanup-IsRecorded prepared _ (inl refl))
        ]

  adopt_inspected-IsRecorded :
      (inspection : Inspection) (found : Found) (execution : Execution) (system : System)
      → system.supervisor.pid ≡ 0
      → (((text : Text) × (system.state_file ≡ some text)
            × (found.legacy ≡ none)
            × Holds codec engine text found.process
            × (validate_persisted_state found.process engine ≡ ok tt))
          ⊎ ((args : List Text) × (found.legacy ≡ some args)))
      → inspect codec engine inspection found.process
          (prepared_core found.process.prepared)
          found.legacy
        ≡ ok execution
      → IsRecorded codec engine
          (adopt_inspected codec engine inspection.upgrades found.process
            (prepared_core found.process.prepared)
            found.legacy
            (ok execution)
            system).0
  adopt_inspected-IsRecorded inspection found execution system idle
        (inl (text, file, present, holds, valid)) h =
      let matching =
        inspection.matches found.process.pid found.process.execution
          found.process.prepared.binary_path in
      let (_, h1) = fail_if-eq-ok (not matching) changed _ (rw present at h) in
      let same : found.process.execution ≡ execution = cc in
      rw idle (rw present (inr (text, found.process, file, inl holds, valid, refl, same)))
  adopt_inspected-IsRecorded inspection found execution system idle (inr (args, old)) h = rw idle (
      rw old (
        after_upgrade-IsRecorded codec laws engine (prepared_core found.process.prepared)
          (taken_over codec engine (record found.process { execution = execution })
            (prepared_core found.process.prepared) system)
          _
          (write_process_state_cases codec laws engine inspection.upgrades
            (prepared_core found.process.prepared)
            (taken_over codec engine (record found.process { execution = execution })
              (prepared_core found.process.prepared) system))))

  adopt_read-IsRecorded :
      (inspection : Inspection) (found : Result Found) (system : System)
      → system.supervisor.pid ≡ 0
      → ((f : Found)
          → found ≡ ok f
          → ((text : Text) × (system.state_file ≡ some text)
              × (f.legacy ≡ none)
              × Holds codec engine text f.process
              × (validate_persisted_state f.process engine ≡ ok tt))
            ⊎ ((args : List Text) × (f.legacy ≡ some args)))
      → IsRecorded codec engine (adopt_read codec engine inspection found system).0
  adopt_read-IsRecorded inspection (err e) system idle read = inl idle
  adopt_read-IsRecorded inspection (ok found) system idle read =
      let prepared = prepared_core found.process.prepared in
      elim (Bool-cases (inspection.accepts prepared)) [
        | inr no_core ↦ rw no_core (inl idle)
        | inl accepted ↦ elim (Bool-cases (inspection.exists found.process.pid)) [
          | inr dead ↦
              rw accepted
                (rw dead (cleanup-IsRecorded prepared (remove_process_state system) (inl idle)))
          | inl alive ↦ rw accepted (
              rw alive
                (elim (Answer-cases
                  (inspect codec engine inspection found.process prepared found.legacy)) [
                    | inl (e, failed) ↦ rw failed (inl idle)
                    | inr (execution, seen) ↦ rw seen (
                        adopt_inspected-IsRecorded inspection found execution system idle
                          (read found refl) seen)
                  ]))
        ]
      ]

  adopt-IsRecorded :
      (inspection : Inspection) (system : System)
      → system.supervisor.pid ≡ 0
      → IsRecorded codec engine (adopt codec engine inspection system).0
  unfolding adopt
  adopt-IsRecorded inspection system idle =
      adopt_read-IsRecorded inspection
        (read_process_state codec engine inspection.private_file inspection.readable
          system.state_file)
        system idle
        (read_process_state-eq-ok codec engine inspection.private_file inspection.readable
          system.state_file)

  replace_prepared-IsRecorded :
      (writes : Fault) (prepared : PreparedCore) (system : System)
      → IsRecorded codec engine system
      → IsRecorded codec engine (replace_prepared codec engine writes prepared system)
  unfolding replace_prepared
  replace_prepared-IsRecorded writes prepared system h =
      let next = record system { supervisor = record system.supervisor { prepared = prepared } } in
      elim (Bool-cases (nat_eq system.supervisor.pid 0)) [
        | inl idle ↦ rw idle h
        | inr runs ↦
            rw runs (elim (write_process_state_cases codec laws engine writes prepared next) [
              | inl named ↦ inr named
              | inr (_, failed) ↦ rw failed h
            ])
      ]

  apply-IsRecorded :
      (op : Operation) (system : System)
      → IsRecorded codec engine system
      → IsRecorded codec engine (apply codec engine op system)
  unfolding apply
  apply-IsRecorded (starts launch prepared) system h = start-IsRecorded launch prepared system h
  apply-IsRecorded (exits failure) system h =
      exit_of-IsRecorded system.supervisor.cmd failure system refl h
  apply-IsRecorded (reaps name pid identity prepared) system h =
      reap_adopted-IsRecorded name pid identity prepared system h
  apply-IsRecorded (replaces writes prepared) system h =
      replace_prepared-IsRecorded writes prepared system h

  -- A manager that has nothing running adopts what a former one has left, and then starts, replaces,
  -- reaps and waits for processes in any order, one whole operation after the other, each with any
  -- outcome. Then, if a process runs, the text of the state file is read as a record of the present
  -- version, or was written for one that has a text that is not in UTF-8. The record is valid, with
  -- the number and the execution of the process. The JSON codec reads what it writes.
  pub run-IsRecorded :
      (inspection : Inspection) (ops : List Operation) (system : System)
      → system.supervisor.pid ≡ 0
      → IsRecorded codec engine (left_by codec engine inspection ops system)
  run-IsRecorded inspection ops system idle = onward ops _ (adopt-IsRecorded inspection system idle)
    where
      onward :
          (rest : List Operation) (now : System)
          → IsRecorded codec engine now
          → IsRecorded codec engine (run codec engine rest now)
      onward [] now h = h
      onward (op ∷ rest) now h = onward rest (apply codec engine op now) (apply-IsRecorded op now h)

-- the size of the state file
abbrev pub file_size : Option Text → ℕ
file_size none = 0
file_size (some text) = byte_length text
