-- ===== src/Engine/StateFile.antt =====
-- The state file of a supervisor: the record of a core's process (`persistedProcess` of
-- internal/engine/supervisor.go), how it is written and how it is read. JSON is an argument.
use boxctl.Base.{
  ℕ, ◌≡◌, Bool, true, false, ◌||◌, ◌&&◌, not, Option, none, some, List, [], ◌∷◌, ◌++◌, nat_eq, leb,
  ltb, if◌then◌else◌, text_Eq, ◌==◌,
}
use boxctl.Base.Text.{Text, codes}
use boxctl.Base.Strings.{byte_length, valid_utf8}
use boxctl.Base.Answers.{Answer, ok, err, ◌>>=◌, ◌>>◌, fail_if}

pub data SupervisorError : Type 0 where
  refused already_running not_running launch_failed : SupervisorError
  invalid_state not_owned engine_mismatch write_failed not_exist changed : SupervisorError

abbrev pub Result {ℓ} : Type ℓ → Type ℓ
Result A = Answer SupervisorError A

-- The fields that the supervisor reads; `details` are those that it only carries along.
pub record PreparedCore : Type 0 where
  pub engine : Text
  pub binary_path : Text
  pub runtime_config_path : Text
  pub owned_path : Text
  pub details : Text

abbrev pub no_core : PreparedCore
no_core = record {
  engine = [];
  binary_path = [];
  runtime_config_path = [];
  owned_path = [];
  details = [];
}

-- what is written of a core
pub record PersistedCore : Type 0 where
  pub engine : Text
  pub binary_path : Text
  pub runtime_config_path : Text
  pub details : Text

abbrev pub persist_prepared_core : PreparedCore → PersistedCore
persist_prepared_core prepared = record {
  engine = prepared.engine;
  binary_path = prepared.binary_path;
  runtime_config_path = prepared.runtime_config_path;
  details = prepared.details;
}

-- `preparedCore`
abbrev pub prepared_core : PersistedCore → PreparedCore
prepared_core persisted = record {
  engine = persisted.engine;
  binary_path = persisted.binary_path;
  runtime_config_path = persisted.runtime_config_path;
  owned_path = persisted.runtime_config_path;
  details = persisted.details;
}

-- what the kernel says of a process
pub record Execution : Type 0 where
  pub identity : Text
  pub executable : Text
  pub argv : List Text

abbrev pub no_execution : Execution
no_execution = record { identity = []; executable = []; argv = [] }

-- A process number that is not positive is 0.
pub record PersistedProcess : Type 0 where
  pub version : ℕ
  pub engine : Text
  pub pid : ℕ
  pub execution : Execution
  pub started_at : ℕ
  pub prepared : PersistedCore

-- `legacyMihomoProcess`, the record of version 1
pub record LegacyProcess : Type 0 where
  pub pid : ℕ
  pub identity : Text
  pub started_at : ℕ
  pub launch_args : List Text
  pub prepared : PersistedCore

-- `json.MarshalIndent` of a record, and `json.Unmarshal` of a header and of both versions
pub record Codec : Type 0 where
  pub encode : PersistedProcess → Option Text
  pub header : Text → Option ℕ
  pub decode : Text → Option PersistedProcess
  pub decode_legacy : Text → Option LegacyProcess

-- the texts of a record have no byte that is part of no code point
abbrev pub all_utf8 : List Text → Bool
all_utf8 [] = true
all_utf8 (t ∷ ts) = valid_utf8 t && all_utf8 ts

abbrev pub has_utf8 : PersistedProcess → Bool
has_utf8 p = all_utf8 (
    p.engine ∷ p.execution.identity ∷ p.execution.executable ∷ p.prepared.engine
    ∷ p.prepared.binary_path ∷ p.prepared.runtime_config_path ∷ p.prepared.details
    ∷ p.execution.argv)

-- What is encoded is decoded, with a line end behind it: a record to itself if its texts are in
-- UTF-8, as `encoding/json` replaces other bytes.
pub record CodecLaws (codec : Codec) : Type 0 where
  pub header-encode :
      (p : PersistedProcess) (text : Text)
      → codec.encode p ≡ some text
      → codec.header (text ++ 10 ∷ []) ≡ some p.version
  pub decode-encode :
      (p : PersistedProcess) (text : Text)
      → has_utf8 p ≡ true
      → codec.encode p ≡ some text
      → codec.decode (text ++ 10 ∷ []) ≡ some p

abbrev pub max_process_state_size : ℕ
max_process_state_size = 4_194_304

abbrev pub mihomo_engine : Text
mihomo_engine = codes "mihomo"

abbrev pub sing_box_engine : Text
sing_box_engine = codes "sing-box"

abbrev pub is_given : List Text → Bool
is_given [] = false
is_given (a ∷ as') = true

abbrev pub is_complete : PersistedProcess → Bool
is_complete p =
    nat_eq p.version 2
    && (not (p.engine == [])
        && (not (leb p.pid 1)
            && (not (p.execution.identity == [])
                && (not (p.execution.executable == [])
                    && (is_given p.execution.argv && not (nat_eq p.started_at 0))))))

unfoldable pub validate_persisted_state : PersistedProcess → Text → Result (Unit {0})
validate_persisted_state p expected = do
  fail_if (not (is_complete p)) invalid_state
  fail_if (not (p.engine == expected) && (p.engine == mihomo_engine || p.engine == sing_box_engine))
      not_owned
  fail_if (not (p.engine == expected)) invalid_state
  fail_if (not (p.prepared.engine == expected)) engine_mismatch

abbrev pub or_error {ℓ} : {A : Type ℓ} → SupervisorError → Option A → Result A
or_error e none = err e
or_error e (some a) = ok a

-- what a read gives: the record, and the arguments of a core whose record has version 1
pub record Found : Type 0 where
  pub process : PersistedProcess
  pub legacy : Option (List Text)

abbrev pub legacy_engine : PersistedCore → PersistedCore
legacy_engine core = if core.engine == [] then record core { engine = mihomo_engine } else core

-- a record of version 1, as one of version 2 whose execution is not yet known
abbrev pub upgraded : LegacyProcess → Found
upgraded legacy = record {
  process = record {
    version = 2;
    engine = mihomo_engine;
    pid = legacy.pid;
    execution = record { identity = legacy.identity; executable = []; argv = [] };
    started_at = legacy.started_at;
    prepared = persist_prepared_core (prepared_core (legacy_engine legacy.prepared));
  };
  legacy = some legacy.launch_args;
}

module _ (codec : Codec) (engine : Text) where
  -- a text of the present version
  unfoldable pub read_present : Text → Result Found
  unfolding validate_persisted_state
  read_present text = do
    p ← or_error invalid_state (codec.decode text)
    validate_persisted_state p engine
    ok (record { process = p; legacy = none })

  unfoldable pub read_legacy : Text → Result Found
  read_legacy text = do
    fail_if (not (engine == mihomo_engine)) not_owned
    legacy ← or_error invalid_state (codec.decode_legacy text)
    fail_if (leb legacy.pid 1 || (legacy.identity == [] || nat_eq legacy.started_at 0))
        invalid_state
    ok (upgraded legacy)

  unfoldable pub read_version : Text → ℕ → Result Found
  unfolding read_present read_legacy
  read_version text version =
      if nat_eq version 2
      then read_present text
      else if nat_eq version 1
      then read_legacy text
      else err invalid_state

  -- `readProcessState`, with whether the file is private and regular, and whether it can be read
  unfoldable pub read_process_state : Bool → Bool → Option Text → Result Found
  unfolding read_version byte_length
  read_process_state private_file readable none = err not_exist
  read_process_state private_file readable (some text) = do
    fail_if (not private_file || ltb max_process_state_size (byte_length text)) refused
    fail_if (not readable) refused
    version ← or_error invalid_state (codec.header text)
    read_version text version

  -- a core of the supervisor's engine where none is named
  abbrev pub persist_prepared : PersistedCore → PersistedCore
  persist_prepared core =
      if core.engine == [] && engine == mihomo_engine
      then record core { engine = mihomo_engine }
      else core

  abbrev pub record_of : ℕ → Execution → ℕ → PreparedCore → PersistedProcess
  record_of pid execution started_at prepared = record {
    version = 2;
    engine = engine;
    pid = pid;
    execution = execution;
    started_at = started_at;
    prepared = persist_prepared (persist_prepared_core prepared);
  }

  -- the text that is written
  unfoldable pub encode_state : PersistedProcess → Result Text
  unfolding validate_persisted_state
  encode_state p = do
    validate_persisted_state p engine
    text ← or_error write_failed (codec.encode p)
    ok (text ++ 10 ∷ [])
