-- ===== src/State/Files.antt =====
-- Files below the root of the state (`WriteFileAtomic` and `Store` of internal/state/store.go): a
-- finite map from relative paths. The checks of directories are among the failures of an operation.
use boxctl.Base.{ℕ, Bool, Option, none, some, List, text_Eq, lookup, put}
use boxctl.Base.Text.{Text}
use boxctl.Base.Answers.{Answer, ok, err, ◌>>◌, fail_if}

pub data StateError : Type 0 where
  not_exist already_exists invalid_profile invalid_size not_regular still_active : StateError
  system_failed write_failed sync_failed : StateError

abbrev pub Result {ℓ} : Type ℓ → Type ℓ
Result A = Answer StateError A

pub data Node : Type 0 where
  irregular : Node
  regular : Text → ℕ → Node

abbrev pub Files : Type 0
Files = List (Text × Node)

-- How a write ends: it may fail before the rename, also as its mode is refused, or after it.
pub data Fault : Type 0 where
  fine before_rename after_rename : Fault

-- a write over nothing or over a regular file
unfoldable pub write_over : Fault → Text → Text → ℕ → Files → Files × Result (Unit {0})
write_over fine path content mode files = (put path (regular content mode) files, ok tt)
write_over before_rename path content mode files = (files, err write_failed)
write_over after_rename path content mode files =
    (put path (regular content mode) files, err sync_failed)

abbrev pub refuse_irregular :
    Option Node → Files → Files × Result (Unit {0}) → Files × Result (Unit {0})
refuse_irregular (some irregular) files written = (files, err not_regular)
refuse_irregular (some (regular _ _)) files written = written
refuse_irregular none files written = written

unfoldable pub write_file_atomic : Fault → Text → Text → ℕ → Files → Files × Result (Unit {0})
unfolding write_over
write_file_atomic fault path content mode files =
    refuse_irregular (lookup path files) files (write_over fault path content mode files)

abbrev pub content_of : Option Node → Result Text
content_of none = err not_exist
content_of (some irregular) = err not_regular
content_of (some (regular content _)) = ok content

-- `Store.Read`; the test is whether the system fails
unfoldable pub read : Bool → Text → Files → Result Text
read fails path files = do fail_if fails system_failed; content_of (lookup path files)
