-- ===== src/State/Settings/Stored.antt =====
-- The settings in the files of the state (`LoadSettings` and `SaveSettings` of
-- internal/state/settings.go). An error is one of the files or one of the settings.
pub mod Outcomes
use boxctl.Base.{Bool, ◌⊎◌, inl, inr}
use boxctl.Base.Text.{Text}
use boxctl.Base.Answers.{Answer, ok, err}
use boxctl.State.Files.{StateError, Files, Fault, read, write_file_atomic}
use boxctl.State.Profiles.{private_mode}
use boxctl.State.Settings.{SettingsError, Settings, parse_settings, marshal_settings}

abbrev pub Stored {ℓ} : Type ℓ → Type ℓ
Stored A = Answer (StateError ⊎ SettingsError) A

abbrev pub load_parsed : Answer SettingsError Settings → Stored Settings
load_parsed (err e) = err (inr e)
load_parsed (ok settings) = ok settings

abbrev pub load_read : Answer StateError Text → Stored Settings
load_read (err e) = err (inl e)
load_read (ok content) = load_parsed (parse_settings content)

unfoldable pub load_settings : Bool → Text → Files → Stored Settings
unfolding read
load_settings fails path files = load_read (read fails path files)

abbrev pub store_result : Files × Answer StateError (Unit {0}) → Files × Stored (Unit {0})
store_result (files, err e) = (files, err (inl e))
store_result (files, ok done) = (files, ok done)

abbrev pub save_marshalled :
    Fault → Text → Files → Answer SettingsError Text → Files × Stored (Unit {0})
save_marshalled fault path files (err e) = (files, err (inr e))
save_marshalled fault path files (ok content) =
    store_result (write_file_atomic fault path content private_mode files)

unfoldable pub save_settings : Fault → Text → Settings → Files → Files × Stored (Unit {0})
unfolding write_file_atomic marshal_settings
save_settings fault path settings files =
    save_marshalled fault path files (marshal_settings settings)
