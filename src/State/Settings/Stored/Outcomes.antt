-- ===== src/State/Settings/Stored/Outcomes.antt =====
-- What a save of settings leaves in the file (`SaveSettings` of internal/state/settings.go).
use boxctl.Base.{
  ◌≡◌, ◌≢◌, refl, ap, ◌∙◌, false, Option, none, some, ◌⊎◌, inl, inr, text_Eq, list_eq_iff, lookup,
  lookup-put, put,
}
use boxctl.Base.Text.{Text}
use boxctl.Base.Answers.{ok, Answer-cases}
use boxctl.State.Files.{
  Files, Fault, fine, before_rename, after_rename, Node, regular, irregular, read, write_over,
  write_file_atomic, content_of, refuse_irregular,
}
use boxctl.State.Profiles.{private_mode}
use boxctl.State.Settings.{Settings, parse_settings, marshal_settings, sort_entries}
use boxctl.State.Settings.Order.{IsMap}
use boxctl.State.Settings.RoundTrip.{parse_settings-marshal_settings}
use boxctl.State.Settings.Stored.{
  load_parsed, load_read, load_settings, store_result, save_settings,
}

-- what the file held is what a read of it gives
load_settings-put :
    (path content : Text) (files : Files) (m : Settings)
    → parse_settings content ≡ ok m
    → load_settings false path (put path (regular content private_mode) files) ≡ ok m
unfolding load_settings read
load_settings-put path content files m h =
    let found : lookup path (put path (regular content private_mode) files)
        ≡ some (regular content private_mode) =
      rw (lookup-put path path (regular content private_mode) files)
        (rw ((list_eq_iff path path).1 refl) refl) in
    ap (λ o. load_read (content_of o)) found ∙ ap load_parsed h

written_cases :
    (fault : Fault) (path content : Text) (files : Files) (m : Settings) (before : Option Node)
    → parse_settings content ≡ ok m
    → let result =
        store_result
          (refuse_irregular before files (write_over fault path content private_mode files)) in
      (load_settings false path result.0 ≡ ok m) ⊎ ((result.0 ≡ files) × (result.1 ≢ ok tt))
unfolding write_over
written_cases fault path content files m (some irregular) h = inr (refl, λ e. cc)
written_cases fine path content files m none h = inl (load_settings-put path content files m h)
written_cases before_rename path content files m none h = inr (refl, λ e. cc)
written_cases after_rename path content files m none h =
    inl (load_settings-put path content files m h)
written_cases fine path content files m (some (regular _ _)) h =
    inl (load_settings-put path content files m h)
written_cases before_rename path content files m (some (regular _ _)) h = inr (refl, λ e. cc)
written_cases after_rename path content files m (some (regular _ _)) h =
    inl (load_settings-put path content files m h)

-- However a save of a map of settings ends, a load of the file gives all of the new settings, in
-- the order of their keys, or the files are as before. Only a save that fails leaves them as
-- before. The write may fail before its rename or after it, the settings may have no text, and the
-- file may not be a regular one. The map is an association list without a key that stands twice.
pub load_settings-save_settings :
    (fault : Fault) (path : Text) (m : Settings) (files : Files)
    → IsMap m
    → (load_settings false path (save_settings fault path m files).0 ≡ ok (sort_entries m))
      ⊎ (((save_settings fault path m files).0 ≡ files)
          × ((save_settings fault path m files).1 ≢ ok tt))
unfolding save_settings write_file_atomic
load_settings-save_settings fault path m files distinct = elim (Answer-cases (marshal_settings m)) [
  | inl (e, refused) ↦ rw refused (inr (refl, λ h. cc))
  | inr (text, written) ↦ rw written (
      written_cases fault path text files (sort_entries m) (lookup path files)
        (parse_settings-marshal_settings m text distinct written).0)
]
