-- ===== src/State/Settings/Examples.antt =====
-- Runs of the settings files (internal/state/settings.go).
use boxctl.Base.{◌≡◌, ◌≢◌, ◌⊎◌, refl, true, false, [], ◌∷◌, text_Eq, lookup}
use boxctl.Base.Text.{Text, codes}
use boxctl.Base.Answers.{ok, err}
use boxctl.State.Settings.{
  Settings, invalid_line, duplicate_setting, invalid_key, invalid_value, parse_settings,
  sort_entries, marshal_settings,
}
use boxctl.State.Files.{Files, after_rename, regular}
use boxctl.State.Settings.Stored.{load_settings, save_settings}
use boxctl.State.Settings.Stored.Outcomes.{load_settings-save_settings}
use boxctl.State.Settings.Order.{IsMap}
use boxctl.State.Settings.RoundTrip.{parse_settings-marshal_settings}
use boxctl.State.Settings.Keys.{has_return, marshal_settings-parse_settings}

abbrev chosen : Settings
chosen =
    (codes "TUN_STACK", codes "gvisor=1")
    ∷ (codes "OPERATING_MODE", codes " tun ")
    ∷ (codes "TUN_MTU", [])
    ∷ []

abbrev written : Text
written = codes "OPERATING_MODE= tun \nTUN_MTU=\nTUN_STACK=gvisor=1\n"

marshal_chosen : marshal_settings chosen ≡ ok written
unfolding marshal_settings
marshal_chosen = refl

parse_settings-marshal_settings_example :
    (parse_settings written ≡ ok (sort_entries chosen))
    × ((k : Text) → lookup k (sort_entries chosen) ≡ lookup k chosen)
parse_settings-marshal_settings_example =
    parse_settings-marshal_settings chosen written (refl, (refl, (refl, tt))) marshal_chosen

-- A file with a comment, an empty line and line ends of both kinds.
abbrev source : Text
source = codes "# manager\r\nTUN_STACK=gvisor=1\r\n\n  # mode\nOPERATING_MODE= tun \nTUN_MTU="

parse_source : parse_settings source ≡ ok chosen
unfolding parse_settings
parse_source = refl

marshal_settings-parse_settings_example :
    IsMap chosen
    × (((has_return chosen ≡ true) × (marshal_settings chosen ≡ err invalid_value))
        ⊎ ((has_return chosen ≡ false)
            × (text : Text) × (marshal_settings chosen ≡ ok text)
            × (parse_settings text ≡ ok (sort_entries chosen))))
marshal_settings-parse_settings_example = marshal_settings-parse_settings source chosen parse_source

-- A save over a file of one setting, whose directory cannot be synced.
abbrev stored : Files
stored = (codes "settings", regular (codes "TUN_MTU=9000\n") 384) ∷ []

load_settings-save_settings_example :
    (load_settings false
        (codes "settings")
        (save_settings after_rename (codes "settings") chosen stored).0
      ≡ ok (sort_entries chosen))
    ⊎ (((save_settings after_rename (codes "settings") chosen stored).0 ≡ stored)
        × ((save_settings after_rename (codes "settings") chosen stored).1 ≢ ok tt))
load_settings-save_settings_example =
    load_settings-save_settings after_rename (codes "settings") chosen stored
      (refl, (refl, (refl, tt)))

-- What the two refuse.
refuses_space : parse_settings (codes " KEY=1") ≡ err invalid_line
unfolding parse_settings
refuses_space = refl

refuses_again : parse_settings (codes "KEY=1\nKEY=2") ≡ err duplicate_setting
unfolding parse_settings
refuses_again = refl

refuses_key : marshal_settings ((codes "2ND", []) ∷ []) ≡ err invalid_key
unfolding marshal_settings
refuses_key = refl

-- A carriage return within a value can be read, and not be written again.
reads_return : parse_settings (codes "KEY=1\r2") ≡ ok ((codes "KEY", codes "1\r2") ∷ [])
unfolding parse_settings
reads_return = refl

refuses_return : marshal_settings ((codes "KEY", codes "1\r2") ∷ []) ≡ err invalid_value
unfolding marshal_settings
refuses_return = refl
