-- ===== src/State/Settings.antt =====
-- The settings files (`ParseSettings` and `MarshalSettings` of internal/state/settings.go), over
-- code points. A settings map is an association list.
pub mod Order
pub mod RoundTrip
pub mod Keys
pub mod Stored
mod Examples
use boxctl.Base.{
  ℕ, Bool, true, false, ◌||◌, ◌&&◌, not, Option, none, some, List, [], ◌∷◌, ◌++◌, nat_eq, ltb, leb,
  if◌then◌else◌, text_Eq, ◌==◌, lookup,
}
use boxctl.Base.Text.{Text, codes, contains, split_on}
use boxctl.Base.Strings.{has_prefix, trim_space, cut, trim_return}
use boxctl.Base.Answers.{Answer, ok, err, ◌>>◌, fail_if}

pub data SettingsError : Type 0 where
  invalid_line duplicate_setting invalid_value invalid_key : SettingsError

abbrev pub Result {ℓ} : Type ℓ → Type ℓ
Result A = Answer SettingsError A

abbrev pub Settings : Type 0
Settings = List (Text × Text)

-- `settingKey`
abbrev pub is_key_start : ℕ → Bool
is_key_start c = (leb 65 c && leb c 90) || ((leb 97 c && leb c 122) || nat_eq c b'_')

abbrev pub is_key_part : Text → Bool
is_key_part [] = true
is_key_part (c ∷ s) = (is_key_start c || (leb 48 c && leb c 57)) && is_key_part s

abbrev pub is_key : Text → Bool
is_key [] = false
is_key (c ∷ s) = is_key_start c && is_key_part s

abbrev pub is_set : Option Text → Bool
is_set none = false
is_set (some value) = true

-- the setting on a line
abbrev pub entry_of : Settings → Text × Option Text → Result (Text × Text)
entry_of result (key, none) = err invalid_line
entry_of result (key, some value) = do
  fail_if (not (is_key key)) invalid_line
  fail_if (is_set (lookup key result)) duplicate_setting
  fail_if (contains 0 value) invalid_value
  ok (key, value)

abbrev pub is_skipped : Text → Bool
is_skipped trimmed = trimmed == [] || has_prefix trimmed (codes "#")

abbrev pub and_entry :
    (Settings → Result Settings) → Settings → Result (Text × Text) → Result Settings
and_entry next result (err e) = err e
and_entry next result (ok entry) = next (result ++ entry ∷ [])

unfoldable pub parse_lines : List Text → Settings → Result Settings
unfolding trim_space has_prefix trim_return cut
parse_lines [] result = ok result
parse_lines (raw ∷ lines) result =
    let skipped = parse_lines lines result in
    let read =
      and_entry (parse_lines lines) result (entry_of result (cut b'=' (trim_return raw))) in
    if is_skipped (trim_space (trim_return raw)) then skipped else read

unfoldable pub parse_settings : Text → Result Settings
unfolding parse_lines split_on
parse_settings content = parse_lines (split_on 10 content) []

-- the order of `slices.Sort`
abbrev pub precedes : Text → Text → Bool
precedes [] t = true
precedes (a ∷ s) [] = false
precedes (a ∷ s) (b ∷ t) = ltb a b || (nat_eq a b && precedes s t)

unfoldable pub insert_entry : Text × Text → Settings → Settings
insert_entry e [] = e ∷ []
insert_entry e (f ∷ m) = if precedes e.0 f.0 then e ∷ f ∷ m else f ∷ insert_entry e m

unfoldable pub sort_entries : Settings → Settings
unfolding insert_entry
sort_entries [] = []
sort_entries (e ∷ m) = insert_entry e (sort_entries m)

abbrev pub check_entries : Settings → Result (Unit {0})
check_entries [] = ok tt
check_entries ((key, value) ∷ m) = do
  fail_if (not (is_key key)) invalid_key
  fail_if (contains 0 value || (contains 13 value || contains 10 value)) invalid_value
  check_entries m

unfoldable pub render : Settings → Text
render [] = []
render ((key, value) ∷ m) = key ++ b'=' ∷ (value ++ 10 ∷ render m)

unfoldable pub marshal_settings : Settings → Result Text
unfolding sort_entries render
marshal_settings settings = check_entries settings >> ok (render (sort_entries settings))
