-- ===== src/State/Profiles.antt =====
-- Profiles (`ProfileStore` of internal/state/profiles.go) and the metadata of the active one
-- (internal/state/profile.go). The lock of the profiles makes each operation one step. The JSON
-- codec and the folding of a character's case are arguments.
pub mod Activation
pub mod Names
pub mod Removal
use boxctl.Base.{
  ℕ, Bool, true, false, ◌||◌, ◌&&◌, not, Option, none, some, List, [], ◌∷◌, ◌++◌, nat_eq, ltb, leb,
  if◌then◌else◌, text_Eq, ◌==◌, length, lookup, put, remove,
}
use boxctl.Base.Text.{Text, codes}
use boxctl.Base.Strings.{trim_space}
use boxctl.Base.Answers.{Answer, ok, err, ◌>>=◌, ◌>>◌, fail_if}
use boxctl.State.Files.{
  StateError, Result, not_exist, already_exists, invalid_profile, invalid_size, not_regular,
  still_active, system_failed, write_failed, sync_failed, Node, irregular, regular, Files, Fault,
  fine, before_rename, after_rename, write_file_atomic, read,
}
use boxctl.RuleList.AutoPrefix.{map_text}

pub record ActiveProfile : Type 0 where
  pub name : Text
  pub engine : Text

abbrev pub engine_mihomo : Text
engine_mihomo = codes "mihomo"

abbrev pub engine_sing_box : Text
engine_sing_box = codes "sing-box"

abbrev pub max_profile_size : ℕ
max_profile_size = 16_777_216

abbrev pub private_mode : ℕ
private_mode = 384

abbrev pub is_letter : ℕ → Bool
is_letter c = (leb 65 c && leb c 90) || (leb 97 c && leb c 122)

abbrev pub is_name_char : ℕ → Bool
is_name_char c = is_letter c || ((leb 48 c && leb c 57) || (nat_eq c 95 || nat_eq c 45))

abbrev pub all_chars : (ℕ → Bool) → Text → Bool
all_chars p [] = true
all_chars p (c ∷ s) = p c && all_chars p s

-- `profileName`
unfoldable pub profile_name : Text → Bool
profile_name [] = false
profile_name (c ∷ s) = is_letter c && (all_chars is_name_char s && leb (length s) 63)

unfoldable pub validate_active_profile : ActiveProfile → Result (Unit {0})
unfolding profile_name
validate_active_profile profile = do
  fail_if (not (profile_name profile.name)) invalid_profile
  fail_if (not (profile.engine == engine_mihomo || profile.engine == engine_sing_box))
      invalid_profile

-- a missing engine means Mihomo
unfoldable pub with_engine : ActiveProfile → ActiveProfile
with_engine profile =
    if profile.engine == [] then record profile { engine = engine_mihomo } else profile

abbrev pub starts_with_brace : Text → Bool
starts_with_brace [] = false
starts_with_brace (c ∷ s) = nat_eq c b'{'

abbrev pub or_invalid {ℓ} : {A : Type ℓ} → Option A → Result A
or_invalid none = err invalid_profile
or_invalid (some a) = ok a

-- the end of both ways to read the metadata
unfoldable pub accept_profile : ActiveProfile → Result ActiveProfile
unfolding validate_active_profile with_engine
accept_profile profile =
    let whole = with_engine profile in validate_active_profile whole >> ok whole

abbrev pub active_path : Text
active_path = codes ".boxctl/active-profile"

-- the mirror of the active profile of an engine
unfoldable pub mirror_path : ActiveProfile → Text
mirror_path profile =
    if profile.engine == engine_sing_box then codes "config.json" else codes "config.yaml"

-- a write at a path, if the checks before it succeed
abbrev pub write_checked : Fault → Text → Files → Result Text → Files × Result (Unit {0})
write_checked fault content files (err e) = (files, err e)
write_checked fault content files (ok relative) =
    write_file_atomic fault relative content private_mode files

abbrev pub exists : Option Node → Bool
exists none = false
exists (some node) = true

abbrev pub same_profile : ActiveProfile → ActiveProfile → Bool
same_profile p q = p.name == q.name && p.engine == q.engine

-- A missing record of the active profile does not keep a profile from being deleted.
abbrev pub check_active : Result ActiveProfile → ActiveProfile → Result (Unit {0})
check_active (ok active) profile = fail_if (same_profile active profile) still_active
check_active (err not_exist) profile = ok tt
check_active (err e) profile = err e

abbrev pub require_regular : Option Node → Result (Unit {0})
require_regular none = err not_exist
require_regular (some irregular) = err not_regular
require_regular (some (regular _ _)) = ok tt

abbrev pub unlink : Files → Result Text → Files × Result (Unit {0})
unlink files (err e) = (files, err e)
unlink files (ok relative) = (remove relative files, ok tt)

-- `readRegularOptional`
abbrev pub read_mirror : Option Node → Result (Option (Text × ℕ))
read_mirror none = ok none
read_mirror (some irregular) = err not_regular
read_mirror (some (regular content mode)) = ok (some (content, mode))

unfoldable pub rollback_mirror : Fault → Text → Option (Text × ℕ) → Files → Files
unfolding write_file_atomic
rollback_mirror fault target (some (content, mode)) files =
    (write_file_atomic fault target content mode files).0
rollback_mirror fine target none files = remove target files
rollback_mirror _ target none files = files

-- after the metadata: an error puts the old mirror back, and is the answer
abbrev pub settle :
    Fault → Text → Option (Text × ℕ) → Files × Result (Unit {0}) → Files × Result (Unit {0})
settle rollback target old (files, ok _) = (files, ok tt)
settle rollback target old (files, err e) = (rollback_mirror rollback target old files, err e)

-- the write of the metadata, once it is encoded
abbrev pub save_encoded : Fault → Files → Result Text → Files × Result (Unit {0})
save_encoded fault files (err e) = (files, err e)
save_encoded fault files (ok encoded) =
    write_file_atomic fault active_path encoded private_mode files

module _ (unmarshal : Text → Option ActiveProfile) (marshal : ActiveProfile → Option Text)
    (fold : ℕ → ℕ) where
  unfoldable pub parse_active_profile : Text → Result ActiveProfile
  unfolding accept_profile trim_space
  parse_active_profile raw =
      let trimmed = trim_space raw in
      if trimmed == []
      then err invalid_profile
      else if starts_with_brace trimmed
      then (or_invalid (unmarshal trimmed) >>= accept_profile)
      else accept_profile (record { name = trimmed; engine = [] })

  unfoldable pub marshal_active_profile : ActiveProfile → Result Text
  unfolding accept_profile
  marshal_active_profile profile = do
    whole ← accept_profile profile
    encoded ← or_invalid (marshal whole)
    ok (encoded ++ 10 ∷ [])

  unfoldable pub profile_config_name : ActiveProfile → Text
  profile_config_name profile =
      profile.name
      ++ (if map_text fold profile.engine == map_text fold engine_sing_box
          then codes ".json"
          else codes ".yaml")

  unfoldable pub profile_relative_path : ActiveProfile → Result Text
  unfolding accept_profile profile_config_name
  profile_relative_path profile = do
    whole ← accept_profile profile
    ok (codes "configs/" ++ profile_config_name whole)

  -- `Get`; the test is whether the system fails
  unfoldable pub get : Bool → ActiveProfile → Files → Result Text
  unfolding profile_relative_path read
  get fails profile files = do relative ← profile_relative_path profile; read fails relative files

  unfoldable pub current : Bool → Files → Result ActiveProfile
  unfolding read parse_active_profile
  current fails files = do raw ← read fails active_path files; parse_active_profile raw

  -- `write`, with whether the lock or the inspection of the target fails
  unfoldable pub write :
      Bool → Fault → ActiveProfile → Text → Bool → Files → Files × Result (Unit {0})
  unfolding profile_relative_path write_file_atomic
  write fails fault profile content overwrite files = write_checked fault content files (do
    relative ← profile_relative_path profile
    fail_if (content == [] || ltb max_profile_size (length content)) invalid_size
    fail_if fails system_failed
    let found = exists (lookup relative files)
    fail_if (not overwrite && found) already_exists
    fail_if (overwrite && not found) not_exist
    ok relative)

  unfoldable pub create : Bool → Fault → ActiveProfile → Text → Files → Files × Result (Unit {0})
  unfolding write
  create fails fault profile content files = write fails fault profile content false files

  unfoldable pub update : Bool → Fault → ActiveProfile → Text → Files → Files × Result (Unit {0})
  unfolding write
  update fails fault profile content files = write fails fault profile content true files

  unfoldable pub check_delete : Bool → ActiveProfile → Files → Result Text
  unfolding profile_relative_path current
  check_delete fails profile files = do
    relative ← profile_relative_path profile
    fail_if fails system_failed
    check_active (current false files) (with_engine profile)
    require_regular (lookup relative files)
    ok relative

  unfoldable pub delete : Bool → ActiveProfile → Files → Files × Result (Unit {0})
  unfolding check_delete
  delete fails profile files = unlink files (check_delete fails profile files)

  -- `SaveActiveProfile`
  unfoldable pub save_active_profile : Fault → ActiveProfile → Files → Files × Result (Unit {0})
  unfolding marshal_active_profile write_file_atomic
  save_active_profile fault profile files =
      save_encoded fault files (marshal_active_profile profile)

  -- after the mirror: its error ends the operation
  unfoldable pub record_active :
      Fault
      → Fault
      → ActiveProfile
      → Text
      → Option (Text × ℕ)
      → Files × Result (Unit {0})
      → Files × Result (Unit {0})
  unfolding save_active_profile rollback_mirror
  record_active metadata rollback profile target old (files, err e) = (files, err e)
  record_active metadata rollback profile target old (files, ok _) =
      settle rollback target old (save_active_profile metadata profile files)

  -- the checks of `Activate`: the content of the profile, and what the mirror has
  unfoldable pub check_activate : Bool → ActiveProfile → Files → Result (Text × Option (Text × ℕ))
  unfolding get mirror_path
  check_activate fails profile files = do
    validate_active_profile profile
    fail_if fails system_failed
    content ← get false profile files
    old ← read_mirror (lookup (mirror_path profile) files)
    ok (content, old)

  -- the part of `Activate` after its checks
  unfoldable pub mirror_content :
      Fault
      → Fault
      → Fault
      → ActiveProfile
      → Files
      → Result (Text × Option (Text × ℕ))
      → Files × Result (Unit {0})
  unfolding record_active write_file_atomic mirror_path
  mirror_content mirror metadata rollback profile files (err e) = (files, err e)
  mirror_content mirror metadata rollback profile files (ok (content, old)) =
      record_active metadata rollback profile (mirror_path profile) old
        (write_file_atomic mirror (mirror_path profile) content private_mode files)

  unfoldable pub activate :
      Bool → Fault → Fault → Fault → ActiveProfile → Files → Files × Result (Unit {0})
  unfolding check_activate mirror_content with_engine
  activate fails mirror metadata rollback profile files =
      let whole = with_engine profile in
      mirror_content mirror metadata rollback whole files (check_activate fails whole files)
