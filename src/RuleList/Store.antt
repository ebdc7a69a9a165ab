-- ===== src/RuleList/Store.antt =====
-- The store of the lists (`Store` of internal/rulelist/store.go), on the directory as a finite map
-- from the names of lists. The lock makes each operation one step. What the system refuses during
-- it, the hash of the revisions and the case mapping of a character are arguments.
pub mod Revisions
use boxctl.Base.{
  ℕ, Bool, true, false, ◌||◌, ◌&&◌, not, Option, none, some, List, [], ◌∷◌, ◌++◌, nat_eq, ltb, leb,
  if◌then◌else◌, text_Eq, ◌==◌, length, lookup, put, remove,
}
use boxctl.Base.Text.{Text, codes, contains}
use boxctl.Base.Strings.{
  trim_space, trim_end, replace_crlf, replace_carriage, byte_length, valid_utf8,
}
use boxctl.Base.Answers.{Answer, ok, err, ◌>>=◌, ◌>>◌, fail_if}
use boxctl.RuleList.AutoPrefix.{map_text, is_blank, newline}

pub data ListError : Type 0 where
  not_found conflict invalid_name invalid_content not_regular too_large not_text : ListError
  unsafe_directory inspect_failed read_failed write_failed remove_failed sync_failed : ListError

abbrev pub Result {ℓ} : Type ℓ → Type ℓ
Result A = Answer ListError A

pub record Item : Type 0 where
  pub name : Text
  pub content : Text
  pub revision : Text
  pub size : ℕ

-- What stands at the path of a list.
pub data Node : Type 0 where
  irregular : Node
  regular : Text → Node

abbrev pub Files : Type 0
Files = List (Text × Node)

-- The steps that fail. The write is all that is done up to the rename.
pub record Faults : Type 0 where
  pub directory : Bool
  pub inspect : Bool
  pub read : Bool
  pub write : Bool
  pub remove : Bool
  pub sync : Bool

abbrev pub max_list_bytes : ℕ
max_list_bytes = 4_194_304

abbrev pub is_alphanumeric : ℕ → Bool
is_alphanumeric c = (leb 97 c && leb c 122) || (leb 48 c && leb c 57)

abbrev pub is_name_char : ℕ → Bool
is_name_char c = is_alphanumeric c || (nat_eq c 95 || nat_eq c 45)

abbrev pub all_chars : (ℕ → Bool) → Text → Bool
all_chars p [] = true
all_chars p (c ∷ s) = p c && all_chars p s

-- `validName`
unfoldable pub valid_name : Text → Bool
valid_name [] = false
valid_name (c ∷ s) = is_alphanumeric c && (all_chars is_name_char s && leb (length s) 63)

-- text without an end of spaces, tabs and line feeds
abbrev pub is_trailing : ℕ → Bool
is_trailing c = is_blank c || nat_eq c newline

unfoldable pub normalize_content : Text → Text
unfolding replace_crlf replace_carriage trim_end
normalize_content content =
    let trimmed = trim_end is_trailing (replace_carriage (replace_crlf content)) in
    if trimmed == [] then [] else trimmed ++ newline ∷ []

unfoldable pub is_text : Text → Bool
unfolding valid_utf8
is_text s = valid_utf8 s && not (contains 0 s)

-- the content of a node that may be read
unfoldable pub read_node : Faults → Option Node → Result Text
unfolding byte_length is_text
read_node faults none = err not_found
read_node faults (some irregular) = err not_regular
read_node faults (some (regular content)) = do
  fail_if (ltb max_list_bytes (byte_length content)) too_large
  fail_if faults.read read_failed
  fail_if (not (is_text content)) not_text
  ok content

-- the current revision that a change is compared with, or that there is no list
abbrev pub or_missing : Result Item → Result (Option Item)
or_missing (ok item) = ok (some item)
or_missing (err not_found) = ok none
or_missing (err e) = err e

-- whether a change is refused: with `*` any list will do
unfoldable pub refuses_put : Bool → Text → Option Item → Bool
refuses_put create_only if_match none = not (if_match == [])
refuses_put create_only if_match (some current) =
    create_only
    || (not (if_match == []) && (not (if_match == codes "*") && not (current.revision == if_match)))

unfoldable pub refuses_delete : Text → Item → Bool
refuses_delete if_match current =
    if_match == [] || (not (if_match == codes "*") && not (current.revision == if_match))

module _ (lower : ℕ → ℕ) (revision : Text → Text) where
  -- `path`: the normalized name
  unfoldable pub path : Faults → Text → Result Text
  unfolding valid_name trim_space
  path faults name = do
    fail_if faults.directory unsafe_directory
    let normalized = map_text lower (trim_space name)
    fail_if (not (valid_name normalized)) invalid_name
    ok normalized

  abbrev pub item_of : Text → Text → Item
  item_of name content = record {
    name = name;
    content = content;
    revision = revision content;
    size = byte_length content;
  }

  unfoldable pub get : Faults → Files → Text → Result Item
  unfolding path read_node
  get faults files name = do
    normalized ← path faults name
    fail_if faults.inspect inspect_failed
    content ← read_node faults (lookup normalized files)
    ok (item_of normalized content)

  -- the checks of `putLocked`: the name and the content to write
  unfoldable pub check_put : Faults → Files → Text → Text → Text → Bool → Result (Text × Text)
  unfolding path get normalize_content refuses_put
  check_put faults files name raw if_match create_only = do
    normalized ← path faults name
    let content = normalize_content raw
    fail_if (ltb max_list_bytes (byte_length content) || not (is_text content)) invalid_content
    current ← or_missing (get faults files normalized)
    fail_if (refuses_put create_only if_match current) conflict
    fail_if faults.write write_failed
    ok (normalized, content)

  -- the rename and what follows it
  abbrev pub publish : Faults → Files → Result (Text × Text) → Files × Result Item
  publish faults files (err e) = (files, err e)
  publish faults files (ok (name, content)) = (
    put name (regular content) files,
    fail_if faults.sync sync_failed >> ok (item_of name content),
  )

  unfoldable pub put_locked : Faults → Files → Text → Text → Text → Bool → Files × Result Item
  unfolding check_put
  put_locked faults files name raw if_match create_only =
      publish faults files (check_put faults files name raw if_match create_only)

  unfoldable pub put_list : Faults → Files → Text → Text → Text → Files × Result Item
  unfolding put_locked
  put_list faults files name content if_match = put_locked faults files name content if_match false

  unfoldable pub create : Faults → Files → Text → Text → Files × Result Item
  unfolding put_locked
  create faults files name content = put_locked faults files name content [] true

  unfoldable pub check_delete : Faults → Files → Text → Text → Result Text
  unfolding path get refuses_delete
  check_delete faults files name if_match = do
    normalized ← path faults name
    current ← get faults files normalized
    fail_if (refuses_delete if_match current) conflict
    fail_if faults.remove remove_failed
    ok normalized

  abbrev pub unlink : Faults → Files → Result Text → Files × Result (Unit {0})
  unlink faults files (err e) = (files, err e)
  unlink faults files (ok name) = (remove name files, fail_if faults.sync sync_failed)

  unfoldable pub delete : Faults → Files → Text → Text → Files × Result (Unit {0})
  unfolding check_delete
  delete faults files name if_match = unlink faults files (check_delete faults files name if_match)
