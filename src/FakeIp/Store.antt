-- ===== src/FakeIp/Store.antt =====
-- The store of the allowlist file (`Store` of internal/fakeip/store.go). The directory checks and
-- the other failures of the file system are one answer of the system, as are the contents of the
-- file at the three moments when an operation reads it.
pub mod Locking
use boxctl.Base.{
  ℕ, ◌+◌, Bool, true, false, ◌||◌, ◌&&◌, not, Option, none, some, List, [], ◌∷◌, ◌++◌, nat_eq, ltb,
  if◌then◌else◌, text_Eq, ◌==◌, length,
}
use boxctl.Base.Text.{Text}
use boxctl.Base.Strings.{ends_with, byte_length}
use boxctl.FakeIp.Sections.{
  StoreError, Result, ok, err, ◌>>=◌, ◌>>◌, fail_if, conflict, invalid_manual, too_large, not_text,
  unsafe_path, too_many_entries, invalid_scope, newline, carriage, DocumentSections, split_sections,
}
use boxctl.FakeIp.Prefix.{Prefix, NetPrefix, canonical_prefixes, max_entries}
use boxctl.FakeIp.Document.{
  Document, max_document_bytes, is_text, valid_auto_scope, validate_manual, parse_document,
  render_generated_block,
}

-- What stands at the path of the file.
pub data File : Type 0 where
  missing : File
  irregular : File
  regular : Text → File

-- a missing file reads as an empty one
unfoldable pub read_file : File → Result Text
read_file missing = ok []
read_file irregular = err unsafe_path
read_file (regular content) = do
  fail_if (ltb max_document_bytes (byte_length content)) too_large
  fail_if (not (is_text content)) not_text
  ok content

-- What the system does during an operation, in this order: whether the directory is usable, the file
-- at the first recheck, whether the temporary file is written, the file at the second recheck, and
-- whether the rename and the sync of the directory succeed.
pub record World : Type 0 where
  pub directory_failure : Option StoreError
  pub first_recheck : File
  pub write_failure : Option StoreError
  pub second_recheck : File
  pub rename_failure : Option StoreError
  pub sync_failure : Option StoreError

unfoldable pub ends_in_line_break : Text → Bool
unfolding ends_with
ends_in_line_break content = ends_with newline content || ends_with carriage content

abbrev pub succeed_unless : Option StoreError → Result (Unit {0})
succeed_unless none = ok tt
succeed_unless (some e) = err e

-- a block, and behind it the manual text on lines of its own
unfoldable pub join_manual : Text → Text → Text
unfolding ends_in_line_break
join_manual block manual =
    if manual == []
    then block
    else if not (ends_in_line_break block)
    then (block ++ newline ∷ []) ++ manual
    else block ++ manual

abbrev pub is_stale : Text → Document → Bool
is_stale expected current = expected == [] || not (expected == current.revision)

unfoldable pub check_revision : (Text → Text) → File → Text → Result (Unit {0})
unfolding read_file
check_revision revision file expected =
    read_file file >>= λ content. fail_if (not (revision content == expected)) conflict

-- the content that `SaveManual` commits
abbrev pub save_content : DocumentSections → Text → Text
save_content sections manual =
    if sections.has_generated then join_manual sections.generated_block manual else manual

-- The end of `commitUnlocked`: the file that it leaves, and its answer. The rename writes over the
-- file of the second recheck.
abbrev pub finish : World → Text → Result Document → File × Result Document
finish world content (err e) = (world.second_recheck, err e)
finish world content (ok next) = (regular content, succeed_unless world.sync_failure >> ok next)

module _ (parse_time : Text → Option ℕ) (revision : Text → Text) where
  unfoldable pub read : File → Result Document
  unfolding read_file
  read file = read_file file >>= λ content. parse_document parse_time revision content

  -- `commitUnlocked` up to the rename
  unfoldable pub prepare : World → Text → Text → Result Document
  unfolding check_revision
  prepare world content expected = do
    fail_if (ltb max_document_bytes (byte_length content)) too_large
    fail_if (not (is_text content)) invalid_manual
    next ← parse_document parse_time revision content
    succeed_unless world.directory_failure
    check_revision revision world.first_recheck expected
    succeed_unless world.write_failure
    check_revision revision world.second_recheck expected
    succeed_unless world.rename_failure
    ok next

  unfoldable pub commit_unlocked : World → Text → Text → File × Result Document
  unfolding prepare
  commit_unlocked world content expected = finish world content (prepare world content expected)

  -- a commit of the content that the first part of an operation makes, at a revision
  abbrev pub commit_made : World → Result (Text × Text) → File × Result Document
  commit_made world (err e) = (world.second_recheck, err e)
  commit_made world (ok (content, expected)) = commit_unlocked world content expected

  unfoldable pub save_manual : World → File → Text → Text → File × Result Document
  unfolding read commit_unlocked
  save_manual world file content expected = commit_made world (do
    current ← read file
    fail_if (is_stale expected current) conflict
    manual ← validate_manual parse_time content
    sections ← split_sections current.content
    ok (save_content sections manual, current.revision))

module _ (parse_time : Text → Option ℕ) (format_time : ℕ → Text) (revision : Text → Text) where
  unfoldable pub replaced_generated_document :
      Document → List NetPrefix → ℕ → ℕ → Text → Result Document
  replaced_generated_document current prefixes generated_at now scope = do
    fail_if (ltb max_entries (length prefixes)) too_many_entries
    fail_if (not (valid_auto_scope scope)) invalid_scope
    generated ← canonical_prefixes prefixes
    let at = if nat_eq generated_at 0 then now else generated_at
    let block = render_generated_block format_time generated at scope
    sections ← split_sections current.content
    parse_document parse_time revision (
        if sections.has_generated
        then sections.before ++ (block ++ sections.after)
        else block ++ current.content)

  unfoldable pub preview_replace_generated_with_scope :
      File → List NetPrefix → Text → ℕ → ℕ → Text → Result Document
  unfolding read replaced_generated_document
  preview_replace_generated_with_scope file prefixes expected generated_at now scope = do
    current ← read parse_time revision file
    fail_if (is_stale expected current) conflict
    replaced_generated_document current prefixes generated_at now scope

  unfoldable pub replace_generated_with_scope :
      World → File → List NetPrefix → Text → ℕ → ℕ → Text → File × Result Document
  unfolding read commit_unlocked replaced_generated_document
  replace_generated_with_scope world file prefixes expected generated_at now scope =
      commit_made parse_time revision world (do
        current ← read parse_time revision file
        fail_if (is_stale expected current) conflict
        next ← replaced_generated_document current prefixes generated_at now scope
        ok (next.content, current.revision))
