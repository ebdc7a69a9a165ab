-- ===== src/FakeIp/Document.antt =====
-- The parsed allowlist (internal/fakeip/store.go). The revision hash and the two directions of
-- RFC 3339 times are arguments; the zero time is 0.
use boxctl.Base.{
  ℕ, Bool, true, false, ◌||◌, ◌&&◌, not, Option, none, some, List, [], ◌∷◌, ◌++◌, ltb,
  if◌then◌else◌, text_Eq, ◌==◌, length,
}
use boxctl.Base.Text.{Text, codes, split_on, contains}
use boxctl.Base.Strings.{
  trim_space, has_prefix, trim_prefix, ends_with, replace_crlf, replace_carriage, byte_length,
  valid_utf8,
}
use boxctl.FakeIp.Sections.{
  Result, ok, err, ◌>>=◌, ◌>>◌, fail_if, too_large, not_text, invalid_manual, too_many_entries,
  auto_begin_marker, auto_end_marker, newline, trim_carriage, DocumentSections, split_sections,
}
use boxctl.FakeIp.Prefix.{
  Prefix, prefix_string, parse_ipv4_prefix, canonical_prefixes, to_net, max_entries,
}

pub record Document : Type 0 where
  pub content : Text
  pub manual_content : Text
  pub manual : List Prefix
  pub generated : List Prefix
  pub effective : List Prefix
  pub count : ℕ
  pub manual_count : ℕ
  pub generated_count : ℕ
  pub effective_count : ℕ
  pub revision : Text
  pub generated_at : ℕ
  pub generated_scope : Text
  pub has_generated : Bool

abbrev pub max_document_bytes : ℕ
max_document_bytes = 4_194_304

abbrev pub auto_scope_marker : Text
auto_scope_marker = codes "# Source scope: "

abbrev pub timestamp_prefix : Text
timestamp_prefix = codes "# Generated: "

abbrev pub hash_sign : Text
hash_sign = codes "#"

-- valid text without a NUL
unfoldable pub is_text : Text → Bool
unfolding valid_utf8
is_text s = valid_utf8 s && not (contains 0 s)

unfoldable pub valid_auto_scope : Text → Bool
valid_auto_scope scope =
    scope == [] || (scope == codes "local-only" || scope == codes "all-providers")

-- a source line without white space around it
abbrev pub trimmed_line : Text → Text
trimmed_line raw = trim_space (trim_carriage raw)

-- the loop over the lines of a block, with the scope so far and whether one was seen
unfoldable pub find_scope : Text → Bool → List Text → Text
find_scope scope seen [] = scope
find_scope scope seen (raw ∷ rest) =
    let line = trimmed_line raw in
    let candidate = trim_space (trim_prefix line auto_scope_marker) in
    let skip = find_scope scope seen rest in
    let found = find_scope candidate true rest in
    if not (has_prefix line auto_scope_marker)
    then skip
    else if seen
    then []
    else if not (valid_auto_scope candidate) || candidate == []
    then []
    else found

unfoldable pub parse_auto_scope : Text → Text
unfolding find_scope split_on
parse_auto_scope content = find_scope [] false (split_on newline content)

unfoldable pub normalize_line_endings : Text → Text
unfolding replace_crlf replace_carriage
normalize_line_endings content = replace_carriage (replace_crlf content)

module _ (parse_time : Text → Option ℕ) where
  -- the time of a comment, if it has one
  unfoldable pub comment_time : Text → ℕ → ℕ
  comment_time line at =
      if has_prefix line timestamp_prefix
      then elim (parse_time (trim_space (trim_prefix line timestamp_prefix))) [
        | none ↦ at
        | some parsed ↦ parsed
      ]
      else at

  -- the loop over the lines, with the prefixes and the time found so far
  unfoldable pub parse_lines : Bool → List Text → List Prefix → ℕ → Result (List Prefix × ℕ)
  unfolding comment_time
  parse_lines strict [] prefixes at = ok (prefixes, at)
  parse_lines strict (raw ∷ rest) prefixes at =
      let line = trimmed_line raw in
      let skip = parse_lines strict rest prefixes at in
      let comment = parse_lines strict rest prefixes (comment_time line at) in
      if line == []
      then skip
      else if has_prefix line hash_sign
      then (if strict && (line == auto_begin_marker || line == auto_end_marker)
          then err invalid_manual
          else comment)
      else elim (parse_ipv4_prefix line) [
        | none ↦ if strict then err invalid_manual else skip
        | some prefix ↦
            if ltb max_entries (length (prefixes ++ prefix ∷ []))
            then err too_many_entries
            else parse_lines strict rest (prefixes ++ prefix ∷ []) at
      ]

  unfoldable pub parse_prefix_text : Bool → Text → Result (List Prefix × ℕ)
  unfolding parse_lines split_on
  parse_prefix_text strict content = parse_lines strict (split_on newline content) [] 0 >>= λ found.
      canonical_prefixes (to_net found.0) >>= λ canonical. ok (canonical, found.1)

  unfoldable pub validate_manual : Text → Result Text
  unfolding parse_prefix_text normalize_line_endings
  validate_manual raw = do
    fail_if (ltb max_document_bytes (byte_length raw)) too_large
    fail_if (not (is_text raw)) invalid_manual
    let content = normalize_line_endings raw
    _ ← parse_prefix_text true content
    let ended =
        if not (content == []) && not (ends_with newline content)
        then content ++ newline ∷ []
        else content
    fail_if (ltb max_document_bytes (byte_length ended)) too_large
    ok ended

  module _ (revision : Text → Text) where
    unfoldable pub build_document :
        Text → DocumentSections → List Prefix × ℕ → List Prefix × ℕ → List Prefix → Document
    build_document content sections (manual, _) (generated, at) effective = record {
      content = content;
      manual_content = sections.before ++ sections.after;
      manual = manual;
      generated = generated;
      effective = effective;
      count = length effective;
      manual_count = length manual;
      generated_count = length generated;
      effective_count = length effective;
      revision = revision content;
      generated_at = at;
      generated_scope = parse_auto_scope sections.generated_body;
      has_generated = sections.has_generated;
    }

    unfoldable pub parse_sections : Text → DocumentSections → Result Document
    unfolding build_document
    parse_sections content sections = do
      manual ← parse_prefix_text false (sections.before ++ sections.after)
      generated ← parse_prefix_text false sections.generated_body
      effective ← canonical_prefixes (to_net (manual.0 ++ generated.0))
      fail_if
          (ltb max_entries (length manual.0)
            || (ltb max_entries (length generated.0) || ltb max_entries (length effective)))
          too_many_entries
      ok (build_document content sections manual generated effective)

    unfoldable pub parse_document : Text → Result Document
    unfolding parse_sections
    parse_document content = do
      fail_if (ltb max_document_bytes (byte_length content)) too_large
      fail_if (not (is_text content)) not_text
      sections ← split_sections content
      parse_sections content sections

-- the lines of the prefixes
unfoldable pub render_prefixes : List Prefix → Text
unfolding prefix_string
render_prefixes [] = []
render_prefixes (p ∷ ps) = prefix_string p ++ (newline ∷ render_prefixes ps)

unfoldable pub render_generated_block : (ℕ → Text) → List Prefix → ℕ → Text → Text
unfolding render_prefixes
render_generated_block format_time prefixes generated_at scope =
    (auto_begin_marker ++ newline ∷ [])
    ++ ((timestamp_prefix ++ (format_time generated_at ++ newline ∷ []))
        ++ ((if scope == [] then [] else auto_scope_marker ++ (scope ++ newline ∷ []))
            ++ (render_prefixes prefixes ++ (auto_end_marker ++ newline ∷ []))))
