-- ===== src/RuleConvert/Lines.antt =====
-- The rule sets of one line to a rule (`parseText` of internal/ruleconvert/rules.go), over code
-- points. The YAML decoder and `bufio.Scanner` are fields of `Library`.
use boxctl.Base.{
  ℕ, zero, suc, Bool, ◌||◌, Option, none, some, List, [], ◌∷◌, ltb, if◌then◌else◌, text_Eq, ◌==◌,
}
use boxctl.Base.Text.{Text, codes, contains}
use boxctl.Base.Strings.{has_prefix, trim_prefix, trim_space, byte_length}
use boxctl.RuleConvert.Predicate.{
  Result, ok, err, ◌>>=◌, ◌>>◌, fail_if, Predicate, Predicates, none_left, more, ip_cidr, too_large,
  invalid_behavior, empty_rule_set, invalid_document,
}
use boxctl.RuleConvert.Library.{Library, cut}
use boxctl.RuleConvert.Leaves.{cidr_predicate, domain_pattern}
use boxctl.RuleConvert.Classical.{parse_classical, max_depth}

-- `MaxBytes`
abbrev pub max_bytes : ℕ
max_bytes = 33554432

-- The text behind the lines that start with `#`, on fuel; a last line of that kind stays.
abbrev pub after_line : (Text → Text) → Text → Option Text → Text
after_line next probe none = probe
after_line next probe (some rest) = next (trim_space rest)

unfoldable pub skip_comments : ℕ → Text → Text
unfolding trim_space has_prefix cut
skip_comments zero probe = probe
skip_comments (suc fuel) probe =
    let next = after_line (skip_comments fuel) probe (cut 10 probe).1 in
    if has_prefix probe (codes "#") then next else probe

abbrev pub is_document : Text → Bool
is_document probe =
    has_prefix probe (codes "payload:")
    || (has_prefix probe (codes "---") || has_prefix probe (codes "{"))

abbrev pub all_strings : List (Option Text) → Result (List Text)
all_strings [] = ok []
all_strings (none ∷ entries) = err invalid_document
all_strings (some line ∷ entries) = all_strings entries >>= λ lines. ok (line ∷ lines)

abbrev pub payload_lines : Option (List (Option Text) × Bool) → Result (List Text)
payload_lines none = err invalid_document
payload_lines (some (entries, followed)) = fail_if followed invalid_document >> all_strings entries

abbrev pub scanned : Option (List Text) → Result (List Text)
scanned none = err too_large
scanned (some lines) = ok lines

-- the rule of the first parser, or else what the second gives
abbrev pub or_else : Result Predicate → Result Predicate → Result Predicate
or_else (ok p) other = ok p
or_else (err e) other = other

abbrev pub some_rules : Predicates → Result Predicates
some_rules none_left = err empty_rule_set
some_rules (more p ps) = ok (more p ps)

abbrev pub is_skipped : Text → Bool
is_skipped line = line == [] || (has_prefix line (codes "#") || has_prefix line (codes "//"))

module _ (library : Library) where
  unfoldable pub document_lines : Text → Result (List Text)
  unfolding skip_comments has_prefix
  document_lines trimmed =
      if is_document (skip_comments (byte_length trimmed) trimmed)
      then payload_lines (library.decode_payload trimmed)
      else scanned (library.scan_lines trimmed)

  -- the rule on a line that is neither empty nor a comment
  unfoldable pub parse_line : Text → Text → Result Predicate
  unfolding domain_pattern cidr_predicate parse_classical
  parse_line behavior line =
      if behavior == codes "domain"
      then domain_pattern library line
      else if behavior == codes "ipcidr"
      then cidr_predicate library ip_cidr line
      else if behavior == codes "classical"
      then parse_classical library (suc max_depth) line
      else if behavior == [] || behavior == codes "auto"
      then (if contains b',' line || line == codes "MATCH"
          then parse_classical library (suc max_depth) line
          else or_else (cidr_predicate library ip_cidr line) (domain_pattern library line))
      else err invalid_behavior

  unfoldable pub parse_lines : Text → List Text → Result Predicates
  unfolding trim_space has_prefix parse_line
  parse_lines behavior [] = ok none_left
  parse_lines behavior (raw ∷ lines) =
      let rest = parse_lines behavior lines in
      if is_skipped (trim_space raw)
      then rest
      else (parse_line behavior (trim_space raw) >>= λ p. (rest >>= λ ps. ok (more p ps)))

  unfoldable pub parse_text : Text → Text → Result Predicates
  unfolding trim_prefix trim_space byte_length document_lines parse_lines
  parse_text content behavior = do
    fail_if (ltb max_bytes (byte_length content)) too_large
    lines ← document_lines (trim_space (trim_prefix content (0xfeff ∷ [])))
    rules ← parse_lines behavior lines
    some_rules rules
