-- ===== src/RuleConvert/Leaves.antt =====
-- The single conditions of a rule (internal/ruleconvert/rules.go).
use boxctl.Base.{
  ℕ, Bool, true, false, ◌||◌, ◌&&◌, not, Option, none, some, List, [], ◌∷◌, ◌++◌, nat_eq, ltb, leb,
  if◌then◌else◌, text_Eq, ◌==◌,
}
use boxctl.Base.Text.{Text, codes, contains, split_on}
use boxctl.Base.Strings.{has_prefix, ends_with}
use boxctl.EventLog.Redact.{contains_text}
use boxctl.RuleConvert.Predicate.{
  Result, ok, err, ◌>>=◌, ◌>>◌, fail_if, Kind, Predicate, leaf, domain, domain_suffix, domain_regex,
  process_path_regex, port, port_range, source_port, source_port_range, invalid_address,
  invalid_domain, invalid_port, invalid_regex,
}
use boxctl.RuleConvert.Library.{
  Library, NetPrefix, map_text, to_lower, contains_any, cut, quote_meta, starts_with, has_ungreedy,
}
use boxctl.RuleConvert.Decimal.{atoi, itoa}

abbrev pub dot : ℕ
dot = b'.'

abbrev pub star : ℕ
star = b'*'

-- the characters that no domain has
abbrev pub forbidden : Text
forbidden = 32 ∷ 9 ∷ 13 ∷ 10 ∷ codes "/:,+*?()[]{}|\\\"'<>=#"

unfoldable pub is_domain : Text → Bool
unfolding has_prefix ends_with contains_text contains_any
is_domain value = not (
    value == []
    || (starts_with dot value
        || (ends_with dot value
            || (contains_text (codes "..") value || contains_any value forbidden))))

-- `validDomain`
unfoldable pub valid_domain : Text → Result (Unit {0})
unfolding is_domain
valid_domain value = fail_if (not (is_domain value)) invalid_domain

-- the parts of a pattern with stars
unfoldable pub pattern_parts : List Text → Result (List Text)
unfolding valid_domain quote_meta
pattern_parts [] = ok []
pattern_parts (part ∷ parts) =
    if part == star ∷ []
    then (pattern_parts parts >>= λ rest. ok (codes "[^.]+" ∷ rest))
    else (valid_domain part >> (pattern_parts parts >>= λ rest. ok (quote_meta part ∷ rest)))

abbrev pub join_texts : Text → List Text → Text
join_texts sep [] = []
join_texts sep (p ∷ []) = p
join_texts sep (p ∷ q ∷ ps) = p ++ (sep ++ join_texts sep (q ∷ ps))

abbrev pub drop_two : Text → Text
drop_two (_ ∷ _ ∷ s) = s
drop_two _ = []

abbrev pub drop_one : Text → Text
drop_one [] = []
drop_one (c ∷ s) = s

module _ (library : Library) where
  unfoldable pub domain_pattern : Text → Result Predicate
  unfolding valid_domain pattern_parts contains_any has_prefix split_on
  domain_pattern raw =
      let value = map_text (to_lower library) raw in
      if has_prefix value (codes "+.") && not (contains_any (drop_two value) (codes "*+"))
      then (valid_domain (drop_two value) >> ok (leaf domain_suffix (drop_two value)))
      else if starts_with dot value && not (contains_any (drop_one value) (codes "*+"))
      then (valid_domain (drop_one value) >> ok (leaf domain_suffix value))
      else if not (contains star value)
      then (valid_domain value >> ok (leaf domain value))
      else (pattern_parts (split_on dot value) >>= λ parts.
          ok (leaf domain_regex (codes "^" ++ (join_texts (codes "\\.") parts ++ codes "$"))))

  -- an address or a prefix that may stand in a rule
  abbrev pub accept_prefix : Kind → Option NetPrefix → Result Predicate
  accept_prefix kind none = err invalid_address
  accept_prefix kind (some p) = do
    fail_if (not p.is_valid || (p.is_4in6 || p.has_zone)) invalid_address
    ok (leaf kind p.masked_text)

  unfoldable pub cidr_predicate : Kind → Text → Result Predicate
  cidr_predicate kind value =
      accept_prefix kind
        (if contains b'/' value then library.parse_prefix value else library.parse_address value)

  -- the loop over the characters of a regular expression
  unfoldable pub scan_regex : Text → Bool
  unfolding has_ungreedy
  scan_regex [] = true
  scan_regex (c ∷ []) = true
  scan_regex (c ∷ d ∷ s) =
      let skipped = scan_regex s in
      let next = scan_regex (d ∷ s) in
      if nat_eq c b'(' && (nat_eq d b'?' && has_ungreedy s)
      then false
      else if nat_eq c b'\\'
      then (if (leb 48 d && leb d 57)
            || (((leb 65 d && leb d 90) || (leb 97 d && leb d 122))
                && not (contains d (codes "nrtfavxAz")))
          then false
          else skipped)
      else next

  abbrev pub all_ascii : Text → Bool
  all_ascii [] = true
  all_ascii (c ∷ s) = leb c 127 && all_ascii s

  abbrev pub is_path_regex : Kind → Bool
  is_path_regex process_path_regex = true
  is_path_regex _ = false

  unfoldable pub portable_regex : Text → Kind → Result (Unit {0})
  unfolding scan_regex contains_text
  portable_regex value field = do
    fail_if (not (library.compiles value)) invalid_regex
    fail_if
        (contains_text (codes "(?P<") value
          || (contains_text (codes "(?U") value
              || (contains_text (codes "(?-U") value || contains_text (codes "\\x{") value)))
        invalid_regex
    fail_if (contains_text (codes "[:") value) invalid_regex
    fail_if (not (all_ascii value)) invalid_regex
    fail_if (not (scan_regex value)) invalid_regex
    fail_if (is_path_regex field && contains b'$' value) invalid_regex

-- the kind of a range of ports; other kinds are not asked for
abbrev pub range_kind : Kind → Kind
range_kind port = port_range
range_kind source_port = source_port_range
range_kind kind = kind

abbrev pub bound_of : ℕ → Text → Option ℕ
bound_of other [] = some other
bound_of other (c ∷ s) = atoi (c ∷ s)

abbrev pub range_predicate : Kind → Option ℕ → Option ℕ → Result Predicate
range_predicate kind (some low) (some high) = do
  fail_if (ltb 65535 high || ltb high low) invalid_port
  ok (leaf (range_kind kind) (itoa low ++ b':' ∷ itoa high))
range_predicate kind _ _ = err invalid_port

abbrev pub single_port : Kind → Option ℕ → Result Predicate
single_port kind none = err invalid_port
single_port kind (some n) = do fail_if (ltb 65535 n) invalid_port; ok (leaf kind (itoa n))

abbrev pub port_parts : Kind → Text → Text × Option Text → Result Predicate
port_parts kind value (low, some high) = range_predicate kind (bound_of 0 low) (bound_of 65535 high)
port_parts kind value (_, none) = single_port kind (atoi value)

unfoldable pub port_predicate : Kind → Text → Result Predicate
unfolding cut atoi itoa
port_predicate kind value = port_parts kind value (cut b':' value)
