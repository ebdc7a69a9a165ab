-- ===== src/RuleConvert/Classical.antt =====
-- The classical rules of one core (`parseClassical` of internal/ruleconvert/rules.go). The depth that
-- the source counts up is counted down here: `left` is the levels that a rule may still have.
use boxctl.Base.{
  ℕ, zero, suc, Bool, true, false, ◌||◌, ◌&&◌, not, Option, none, some, List, [], ◌∷◌, ◌++◌,
  if◌then◌else◌, text_Eq, ◌==◌, lookup,
}
use boxctl.Base.Text.{Text, codes, split_on}
use boxctl.Base.Strings.{trim_prefix, ends_with, trim_space}
use boxctl.RuleConvert.Predicate.{
  Result, ok, err, ◌>>=◌, ◌>>◌, fail_if, Kind, Predicate, Predicates, none_left, more, leaf,
  is_negation, logical, conjunction, disjunction, negation, domain, domain_suffix, domain_keyword,
  domain_regex, ip_cidr, source_ip_cidr, port, source_port, network, process_name, process_path,
  process_path_regex, too_deep, invalid_rule, invalid_operands, invalid_regex, invalid_network,
  match_unsupported, no_resolve_unsupported, process_unsupported, field_unsupported,
}
use boxctl.RuleConvert.Library.{
  Library, map_text, to_lower, to_upper, cut, replace_char, replace_escaped, quote_meta,
  starts_with, has_suffix,
}
use boxctl.RuleConvert.Leaves.{valid_domain, cidr_predicate, portable_regex, port_predicate, dot}
use boxctl.RuleConvert.Operands.{operands}

-- `maxDepth`
abbrev pub max_depth : ℕ
max_depth = 64

abbrev pub classical_fields : List (Text × Kind)
classical_fields =
    (codes "DOMAIN", domain)
    ∷ (codes "DOMAIN-SUFFIX", domain_suffix)
    ∷ (codes "DOMAIN-KEYWORD", domain_keyword)
    ∷ (codes "DOMAIN-REGEX", domain_regex)
    ∷ (codes "IP-CIDR", ip_cidr)
    ∷ (codes "IP-CIDR6", ip_cidr)
    ∷ (codes "SRC-IP-CIDR", source_ip_cidr)
    ∷ (codes "DST-PORT", port)
    ∷ (codes "SRC-PORT", source_port)
    ∷ (codes "PROCESS-NAME", process_name)
    ∷ (codes "PROCESS-PATH", process_path)
    ∷ (codes "PROCESS-PATH-REGEX", process_path_regex)
    ∷ (codes "NETWORK", network)
    ∷ []

abbrev pub logical_kinds : List (Text × Kind)
logical_kinds =
    (codes "AND", conjunction) ∷ (codes "OR", disjunction) ∷ (codes "NOT", negation) ∷ []

abbrev pub without_last : Text → Text
without_last [] = []
without_last (c ∷ []) = []
without_last (c ∷ d ∷ s) = c ∷ without_last (d ∷ s)

-- a text without its first and last character
abbrev pub inner : Text → Text
inner [] = []
inner (c ∷ s) = without_last s

abbrev pub text_of : Option Text → Text
text_of none = []
text_of (some s) = s

abbrev pub is_given : Option Text → Bool
is_given none = false
is_given (some s) = true

-- whether a logical rule has as many operands as its kind wants
abbrev pub has_operands : Kind → Predicates → Bool
has_operands kind none_left = false
has_operands kind (more p none_left) = true
has_operands kind (more p (more q ps)) = not (is_negation kind)

-- the loop over operands, and over the ports of a list
abbrev pub each_of : (Text → Result Predicate) → List Text → Result Predicates
each_of parse [] = ok none_left
each_of parse (item ∷ items) = do p ← parse item; ps ← each_of parse items; ok (more p ps)

unfoldable pub logical_rule : (Text → Result Predicate) → Kind → Text → Result Predicate
unfolding operands logical ends_with
logical_rule parse kind tail = do
  fail_if (not (starts_with b'(' tail && ends_with b')' tail)) invalid_rule
  items ← operands (inner tail)
  children ← each_of parse items
  fail_if (not (has_operands kind children)) invalid_operands
  ok (logical kind children)

unfoldable pub port_rule : Kind → Text → Result Predicate
unfolding port_predicate split_on replace_char logical
port_rule kind tail = do
  children ←
      each_of (λ part. port_predicate kind (replace_char b'-' b':' part)) (split_on b'/' tail)
  ok (logical disjunction children)

module _ (library : Library) where
  abbrev pub lowered : Text → Text
  lowered = map_text (to_lower library)

  unfoldable pub regex_rule : Kind → Text → Result Predicate
  unfolding portable_regex
  regex_rule kind tail = do
    portable_regex library tail kind
    fail_if (not (library.compiles (codes "(?i:" ++ (tail ++ codes ")")))) invalid_regex
    ok (leaf kind (codes "(?i:" ++ (tail ++ codes ")")))

  -- the rule of a known field
  unfoldable pub field_rule : Option Kind → Text → Result Predicate
  unfolding cidr_predicate trim_prefix valid_domain regex_rule port_rule
  field_rule none tail = err field_unsupported
  field_rule (some domain_keyword) tail = ok (leaf domain_keyword (lowered tail))
  field_rule (some ip_cidr) tail = cidr_predicate library ip_cidr tail
  field_rule (some source_ip_cidr) tail = cidr_predicate library source_ip_cidr tail
  field_rule (some domain_suffix) tail = do
    let suffix = trim_prefix tail (dot ∷ [])
    valid_domain suffix
    ok (leaf domain_suffix (lowered suffix))
  field_rule (some domain) tail = valid_domain tail >> ok (leaf domain (lowered tail))
  field_rule (some domain_regex) tail = regex_rule domain_regex tail
  field_rule (some process_path_regex) tail = regex_rule process_path_regex tail
  field_rule (some network) tail = do
    let value = lowered tail
    fail_if (not (value == codes "tcp") && not (value == codes "udp")) invalid_network
    ok (leaf network value)
  field_rule (some port) tail = port_rule port tail
  field_rule (some source_port) tail = port_rule source_port tail
  field_rule (some kind) tail = ok (leaf kind tail)

  unfoldable pub simple_rule : Text → Text → Result Predicate
  unfolding has_suffix quote_meta replace_escaped field_rule
  simple_rule kind tail = do
    fail_if (has_suffix tail (codes ",no-resolve")) no_resolve_unsupported
    fail_if (kind == codes "PROCESS-NAME" || kind == codes "PROCESS-PATH-WILDCARD")
        process_unsupported
    (if kind == codes "PROCESS-PATH"
        then ok (leaf process_path_regex (codes "(?i:\\A" ++ (quote_meta tail ++ codes "\\z)")))
        else if kind == codes "DOMAIN-WILDCARD"
        then ok (
            leaf domain_regex (
              codes "^"
              ++ (replace_escaped b'?' (codes ".")
                    (replace_escaped b'*' (codes ".*") (quote_meta (lowered tail)))
                  ++ codes "$")))
        else field_rule (lookup kind classical_fields) tail)

  abbrev pub by_kind :
      (Text → Result Predicate) → Option Kind → Text → Option Text → Result Predicate
  by_kind parse (some logical_kind) kind tail =
      logical_rule parse logical_kind (trim_space (text_of tail))
  by_kind parse none kind tail = do
    fail_if (not (is_given tail) || trim_space (text_of tail) == []) invalid_rule
    simple_rule kind (trim_space (text_of tail))

  unfoldable pub classical_rule : (Text → Result Predicate) → Text × Option Text → Result Predicate
  unfolding trim_space logical_rule simple_rule
  classical_rule parse (head, tail) = do
    let kind = map_text (to_upper library) (trim_space head)
    fail_if (kind == codes "MATCH" && not (is_given tail)) match_unsupported
    by_kind parse (lookup kind logical_kinds) kind tail

  unfoldable pub parse_classical : ℕ → Text → Result Predicate
  unfolding classical_rule cut
  parse_classical zero text = err too_deep
  parse_classical (suc left) text = classical_rule (parse_classical left) (cut b',' text)
