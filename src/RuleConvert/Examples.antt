-- ===== src/RuleConvert/Examples.antt =====
-- Tests and instances for internal/ruleconvert.
use boxctl.Base.{
  ◌≡◌, ◌≤◌, ◌≢◌, ◌↔◌, refl, Bool, true, false, none, some, [], ◌∷◌, All, arith, inl, suc, text_Eq,
  ◌==◌,
}
use boxctl.Base.Text.{Text, codes, split_on}
use boxctl.Base.Strings.{trim_space, trim_prefix}
use boxctl.RuleConvert.Predicate
use boxctl.RuleConvert.Predicate.{
  Result, ok, err, Kind, Predicate, predicate, Predicates, none_left, more, leaf, always,
  conjunction, disjunction, negation, domain, domain_suffix, domain_keyword, port, port_range,
  network, says, says_any,
}
use boxctl.RuleConvert.Library.{Library}
use boxctl.RuleConvert.Leaves.{is_domain}
use boxctl.RuleConvert.Classical.{parse_classical, max_depth}
use boxctl.RuleConvert.Mihomo.{classical}
use boxctl.RuleConvert.Operands.{operands, wrap, IsBalanced}
use boxctl.RuleConvert.Operands.Splitting.{operands-wrap, operands-ne-out_of_fuel}
use boxctl.RuleConvert.Lines.{parse_text}
use boxctl.RuleConvert.SingBox.{SingDocument, encode_sing}
use boxctl.RuleConvert.SingBox.Meaning.{matches_any}
use boxctl.RuleConvert.SingBox.Conversion.{encode_sing-parse_text}
use boxctl.RuleConvert.Translation.Plain.{IsPlain, levels}
use boxctl.RuleConvert.Translation.Meaning.{LeavesDomainOut, says-parse_classical-classical}

-- A library that reads no addresses and accepts every regular expression.
abbrev simple_library : Library
simple_library = record {
  lower_other = λ c. c;
  upper_other = λ c. c;
  compiles = λ _. true;
  parse_prefix = λ _. none;
  parse_address = λ _. none;
  scan_lines = λ s. some (split_on 10 s);
  decode_payload = λ _. none;
}

abbrev two_rules : Text
two_rules = codes "OR,((DOMAIN,a.b),(NETWORK,tcp))"

abbrev two_rules_parsed : Predicate
two_rules_parsed =
    predicate disjunction []
      (more (leaf domain (codes "a.b")) (more (leaf network (codes "tcp")) none_left))

reads_two_rules : parse_classical simple_library 65 two_rules ≡ ok two_rules_parsed
unfolding parse_classical
reads_two_rules = refl

writes_two_rules : classical simple_library two_rules_parsed ≡ ok two_rules
unfolding classical
writes_two_rules = refl

-- a range of ports, and a list of ports
reads_ports :
    parse_classical simple_library 65 (codes "DST-PORT,80/1000-2000")
    ≡ ok (
        predicate disjunction []
          (more (leaf port (codes "80")) (more (leaf port_range (codes "1000:2000")) none_left)))
unfolding parse_classical
reads_ports = refl

-- A regular expression with an escaped parenthesis is written as an operand that is not read again.
abbrev one_sided : Predicate
one_sided =
    predicate conjunction []
      (more (leaf Kind.domain_regex (codes "a\\(")) (more (leaf network (codes "tcp")) none_left))

one_sided_line : Text
one_sided_line = codes "AND,((DOMAIN-REGEX,(?-i:a\\()),(NETWORK,tcp))"

writes_one_sided : classical simple_library one_sided ≡ ok one_sided_line
unfolding classical one_sided_line
writes_one_sided = refl

refuses_one_sided :
    parse_classical simple_library 65 one_sided_line ≡ err Predicate.unclosed_operand
unfolding parse_classical one_sided_line
refuses_one_sided = refl

operands-wrap_example : (operands (codes "(a),(b(c))") ≡ ok (codes "a" ∷ codes "b(c)" ∷ [])) ↔ (
    (codes "(a),(b(c))" ≡ wrap (codes "a" ∷ codes "b(c)" ∷ []))
    × All IsBalanced (codes "a" ∷ codes "b(c)" ∷ []))
operands-wrap_example = operands-wrap (codes "(a),(b(c))") (codes "a" ∷ codes "b(c)" ∷ [])

operands-ne-out_of_fuel_example : operands (codes "(a),(b") ≢ err Predicate.out_of_fuel
operands-ne-out_of_fuel_example = operands-ne-out_of_fuel (codes "(a),(b")

-- a connection over tcp to a.b
abbrev to_a_b : Kind → Text → Bool
to_a_b network v = v == codes "tcp"
to_a_b domain v = v == codes "a.b"
to_a_b domain_suffix v = v == codes "a.b"
to_a_b kind v = false

-- every name below a.b that is not reached over tcp
abbrev below_a_b : Predicate
below_a_b = predicate conjunction [] (
    more (leaf domain_suffix (codes ".a.b"))
      (more (predicate negation [] (more (leaf network (codes "tcp")) none_left)) none_left))

below_a_b-IsPlain : IsPlain simple_library below_a_b
unfolding IsPlain is_domain trim_space trim_prefix
below_a_b-IsPlain = (tt, refl, (refl, refl, refl), ((tt, refl, inl refl, tt), tt))

to_a_b-LeavesDomainOut : LeavesDomainOut to_a_b
unfolding trim_prefix
to_a_b-LeavesDomainOut [] strict = cc
to_a_b-LeavesDomainOut (c ∷ s) strict = ground arith

below_a_b-levels : levels below_a_b ≤ suc max_depth
unfolding levels
below_a_b-levels = omega arith

reads_domain :
    parse_text simple_library (codes "A.b") (codes "auto")
    ≡ ok (more (leaf domain (codes "a.b")) none_left)
unfolding parse_text
reads_domain = refl

says-parse_classical-classical_example :
    (line : Text) × (q : Predicate) × (classical simple_library below_a_b ≡ ok line)
    × (parse_classical simple_library (suc max_depth) line ≡ ok q)
    × (says to_a_b q ≡ says to_a_b below_a_b)
says-parse_classical-classical_example =
    says-parse_classical-classical simple_library to_a_b below_a_b to_a_b-LeavesDomainOut
      below_a_b-IsPlain below_a_b-levels

encode_sing-parse_text_example :
    (document : SingDocument) × (encode_sing (more (leaf domain (codes "a.b")) none_left)
      ≡ some document)
    × (matches_any to_a_b document.rules
        ≡ says_any to_a_b (more (leaf domain (codes "a.b")) none_left))
encode_sing-parse_text_example =
    encode_sing-parse_text simple_library to_a_b (codes "A.b") (codes "auto")
      (more (leaf domain (codes "a.b")) none_left) reads_domain
