-- ===== src/RuleConvert/SingBox/Conversion.antt =====
-- From a rule set in text to the document for the core sing-box
-- (`parseText` and `encodeSing` of internal/ruleconvert/rules.go).
use boxctl.Base.{suc, ◌≡◌, Bool, ◌||◌, ◌&&◌, not, some, List, [], ◌∷◌, text_Eq, ◌==◌, ltb}
use boxctl.Base.Text.{Text, codes, contains, split_on}
use boxctl.Base.Strings.{has_prefix, trim_space, trim_prefix, byte_length}
use boxctl.Base.Answers.{
  Ensures, fails, gives, Ensures-bind, Ensures-after, Ensures-check, Ensures-if, Ensures-ok,
}
use boxctl.RuleConvert.Predicate.{
  Result, ok, err, Kind, Predicate, Predicates, none_left, more, leaf, domain, domain_suffix,
  domain_regex, ip_cidr, too_large, says_any,
}
use boxctl.RuleConvert.Library.{Library, map_text, to_lower, contains_any, starts_with}
use boxctl.RuleConvert.Leaves.{
  valid_domain, pattern_parts, drop_one, drop_two, dot, star, domain_pattern, cidr_predicate,
}
use boxctl.RuleConvert.Classical.{max_depth}
use boxctl.RuleConvert.Lines.{
  parse_line, parse_lines, parse_text, is_skipped, some_rules, or_else, document_lines, max_bytes,
}
use boxctl.RuleConvert.SingBox.{SingDocument, encode_sing}
use boxctl.RuleConvert.SingBox.Meaning.{IsEncodable, AreEncodable, matches_any}
use boxctl.RuleConvert.SingBox.Groups.{encode_sing_lem}
use boxctl.RuleConvert.SingBox.Accepted.{parse_classical-IsEncodable, cidr_predicate-IsEncodable}

domain_leaves-IsEncodable :
    (v : Text)
    → IsEncodable (leaf domain v)
      × IsEncodable (leaf domain_suffix v)
      × IsEncodable (leaf domain_regex v)
      × IsEncodable (leaf ip_cidr v)
unfolding IsEncodable
domain_leaves-IsEncodable v = (tt, tt, tt, tt)

or_else-IsEncodable :
    (first second : Result Predicate)
    → Ensures IsEncodable first
    → Ensures IsEncodable second
    → Ensures IsEncodable (or_else first second)
or_else-IsEncodable (ok p) second h k = h
or_else-IsEncodable (err e) second h k = k

some_rules-AreEncodable : (ps : Predicates) → AreEncodable ps → Ensures AreEncodable (some_rules ps)
some_rules-AreEncodable none_left h = fails _
some_rules-AreEncodable (more p ps) h = gives (more p ps) h

module _ (library : Library) where
  domain_pattern-IsEncodable : (raw : Text) → Ensures IsEncodable (domain_pattern library raw)
  unfolding domain_pattern
  domain_pattern-IsEncodable raw =
      let value = map_text (to_lower library) raw in
      Ensures-if (has_prefix value (codes "+.") && not (contains_any (drop_two value) (codes "*+")))
        (Ensures-after (valid_domain (drop_two value))
          λ _. gives (leaf domain_suffix _) (domain_leaves-IsEncodable _).1)
        (Ensures-if (starts_with dot value && not (contains_any (drop_one value) (codes "*+")))
          (Ensures-after (valid_domain (drop_one value))
            λ _. gives (leaf domain_suffix _) (domain_leaves-IsEncodable _).1)
          (Ensures-if (not (contains star value))
            (Ensures-after (valid_domain value)
              λ _. gives (leaf domain _) (domain_leaves-IsEncodable _).0)
            (Ensures-after (pattern_parts (split_on dot value))
              λ parts. gives (leaf domain_regex _) (domain_leaves-IsEncodable _).2)))

  address-IsEncodable : (line : Text) → Ensures IsEncodable (cidr_predicate library ip_cidr line)
  address-IsEncodable line =
      cidr_predicate-IsEncodable library ip_cidr line λ v. (domain_leaves-IsEncodable v).3

  parse_line-IsEncodable :
      (behavior line : Text) → Ensures IsEncodable (parse_line library behavior line)
  unfolding parse_line
  parse_line-IsEncodable behavior line =
      Ensures-if (behavior == codes "domain") (domain_pattern-IsEncodable line) (
        Ensures-if (behavior == codes "ipcidr") (address-IsEncodable line) (
          Ensures-if (behavior == codes "classical")
            (parse_classical-IsEncodable library (suc max_depth) line)
            (Ensures-if (behavior == [] || behavior == codes "auto")
              (Ensures-if (contains b',' line || line == codes "MATCH")
                (parse_classical-IsEncodable library (suc max_depth) line)
                (or_else-IsEncodable _ _ (address-IsEncodable line)
                  (domain_pattern-IsEncodable line)))
              (fails _))))

  parse_lines-AreEncodable :
      (behavior : Text) (lines : List Text)
      → Ensures AreEncodable (parse_lines library behavior lines)
  unfolding parse_lines IsEncodable
  parse_lines-AreEncodable behavior [] = gives none_left tt
  parse_lines-AreEncodable behavior (raw ∷ lines) =
      Ensures-if (is_skipped (trim_space raw)) (parse_lines-AreEncodable behavior lines) (
        Ensures-bind (parse_line-IsEncodable behavior (trim_space raw)) λ p h.
          Ensures-bind (parse_lines-AreEncodable behavior lines) λ ps hs. gives (more p ps) (h, hs))

  parse_text-AreEncodable :
      (content behavior : Text) → Ensures AreEncodable (parse_text library content behavior)
  unfolding parse_text
  parse_text-AreEncodable content behavior =
      Ensures-check (ltb max_bytes (byte_length content)) too_large λ _.
        Ensures-after (document_lines library (trim_space (trim_prefix content (0xfeff ∷ []))))
          λ lines.
            Ensures-bind (parse_lines-AreEncodable behavior lines)
              λ ps h. some_rules-AreEncodable ps h

-- Whatever rules a text is read as, whether of domains, of addresses or of classical rules: they are
-- encoded for the core sing-box (the source stops at no missing operand), and the document
-- says of a connection what one of the rules says, whatever each condition says of it.
pub encode_sing-parse_text :
    (library : Library) (holds : Kind → Text → Bool) (content behavior : Text) (rules : Predicates)
    → parse_text library content behavior ≡ ok rules
    → (document : SingDocument) × (encode_sing rules ≡ some document)
      × (matches_any holds document.rules ≡ says_any holds rules)
encode_sing-parse_text library holds content behavior rules e =
    encode_sing_lem holds rules
      (Ensures-ok rules (parse_text-AreEncodable library content behavior) e)
