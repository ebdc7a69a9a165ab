-- ===== src/RuleConvert/SingBox/Accepted.antt =====
-- The rules that the parsers of texts accept can be encoded (internal/ruleconvert/rules.go).
use boxctl.Base.{
  ℕ, zero, suc, All, arith, ◌≡◌, ◌≢◌, refl, false, not, ◌&&◌, ◌||◌, ltb, Option, none, some, List,
  [], ◌∷◌, ◌++◌, lookup, text_Eq, ◌==◌, Bool-cases, inl, inr,
}
use boxctl.Base.Text.{Text, codes, split_on, split_on-ne-nil}
use boxctl.Base.Strings.{ends_with, trim_space, trim_prefix}
use boxctl.Base.Answers.{
  Ensures, fails, gives, Ensures-bind, Ensures-after, Ensures-check, Ensures-if,
}
use boxctl.RuleConvert.Predicate.{
  Result, Kind, Predicate, Predicates, none_left, more, leaf, logical, match_unsupported,
  no_resolve_unsupported, process_unsupported, invalid_network, invalid_rule, invalid_port,
  invalid_address, invalid_regex, port_range, source_port_range, invalid_operands, conjunction,
  disjunction, negation, domain, domain_suffix, domain_regex, ip_cidr, source_ip_cidr, port,
  source_port, network, process_path_regex,
}
use boxctl.RuleConvert.Library.{
  Library, NetPrefix, cut, starts_with, has_suffix, replace_char, map_text, to_upper,
}
use boxctl.RuleConvert.Decimal.{itoa, atoi}
use boxctl.RuleConvert.Leaves.{
  bound_of, valid_domain, dot, portable_regex, accept_prefix, cidr_predicate, port_predicate,
  port_parts, range_predicate, single_port,
}
use boxctl.RuleConvert.Classical.{
  text_of, is_given, lowered, classical_fields, inner, each_of, has_operands, logical_rule,
  port_rule, regex_rule, field_rule, simple_rule, by_kind, classical_rule, parse_classical,
  logical_kinds,
}
use boxctl.RuleConvert.Operands.{operands}
use boxctl.RuleConvert.SingBox.Meaning.{IsEncodable, AreEncodable, HasEncodable}

-- the kinds of lists of ports
abbrev IsPortKind : Kind → Type 0
IsPortKind port = Unit
IsPortKind source_port = Unit
IsPortKind kind = ⊥

abbrev IsCombining : Kind → Type 0
IsCombining conjunction = Unit
IsCombining disjunction = Unit
IsCombining negation = Unit
IsCombining kind = ⊥

logical-IsEncodable :
    (kind : Kind) (ps : Predicates)
    → IsCombining kind
    → HasEncodable ps
    → IsEncodable (logical kind ps)
unfolding logical IsEncodable
logical-IsEncodable conjunction (more p none_left) c h = h.0
logical-IsEncodable conjunction (more p (more q ps)) c h = h
logical-IsEncodable disjunction (more p none_left) c h = h.0
logical-IsEncodable disjunction (more p (more q ps)) c h = h
logical-IsEncodable negation (more p none_left) c h = h
logical-IsEncodable negation (more p (more q ps)) c h = h
logical-IsEncodable kind none_left c h = absurd h
logical-IsEncodable kind (more p ps) c h = absurd c

each_of-AreEncodable :
    (parse : Text → Result Predicate) (items : List Text)
    → ((item : Text) → Ensures IsEncodable (parse item))
    → Ensures AreEncodable (each_of parse items)
unfolding IsEncodable
each_of-AreEncodable parse [] h = gives none_left tt
each_of-AreEncodable parse (item ∷ items) h = Ensures-bind (h item) λ p encodable.
    Ensures-bind (each_of-AreEncodable parse items h) λ ps all. gives (more p ps) (encodable, all)

has_operands-HasEncodable :
    (kind : Kind) (ps : Predicates)
    → not (has_operands kind ps) ≡ false
    → AreEncodable ps
    → HasEncodable ps
unfolding IsEncodable
has_operands-HasEncodable kind none_left h all = cc
has_operands-HasEncodable kind (more p ps) h all = all

logical_rule-IsEncodable :
    (parse : Text → Result Predicate) (kind : Kind) (tail : Text)
    → IsCombining kind
    → ((item : Text) → Ensures IsEncodable (parse item))
    → Ensures IsEncodable (logical_rule parse kind tail)
unfolding logical_rule
logical_rule-IsEncodable parse kind tail c h =
    Ensures-check (not (starts_with b'(' tail && ends_with b')' tail)) invalid_rule λ _.
      Ensures-after (operands (inner tail)) λ items.
        Ensures-bind (each_of-AreEncodable parse items h) λ ps all.
          Ensures-check (not (has_operands kind ps)) invalid_operands λ enough.
            gives (logical kind ps)
              (logical-IsEncodable kind ps c (has_operands-HasEncodable kind ps enough all))

single_port-IsEncodable :
    (kind : Kind) (n : Option ℕ) → IsPortKind kind → Ensures IsEncodable (single_port kind n)
unfolding IsEncodable
single_port-IsEncodable kind none k = fails _
single_port-IsEncodable port (some n) k =
    Ensures-check (ltb 65535 n) invalid_port λ _. gives (leaf port (itoa n)) (n, refl)
single_port-IsEncodable source_port (some n) k =
    Ensures-check (ltb 65535 n) invalid_port λ _. gives (leaf source_port (itoa n)) (n, refl)
single_port-IsEncodable kind (some n) k = absurd k

range_predicate-IsEncodable :
    (kind : Kind) (low high : Option ℕ)
    → IsPortKind kind
    → Ensures IsEncodable (range_predicate kind low high)
unfolding IsEncodable
range_predicate-IsEncodable port (some low) (some high) k =
    Ensures-check (ltb 65535 high || ltb high low) invalid_port
      λ _. gives (leaf port_range (itoa low ++ b':' ∷ itoa high)) tt
range_predicate-IsEncodable source_port (some low) (some high) k =
    Ensures-check (ltb 65535 high || ltb high low) invalid_port
      λ _. gives (leaf source_port_range (itoa low ++ b':' ∷ itoa high)) tt
range_predicate-IsEncodable kind (some low) (some high) k = absurd k
range_predicate-IsEncodable kind (some low) none k = fails _
range_predicate-IsEncodable kind none high k = fails _

port_parts-IsEncodable :
    (kind : Kind) (value : Text) (parts : Text × Option Text)
    → IsPortKind kind
    → Ensures IsEncodable (port_parts kind value parts)
port_parts-IsEncodable kind value (low, some high) k =
    range_predicate-IsEncodable kind (bound_of 0 low) (bound_of 65535 high) k
port_parts-IsEncodable kind value (low, none) k = single_port-IsEncodable kind (atoi value) k

each_of-HasEncodable :
    (parse : Text → Result Predicate) (items : List Text)
    → items ≢ []
    → ((item : Text) → Ensures IsEncodable (parse item))
    → Ensures HasEncodable (each_of parse items)
unfolding IsEncodable
each_of-HasEncodable parse [] given h = absurd (given refl)
each_of-HasEncodable parse (item ∷ items) given h = Ensures-bind (h item) λ p encodable.
    Ensures-bind (each_of-AreEncodable parse items h) λ ps all. gives (more p ps) (encodable, all)

port_predicate-IsEncodable :
    (kind : Kind) (value : Text) → IsPortKind kind → Ensures IsEncodable (port_predicate kind value)
unfolding port_predicate
port_predicate-IsEncodable kind value k = port_parts-IsEncodable kind value (cut b':' value) k

port_rule-IsEncodable :
    (kind : Kind) (tail : Text) → IsPortKind kind → Ensures IsEncodable (port_rule kind tail)
unfolding port_rule
port_rule-IsEncodable kind tail k =
    Ensures-bind
      (each_of-HasEncodable (λ part. port_predicate kind (replace_char b'-' b':' part))
        (split_on b'/' tail) (split_on-ne-nil b'/' tail)
        λ part. port_predicate-IsEncodable kind (replace_char b'-' b':' part) k)
      λ ps all. gives (logical disjunction ps) (logical-IsEncodable disjunction ps tt all)

-- the fields that a name stands for
abbrev IsField : Option Kind → Type 0
IsField (some conjunction) = ⊥
IsField (some disjunction) = ⊥
IsField (some negation) = ⊥
IsField kind = Unit

lookup-All :
    (P : Option Kind → Type 0) (key : Text) (m : List (Text × Kind))
    → P none
    → All (λ e. P (some e.1)) m
    → P (lookup key m)
lookup-All P key [] h all = h
lookup-All P key ((k, kind) ∷ m) h (first, rest) = elim (Bool-cases (k == key)) [
  | inl found ↦ rw found first
  | inr other ↦ rw other (lookup-All P key m h rest)
]

IsField-lookup : (key : Text) → IsField (lookup key classical_fields)
IsField-lookup key = lookup-All IsField key classical_fields tt (omega arith)

abbrev CombinesIfAny : Option Kind → Type 0
CombinesIfAny none = Unit
CombinesIfAny (some kind) = IsCombining kind

regex_leaf-IsEncodable :
    (v : Text) → IsEncodable (leaf process_path_regex v) × IsEncodable (leaf domain_regex v)
unfolding IsEncodable
regex_leaf-IsEncodable v = (tt, tt)

module _ (library : Library) where
  accept_prefix-IsEncodable :
      (kind : Kind) (found : Option NetPrefix)
      → ((v : Text) → IsEncodable (leaf kind v))
      → Ensures IsEncodable (accept_prefix library kind found)
  accept_prefix-IsEncodable kind none h = fails _
  accept_prefix-IsEncodable kind (some p) h =
      Ensures-check (not p.is_valid || (p.is_4in6 || p.has_zone)) invalid_address
        λ _. gives (leaf kind p.masked_text) (h _)

  pub cidr_predicate-IsEncodable :
      (kind : Kind) (value : Text)
      → ((v : Text) → IsEncodable (leaf kind v))
      → Ensures IsEncodable (cidr_predicate library kind value)
  unfolding cidr_predicate
  cidr_predicate-IsEncodable kind value h = accept_prefix-IsEncodable kind _ h

  regex_rule-IsEncodable :
      (kind : Kind) (tail : Text)
      → ((v : Text) → IsEncodable (leaf kind v))
      → Ensures IsEncodable (regex_rule library kind tail)
  unfolding regex_rule
  regex_rule-IsEncodable kind tail h = Ensures-after (portable_regex library tail kind) λ _.
      Ensures-check (not (library.compiles (codes "(?i:" ++ (tail ++ codes ")")))) invalid_regex
        λ _. gives (leaf kind (codes "(?i:" ++ (tail ++ codes ")"))) (h _)

  field_rule-IsEncodable :
      (kind : Option Kind) (tail : Text)
      → IsField kind
      → Ensures IsEncodable (field_rule library kind tail)
  unfolding field_rule IsEncodable
  field_rule-IsEncodable none tail k = fails _
  field_rule-IsEncodable (some conjunction) tail k = absurd k
  field_rule-IsEncodable (some disjunction) tail k = absurd k
  field_rule-IsEncodable (some negation) tail k = absurd k
  field_rule-IsEncodable (some domain_suffix) tail k =
      Ensures-after (valid_domain (trim_prefix tail (dot ∷ []))) λ _. gives _ tt
  field_rule-IsEncodable (some domain) tail k = Ensures-after (valid_domain tail) λ _. gives _ tt
  field_rule-IsEncodable (some ip_cidr) tail k = cidr_predicate-IsEncodable ip_cidr tail λ v. tt
  field_rule-IsEncodable (some source_ip_cidr) tail k =
      cidr_predicate-IsEncodable source_ip_cidr tail λ v. tt
  field_rule-IsEncodable (some domain_regex) tail k =
      regex_rule-IsEncodable domain_regex tail λ v. tt
  field_rule-IsEncodable (some process_path_regex) tail k =
      regex_rule-IsEncodable process_path_regex tail λ v. tt
  field_rule-IsEncodable (some network) tail k =
      Ensures-check
        (not (lowered library tail == codes "tcp") && not (lowered library tail == codes "udp"))
        invalid_network λ _. gives _ tt
  field_rule-IsEncodable (some port) tail k = port_rule-IsEncodable port tail tt
  field_rule-IsEncodable (some source_port) tail k = port_rule-IsEncodable source_port tail tt
  field_rule-IsEncodable (some port_range) tail k = gives _ tt
  field_rule-IsEncodable (some kind) tail k = gives _ tt

  simple_rule-IsEncodable : (kind tail : Text) → Ensures IsEncodable (simple_rule library kind tail)
  unfolding simple_rule
  simple_rule-IsEncodable kind tail =
      Ensures-check (has_suffix tail (codes ",no-resolve")) no_resolve_unsupported λ _.
        Ensures-check (kind == codes "PROCESS-NAME" || kind == codes "PROCESS-PATH-WILDCARD")
          process_unsupported
          λ _.
            Ensures-if (kind == codes "PROCESS-PATH")
              (gives (leaf process_path_regex _) (regex_leaf-IsEncodable _).0)
              (Ensures-if (kind == codes "DOMAIN-WILDCARD")
                (gives (leaf domain_regex _) (regex_leaf-IsEncodable _).1)
                (field_rule-IsEncodable (lookup kind classical_fields) tail (IsField-lookup kind)))

  by_kind-IsEncodable :
      (parse : Text → Result Predicate) (combining : Option Kind) (kind : Text) (tail : Option Text)
      → CombinesIfAny combining
      → ((item : Text) → Ensures IsEncodable (parse item))
      → Ensures IsEncodable (by_kind library parse combining kind tail)
  by_kind-IsEncodable parse (some combining) kind tail c h =
      logical_rule-IsEncodable parse combining (trim_space (text_of tail)) c h
  by_kind-IsEncodable parse none kind tail c h =
      Ensures-check (not (is_given tail) || trim_space (text_of tail) == []) invalid_rule
        λ _. simple_rule-IsEncodable kind (trim_space (text_of tail))

  classical_rule-IsEncodable :
      (parse : Text → Result Predicate) (parts : Text × Option Text)
      → ((item : Text) → Ensures IsEncodable (parse item))
      → Ensures IsEncodable (classical_rule library parse parts)
  unfolding classical_rule
  classical_rule-IsEncodable parse (head, tail) h =
      let kind = map_text (to_upper library) (trim_space head) in
      Ensures-check (kind == codes "MATCH" && not (is_given tail)) match_unsupported λ _.
        by_kind-IsEncodable parse (lookup kind logical_kinds) kind tail
          (lookup-All CombinesIfAny kind logical_kinds tt (omega arith)) h

  pub parse_classical-IsEncodable :
      (left : ℕ) (text : Text) → Ensures IsEncodable (parse_classical library left text)
  unfolding parse_classical
  parse_classical-IsEncodable zero text = fails _
  parse_classical-IsEncodable (suc left) text =
      classical_rule-IsEncodable (parse_classical library left) (cut b',' text)
        λ item. parse_classical-IsEncodable left item
