-- ===== src/RuleConvert/SingBox.antt =====
-- The rule set for the core sing-box (`singRule` and `encodeSing` of internal/ruleconvert/rules.go),
-- as the value that is encoded. A rule with one field is `condition`; where the source stops with an
-- index out of range the result is none.
pub mod Meaning
pub mod Groups
pub mod Accepted
pub mod Conversion
use boxctl.Base.{
  ℕ, ◌≡◌, Bool, true, false, ◌||◌, ◌&&◌, not, Option, none, some, List, [], ◌∷◌, ◌++◌,
  if◌then◌else◌, keep,
}
use boxctl.Base.Text.{Text, codes}
use boxctl.RuleConvert.Predicate.{
  Kind, Predicate, predicate, Predicates, none_left, more, always, conjunction, disjunction,
  negation, domain, domain_suffix, domain_keyword, domain_regex, ip_cidr, source_ip_cidr, port,
  port_range, source_port, source_port_range, network, process_name, process_path,
  process_path_regex,
}
use boxctl.RuleConvert.Decimal.{atoi, itoa}

-- the values of a field: texts, or numbers for a port
pub data Values : Type 0 where
  texts : List Text → Values
  numbers : List ℕ → Values

mutual
  pub data SingRule : Type 0 where
    condition : Kind → Values → Option Bool → SingRule
    combination : Kind → SingRules → Option Bool → SingRule

  pub data SingRules : Type 0 where
    end : SingRules
    rule : SingRule → SingRules → SingRules

abbrev pub flag : Option Bool → Bool
flag none = false
flag (some b) = b

-- `result["invert"] = !v`
abbrev pub toggle : SingRule → SingRule
toggle (condition kind values invert) = condition kind values (some (not (flag invert)))
toggle (combination mode rules invert) = combination mode rules (some (not (flag invert)))

abbrev pub or_zero : Option ℕ → ℕ
or_zero none = 0
or_zero (some n) = n

abbrev pub is_single_port : Kind → Bool
is_single_port port = true
is_single_port source_port = true
is_single_port kind = false

abbrev pub sing_leaf : Kind → Text → SingRule
sing_leaf kind value =
    if is_single_port kind
    then condition kind (numbers (or_zero (atoi value) ∷ [])) none
    else condition kind (texts (value ∷ [])) none

abbrev pub tcp_condition : Option Bool → SingRule
tcp_condition = condition network (texts (codes "tcp" ∷ []))

abbrev pub always_rule : SingRule
always_rule =
    combination disjunction (rule (tcp_condition none) (rule (tcp_condition (some true)) end)) none

abbrev pub toggled : Option SingRule → Option SingRule
toggled none = none
toggled (some r) = some (toggle r)

abbrev pub combined : Kind → Option SingRules → Option SingRule
combined mode none = none
combined mode (some rules) = some (combination mode rules none)

abbrev pub rule_before : Option SingRule → Option SingRules → Option SingRules
rule_before (some r) (some rs) = some (rule r rs)
rule_before none rs = none
rule_before (some r) none = none

unfoldable mutual
  unfolding atoi

  pub sing_rule : Predicate → Option SingRule
  sing_rule (predicate always value ps) = some always_rule
  sing_rule (predicate conjunction value ps) = combined conjunction (sing_rules ps)
  sing_rule (predicate disjunction value ps) = combined disjunction (sing_rules ps)
  sing_rule (predicate negation value none_left) = none
  sing_rule (predicate negation value (more p ps)) = toggled (sing_rule p)
  sing_rule (predicate kind value ps) = some (sing_leaf kind value)

  pub sing_rules : Predicates → Option SingRules
  sing_rules none_left = some end
  sing_rules (more p ps) = rule_before (sing_rule p) (sing_rules ps)

unfoldable pub Kind-discrete : Discrete Kind
Kind-discrete = hlevel

abbrev pub decided : {a b : Kind} → Dec (a ≡ b) → Bool
decided (yes _) = true
decided (no _) = false

unfoldable pub same_kind : Kind → Kind → Bool
unfolding Kind-discrete
same_kind a b = decided (Kind-discrete a b)

decided-eq : {a b : Kind} (d : Dec (a ≡ b)) → decided d ≡ true → a ≡ b
decided-eq (yes e) h = e
decided-eq (no _) h = cc

pub same_kind-eq : (a b : Kind) → same_kind a b ≡ true → a ≡ b
unfolding same_kind
same_kind-eq a b h = decided-eq (Kind-discrete a b) h

-- whether a rule joins the others of its field
abbrev pub is_grouped : Predicate → Bool
is_grouped (predicate always value ps) = false
is_grouped (predicate kind value none_left) = not (is_single_port kind)
is_grouped (predicate kind value (more p ps)) = false

abbrev pub kind_of : Predicate → Kind
kind_of (predicate kind value ps) = kind

abbrev pub value_of : Predicate → Text
value_of (predicate kind value ps) = value

-- `grouped[kind]`
unfoldable pub group : Kind → Predicates → List Text
unfolding same_kind
group kind none_left = []
group kind (more p ps) =
    let rest = group kind ps in
    if is_grouped p && same_kind (kind_of p) kind then value_of p ∷ rest else rest

-- the rules that stand for themselves, in order
unfoldable pub own_rules : Predicates → Option SingRules
unfolding sing_rule
own_rules none_left = some end
own_rules (more p ps) =
    let rest = own_rules ps in if is_grouped p then rest else rule_before (sing_rule p) rest

-- the names of fields in the order of `sort.Strings`
abbrev pub sorted_kinds : List Kind
sorted_kinds =
    conjunction ∷ domain ∷ domain_keyword ∷ domain_regex ∷ domain_suffix ∷ ip_cidr ∷ network
    ∷ negation ∷ disjunction ∷ port ∷ port_range ∷ process_name ∷ process_path ∷ process_path_regex
    ∷ source_ip_cidr ∷ source_port ∷ source_port_range ∷ []

abbrev pub before_groups : SingRules → SingRules → SingRules
before_groups end groups = groups
before_groups (rule r rs) groups = rule r (before_groups rs groups)

abbrev pub group_rule : Kind → List Text → SingRules → SingRules
group_rule kind [] rest = rest
group_rule kind (v ∷ vs) rest = rule (condition kind (texts (v ∷ vs)) none) rest

unfoldable pub group_rules : List Kind → Predicates → SingRules
group_rules [] ps = end
group_rules (kind ∷ kinds) ps = group_rule kind (group kind ps) (group_rules kinds ps)

pub record SingDocument : Type 0 where
  pub version : ℕ
  pub rules : SingRules

abbrev pub document_of : Predicates → Option SingRules → Option SingDocument
document_of ps none = none
document_of ps (some own) =
    some (record { version = 3; rules = before_groups own (group_rules sorted_kinds ps) })

unfoldable pub encode_sing : Predicates → Option SingDocument
unfolding own_rules group_rules
encode_sing ps = document_of ps (own_rules ps)
