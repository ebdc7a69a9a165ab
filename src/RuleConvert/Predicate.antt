-- ===== src/RuleConvert/Predicate.antt =====
-- The rules that both cores share (`predicate` of internal/ruleconvert/rules.go), and what a rule
-- says of a connection: each kind of condition holds of a value or not.
use boxctl.Base.{Bool, true, false, ◌||◌, ◌&&◌, not, List, [], ◌∷◌, if◌then◌else◌}
use boxctl.Base.Text.{Text, codes}
use boxctl.Base.Answers.{Answer}
pub use boxctl.Base.Answers.{ok, err, ◌>>=◌, ◌>>◌, fail_if}

pub data ConvertError : Type 0 where
  too_large too_deep out_of_fuel : ConvertError
  invalid_address invalid_domain invalid_port invalid_network invalid_regex invalid_rule :
      ConvertError
  invalid_operand unclosed_operand invalid_separator empty_operand invalid_operands : ConvertError
  match_unsupported no_resolve_unsupported process_unsupported field_unsupported : ConvertError
  space_unsupported newline_unsupported comma_unsupported : ConvertError
  invalid_behavior empty_rule_set invalid_document invalid_field : ConvertError

abbrev pub Result {ℓ} : Type ℓ → Type ℓ
Result A = Answer ConvertError A

-- The values of `Kind`.
pub data Kind : Type 0 where
  always conjunction disjunction negation : Kind
  domain domain_suffix domain_keyword domain_regex ip_cidr source_ip_cidr : Kind
  port port_range source_port source_port_range : Kind
  network process_name process_path process_path_regex : Kind

-- how the source spells them
unfoldable pub kind_name : Kind → Text
kind_name always = codes "true"
kind_name conjunction = codes "and"
kind_name disjunction = codes "or"
kind_name negation = codes "not"
kind_name domain = codes "domain"
kind_name domain_suffix = codes "domain_suffix"
kind_name domain_keyword = codes "domain_keyword"
kind_name domain_regex = codes "domain_regex"
kind_name ip_cidr = codes "ip_cidr"
kind_name source_ip_cidr = codes "source_ip_cidr"
kind_name port = codes "port"
kind_name port_range = codes "port_range"
kind_name source_port = codes "source_port"
kind_name source_port_range = codes "source_port_range"
kind_name network = codes "network"
kind_name process_name = codes "process_name"
kind_name process_path = codes "process_path"
kind_name process_path_regex = codes "process_path_regex"

mutual
  pub data Predicate : Type 0 where
    predicate : Kind → Text → Predicates → Predicate

  pub data Predicates : Type 0 where
    none_left : Predicates
    more : Predicate → Predicates → Predicates

abbrev pub leaf : Kind → Text → Predicate
leaf kind value = predicate kind value none_left

abbrev pub from_list : List Predicate → Predicates
from_list [] = none_left
from_list (p ∷ ps) = more p (from_list ps)

abbrev pub is_negation : Kind → Bool
is_negation negation = true
is_negation _ = false

-- one operand of a conjunction or disjunction stands for itself
unfoldable pub logical : Kind → Predicates → Predicate
logical kind none_left = predicate kind [] none_left
logical kind (more p none_left) =
    if is_negation kind then predicate kind [] (more p none_left) else p
logical kind (more p (more q ps)) = predicate kind [] (more p (more q ps))

-- What a rule says: the tests of values are an argument. The kind of a logical rule tells how its
-- operands combine.
module _ (holds : Kind → Text → Bool) where
  unfoldable mutual
    pub says : Predicate → Bool
    says (predicate always value ps) = true
    says (predicate conjunction value ps) = says_all ps
    says (predicate disjunction value ps) = says_any ps
    says (predicate negation value ps) = says_none ps
    says (predicate kind value ps) = holds kind value

    pub says_all : Predicates → Bool
    says_all none_left = true
    says_all (more p ps) = says p && says_all ps

    pub says_any : Predicates → Bool
    says_any none_left = false
    says_any (more p ps) = says p || says_any ps

    -- the first operand is negated
    pub says_none : Predicates → Bool
    says_none none_left = true
    says_none (more p ps) = not (says p)

-- Logical rules have operands, a negation one, and other rules none.
unfoldable mutual
  pub IsFormed : Predicate → Type 0
  IsFormed (predicate conjunction value ps) = IsTwo ps
  IsFormed (predicate disjunction value ps) = IsTwo ps
  IsFormed (predicate negation value ps) = IsOne ps
  IsFormed (predicate kind value ps) = IsNone ps

  pub IsTwo : Predicates → Type 0
  IsTwo none_left = ⊥
  IsTwo (more p ps) = IsFormed p × AreFormed ps × IsSome ps

  pub IsOne : Predicates → Type 0
  IsOne none_left = ⊥
  IsOne (more p ps) = IsFormed p × IsNone ps

  pub IsNone : Predicates → Type 0
  IsNone none_left = Unit
  IsNone (more p ps) = ⊥

  pub IsSome : Predicates → Type 0
  IsSome none_left = ⊥
  IsSome (more p ps) = Unit

  pub AreFormed : Predicates → Type 0
  AreFormed none_left = Unit
  AreFormed (more p ps) = IsFormed p × AreFormed ps
