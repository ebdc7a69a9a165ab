-- ===== src/RuleConvert/Translation/Plain.antt =====
-- The rules that both cores have a word for, and the form in which the text of Mihomo writes them:
-- the rule that always holds and a suffix that leaves its own domain out become logical rules.
use boxctl.Base.{
  ℕ, suc, ◌≤◌, ◌≡◌, ◌⊎◌, true, false, [], ◌∷◌, ◌++◌, ltb, if◌then◌else◌, text_Eq, ◌==◌,
}
use boxctl.Base.Text.{Text, codes, contains}
use boxctl.Base.Strings.{trim_space, trim_prefix}
use boxctl.RuleConvert.Predicate.{
  ok, Kind, Predicate, predicate, Predicates, none_left, more, leaf, always, conjunction,
  disjunction, negation, domain, domain_suffix, domain_keyword, ip_cidr, source_ip_cidr, port,
  port_range, source_port, source_port_range, network,
}
use boxctl.RuleConvert.Library.{Library, map_text, to_lower, contains_any}
use boxctl.RuleConvert.Leaves.{dot, is_domain, cidr_predicate}
use boxctl.RuleConvert.Decimal.{itoa}
use boxctl.RuleConvert.Operands.{IsBalanced}
use boxctl.RuleConvert.Mihomo.{is_strict_suffix}

abbrev pub higher : ℕ → ℕ → ℕ
higher a b = if ltb a b then b else a

-- the levels that the text of a rule has
abbrev pub leaf_levels : Kind → Text → ℕ
leaf_levels always v = 3
leaf_levels kind v = if is_strict_suffix kind v then 3 else 1

unfoldable mutual
  pub levels : Predicate → ℕ
  levels (predicate kind v none_left) = leaf_levels kind v
  levels (predicate kind v (more p ps)) = suc (higher (levels p) (levels_each ps))

  pub levels_each : Predicates → ℕ
  levels_each none_left = 0
  levels_each (more p ps) = higher (levels p) (levels_each ps)

abbrev pub tcp_only : Predicate
tcp_only = leaf network (codes "tcp")

abbrev pub not_of : Predicate → Predicate
not_of p = predicate negation [] (more p none_left)

abbrev pub both : Kind → Predicate → Predicate → Predicate
both kind p q = predicate kind [] (more p (more q none_left))

abbrev pub strict_suffix : Text → Predicate
strict_suffix v = both conjunction (leaf domain_suffix v) (not_of (leaf domain v))

abbrev pub leaf_form : Kind → Text → Predicate
leaf_form always v = both disjunction tcp_only (not_of tcp_only)
leaf_form kind v =
    if is_strict_suffix kind v then strict_suffix (trim_prefix v (dot ∷ [])) else leaf kind v

unfoldable mutual
  unfolding trim_prefix

  pub form : Predicate → Predicate
  form (predicate kind v none_left) = leaf_form kind v
  form (predicate kind v (more p ps)) = predicate kind v (more (form p) (form_each ps))

  pub form_each : Predicates → Predicates
  form_each none_left = none_left
  form_each (more p ps) = more (form p) (form_each ps)

abbrev pub CanCombine : Kind → Predicates → Type 0
CanCombine conjunction (more p ps) = Unit
CanCombine disjunction (more p ps) = Unit
CanCombine negation none_left = Unit
CanCombine kind ps = ⊥

-- a value that neither spaces nor commas nor single parentheses take apart
pub record IsWhole (v : Text) : Type 0 where
  pub trimmed : trim_space v ≡ v
  pub given : v == [] ≡ false
  pub on_a_line : contains_any v (13 ∷ 10 ∷ []) ≡ false
  pub no_comma : contains b',' v ≡ false
  pub balanced : IsBalanced v

abbrev pub IsPort : Text → Type 0
IsPort v = (n : ℕ) × (v ≡ itoa n) × (n ≤ 65535)

abbrev pub IsRange : Text → Type 0
IsRange v =
    (low : ℕ) × (high : ℕ) × (v ≡ itoa low ++ b':' ∷ itoa high) × (low ≤ high) × (high ≤ 65535)

module _ (library : Library) where
  -- a domain in lower case
  abbrev pub IsPlainDomain : Text → Type 0
  IsPlainDomain v = (is_domain v ≡ true) × (map_text (to_lower library) v ≡ v) × (trim_space v ≡ v)

  abbrev pub IsPlainLeaf : Kind → Text → Type 0
  IsPlainLeaf always v = Unit
  IsPlainLeaf domain v = IsPlainDomain v
  IsPlainLeaf domain_suffix v = IsPlainDomain (trim_prefix v (dot ∷ []))
  IsPlainLeaf domain_keyword v = IsWhole v × (map_text (to_lower library) v ≡ v)
  IsPlainLeaf ip_cidr v = IsWhole v × (cidr_predicate library ip_cidr v ≡ ok (leaf ip_cidr v))
  IsPlainLeaf source_ip_cidr v =
      IsWhole v × (cidr_predicate library source_ip_cidr v ≡ ok (leaf source_ip_cidr v))
  IsPlainLeaf port v = IsPort v
  IsPlainLeaf source_port v = IsPort v
  IsPlainLeaf port_range v = IsRange v
  IsPlainLeaf source_port_range v = IsRange v
  IsPlainLeaf network v = (v ≡ codes "tcp") ⊎ (v ≡ codes "udp")
  IsPlainLeaf kind v = ⊥

  unfoldable mutual
    pub IsPlain : Predicate → Type 0
    IsPlain (predicate kind v none_left) = IsPlainLeaf kind v
    IsPlain (predicate kind v (more p ps)) = CanCombine kind ps × (v ≡ []) × IsPlain p × ArePlain ps

    pub ArePlain : Predicates → Type 0
    ArePlain none_left = Unit
    ArePlain (more p ps) = IsPlain p × ArePlain ps
