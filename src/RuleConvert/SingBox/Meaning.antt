-- ===== src/RuleConvert/SingBox/Meaning.antt =====
-- What a rule for the core sing-box says (internal/ruleconvert/rules.go): a field holds if one of
-- its values does, and `invert` negates.
use boxctl.Base.{
  ℕ, ◌≡◌, refl, Bool, true, false, ◌||◌, ◌&&◌, not, Option, none, some, List, [], ◌∷◌,
  if◌then◌else◌, arith, ap, ◌∙◌,
}
use boxctl.Base.Text.{Text}
use boxctl.RuleConvert.Predicate.{
  Kind, Predicate, predicate, Predicates, none_left, more, always, conjunction, disjunction,
  negation, port, source_port, says, says_all, says_any,
}
use boxctl.RuleConvert.Decimal.{atoi, itoa, atoi-itoa}
use boxctl.RuleConvert.SingBox.{
  Values, texts, numbers, SingRule, condition, combination, SingRules, end, rule, flag, toggle,
  sing_leaf, sing_rule, sing_rules, or_zero, always_rule,
}

abbrev pub inverted : Option Bool → Bool → Bool
inverted invert b = if flag invert then not b else b

abbrev pub by_mode : Kind → Bool → Bool → Bool
by_mode conjunction all any = all
by_mode kind all any = any

-- Rules whose parts the source can read: operands where the kind wants them, and ports in decimal.
abbrev pub IsValue : Kind → Text → Type 0
IsValue port v = (n : ℕ) × (v ≡ itoa n)
IsValue source_port v = (n : ℕ) × (v ≡ itoa n)
IsValue kind v = Unit

unfoldable mutual
  pub IsEncodable : Predicate → Type 0
  IsEncodable (predicate always v ps) = Unit
  IsEncodable (predicate conjunction v ps) = HasEncodable ps
  IsEncodable (predicate disjunction v ps) = HasEncodable ps
  IsEncodable (predicate negation v ps) = HasEncodable ps
  IsEncodable (predicate kind v none_left) = IsValue kind v
  IsEncodable (predicate kind v (more p ps)) = ⊥

  pub HasEncodable : Predicates → Type 0
  HasEncodable none_left = ⊥
  HasEncodable (more p ps) = IsEncodable p × AreEncodable ps

  pub AreEncodable : Predicates → Type 0
  AreEncodable none_left = Unit
  AreEncodable (more p ps) = IsEncodable p × AreEncodable ps

module _ (holds : Kind → Text → Bool) where
  abbrev pub any_text : Kind → List Text → Bool
  any_text kind [] = false
  any_text kind (v ∷ vs) = holds kind v || any_text kind vs

  abbrev pub any_number : Kind → List ℕ → Bool
  any_number kind [] = false
  any_number kind (n ∷ ns) = holds kind (itoa n) || any_number kind ns

  abbrev pub any_value : Kind → Values → Bool
  any_value kind (texts vs) = any_text kind vs
  any_value kind (numbers ns) = any_number kind ns

  unfoldable mutual
    pub matches : SingRule → Bool
    matches (condition kind values invert) = inverted invert (any_value kind values)
    matches (combination mode rules invert) =
        inverted invert (by_mode mode (matches_all rules) (matches_any rules))

    pub matches_all : SingRules → Bool
    matches_all end = true
    matches_all (rule r rs) = matches r && matches_all rs

    pub matches_any : SingRules → Bool
    matches_any end = false
    matches_any (rule r rs) = matches r || matches_any rs

  matches-toggle : (r : SingRule) → matches (toggle r) ≡ not (matches r)
  unfolding matches
  matches-toggle (condition kind values none) = refl
  matches-toggle (condition kind values (some b)) = ground arith
  matches-toggle (combination mode rules none) = refl
  matches-toggle (combination mode rules (some b)) = ground arith

  port_condition :
      (kind : Kind) (v : Text) (n : ℕ)
      → v ≡ itoa n
      → matches (condition kind (numbers (or_zero (atoi v) ∷ [])) none) ≡ holds kind v
  unfolding matches
  port_condition kind v n e = rw e (rw (atoi-itoa n) (ground arith))

  matches-sing_leaf :
      (kind : Kind) (v : Text) → IsValue kind v → matches (sing_leaf kind v) ≡ holds kind v
  unfolding matches
  matches-sing_leaf port v (n, e) = port_condition port v n e
  matches-sing_leaf source_port v (n, e) = port_condition source_port v n e
  matches-sing_leaf kind v h = ground arith

  abbrev pub SaysTheSame : Predicate → Type 0
  SaysTheSame p = (r : SingRule) × (sing_rule p ≡ some r) × (matches r ≡ says holds p)

  abbrev pub SayTheSame : Predicates → Type 0
  SayTheSame ps =
      (rs : SingRules) × (sing_rules ps ≡ some rs)
      × (matches_all rs ≡ says_all holds ps)
      × (matches_any rs ≡ says_any holds ps)

  mutual
    unfolding sing_rule matches says IsEncodable

    pub sing_rule-SaysTheSame : (p : Predicate) → IsEncodable p → SaysTheSame p
    sing_rule-SaysTheSame (predicate always v ps) h = (always_rule, refl, ground arith)
    sing_rule-SaysTheSame (predicate conjunction v none_left) h = absurd h
    sing_rule-SaysTheSame (predicate conjunction v (more p ps)) (h, hs) =
        let (rs, e, all, _) = sing_rules-SayTheSame (more p ps) (h, hs) in
        (combination conjunction rs none, rw e refl, all)
    sing_rule-SaysTheSame (predicate disjunction v none_left) h = absurd h
    sing_rule-SaysTheSame (predicate disjunction v (more p ps)) (h, hs) =
        let (rs, e, _, any) = sing_rules-SayTheSame (more p ps) (h, hs) in
        (combination disjunction rs none, rw e refl, any)
    sing_rule-SaysTheSame (predicate negation v none_left) h = absurd h
    sing_rule-SaysTheSame (predicate negation v (more p ps)) (h, hs) =
        let (r, e, same) = sing_rule-SaysTheSame p h in
        (toggle r, rw e refl, matches-toggle r ∙ ap not same)
    sing_rule-SaysTheSame (predicate kind v none_left) h =
        (sing_leaf kind v, refl, matches-sing_leaf kind v h)
    sing_rule-SaysTheSame (predicate kind v (more p ps)) h = absurd h

    sing_rules-SayTheSame : (ps : Predicates) → AreEncodable ps → SayTheSame ps
    sing_rules-SayTheSame none_left h = (end, refl, refl, refl)
    sing_rules-SayTheSame (more p ps) (h, hs) =
        let (r, e, same) = sing_rule-SaysTheSame p h in
        let (rs, es, all, any) = sing_rules-SayTheSame ps hs in
        (rule r rs, rw (e, es) refl, rw (same, all) refl, rw (same, any) refl)
