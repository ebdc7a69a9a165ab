-- ===== src/RuleConvert/SingBox/Groups.antt =====
-- What a rule set for the core sing-box says, with its conditions grouped by field
-- (`encodeSing` of internal/ruleconvert/rules.go).
use boxctl.Base.{
  ◌≡◌, refl, Bool, true, false, ◌||◌, ◌&&◌, some, List, [], ◌∷◌, if◌then◌else◌, arith, ap, ◌∙◌,
  Bool-cases, inl, inr,
}
use boxctl.Base.Text.{Text}
use boxctl.RuleConvert.Predicate.{
  Kind, Predicate, predicate, Predicates, none_left, more, always, conjunction, disjunction,
  negation, says, says_any,
}
use boxctl.RuleConvert.SingBox.{
  SingRules, end, rule, same_kind, same_kind-eq, is_grouped, kind_of, value_of, group, own_rules,
  sorted_kinds, before_groups, group_rule, group_rules, SingDocument, encode_sing,
}
use boxctl.RuleConvert.SingBox.Meaning.{
  IsEncodable, AreEncodable, any_text, matches, matches_any, sing_rule-SaysTheSame,
}

abbrev pub is_listed : Kind → List Kind → Bool
is_listed kind [] = false
is_listed kind (k ∷ ks) = same_kind kind k || is_listed kind ks

grouped-is_listed :
    (p : Predicate) → is_grouped p ≡ true → is_listed (kind_of p) sorted_kinds ≡ true
unfolding same_kind
grouped-is_listed (predicate always v ps) h = cc
grouped-is_listed (predicate kind v none_left) h = refl
grouped-is_listed (predicate kind v (more p ps)) h = cc

and-false : (b : Bool) → (b && false) ≡ false
and-false true = refl
and-false false = refl

and-true : (b : Bool) → (b && true) ≡ b
and-true true = refl
and-true false = refl

swap_front : (a b c : Bool) → (a || (b || c)) ≡ (b || (a || c))
swap_front true b c = ground arith
swap_front false b c = refl

or_assoc : (a b c : Bool) → ((a || b) || c) ≡ (a || (b || c))
or_assoc true b c = refl
or_assoc false b c = refl

regroup : (g s l a m : Bool) → (((g && s) || a) || ((g && l) || m)) ≡ ((g && (s || l)) || (a || m))
regroup true true l true m = refl
regroup g s l a m = ground arith

module _ (holds : Kind → Text → Bool) where
  -- the condition of a rule, where it joins the others of its field
  abbrev grouped_says : Predicate → Bool
  grouped_says p = is_grouped p && holds (kind_of p) (value_of p)

  says-grouped :
      (p : Predicate)
      → IsEncodable p
      → is_grouped p ≡ true
      → says holds p ≡ holds (kind_of p) (value_of p)
  unfolding says IsEncodable
  says-grouped (predicate always v ps) h g = cc
  says-grouped (predicate conjunction v none_left) h g = absurd h
  says-grouped (predicate disjunction v none_left) h g = absurd h
  says-grouped (predicate negation v none_left) h g = absurd h
  says-grouped (predicate kind v none_left) h g = refl
  says-grouped (predicate kind v (more p ps)) h g = cc

  matches_any-group_rule :
      (kind : Kind) (vs : List Text) (rest : SingRules)
      → matches_any holds (group_rule kind vs rest)
        ≡ (any_text holds kind vs || matches_any holds rest)
  unfolding matches
  matches_any-group_rule kind [] rest = refl
  matches_any-group_rule kind (v ∷ vs) rest = refl

  any_text-group :
      (kind : Kind) (p : Predicate) (ps : Predicates)
      → any_text holds kind (group kind (more p ps))
        ≡ ((grouped_says p && same_kind (kind_of p) kind) || any_text holds kind (group kind ps))
  unfolding group
  any_text-group kind p ps = elim (Bool-cases (same_kind (kind_of p) kind)) [
    | inl same ↦ rw same (rw (same_kind-eq (kind_of p) kind same) (by_test (is_grouped p)))
    | inr other ↦ rw other (ground arith)
  ]
    where
      by_test :
          (b : Bool)
          → any_text holds kind (if b && true then value_of p ∷ group kind ps else group kind ps)
            ≡ (((b && holds kind (value_of p)) && true) || any_text holds kind (group kind ps))
      by_test true = ground arith
      by_test false = refl

  matches_any-group_rules :
      (kinds : List Kind) (p : Predicate) (ps : Predicates)
      → matches_any holds (group_rules kinds (more p ps)) ≡ (
          (grouped_says p && is_listed (kind_of p) kinds)
          || matches_any holds (group_rules kinds ps))
  unfolding group_rules
  matches_any-group_rules [] p ps = rw (and-false (grouped_says p))
  matches_any-group_rules (kind ∷ kinds) p ps =
      rw (matches_any-group_rule kind (group kind (more p ps)) (group_rules kinds (more p ps))) (
        rw (matches_any-group_rule kind (group kind ps) (group_rules kinds ps)) (
          rw (any_text-group kind p ps) (
            rw (matches_any-group_rules kinds p ps) (
              regroup (grouped_says p) (same_kind (kind_of p) kind) (is_listed (kind_of p) kinds) _
                _))))

  matches_any-empty : (kinds : List Kind) → matches_any holds (group_rules kinds none_left) ≡ false
  unfolding group_rules matches group
  matches_any-empty [] = refl
  matches_any-empty (kind ∷ kinds) = matches_any-empty kinds

  matches_any-before_groups :
      (own groups : SingRules)
      → matches_any holds (before_groups own groups)
        ≡ (matches_any holds own || matches_any holds groups)
  unfolding matches
  matches_any-before_groups end groups = refl
  matches_any-before_groups (rule r own) groups =
      ground (arith, matches_any-before_groups own groups)

  -- the rules that stand for themselves are there, and with the groups they say what the rules say
  own_rules-says_any :
      (ps : Predicates)
      → AreEncodable ps
      → (own : SingRules) × (own_rules ps ≡ some own)
        × ((matches_any holds own || matches_any holds (group_rules sorted_kinds ps))
            ≡ says_any holds ps)
  unfolding own_rules says IsEncodable matches
  own_rules-says_any none_left h = (end, refl, matches_any-empty sorted_kinds)
  own_rules-says_any (more p ps) (h, hs) = elim (Bool-cases (is_grouped p)) [
    | inl grouped ↦
        let (own, e, same) = own_rules-says_any ps hs in
        (
          own,
          rw grouped e,
          rw (matches_any-group_rules sorted_kinds p ps) (
              rw grouped (
                rw (grouped-is_listed p grouped) (
                  rw (says-grouped p h grouped) (
                    rw (and-true (holds (kind_of p) (value_of p))) (
                      swap_front (matches_any holds own) _ _
                      ∙ ap (λ b. holds (kind_of p) (value_of p) || b) same))))),
        )
    | inr alone ↦
        let (own, e, same) = own_rules-says_any ps hs in
        let (r, e', same') = sing_rule-SaysTheSame holds p h in
        (
          rule r own,
          rw (alone, e, e') refl,
          rw (matches_any-group_rules sorted_kinds p ps) (
              rw alone (rw same' (or_assoc (says holds p) _ _ ∙ ap (λ b. says holds p || b) same))),
        )
  ]

  -- The document exists, and it says what the rules say.
  pub encode_sing_lem :
      (ps : Predicates)
      → AreEncodable ps
      → (document : SingDocument) × (encode_sing ps ≡ some document)
        × (matches_any holds document.rules ≡ says_any holds ps)
  unfolding encode_sing
  encode_sing_lem ps h =
      let (own, e, same) = own_rules-says_any ps h in
      (
        record { version = 3; rules = before_groups own (group_rules sorted_kinds ps) },
        rw e refl,
        matches_any-before_groups own (group_rules sorted_kinds ps) ∙ same,
      )
