-- ===== src/RuleConvert/Translation/Meaning.antt =====
-- What a rule for the core Mihomo says when it is read again (internal/ruleconvert/rules.go).
use boxctl.Base.{suc, ◌≤◌, ◌≡◌, refl, Bool, true, ◌&&◌, not, [], ◌∷◌, arith}
use boxctl.Base.Text.{Text}
use boxctl.Base.Strings.{trim_prefix}
use boxctl.RuleConvert.Predicate.{
  ok, Kind, Predicate, predicate, Predicates, none_left, more, always, conjunction, disjunction,
  negation, domain, domain_suffix, says, says_all, says_any,
}
use boxctl.RuleConvert.Library.{Library, starts_with}
use boxctl.RuleConvert.Leaves.{dot}
use boxctl.RuleConvert.Classical.{parse_classical, max_depth}
use boxctl.RuleConvert.Mihomo.{classical}
use boxctl.RuleConvert.Translation.Plain.{
  IsPlain, ArePlain, IsPlainLeaf, levels, form, form_each, leaf_form,
}
use boxctl.RuleConvert.Translation.Trip.{trip}

-- A suffix that starts with a dot holds of the names below the domain, and not of the domain.
abbrev pub LeavesDomainOut : (Kind → Text → Bool) → Type 0
LeavesDomainOut holds =
    (v : Text)
    → starts_with dot v ≡ true
    → holds domain_suffix v ≡ (
        holds domain_suffix (trim_prefix v (dot ∷ []))
        && not (holds domain (trim_prefix v (dot ∷ []))))

module _ (library : Library) (holds : Kind → Text → Bool) (strict : LeavesDomainOut holds) where
  says-leaf_form :
      (kind : Kind) (v : Text)
      → IsPlainLeaf library kind v
      → says holds (leaf_form kind v) ≡ says holds (predicate kind v none_left)
  unfolding says
  says-leaf_form always v plain = ground arith
  says-leaf_form domain_suffix v plain = ground (arith, strict v)
  says-leaf_form conjunction v plain = absurd plain
  says-leaf_form disjunction v plain = absurd plain
  says-leaf_form negation v plain = absurd plain
  says-leaf_form kind v plain = refl

  mutual
    unfolding says form IsPlain

    says-form : (p : Predicate) → IsPlain library p → says holds (form p) ≡ says holds p
    says-form (predicate kind v none_left) plain = says-leaf_form kind v plain
    says-form (predicate conjunction v (more p ps)) (can, _, plain, plains) =
        rw (says-form p plain, says_all-form_each ps plains) refl
    says-form (predicate disjunction v (more p ps)) (can, _, plain, plains) =
        rw (says-form p plain, says_any-form_each ps plains) refl
    says-form (predicate negation v (more p ps)) (can, _, plain, plains) =
        rw (says-form p plain) refl
    says-form (predicate kind v (more p ps)) (can, _, plain, plains) = absurd can

    says_all-form_each :
        (ps : Predicates) → ArePlain library ps → says_all holds (form_each ps) ≡ says_all holds ps
    says_all-form_each none_left plains = refl
    says_all-form_each (more p ps) (plain, plains) =
        rw (says-form p plain, says_all-form_each ps plains) refl

    says_any-form_each :
        (ps : Predicates) → ArePlain library ps → says_any holds (form_each ps) ≡ says_any holds ps
    says_any-form_each none_left plains = refl
    says_any-form_each (more p ps) (plain, plains) =
        rw (says-form p plain, says_any-form_each ps plains) refl

-- A plain rule that is not deeper than the limit is written for the core Mihomo without an error,
-- the line is read again without an error, and the rule that is read says of every connection what
-- the rule says, if a suffix with a dot in front leaves its own domain out. A plain rule is a tree of
-- `and` and `or` with two operands or more, of `not` with one, and of conditions on domains in
-- lower case, keywords in lower case, address ranges in canonical form, networks, ports and ranges of ports, where
-- keywords and addresses are not empty, have balanced parentheses, no comma, no line break and no
-- space around them.
pub says-parse_classical-classical :
    (library : Library) (holds : Kind → Text → Bool) (p : Predicate)
    → LeavesDomainOut holds
    → IsPlain library p
    → levels p ≤ suc max_depth
    → (line : Text) × (q : Predicate) × (classical library p ≡ ok line)
      × (parse_classical library (suc max_depth) line ≡ ok q)
      × (says holds q ≡ says holds p)
says-parse_classical-classical library holds p strict plain low =
    let (line, written, (balanced, parsed)) = trip library (suc max_depth) p plain low in
    (line, form p, written, parsed, says-form library holds strict p plain)
