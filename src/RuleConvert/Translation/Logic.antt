-- ===== src/RuleConvert/Translation/Logic.antt =====
-- The line of a logical rule is read again as the rule of its operands
-- (internal/ruleconvert/rules.go).
use boxctl.Base.{◌≡◌, refl, true, List, [], ◌∷◌, ◌++◌, text_Eq, All, ap, ◌∙◌}
use boxctl.Base.Text.{Text}
use boxctl.Base.Strings.{trim_space, is_space, trim_front, trim_end}
use boxctl.RuleConvert.Predicate.{
  ok, Result, Kind, kind_name, Predicate, predicate, Predicates, none_left, more, conjunction,
  disjunction, negation, logical,
}
use boxctl.RuleConvert.Library.{Library, cut}
use boxctl.RuleConvert.Classical.{classical_rule, logical_rule, each_of, has_operands}
use boxctl.RuleConvert.Mihomo.{logical_line}
use boxctl.RuleConvert.Operands.{wrap, IsBalanced}
use boxctl.RuleConvert.Operands.Splitting.{operands-wrap}
use boxctl.RuleConvert.Translation.Texts.{
  trim_space-append, without_last-append, ends_with-append, closes-wrap,
}
use boxctl.RuleConvert.Translation.Plain.{CanCombine}

module _ (parse : Text → Result Predicate) (lines : List Text) (ps : Predicates)
    (balanced : All IsBalanced lines) (parsed : each_of parse lines ≡ ok ps) where
  logical_rule-wrap :
      (kind : Kind)
      → has_operands kind ps ≡ true
      → logical_rule parse kind (b'(' ∷ (wrap lines ++ b')' ∷ [])) ≡ ok (logical kind ps)
  unfolding logical_rule
  logical_rule-wrap kind enough = rw (ends_with-append b')' (b'(' ∷ wrap lines)) (
      rw (without_last-append (wrap lines) b')')
        (rw ((operands-wrap (wrap lines) lines).1 (refl, balanced)) (rw parsed (rw enough))))

combined :
    (kind : Kind) (p : Predicate) (ps : Predicates)
    → CanCombine kind ps
    → (logical kind (more p ps) ≡ predicate kind [] (more p ps))
      × (has_operands kind (more p ps) ≡ true)
unfolding logical
combined conjunction p (more q qs) can = (refl, refl)
combined disjunction p (more q qs) can = (refl, refl)
combined negation p none_left can = (refl, refl)
combined kind p ps can = absurd can

module _ (library : Library) (parse : Text → Result Predicate) (lines : List Text) (p : Predicate)
    (ps : Predicates) (balanced : All IsBalanced lines)
    (parsed : each_of parse lines ≡ ok (more p ps)) where
  trimmed : trim_space (b'(' ∷ (wrap lines ++ b')' ∷ [])) ≡ b'(' ∷ (wrap lines ++ b')' ∷ [])
  unfolding is_space
  trimmed = trim_space-append b'(' (wrap lines) b')' refl refl

  read_kind :
      (kind : Kind)
      → CanCombine kind ps
      → logical_rule parse kind (trim_space (b'(' ∷ (wrap lines ++ b')' ∷ [])))
        ≡ ok (predicate kind [] (more p ps))
  read_kind kind can = rw trimmed (
      logical_rule-wrap parse lines (more p ps) balanced parsed kind (combined kind p ps can).1
      ∙ ap ok (combined kind p ps can).0)

  pub logical_line-ReadsAs :
      (kind : Kind)
      → CanCombine kind ps
      → IsBalanced (logical_line library kind lines)
        × (classical_rule library parse (cut b',' (logical_line library kind lines))
            ≡ ok (predicate kind [] (more p ps)))
  unfolding kind_name classical_rule trim_space trim_front trim_end is_space cut
  logical_line-ReadsAs conjunction can =
      (closes-wrap 1 lines (b')' ∷ []) balanced, read_kind conjunction can)
  logical_line-ReadsAs disjunction can =
      (closes-wrap 1 lines (b')' ∷ []) balanced, read_kind disjunction can)
  logical_line-ReadsAs negation can =
      (closes-wrap 1 lines (b')' ∷ []) balanced, read_kind negation can)
  logical_line-ReadsAs kind can = absurd can
