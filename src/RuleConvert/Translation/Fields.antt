-- ===== src/RuleConvert/Translation/Fields.antt =====
-- A line of one condition read again (internal/ruleconvert/rules.go).
use boxctl.Base.{◌≡◌, false, ◌||◌, none, ◌∷◌, ◌++◌, text_Eq, ◌==◌, lookup, list_eq_refl, ◌∙◌}
use boxctl.Base.Text.{Text, codes, contains}
use boxctl.Base.Strings.{trim_space}
use boxctl.RuleConvert.Predicate.{ok, Result, Kind, Predicate}
use boxctl.RuleConvert.Library.{Library, cut, map_text, to_upper}
use boxctl.RuleConvert.Classical.{
  classical_rule, simple_rule, field_rule, classical_fields, logical_kinds,
}
use boxctl.RuleConvert.Translation.Texts.{cut-append, has_suffix-contains, closes-balanced}
use boxctl.RuleConvert.Mihomo.{plain_line, leaf_line, classical_leaf, is_strict_suffix}
use boxctl.RuleConvert.Operands.{IsBalanced}
use boxctl.RuleConvert.Translation.Plain.{IsWhole}

module _ (library : Library) where
  -- the names of fields that are read as they stand
  abbrev pub IsFieldName : Text → Type 0
  IsFieldName key =
      (contains b',' key ≡ false)
      × (map_text (to_upper library) (trim_space key) ≡ key)
      × (lookup key logical_kinds ≡ none)
      × (key == codes "MATCH" ≡ false)
      × (key == codes "PROCESS-NAME" || key == codes "PROCESS-PATH-WILDCARD" ≡ false)
      × (key == codes "PROCESS-PATH" ≡ false)
      × (key == codes "DOMAIN-WILDCARD" ≡ false)

  pub classical_rule_field :
      (parse : Text → Result Predicate) (key tail : Text)
      → IsFieldName key
      → IsWhole tail
      → classical_rule library parse (cut b',' (key ++ b',' ∷ tail))
        ≡ field_rule library (lookup key classical_fields) tail
  unfolding classical_rule simple_rule
  classical_rule_field parse key tail (a, b, c, d, e, f, g) whole =
      rw (cut-append b',' key tail a) (
        rw b (
          rw c (
            rw d (
              rw whole.trimmed (
                rw whole.given (
                  rw (has_suffix-contains b',' tail (codes "no-resolve") whole.no_comma)
                    (rw e (rw f (rw g)))))))))

  -- A text written for a rule is read as that rule.
  abbrev pub ReadsAs : (Text → Result Predicate) → Result Text → Predicate → Type 0
  ReadsAs parse written p =
      (line : Text) × (written ≡ ok line)
      × IsBalanced line
      × (classical_rule library parse (cut b',' line) ≡ ok p)

  pub plain_line-ReadsAs :
      (parse : Text → Result Predicate) (key v tail : Text) {p : Predicate}
      → IsFieldName key
      → IsBalanced key
      → contains b',' v ≡ false
      → IsWhole tail
      → field_rule library (lookup key classical_fields) tail ≡ ok p
      → ReadsAs parse (plain_line key v tail) p
  plain_line-ReadsAs parse key v tail name balanced no_comma whole found = (
    key ++ b',' ∷ tail,
    rw no_comma,
    closes-balanced 0 key (b',' ∷ tail) balanced ∙ whole.balanced,
    classical_rule_field parse key tail name whole ∙ found,
  )

  pub classical_leaf-eq-leaf_line :
      (kind : Kind) (v : Text)
      → is_strict_suffix kind v ≡ false
      → IsWhole v
      → classical_leaf library kind v ≡ leaf_line library kind v
  unfolding classical_leaf
  classical_leaf-eq-leaf_line kind v strict whole =
      rw strict (rw whole.trimmed (rw (list_eq_refl v) (rw whole.on_a_line)))
