-- ===== src/RuleConvert/Translation/Ports.antt =====
-- Conditions on ports are read again as themselves, and so is every plain condition
-- (internal/ruleconvert/rules.go).
use boxctl.Base.{ℕ, ◌≡◌, inl, inr, refl, true, false, [], ◌∷◌, ◌++◌, text_Eq, ◌≢◌, list_eq_refl}
use boxctl.Base.Text.{Text, codes}
use boxctl.Base.Strings.{trim_space, is_space, trim_front, trim_end}
use boxctl.RuleConvert.Predicate.{
  Result, Kind, always, Predicate, leaf, domain, domain_suffix, domain_keyword, ip_cidr,
  source_ip_cidr, port, source_port, port_range, source_port_range, network,
}
use boxctl.RuleConvert.Library.{Library, replace_char}
use boxctl.RuleConvert.Decimal.{itoa, itoa-ne-nil}
use boxctl.RuleConvert.Classical.{field_rule}
use boxctl.RuleConvert.Mihomo.{plain_line, leaf_line, classical_leaf, is_strict_suffix}
use boxctl.RuleConvert.Translation.Values
use boxctl.RuleConvert.Translation.Fields.{ReadsAs, plain_line-ReadsAs, classical_leaf-eq-leaf_line}
use boxctl.RuleConvert.Translation.Conditions
use boxctl.RuleConvert.Translation.Plain.{IsWhole, IsPlainDomain, IsPlainLeaf, IsPort, IsRange}

port-IsWhole : (v : Text) → IsPort v → IsWhole v
port-IsWhole v (n, e, h) =
    rw e (Values.IsPortText-IsWhole (itoa n) (Values.IsPortText-itoa n) (itoa-ne-nil n))

range-ne-nil : (s t : Text) (x : ℕ) → s ++ x ∷ t ≢ []
range-ne-nil [] t x e = cc
range-ne-nil (c ∷ s) t x e = cc

range-IsWhole :
    (low high x : ℕ) → Values.is_port_character x ≡ true → IsWhole (itoa low ++ x ∷ itoa high)
range-IsWhole low high x h =
    Values.IsPortText-IsWhole _ (Values.IsPortText-range low high x h)
      (range-ne-nil (itoa low) (itoa high) x)

module _ (library : Library) (parse : Text → Result Predicate) where
  port_lines-ReadsAs :
      (v : Text)
      → IsPort v
      → ReadsAs library parse (plain_line (codes "DST-PORT") v v) (leaf port v)
        × ReadsAs library parse (plain_line (codes "SRC-PORT") v v) (leaf source_port v)
  unfolding trim_space trim_front trim_end is_space field_rule
  port_lines-ReadsAs v (n, e, h) = (
    plain_line-ReadsAs library parse (codes "DST-PORT") v v
        (refl, refl, refl, refl, refl, refl, refl) refl whole.no_comma whole
        (rw e (Values.port_rule-itoa port n h)),
    plain_line-ReadsAs library parse (codes "SRC-PORT") v v
        (refl, refl, refl, refl, refl, refl, refl) refl whole.no_comma whole
        (rw e (Values.port_rule-itoa source_port n h)),
  )
    where
      whole : IsWhole v
      whole = port-IsWhole v (n, e, h)

  range_lines-ReadsAs :
      (v : Text)
      → IsRange v
      → ReadsAs library parse
          (plain_line (codes "DST-PORT") v (replace_char b':' b'-' v))
          (leaf port_range v)
        × ReadsAs library parse
            (plain_line (codes "SRC-PORT") v (replace_char b':' b'-' v))
            (leaf source_port_range v)
  unfolding trim_space trim_front trim_end is_space field_rule
  range_lines-ReadsAs v (low, high, e, h, k) = rw e (
      rw (Values.dashed low high) (
        plain_line-ReadsAs library parse (codes "DST-PORT") (itoa low ++ b':' ∷ itoa high)
            (itoa low ++ b'-' ∷ itoa high) (refl, refl, refl, refl, refl, refl, refl) refl
            whole.no_comma dash_whole (Values.port_rule-range port low high h k),
        plain_line-ReadsAs library parse (codes "SRC-PORT") (itoa low ++ b':' ∷ itoa high)
            (itoa low ++ b'-' ∷ itoa high) (refl, refl, refl, refl, refl, refl, refl) refl
            whole.no_comma dash_whole (Values.port_rule-range source_port low high h k),
      ))
    where
      whole : IsWhole (itoa low ++ b':' ∷ itoa high)
      whole = range-IsWhole low high b':' refl

      dash_whole : IsWhole (itoa low ++ b'-' ∷ itoa high)
      dash_whole = range-IsWhole low high b'-' refl

  -- what is whole is written as the line of its kind
  by_line :
      (kind : Kind) (v : Text)
      → is_strict_suffix kind v ≡ false
      → IsWhole v
      → ReadsAs library parse (leaf_line library kind v) (leaf kind v)
      → ReadsAs library parse (classical_leaf library kind v) (leaf kind v)
  by_line kind v strict whole reads =
      rw (classical_leaf-eq-leaf_line library kind v strict whole) reads

  IsRange-IsWhole : (v : Text) → IsRange v → IsWhole v
  IsRange-IsWhole v (low, high, e, h, k) = rw e (range-IsWhole low high b':' refl)

  IsPlainLeaf-IsWhole : (v : Text) → IsPlainLeaf library network v → IsWhole v
  IsPlainLeaf-IsWhole v (inl e) = rw e Values.network-IsWhole.0
  IsPlainLeaf-IsWhole v (inr e) = rw e Values.network-IsWhole.1

  keyword_line :
      (v : Text)
      → IsPlainLeaf library domain_keyword v
      → leaf_line library domain_keyword v ≡ plain_line (codes "DOMAIN-KEYWORD") v v
  unfolding leaf_line
  keyword_line v h = rw h.1 (rw (list_eq_refl v) (rw h.0.no_comma))

  keyword_reads :
      (v : Text)
      → IsPlainLeaf library domain_keyword v
      → ReadsAs library parse (leaf_line library domain_keyword v) (leaf domain_keyword v)
  keyword_reads v h = rw (keyword_line v h) (Conditions.keyword_line-ReadsAs library parse v h)

  pub classical_leaf-ReadsAs :
      (kind : Kind) (v : Text)
      → IsPlainLeaf library kind v
      → is_strict_suffix kind v ≡ false
      → kind ≢ always
      → ReadsAs library parse (classical_leaf library kind v) (leaf kind v)
  unfolding leaf_line
  classical_leaf-ReadsAs always v h s n = absurd (n refl)
  classical_leaf-ReadsAs domain v h s n =
      by_line domain v s (Values.is_domain-IsWhole v h.0 h.2)
        (Conditions.domain_line-ReadsAs library parse v h)
  classical_leaf-ReadsAs domain_suffix v h s n =
      let plain : IsPlainDomain library v = rw (Conditions.trim_prefix_plain v s) at h in
      by_line domain_suffix v s (Values.is_domain-IsWhole v plain.0 plain.2)
        (Conditions.suffix_line-ReadsAs library parse v plain)
  classical_leaf-ReadsAs domain_keyword v h s n = by_line domain_keyword v s h.0 (keyword_reads v h)
  classical_leaf-ReadsAs ip_cidr v h s n =
      by_line ip_cidr v s h.0 ((Conditions.address_line-ReadsAs library parse v).0 h)
  classical_leaf-ReadsAs source_ip_cidr v h s n =
      by_line source_ip_cidr v s h.0 ((Conditions.address_line-ReadsAs library parse v).1 h)
  classical_leaf-ReadsAs port v h s n =
      by_line port v s (port-IsWhole v h) (port_lines-ReadsAs v h).0
  classical_leaf-ReadsAs source_port v h s n =
      by_line source_port v s (port-IsWhole v h) (port_lines-ReadsAs v h).1
  classical_leaf-ReadsAs port_range v h s n =
      by_line port_range v s (IsRange-IsWhole v h) (range_lines-ReadsAs v h).0
  classical_leaf-ReadsAs source_port_range v h s n =
      by_line source_port_range v s (IsRange-IsWhole v h) (range_lines-ReadsAs v h).1
  classical_leaf-ReadsAs network v h s n =
      by_line network v s (IsPlainLeaf-IsWhole v h)
        (Conditions.network_line-ReadsAs library parse v h)
  classical_leaf-ReadsAs kind v h s n = absurd h
