-- ===== src/RuleConvert/Translation/Conditions.antt =====
-- Each plain condition is read again as itself (internal/ruleconvert/rules.go).
use boxctl.Base.{◌≡◌, inl, inr, refl, false, some, [], ◌∷◌, text_Eq, arith}
use boxctl.Base.Text.{Text, codes}
use boxctl.Base.Strings.{trim_space, is_space, trim_front, trim_end, trim_prefix}
use boxctl.RuleConvert.Predicate.{
  ok, Result, Kind, Predicate, leaf, domain, domain_suffix, domain_keyword, ip_cidr, source_ip_cidr,
  network,
}
use boxctl.RuleConvert.Library.{Library, starts_with}
use boxctl.RuleConvert.Leaves.{valid_domain, dot}
use boxctl.RuleConvert.Classical.{field_rule}
use boxctl.RuleConvert.Mihomo.{plain_line}
use boxctl.RuleConvert.Translation.Values
use boxctl.RuleConvert.Translation.Fields.{ReadsAs, plain_line-ReadsAs}
use boxctl.RuleConvert.Translation.Plain.{IsWhole, IsPlainDomain, IsPlainLeaf}

pub trim_prefix_plain : (v : Text) → starts_with dot v ≡ false → trim_prefix v (dot ∷ []) ≡ v
unfolding trim_prefix
trim_prefix_plain [] h = refl
trim_prefix_plain (c ∷ s) h = ground arith

module _ (library : Library) (parse : Text → Result Predicate) where
  domain_rule :
      (v : Text) → IsPlainDomain library v → field_rule library (some domain) v ≡ ok (leaf domain v)
  unfolding field_rule valid_domain
  domain_rule v (h, same, trimmed) = rw h (rw same)

  suffix_rule :
      (v : Text)
      → IsPlainDomain library v
      → field_rule library (some domain_suffix) v ≡ ok (leaf domain_suffix v)
  unfolding field_rule valid_domain
  suffix_rule v (h, same, trimmed) =
      rw (trim_prefix_plain v (Values.is_domain_parts v h).1) (rw h (rw same))

  -- a line of a condition that is written as it stands
  abbrev pub PlainLineReads : Text → Kind → Text → Type 0
  PlainLineReads key kind v = ReadsAs library parse (plain_line key v v) (leaf kind v)

  pub domain_line-ReadsAs :
      (v : Text) → IsPlainDomain library v → PlainLineReads (codes "DOMAIN") domain v
  unfolding trim_space trim_front trim_end is_space
  domain_line-ReadsAs v plain =
      plain_line-ReadsAs library parse (codes "DOMAIN") v v
        (refl, refl, refl, refl, refl, refl, refl) refl whole.no_comma whole (domain_rule v plain)
    where
      whole : IsWhole v
      whole = Values.is_domain-IsWhole v plain.0 plain.2

  pub suffix_line-ReadsAs :
      (v : Text) → IsPlainDomain library v → PlainLineReads (codes "DOMAIN-SUFFIX") domain_suffix v
  unfolding trim_space trim_front trim_end is_space
  suffix_line-ReadsAs v plain =
      plain_line-ReadsAs library parse (codes "DOMAIN-SUFFIX") v v
        (refl, refl, refl, refl, refl, refl, refl) refl whole.no_comma whole (suffix_rule v plain)
    where
      whole : IsWhole v
      whole = Values.is_domain-IsWhole v plain.0 plain.2

  pub keyword_line-ReadsAs :
      (v : Text)
      → IsPlainLeaf library domain_keyword v
      → PlainLineReads (codes "DOMAIN-KEYWORD") domain_keyword v
  unfolding trim_space trim_front trim_end is_space field_rule
  keyword_line-ReadsAs v (whole, same) =
      plain_line-ReadsAs library parse (codes "DOMAIN-KEYWORD") v v
        (refl, refl, refl, refl, refl, refl, refl) refl whole.no_comma whole (rw same)

  pub address_line-ReadsAs :
      (v : Text)
      → (IsPlainLeaf library ip_cidr v → PlainLineReads (codes "IP-CIDR") ip_cidr v)
        × (IsPlainLeaf library source_ip_cidr v
            → PlainLineReads (codes "SRC-IP-CIDR") source_ip_cidr v)
  unfolding trim_space trim_front trim_end is_space field_rule
  address_line-ReadsAs v = (
    λ h.
        plain_line-ReadsAs library parse (codes "IP-CIDR") v v
          (refl, refl, refl, refl, refl, refl, refl) refl h.0.no_comma h.0 h.1,
    λ h.
        plain_line-ReadsAs library parse (codes "SRC-IP-CIDR") v v
          (refl, refl, refl, refl, refl, refl, refl) refl h.0.no_comma h.0 h.1,
  )

  -- a network is tcp or udp
  pub network_line-ReadsAs :
      (v : Text) → IsPlainLeaf library network v → PlainLineReads (codes "NETWORK") network v
  unfolding trim_space trim_front trim_end is_space field_rule
  network_line-ReadsAs v (inl h) = rw h (
      plain_line-ReadsAs library parse (codes "NETWORK") (codes "tcp") (codes "tcp")
        (refl, refl, refl, refl, refl, refl, refl) refl refl Values.network-IsWhole.0 refl)
  network_line-ReadsAs v (inr h) = rw h (
      plain_line-ReadsAs library parse (codes "NETWORK") (codes "udp") (codes "udp")
        (refl, refl, refl, refl, refl, refl, refl) refl refl Values.network-IsWhole.1 refl)
