-- ===== src/RuleConvert/Translation/Trip.antt =====
-- A plain rule that is written for the core Mihomo is read again as the rule in the form that its
-- text has, and that form says what the rule says (internal/ruleconvert/rules.go).
use boxctl.Base.{
  ℕ, zero, suc, ◌≤◌, ◌≡◌, refl, true, false, List, [], ◌∷◌, ◌++◌, text_Eq, arith, All, ◌∙◌, sym,
  ◌≢◌, Bool-cases, inl, inr,
}
use boxctl.Base.Text.{Text, codes, contains}
use boxctl.Base.Strings.{trim_prefix}
use boxctl.RuleConvert.Predicate.{
  ok, Result, comma_unsupported, always, Kind, kind_name, Predicate, predicate, Predicates,
  none_left, more, leaf, conjunction, disjunction, negation, domain, domain_suffix,
}
use boxctl.RuleConvert.Library.{Library, starts_with}
use boxctl.RuleConvert.Leaves.{dot}
use boxctl.RuleConvert.Classical.{parse_classical, each_of}
use boxctl.RuleConvert.Mihomo.{
  unless_always, plain_line, classical, classical_each, classical_leaf, logical_line,
  is_strict_suffix, always_line, strict_suffix_line,
}
use boxctl.RuleConvert.Operands.{IsBalanced}
use boxctl.RuleConvert.Translation.Plain.{
  IsPlain, ArePlain, IsPlainLeaf, IsPlainDomain, levels, levels_each, leaf_levels, form, form_each,
  leaf_form, higher, strict_suffix, not_of, both, tcp_only, CanCombine,
}
use boxctl.RuleConvert.Translation.Logic.{logical_line-ReadsAs}
use boxctl.RuleConvert.Translation.Ports.{classical_leaf-ReadsAs}
use boxctl.RuleConvert.Translation.Fields.{ReadsAs}
use boxctl.Base.Answers.{fail_if-eq-ok}
use mathlib.Core.List.{append_assoc}
use mathlib.Core.Path.{subst}
use boxctl.RuleConvert.Translation.Conditions.{domain_line-ReadsAs, suffix_line-ReadsAs}

unless_always_lem :
    (kind : Kind) (ps : Predicates) (written : Result Text)
    → CanCombine kind ps
    → unless_always kind written ≡ written
unless_always_lem conjunction ps written can = refl
unless_always_lem disjunction ps written can = refl
unless_always_lem negation ps written can = refl
unless_always_lem kind ps written can = absurd can

CanCombine-form_each :
    (kind : Kind) (ps : Predicates) → CanCombine kind ps → CanCombine kind (form_each ps)
unfolding form
CanCombine-form_each conjunction (more p ps) can = tt
CanCombine-form_each disjunction (more p ps) can = tt
CanCombine-form_each negation none_left can = tt
CanCombine-form_each kind ps can = absurd can

higher-le : (a b n : ℕ) → higher a b ≤ n → (a ≤ n) × (b ≤ n)
higher-le a b n h = ground arith

module _ (library : Library) where
  -- A line that is read as a rule, whatever stands around it.
  abbrev pub IsLine : ℕ → Text → Predicate → Type 0
  IsLine left line p = IsBalanced line × (parse_classical library left line ≡ ok p)

  logical_trip :
      (left : ℕ) (kind : Kind) (lines : List Text) (p : Predicate) (ps : Predicates)
      → CanCombine kind ps
      → All IsBalanced lines
      → each_of (parse_classical library left) lines ≡ ok (more p ps)
      → IsLine (suc left) (logical_line library kind lines) (predicate kind [] (more p ps))
  unfolding parse_classical
  logical_trip left kind lines p ps can balanced parsed =
      logical_line-ReadsAs library (parse_classical library left) lines p ps balanced parsed kind
        can

  negated :
      (left : ℕ) (line : Text) (p : Predicate)
      → IsLine left line p
      → IsLine (suc left) (logical_line library negation (line ∷ [])) (not_of p)
  negated left line p (balanced, parsed) =
      logical_trip left negation (line ∷ []) p none_left tt (balanced, tt) (rw parsed)

  combination :
      (left : ℕ) (kind : Kind) (line other : Text) (p q : Predicate)
      → CanCombine kind (more q none_left)
      → IsLine left line p
      → IsLine left other q
      → IsLine (suc left) (logical_line library kind (line ∷ other ∷ [])) (both kind p q)
  combination left kind line other p q can (balanced, parsed) (balanced', parsed') =
      logical_trip left kind (line ∷ other ∷ []) p (more q none_left) can
        (balanced, (balanced', tt)) (rw (parsed, parsed'))

  IsLine-tcp : (left : ℕ) → IsLine (suc left) (codes "NETWORK,tcp") tcp_only
  unfolding parse_classical
  IsLine-tcp left = (refl, refl)

  always_trip :
      (left : ℕ)
      → IsLine (suc (suc (suc left))) always_line (both disjunction tcp_only (not_of tcp_only))
  unfolding kind_name
  always_trip left =
      combination (suc (suc left)) disjunction (codes "NETWORK,tcp") (codes "NOT,((NETWORK,tcp))")
        tcp_only (not_of tcp_only) tt (IsLine-tcp (suc left))
        (negated (suc left) (codes "NETWORK,tcp") tcp_only (IsLine-tcp left))

  plain_line-IsLine :
      (left : ℕ) (key v : Text) (p : Predicate)
      → ReadsAs library (parse_classical library left) (plain_line key v v) p
      → IsLine (suc left) (key ++ b',' ∷ v) p
  unfolding parse_classical
  plain_line-IsLine left key v p (line, e, balanced, reads) =
      let (_, found) = fail_if-eq-ok (contains b',' v) comma_unsupported (ok (key ++ b',' ∷ v)) e in
      let same : line ≡ key ++ b',' ∷ v = cc in
      subst (λ t. IsLine (suc left) t p) same (balanced, reads)

  strict_line :
      (v : Text)
      → strict_suffix_line v
        ≡ logical_line library conjunction (
            (codes "DOMAIN-SUFFIX" ++ b',' ∷ v)
            ∷ logical_line library negation ((codes "DOMAIN" ++ b',' ∷ v) ∷ [])
            ∷ [])
  unfolding kind_name
  strict_line v = simp append_assoc

  strict_trip :
      (left : ℕ) (v : Text)
      → IsPlainDomain library v
      → IsLine (suc (suc (suc left))) (strict_suffix_line v) (strict_suffix v)
  strict_trip left v plain =
      subst (λ line. IsLine (suc (suc (suc left))) line (strict_suffix v)) (sym (strict_line v))
        (combination (suc (suc left)) conjunction (codes "DOMAIN-SUFFIX" ++ b',' ∷ v)
          (logical_line library negation ((codes "DOMAIN" ++ b',' ∷ v) ∷ [])) (leaf domain_suffix v)
          (not_of (leaf domain v)) tt
          (plain_line-IsLine (suc left) (codes "DOMAIN-SUFFIX") v (leaf domain_suffix v)
            (suffix_line-ReadsAs library (parse_classical library (suc left)) v plain))
          (negated (suc left) (codes "DOMAIN" ++ b',' ∷ v) (leaf domain v) (
            plain_line-IsLine left (codes "DOMAIN") v (leaf domain v)
              (domain_line-ReadsAs library (parse_classical library left) v plain))))

  -- A rule is written as a line that is read as another rule.
  abbrev pub WrittenAs : ℕ → Result Text → Predicate → Type 0
  WrittenAs left written p = (line : Text) × (written ≡ ok line) × IsLine left line p

  always_leaf : (left : ℕ) → 3 ≤ left → IsLine left always_line (leaf_form always [])
  always_leaf (suc (suc (suc left))) h = always_trip left
  always_leaf left h = absurd (omega arith)

  strict_leaf :
      (left : ℕ) (v : Text)
      → IsPlainLeaf library domain_suffix v
      → starts_with dot v ≡ true
      → 3 ≤ left
      → WrittenAs left
          (classical_leaf library domain_suffix v)
          (strict_suffix (trim_prefix v (dot ∷ [])))
  unfolding classical_leaf
  strict_leaf (suc (suc (suc left))) v plain strict h =
      (strict_suffix_line (trim_prefix v (dot ∷ [])), rw strict, strict_trip left _ plain)
  strict_leaf left v plain strict h = absurd (omega arith)

  single_leaf :
      (left : ℕ) (kind : Kind) (v : Text)
      → IsPlainLeaf library kind v
      → is_strict_suffix kind v ≡ false
      → kind ≢ always
      → 1 ≤ left
      → WrittenAs left (classical_leaf library kind v) (leaf kind v)
  unfolding parse_classical
  single_leaf zero kind v plain other differs h = absurd (omega arith)
  single_leaf (suc left) kind v plain other differs h =
      let (line, e, balanced, reads) =
        classical_leaf-ReadsAs library (parse_classical library left) kind v plain other differs in
      (line, e, (balanced, reads))

  leaf_trip :
      (left : ℕ) (kind : Kind) (v : Text)
      → IsPlainLeaf library kind v
      → leaf_levels kind v ≤ left
      → WrittenAs left (unless_always kind (classical_leaf library kind v)) (leaf_form kind v)
  leaf_trip left always v plain h = (always_line, refl, always_leaf left h)
  leaf_trip left domain_suffix v plain h = elim (Bool-cases (starts_with dot v)) [
    | inl strict ↦ rw strict (strict_leaf left v plain strict (ground arith))
    | inr other ↦ rw other (single_leaf left domain_suffix v plain other (λ e. cc) (ground arith))
  ]
  leaf_trip left kind v plain h = single_leaf left kind v plain refl (λ e. cc) h

  mutual
    unfolding classical form levels IsPlain

    pub trip :
        (left : ℕ) (p : Predicate)
        → IsPlain library p
        → levels p ≤ left
        → WrittenAs left (classical library p) (form p)
    trip left (predicate kind v none_left) plain h = leaf_trip left kind v plain h
    trip zero (predicate kind v (more p ps)) plain h = absurd (omega arith)
    trip (suc left) (predicate kind v (more p ps)) (can, empty, plain, plains) h =
        let (low, lows) = higher-le (levels p) (levels_each ps) left (omega arith) in
        let (line, e, (balanced, parsed)) = trip left p plain low in
        let (lines, es, balanced', parsed') = trip_each left ps plains lows in
        (
          logical_line library kind (line ∷ lines),
          unless_always_lem kind ps _ can ∙ rw (e, es) refl,
          rw empty (
              logical_trip left kind (line ∷ lines) (form p) (form_each ps)
                (CanCombine-form_each kind ps can) (balanced, balanced')
                (rw (parsed, parsed') refl)),
        )

    trip_each :
        (left : ℕ) (ps : Predicates)
        → ArePlain library ps
        → levels_each ps ≤ left
        → (lines : List Text) × (classical_each library ps ≡ ok lines)
          × All IsBalanced lines
          × (each_of (parse_classical library left) lines ≡ ok (form_each ps))
    trip_each left none_left plain h = ([], refl, tt, refl)
    trip_each left (more p ps) (plain, plains) h =
        let (low, lows) = higher-le (levels p) (levels_each ps) left h in
        let (line, e, (balanced, parsed)) = trip left p plain low in
        let (lines, es, balanced', parsed') = trip_each left ps plains lows in
        (line ∷ lines, rw (e, es) refl, (balanced, balanced'), rw (parsed, parsed') refl)
