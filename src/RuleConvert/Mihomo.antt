-- ===== src/RuleConvert/Mihomo.antt =====
-- The text of a rule set for the core Mihomo (`outputBehavior`, `mihomoText` and `classical` of
-- internal/ruleconvert/rules.go).
use boxctl.Base.{
  Bool, false, ◌||◌, ◌&&◌, not, Option, none, some, List, [], ◌∷◌, ◌++◌, if◌then◌else◌, text_Eq,
  ◌==◌, nat_Eq,
}
use boxctl.Base.Text.{Text, codes, contains, join_on}
use boxctl.Base.Strings.{trim_prefix, trim_space}
use boxctl.RuleConvert.Predicate.{
  Result, ok, err, ◌>>=◌, ◌>>◌, fail_if, Kind, kind_name, Predicate, predicate, Predicates,
  none_left, more, always, disjunction, domain, domain_suffix, domain_keyword, domain_regex,
  ip_cidr, source_ip_cidr, port, port_range, source_port, source_port_range, network, process_name,
  process_path, process_path_regex, space_unsupported, newline_unsupported, comma_unsupported,
  field_unsupported,
}
use boxctl.RuleConvert.Library.{
  Library, map_text, to_lower, to_upper, contains_any, replace_char, quote_meta, starts_with,
}
use boxctl.RuleConvert.Leaves.{dot}
use boxctl.RuleConvert.Operands.{wrap}

abbrev pub always_line : Text
always_line = codes "OR,((NETWORK,tcp),(NOT,((NETWORK,tcp))))"

-- a suffix that leaves its own domain out
abbrev pub strict_suffix_line : Text → Text
strict_suffix_line v =
    codes "AND,((DOMAIN-SUFFIX," ++ (v ++ (codes "),(NOT,((DOMAIN," ++ (v ++ codes "))))")))

abbrev pub regex_line : Text → Text → Text
regex_line key expression = key ++ (codes ",(?-i:" ++ (expression ++ codes ")"))

abbrev pub exactly : Text → Text
exactly value = codes "\\A" ++ (quote_meta value ++ codes "\\z")

-- a line of a kind that is no regular expression
abbrev pub plain_line : Text → Text → Text → Result Text
plain_line key original value =
    fail_if (contains b',' original) comma_unsupported >> ok (key ++ b',' ∷ value)

abbrev pub is_strict_suffix : Kind → Text → Bool
is_strict_suffix domain_suffix v = starts_with dot v
is_strict_suffix kind v = false

-- the rule that always holds has a line of its own
abbrev pub unless_always : Kind → Result Text → Result Text
unless_always always written = ok always_line
unless_always kind written = written

module _ (library : Library) where
  unfoldable pub leaf_line : Kind → Text → Result Text
  unfolding replace_char
  leaf_line domain_regex v = ok (regex_line (codes "DOMAIN-REGEX") v)
  leaf_line process_path_regex v = ok (regex_line (codes "PROCESS-PATH-REGEX") v)
  leaf_line process_name v = ok (regex_line (codes "PROCESS-NAME-REGEX") (exactly v))
  leaf_line process_path v = ok (regex_line (codes "PROCESS-PATH-REGEX") (exactly v))
  leaf_line domain_keyword v =
      if not (v == map_text (to_lower library) v) || contains b',' v
      then ok (regex_line (codes "DOMAIN-REGEX") (quote_meta v))
      else plain_line (codes "DOMAIN-KEYWORD") v v
  leaf_line port_range v = plain_line (codes "DST-PORT") v (replace_char b':' b'-' v)
  leaf_line source_port_range v = plain_line (codes "SRC-PORT") v (replace_char b':' b'-' v)
  leaf_line domain v = plain_line (codes "DOMAIN") v v
  leaf_line domain_suffix v = plain_line (codes "DOMAIN-SUFFIX") v v
  leaf_line ip_cidr v = plain_line (codes "IP-CIDR") v v
  leaf_line source_ip_cidr v = plain_line (codes "SRC-IP-CIDR") v v
  leaf_line port v = plain_line (codes "DST-PORT") v v
  leaf_line source_port v = plain_line (codes "SRC-PORT") v v
  leaf_line network v = plain_line (codes "NETWORK") v v
  leaf_line kind v = fail_if (contains b',' v) comma_unsupported >> err field_unsupported

  unfoldable pub classical_leaf : Kind → Text → Result Text
  unfolding trim_prefix trim_space contains_any leaf_line
  classical_leaf kind v =
      if is_strict_suffix kind v
      then ok (strict_suffix_line (trim_prefix v (dot ∷ [])))
      else (fail_if (not (v == trim_space v)) space_unsupported
          >> (fail_if (contains_any v (13 ∷ 10 ∷ [])) newline_unsupported >> leaf_line kind v))

  abbrev pub logical_line : Kind → List Text → Text
  logical_line kind lines =
      map_text (to_upper library) (kind_name kind) ++ (codes ",(" ++ (wrap lines ++ codes ")"))

  unfoldable mutual
    unfolding classical_leaf kind_name

    pub classical : Predicate → Result Text
    classical (predicate kind v none_left) = unless_always kind (classical_leaf kind v)
    classical (predicate kind v (more p ps)) = unless_always kind (
        classical p >>= λ line.
        (classical_each ps >>= λ lines. ok (logical_line kind (line ∷ lines))))

    pub classical_each : Predicates → Result (List Text)
    classical_each none_left = ok []
    classical_each (more p ps) = do line ← classical p; lines ← classical_each ps; ok (line ∷ lines)

-- The behaviour that each rule so far has, if one serves: empty before the first rule.
abbrev pub leaf_behavior : Kind → Option Text
leaf_behavior domain = some (codes "domain")
leaf_behavior domain_suffix = some (codes "domain")
leaf_behavior ip_cidr = some (codes "ipcidr")
leaf_behavior kind = none

abbrev pub agree : Text → Option Text → Option Text
agree behavior none = none
agree behavior (some own) = if not (behavior == []) && not (behavior == own) then none else some own

abbrev pub and_then : Option Text → (Text → Option Text) → Option Text
and_then none next = none
and_then (some b) next = next b

unfoldable mutual
  pub visit : Text → Predicate → Option Text
  visit behavior (predicate disjunction v ps) = visit_each behavior ps
  visit behavior (predicate kind v ps) = agree behavior (leaf_behavior kind)

  pub visit_each : Text → Predicates → Option Text
  visit_each behavior none_left = some behavior
  visit_each behavior (more p ps) = and_then (visit behavior p) (λ b. visit_each b ps)

abbrev pub classical_unless : Option Text → Text
classical_unless none = codes "classical"
classical_unless (some behavior) = behavior

unfoldable pub output_behavior : Predicates → Text
unfolding visit_each
output_behavior rules = classical_unless (visit_each [] rules)

abbrev pub marked_value : Kind → Text → Text
marked_value domain_suffix v = if starts_with dot v then v else codes "+." ++ v
marked_value kind v = v

module _ (library : Library) (behavior : Text) where
  abbrev pub emit_single : Predicate → Result (List Text)
  emit_single (predicate kind v ps) =
      if not (behavior == codes "classical")
      then ok (marked_value kind v ∷ [])
      else (classical library (predicate kind v ps) >>= λ line. ok (line ∷ []))

  unfoldable mutual
    unfolding classical

    pub emit : Predicate → Result (List Text)
    emit (predicate disjunction v ps) = emit_each ps
    emit (predicate kind v ps) = emit_single (predicate kind v ps)

    pub emit_each : Predicates → Result (List Text)
    emit_each none_left = ok []
    emit_each (more p ps) = do front ← emit p; back ← emit_each ps; ok (front ++ back)

  unfoldable pub mihomo_text : Predicates → Result Text
  unfolding emit_each
  mihomo_text rules = emit_each rules >>= λ lines. ok (join_on 10 lines ++ 10 ∷ [])
