-- ===== src/RuleConvert/Translation/Values.antt =====
-- The values of conditions that a line carries whole: domains, networks, ports and ranges of ports
-- (internal/ruleconvert/rules.go).
use boxctl.Base.{
  ℕ, ◌≤◌, ◌≡◌, ◌≢◌, refl, Bool, true, false, ◌||◌, some, [], ◌∷◌, ◌++◌, nat_eq, text_Eq, ◌==◌, All,
  arith,
}
use boxctl.Base.Text.{Text, codes, contains, split_on_plain}
use boxctl.Base.Strings.{trim_space, is_space, trim_front, trim_end}
use boxctl.RuleConvert.Predicate.{ok, Predicate, leaf, Kind}
use boxctl.RuleConvert.Library.{starts_with, contains_any, replace_char}
use boxctl.RuleConvert.Decimal.{
  is_digit, AllDigits, itoa, atoi, itoa-ne-nil, AllDigits-itoa, atoi-itoa,
}
use boxctl.RuleConvert.Leaves.{is_domain, dot, port_predicate, bound_of, forbidden, range_kind}
use boxctl.RuleConvert.Classical.{port_rule}
use boxctl.RuleConvert.Translation.Texts.{
  trim_space-HasNoSpace, HasNoSpace, contains-contains_any, closes_plain, cut-append, cut_plain,
}
use boxctl.RuleConvert.Translation.Plain.{IsWhole}

-- the characters of ports and ranges
abbrev pub is_port_character : ℕ → Bool
is_port_character c = is_digit c || (nat_eq c b':' || nat_eq c b'-')

abbrev pub IsPortText : Text → Type 0
IsPortText s = All (λ c. is_port_character c ≡ true) s

contains-IsPortText :
    (x : ℕ) (s : Text) → is_port_character x ≡ false → IsPortText s → contains x s ≡ false
contains-IsPortText x [] h ps = refl
contains-IsPortText x (c ∷ s) h ps = ground (arith, contains-IsPortText x s h ps.1, ps.0)

HasNoSpace-IsPortText : (s : Text) → IsPortText s → HasNoSpace s
unfolding is_space
HasNoSpace-IsPortText [] ps = tt
HasNoSpace-IsPortText (c ∷ s) ps = (ground (arith, ps.0), HasNoSpace-IsPortText s ps.1)

contains_any_newlines :
    (s : Text)
    → contains 13 s ≡ false
    → contains 10 s ≡ false
    → contains_any s (13 ∷ 10 ∷ []) ≡ false
unfolding contains_any
contains_any_newlines [] h k = refl
contains_any_newlines (c ∷ s) h k = ground (arith, contains_any_newlines s)

is_empty_of_ne : (s : Text) → s ≢ [] → s == [] ≡ false
is_empty_of_ne [] h = absurd (h refl)
is_empty_of_ne (c ∷ s) h = refl

pub IsPortText-IsWhole : (s : Text) → IsPortText s → s ≢ [] → IsWhole s
IsPortText-IsWhole s ps given = record {
  trimmed = trim_space-HasNoSpace s (HasNoSpace-IsPortText s ps);
  given = is_empty_of_ne s given;
  on_a_line =
      contains_any_newlines s (contains-IsPortText 13 s refl ps) (contains-IsPortText 10 s refl ps);
  no_comma = contains-IsPortText b',' s refl ps;
  balanced =
      closes_plain 0 s (contains-IsPortText b'(' s refl ps) (contains-IsPortText b')' s refl ps);
}

pub is_domain_parts :
    (v : Text)
    → is_domain v ≡ true
    → (v == [] ≡ false) × (starts_with dot v ≡ false) × (contains_any v forbidden ≡ false)
unfolding is_domain
is_domain_parts v h = (ground arith, ground arith, ground arith)

-- a domain is carried whole
pub is_domain-IsWhole : (v : Text) → is_domain v ≡ true → trim_space v ≡ v → IsWhole v
is_domain-IsWhole v h trimmed = record {
  trimmed = trimmed;
  given = (is_domain_parts v h).0;
  on_a_line = contains_any_newlines v (without 13 refl) (without 10 refl);
  no_comma = without b',' refl;
  balanced = closes_plain 0 v (without b'(' refl) (without b')' refl);
}
  where
    clean : contains_any v forbidden ≡ false
    clean = (is_domain_parts v h).2

    without : (c : ℕ) → contains c forbidden ≡ true → contains c v ≡ false
    without c k = contains-contains_any c v forbidden clean k

pub network-IsWhole : (IsWhole (codes "tcp")) × (IsWhole (codes "udp"))
unfolding trim_space trim_front trim_end is_space contains_any
network-IsWhole = (
  record { trimmed = refl; given = refl; on_a_line = refl; no_comma = refl; balanced = refl },
  record { trimmed = refl; given = refl; on_a_line = refl; no_comma = refl; balanced = refl },
)

IsPortText-AllDigits : (s : Text) → AllDigits s → IsPortText s
IsPortText-AllDigits [] h = tt
IsPortText-AllDigits (c ∷ s) h = (rw h.0, IsPortText-AllDigits s h.1)

IsPortText-append : (s t : Text) → IsPortText s → IsPortText t → IsPortText (s ++ t)
IsPortText-append [] t h k = k
IsPortText-append (c ∷ s) t h k = (h.0, IsPortText-append s t h.1 k)

pub IsPortText-itoa : (n : ℕ) → IsPortText (itoa n)
IsPortText-itoa n = IsPortText-AllDigits (itoa n) (AllDigits-itoa n)

pub IsPortText-range :
    (low high x : ℕ) → is_port_character x ≡ true → IsPortText (itoa low ++ x ∷ itoa high)
IsPortText-range low high x h =
    IsPortText-append (itoa low) (x ∷ itoa high) (IsPortText-itoa low) (h, IsPortText-itoa high)

contains-AllDigits : (x : ℕ) (s : Text) → is_digit x ≡ false → AllDigits s → contains x s ≡ false
contains-AllDigits x [] h ds = refl
contains-AllDigits x (c ∷ s) h ds = ground (arith, contains-AllDigits x s h ds.1, ds.0)

contains-itoa : (x n : ℕ) → is_digit x ≡ false → contains x (itoa n) ≡ false
contains-itoa x n h = contains-AllDigits x (itoa n) h (AllDigits-itoa n)

replace_char_plain : (old new : ℕ) (s : Text) → contains old s ≡ false → replace_char old new s ≡ s
unfolding replace_char
replace_char_plain old new [] h = refl
replace_char_plain old new (c ∷ s) h = ground (arith, replace_char_plain old new s)

replace_char-append :
    (old new : ℕ) (s t : Text)
    → contains old s ≡ false
    → replace_char old new (s ++ t) ≡ s ++ replace_char old new t
unfolding replace_char
replace_char-append old new [] t h = refl
replace_char-append old new (c ∷ s) t h = ground (arith, replace_char-append old new s t)

replace_char-range :
    (x y low high : ℕ)
    → is_digit x ≡ false
    → replace_char x y (itoa low ++ x ∷ itoa high) ≡ itoa low ++ y ∷ itoa high
unfolding replace_char
replace_char-range x y low high h =
    rw (replace_char-append x y (itoa low) (x ∷ itoa high) (contains-itoa x low h))
      (rw (replace_char_plain x y (itoa high) (contains-itoa x high h)) (ground arith))

bound_of-itoa : (other n : ℕ) → bound_of other (itoa n) ≡ some n
bound_of-itoa other n = given (itoa n) (itoa-ne-nil n) (atoi-itoa n)
  where
    given : (s : Text) → s ≢ [] → atoi s ≡ some n → bound_of other s ≡ some n
    given [] h e = absurd (h refl)
    given (c ∷ s) h e = e

port_predicate-itoa :
    (kind : Kind) (n : ℕ) → n ≤ 65535 → port_predicate kind (itoa n) ≡ ok (leaf kind (itoa n))
unfolding port_predicate
port_predicate-itoa kind n h =
    rw (cut_plain b':' (itoa n) (contains-itoa b':' n refl)) (rw (atoi-itoa n) (ground arith))

port_predicate-range :
    (kind : Kind) (low high : ℕ)
    → low ≤ high
    → high ≤ 65535
    → port_predicate kind (itoa low ++ b':' ∷ itoa high)
      ≡ ok (leaf (range_kind kind) (itoa low ++ b':' ∷ itoa high))
unfolding port_predicate
port_predicate-range kind low high h k =
    rw (cut-append b':' (itoa low) (itoa high) (contains-itoa b':' low refl))
      (rw (bound_of-itoa 0 low) (rw (bound_of-itoa 65535 high) (ground arith)))

port_rule_single :
    (kind : Kind) (tail : Text) (p : Predicate)
    → IsPortText tail
    → port_predicate kind (replace_char b'-' b':' tail) ≡ ok p
    → port_rule kind tail ≡ ok p
unfolding port_rule
port_rule_single kind tail p h e =
    rw (split_on_plain b'/' tail (contains-IsPortText b'/' tail refl h)) (rw e (ground arith))

-- the list of ports that is one port
pub port_rule-itoa :
    (kind : Kind) (n : ℕ) → n ≤ 65535 → port_rule kind (itoa n) ≡ ok (leaf kind (itoa n))
port_rule-itoa kind n h = port_rule_single kind (itoa n) _ (IsPortText-itoa n) (
    rw (replace_char_plain b'-' b':' (itoa n) (contains-itoa b'-' n refl))
      (port_predicate-itoa kind n h))

-- the text of a range with a dash, and the range that is read from it
pub dashed :
    (low high : ℕ)
    → replace_char b':' b'-' (itoa low ++ b':' ∷ itoa high) ≡ itoa low ++ b'-' ∷ itoa high
dashed low high = replace_char-range b':' b'-' low high refl

pub port_rule-range :
    (kind : Kind) (low high : ℕ)
    → low ≤ high
    → high ≤ 65535
    → port_rule kind (itoa low ++ b'-' ∷ itoa high)
      ≡ ok (leaf (range_kind kind) (itoa low ++ b':' ∷ itoa high))
port_rule-range kind low high h k =
    port_rule_single kind (itoa low ++ b'-' ∷ itoa high) _ (IsPortText-range low high b'-' refl)
      (rw (replace_char-range b'-' b':' low high refl) (port_predicate-range kind low high h k))
