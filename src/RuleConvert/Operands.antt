-- ===== src/RuleConvert/Operands.antt =====
-- The operands of a logical rule (`splitLogical` of internal/ruleconvert/rules.go). The loop runs on
-- fuel, one round to an operand; the length of the text is enough.
pub mod Splitting
use boxctl.Base.{
  ℕ, zero, suc, ◌+◌, ◌-◌, ◌≤◌, ◌<◌, ◌≡◌, ◌≢◌, ◌↔◌, refl, Bool, true, false, ◌&&◌, not, Option, none,
  some, List, [], ◌∷◌, ◌++◌, nat_eq, ltb, if◌then◌else◌, length, length-append, All, arith, inl,
  inr, Bool-cases,
}
use boxctl.Base.Text.{Text}
use boxctl.Base.Answers.{>>=-eq-ok, err-ne-ok, Answer-cases}
use boxctl.RuleConvert.Predicate.{
  Result, ok, err, ◌>>=◌, out_of_fuel, invalid_operand, unclosed_operand, invalid_separator,
  empty_operand,
}

abbrev pub cons_before : ℕ → Option (Text × Text) → Option (Text × Text)
cons_before c none = none
cons_before c (some (front, rest)) = some (c ∷ front, rest)

-- The text up to the parenthesis that closes an operand, and what follows it; `open_count` counts
-- the parentheses that are open within the operand.
unfoldable pub close : ℕ → Text → Option (Text × Text)
close open_count [] = none
close open_count (c ∷ s) =
    let deeper = cons_before c (close (open_count + 1) s) in
    let up = cons_before c (close (open_count - 1) s) in
    let level = cons_before c (close open_count s) in
    if nat_eq c b'('
    then deeper
    else if nat_eq c b')'
    then (if nat_eq open_count 0 then some ([], s) else up)
    else level

-- What follows an operand: the end, or a comma and further operands.
abbrev pub after_operand : (Text → Result (List Text)) → Option (Text × Text) → Result (List Text)
after_operand further none = err unclosed_operand
after_operand further (some (item, [])) = ok (item ∷ [])
after_operand further (some (item, c ∷ [])) =
    if nat_eq c b',' then err empty_operand else err invalid_separator
after_operand further (some (item, c ∷ d ∷ rest)) =
    if nat_eq c b','
    then (further (d ∷ rest) >>= λ items. ok (item ∷ items))
    else err invalid_separator

unfoldable pub split_logical : ℕ → Text → Result (List Text)
unfolding close
split_logical fuel [] = ok []
split_logical zero (c ∷ s) = err out_of_fuel
split_logical (suc fuel) (c ∷ s) =
    let rest = after_operand (split_logical fuel) (close 0 s) in
    if nat_eq c b'(' then rest else err invalid_operand

unfoldable pub operands : Text → Result (List Text)
unfolding split_logical
operands text = split_logical (length text) text

-- A text whose parentheses match, when `open_count` are open before it.
abbrev pub closes : ℕ → Text → Bool
closes open_count [] = nat_eq open_count 0
closes open_count (c ∷ s) =
    let deeper = closes (open_count + 1) s in
    let up = closes (open_count - 1) s in
    let level = closes open_count s in
    if nat_eq c b'('
    then deeper
    else if nat_eq c b')'
    then (if nat_eq open_count 0 then false else up)
    else level

abbrev pub IsBalanced : Text → Type 0
IsBalanced s = closes 0 s ≡ true

-- Operands in parentheses, with commas between them.
abbrev pub wrap : List Text → Text
wrap [] = []
wrap (x ∷ []) = b'(' ∷ (x ++ b')' ∷ [])
wrap (x ∷ y ∷ ys) = b'(' ∷ (x ++ b')' ∷ b',' ∷ wrap (y ∷ ys))
