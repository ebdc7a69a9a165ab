-- ===== src/RuleConvert/Decimal.antt =====
-- Decimal numbers: `strconv.Atoi` and `strconv.Itoa` of Go's library for numbers that are not
-- negative, as internal/ruleconvert uses them.
use boxctl.Base.{
  ℕ, zero, suc, ◌+◌, ◌-◌, ◌*◌, ◌/◌, ◌%◌, ◌<◌, ◌≡◌, ◌≢◌, ◌∙◌, refl, Bool, true, ◌&&◌, Option, none,
  some, [], ◌∷◌, nat_eq, ltb, leb, if◌then◌else◌, arith,
}
use boxctl.Base.Text.{Text}

abbrev pub is_digit : ℕ → Bool
is_digit c = leb 48 c && leb c 57

-- A text that goes on from the value of its first digits.
abbrev pub add_digits : ℕ → Text → Option ℕ
add_digits n [] = some n
add_digits n (c ∷ s) =
    let rest = add_digits (n * 10 + (c - 48)) s in if is_digit c then rest else none

unfoldable pub digits : Text → Option ℕ
digits [] = none
digits (c ∷ s) = add_digits 0 (c ∷ s)

-- `strconv.Atoi`; a negative number other than zero is none, as each caller refuses it
abbrev pub zero_only : Option ℕ → Option ℕ
zero_only none = none
zero_only (some zero) = some zero
zero_only (some (suc n)) = none

unfoldable pub atoi : Text → Option ℕ
unfolding digits
atoi [] = none
atoi (c ∷ s) =
    let positive = digits s in
    if nat_eq c b'+' then positive else if nat_eq c b'-' then zero_only positive else digits (c ∷ s)

-- the digits before some others, on fuel
unfoldable pub digits_before : ℕ → ℕ → Text → Text
digits_before zero n s = s
digits_before (suc fuel) n s =
    let more = digits_before fuel (n / 10) ((n % 10 + 48) ∷ s) in
    if ltb n 10 then (n + 48) ∷ s else more

-- `strconv.Itoa`
unfoldable pub itoa : ℕ → Text
unfolding digits_before
itoa n = digits_before (n + 1) n []

add_digits-digits_before :
    (fuel n : ℕ) (s : Text) → n < fuel → add_digits 0 (digits_before fuel n s) ≡ add_digits n s
unfolding digits_before
add_digits-digits_before zero n s h = absurd (omega arith)
add_digits-digits_before (suc fuel) n s h =
    ground (arith, add_digits-digits_before fuel (n / 10) ((n % 10 + 48) ∷ s))

-- every character is a digit, and there is one
abbrev pub AllDigits : Text → Type 0
AllDigits [] = Unit
AllDigits (c ∷ s) = (is_digit c ≡ true) × AllDigits s

AllDigits-digits_before : (fuel n : ℕ) (s : Text) → AllDigits s → AllDigits (digits_before fuel n s)
unfolding digits_before
AllDigits-digits_before zero n s h = h
AllDigits-digits_before (suc fuel) n s h =
    ground (arith, h, AllDigits-digits_before fuel (n / 10) ((n % 10 + 48) ∷ s))

digits_before-ne-nil : (fuel n : ℕ) (s : Text) → n < fuel → digits_before fuel n s ≢ []
unfolding digits_before
digits_before-ne-nil zero n s h e = absurd (omega arith)
digits_before-ne-nil (suc fuel) n s h e =
    ground (arith, digits_before-ne-nil fuel (n / 10) ((n % 10 + 48) ∷ s))

pub itoa-ne-nil : (n : ℕ) → itoa n ≢ []
unfolding itoa
itoa-ne-nil n = digits_before-ne-nil (n + 1) n [] (omega arith)

pub AllDigits-itoa : (n : ℕ) → AllDigits (itoa n)
unfolding itoa
AllDigits-itoa n = AllDigits-digits_before (n + 1) n [] tt

atoi_digits : (s : Text) → AllDigits s → s ≢ [] → atoi s ≡ add_digits 0 s
unfolding atoi
atoi_digits [] h e = absurd (e refl)
atoi_digits (c ∷ s) h e = ground (arith, h.0)

-- A number that is printed is read as itself.
pub atoi-itoa : (n : ℕ) → atoi (itoa n) ≡ some n
unfolding itoa
atoi-itoa n =
    atoi_digits (digits_before (n + 1) n []) (AllDigits-itoa n) (itoa-ne-nil n)
    ∙ add_digits-digits_before (n + 1) n [] (omega arith)
