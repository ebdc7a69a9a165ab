-- ===== src/RuleConvert/Operands/Splitting.antt =====
-- What the operands of a logical rule are (`splitLogical` of internal/ruleconvert/rules.go): the
-- inverse of writing them in parentheses with commas between.
use boxctl.Base.{
  ℕ, zero, suc, ◌+◌, ◌-◌, ◌≤◌, ◌<◌, ◌≡◌, ◌≢◌, ◌↔◌, refl, true, Option, none, some, List, [], ◌∷◌,
  ◌++◌, nat_eq, length, length-append, All, arith, inl, inr, Bool-cases,
}
use boxctl.Base.Text.{Text}
use boxctl.Base.Answers.{>>=-eq-ok, err-ne-ok, Answer-cases}
use boxctl.RuleConvert.Predicate.{Result, ok, err, out_of_fuel}
use boxctl.RuleConvert.Operands.{
  cons_before, close, after_operand, split_logical, operands, closes, IsBalanced, wrap,
}

close_complete :
    (n : ℕ) (item rest : Text)
    → closes n item ≡ true
    → close n (item ++ b')' ∷ rest) ≡ some (item, rest)
unfolding close
close_complete n [] rest h = ground arith
close_complete n (c ∷ s) rest h =
    ground
      (arith, close_complete (n + 1) s rest, close_complete (n - 1) s rest, close_complete n s rest)

cons_before-ne-nil :
    (c : ℕ) (r : Option (Text × Text)) (rest : Text) → cons_before c r ≢ some ([], rest)
cons_before-ne-nil c none rest h = cc
cons_before-ne-nil c (some _) rest h = ground arith

close_sound :
    (n : ℕ) (s item rest : Text)
    → close n s ≡ some (item, rest)
    → (s ≡ item ++ b')' ∷ rest) × (closes n item ≡ true)
unfolding close
close_sound n [] item rest h = cc
close_sound n (c ∷ s) [] rest h = ground (
  arith,
  cons_before-ne-nil c (close (n + 1) s) rest,
  cons_before-ne-nil c (close (n - 1) s) rest,
  cons_before-ne-nil c (close n s) rest,
)
close_sound n (c ∷ s) (d ∷ item) rest h = ground (
  arith,
  close_sound (n + 1) s item rest,
  close_sound (n - 1) s item rest,
  close_sound n s item rest,
)

length-close : (n : ℕ) (s item rest : Text) → close n s ≡ some (item, rest) → length rest < length s
length-close n s item rest h =
    rw (close_sound n s item rest h).0 (omega (arith, length-append item (b')' ∷ rest)))

split_logical_complete :
    (fuel : ℕ) (items : List Text)
    → length items ≤ fuel
    → All IsBalanced items
    → split_logical fuel (wrap items) ≡ ok items
unfolding split_logical
split_logical_complete fuel [] h balanced = ground arith
split_logical_complete zero (x ∷ xs) h balanced = absurd (omega arith)
split_logical_complete (suc fuel) (x ∷ []) h balanced =
    ground (arith, close_complete 0 x [] balanced.0)
split_logical_complete (suc fuel) (x ∷ y ∷ []) h balanced = ground (
  arith,
  close_complete 0 x (b',' ∷ wrap (y ∷ [])) balanced.0,
  split_logical_complete fuel (y ∷ []),
)
split_logical_complete (suc fuel) (x ∷ y ∷ z ∷ zs) h balanced = ground (
  arith,
  close_complete 0 x (b',' ∷ wrap (y ∷ z ∷ zs)) balanced.0,
  split_logical_complete fuel (y ∷ z ∷ zs),
)

-- What a successful split found after an operand.
data Splits (further : Text → Result (List Text)) (r : Option (Text × Text)) (items : List Text)
    : Type 0 where
  last : (item : Text) → r ≡ some (item, []) → items ≡ item ∷ [] → Splits further r items
  later :
      (item : Text) (d : ℕ) (rest : Text) (ys : List Text)
      → r ≡ some (item, b',' ∷ d ∷ rest)
      → further (d ∷ rest) ≡ ok ys
      → items ≡ item ∷ ys
      → Splits further r items

after_operand-Splits :
    (further : Text → Result (List Text)) (r : Option (Text × Text)) (items : List Text)
    → after_operand further r ≡ ok items
    → Splits further r items
after_operand-Splits further none items h = cc
after_operand-Splits further (some (item, [])) items h = last item refl (cc)
after_operand-Splits further (some (item, c ∷ [])) items h = ground arith
after_operand-Splits further (some (item, c ∷ d ∷ rest)) items h =
    elim (Bool-cases (nat_eq c b',')) [
      | inl comma ↦
          let (ys, found, e) =
            >>=-eq-ok (further (d ∷ rest)) (λ ys. ok (item ∷ ys)) (rw comma at h) in
          later item d rest ys (ground arith) found (cc)
      | inr other ↦ absurd (err-ne-ok (rw other at h))
    ]

wrap-eq-nil : (items : List Text) → wrap items ≡ [] → items ≡ []
wrap-eq-nil [] h = refl
wrap-eq-nil (x ∷ []) h = ground arith
wrap-eq-nil (x ∷ y ∷ ys) h = ground arith

wrap-cons :
    (x : Text) (ys : List Text) (d : ℕ) (rest : Text)
    → d ∷ rest ≡ wrap ys
    → wrap (x ∷ ys) ≡ b'(' ∷ (x ++ b')' ∷ b',' ∷ d ∷ rest)
wrap-cons x [] d rest h = ground arith
wrap-cons x (y ∷ ys) d rest h = rw h

split_logical_sound :
    (fuel : ℕ) (text : Text) (items : List Text)
    → split_logical fuel text ≡ ok items
    → (text ≡ wrap items) × All IsBalanced items
unfolding split_logical
split_logical_sound fuel [] items h = let nothing : items ≡ [] = cc in rw nothing (refl, tt)
split_logical_sound zero (c ∷ s) items h = cc
split_logical_sound (suc fuel) (c ∷ s) items h = elim (Bool-cases (nat_eq c b'(')) [
  | inr other ↦ absurd (err-ne-ok (rw other at h))
  | inl opened ↦
      elim (after_operand-Splits (split_logical fuel) (close 0 s) items (rw opened at h)) [
        | last item found e ↦ let (front, closed) = close_sound 0 s item [] found in ground arith
        | later item d rest ys found further e ↦
            let (front, closed) = close_sound 0 s item (b',' ∷ d ∷ rest) found in
            let (text, balanced) = split_logical_sound fuel (d ∷ rest) ys further in
            ground (arith, wrap-cons item ys d rest text)
      ]
]

after_operand-ne-out_of_fuel :
    (further : Text → Result (List Text)) (r : Option (Text × Text))
    → ((item rest : Text) → r ≡ some (item, b',' ∷ rest) → further rest ≢ err out_of_fuel)
    → after_operand further r ≢ err out_of_fuel
after_operand-ne-out_of_fuel further none h e = ground arith
after_operand-ne-out_of_fuel further (some (item, [])) h e = cc
after_operand-ne-out_of_fuel further (some (item, c ∷ [])) h e = ground arith
after_operand-ne-out_of_fuel further (some (item, c ∷ d ∷ rest)) h e =
    ground (arith, h item (d ∷ rest), Answer-cases (further (d ∷ rest)))

split_logical-ne-out_of_fuel :
    (fuel : ℕ) (text : Text) → length text ≤ fuel → split_logical fuel text ≢ err out_of_fuel
unfolding split_logical
split_logical-ne-out_of_fuel fuel [] h = ground arith
split_logical-ne-out_of_fuel zero (c ∷ s) h = absurd (omega arith)
split_logical-ne-out_of_fuel (suc fuel) (c ∷ s) h = ground (
  arith,
  after_operand-ne-out_of_fuel (split_logical fuel) (close 0 s) (λ item rest e.
      split_logical-ne-out_of_fuel fuel rest
        (omega (arith, length-close 0 s item (b',' ∷ rest) e))),
)

length-wrap : (items : List Text) → length items ≤ length (wrap items)
length-wrap [] = omega arith
length-wrap (x ∷ []) = omega arith
length-wrap (x ∷ y ∷ ys) =
    omega (arith, length-wrap (y ∷ ys), length-append x (b')' ∷ b',' ∷ wrap (y ∷ ys)))

-- A text splits into operands exactly when it is those operands in parentheses with commas between,
-- each with matching parentheses.
pub operands-wrap :
    (text : Text) (items : List Text)
    → (operands text ≡ ok items) ↔ ((text ≡ wrap items) × All IsBalanced items)
unfolding operands
operands-wrap text items = (split_logical_sound (length text) text items, λ h. join h.0 h.1)
  where
    join : text ≡ wrap items → All IsBalanced items → split_logical (length text) text ≡ ok items
    join e balanced =
        rw e (split_logical_complete (length (wrap items)) items (length-wrap items) balanced)

-- The loop over the operands ends by itself on every text: the fuel, which is the length of the
-- text, does not run out.
pub operands-ne-out_of_fuel : (text : Text) → operands text ≢ err out_of_fuel
unfolding operands
operands-ne-out_of_fuel text = split_logical-ne-out_of_fuel (length text) text (omega arith)
