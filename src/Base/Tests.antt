-- ===== src/Base/Tests.antt =====
-- Boolean tests on the native numbers, the conditional, and an interface for equality tests.
use Prim.Native.Nat.{ℕ, ◌≤◌, ◌<◌, compare, Ordering}
use mathlib.Core.Path.{◌≡◌, refl}
use mathlib.Core.Logic.{◌↔◌, ◌⊎◌, inl, inr}
use mathlib.Core.Bool.{Bool, true, false, ◌&&◌}
use mathlib.Core.Option.{Option, none, some}
use mathlib.Core.List.{List, [], ◌∷◌}
use native.Mathlib.Omega.{arith}

abbrev pub ltb : ℕ → ℕ → Bool
ltb a b = elim (compare a b) [ Ordering.lt ↦ true | _ ↦ false ]

abbrev pub leb : ℕ → ℕ → Bool
leb a b = elim (compare a b) [ Ordering.gt ↦ false | _ ↦ true ]

abbrev pub nat_eq : ℕ → ℕ → Bool
nat_eq a b = elim (compare a b) [ Ordering.eq ↦ true | _ ↦ false ]

infix 1 if◌then◌else◌
abbrev pub if◌then◌else◌ {ℓ} : {A : Type ℓ} → Bool → A → A → A
if true then x else y = x
if false then x else y = y

pub ltb→lt : (a b : ℕ) → ltb a b ≡ true → a < b
ltb→lt a b h = ground arith

pub lt→ltb : (a b : ℕ) → a < b → ltb a b ≡ true
lt→ltb a b h = ground arith

pub leb→le : (a b : ℕ) → leb a b ≡ true → a ≤ b
leb→le a b h = ground arith

pub le→leb : (a b : ℕ) → a ≤ b → leb a b ≡ true
le→leb a b h = ground arith

pub ruleset tests = (arith, ltb→lt, lt→ltb, leb→le, le→leb)

-- To split on a computed value and keep the equation.
pub Bool-cases : (b : Bool) → (b ≡ true) ⊎ (b ≡ false)
Bool-cases true = inl refl
Bool-cases false = inr refl

pub Option-cases {ℓ} : {A : Type ℓ} (o : Option A) → (o ≡ none) ⊎ ((a : A) × (o ≡ some a))
Option-cases none = inl refl
Option-cases (some a) = inr (a, refl)

-- An equality test that agrees with equality.
pub record Eq {ℓ} (A : Type ℓ) : Type ℓ where
  pub test : A → A → Bool
  pub test_iff : (a b : A) → (test a b ≡ true) ↔ (a ≡ b)

infix 50 ◌==◌
abbrev pub ◌==◌ {ℓ} : {A : Type ℓ} ⦃eq : Eq A⦄ → A → A → Bool
◌==◌ ⦃eq⦄ = eq.test

pub nat_eq_iff : (a b : ℕ) → (nat_eq a b ≡ true) ↔ (a ≡ b)
nat_eq_iff a b = ground arith

abbrev pub list_eq : List ℕ → List ℕ → Bool
list_eq [] [] = true
list_eq [] (_ ∷ _) = false
list_eq (_ ∷ _) [] = false
list_eq (a ∷ as') (b ∷ bs) = nat_eq a b && list_eq as' bs

pub list_eq_sound : (as' bs : List ℕ) → list_eq as' bs ≡ true → as' ≡ bs
list_eq_sound [] [] h = refl
list_eq_sound [] (_ ∷ _) h = cc
list_eq_sound (_ ∷ _) [] h = cc
list_eq_sound (a ∷ as') (b ∷ bs) h = ground (arith, list_eq_sound as' bs)

pub list_eq_refl : (as' : List ℕ) → list_eq as' as' ≡ true
list_eq_refl [] = refl
list_eq_refl (a ∷ as') = ground (arith, list_eq_refl as')

pub list_eq_iff : (as' bs : List ℕ) → (list_eq as' bs ≡ true) ↔ (as' ≡ bs)
list_eq_iff as' bs = (list_eq_sound as' bs, λ e. back e)
  where
    back : as' ≡ bs → list_eq as' bs ≡ true
    back e = ground (arith, list_eq_refl as')

instance abbrev pub nat_Eq : Eq ℕ
nat_Eq = record { test = nat_eq; test_iff = nat_eq_iff }

instance abbrev pub text_Eq : Eq (List ℕ)
text_Eq = record { test = list_eq; test_iff = list_eq_iff }
