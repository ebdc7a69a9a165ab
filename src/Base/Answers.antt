-- ===== src/Base/Answers.antt =====
-- What a fallible operation answers: a value, or an error of its component's own type.
use mathlib.Core.Path.{◌≡◌, refl, subst}
use mathlib.Core.Bool.{Bool, true, false}
use mathlib.Core.Logic.{◌≢◌, ◌⊎◌, inl, inr}
use boxctl.Base.Tests.{if◌then◌else◌}

pub data Answer {ℓ} (E : Type 0) (A : Type ℓ) : Type ℓ where
  err : E → Answer E A
  ok : A → Answer E A

module _ {E : Type 0} where
  infixl 5 ◌>>=◌ ◌>>◌
  -- the rest of a chain, on the value of its start
  abbrev pub ◌>>=◌ {ℓ κ} : {A : Type ℓ} {B : Type κ} → Answer E A → (A → Answer E B) → Answer E B
  err e >>= rest = err e
  ok a >>= rest = rest a

  abbrev pub ◌>>◌ {ℓ} : {B : Type ℓ} → Answer E (Unit {0}) → Answer E B → Answer E B
  checked >> rest = checked >>= λ _. rest

  -- an early return of an error
  abbrev pub fail_if : Bool → E → Answer E (Unit {0})
  fail_if false e = ok tt
  fail_if true e = err e

  -- what each part of a successful chain gave
  pub >>=-eq-ok {ℓ κ} :
      {A : Type ℓ} {B : Type κ} (start : Answer E A) (rest : A → Answer E B) {last : B}
      → (start >>= rest) ≡ ok last
      → (first : A) × (start ≡ ok first) × (rest first ≡ ok last)
  >>=-eq-ok (err e) rest h = cc
  >>=-eq-ok (ok a) rest h = (a, refl, h)

  pub fail_if-eq-ok {ℓ} :
      {A : Type ℓ} (b : Bool) (e : E) (m : Answer E A) {a : A}
      → (fail_if b e >> m) ≡ ok a
      → (b ≡ false) × (m ≡ ok a)
  fail_if-eq-ok false e m h = (refl, h)
  fail_if-eq-ok true e m h = cc

  pub Answer-cases {ℓ} :
      {A : Type ℓ} (r : Answer E A) → ((e : E) × (r ≡ err e)) ⊎ ((a : A) × (r ≡ ok a))
  Answer-cases (err e) = inl (e, refl)
  Answer-cases (ok a) = inr (a, refl)

  pub err-ne-ok {ℓ} : {A : Type ℓ} {e : E} {a : A} → err e ≢ ok a
  err-ne-ok h = cc

  -- what holds of the value of a chain, if it has one
  pub data Ensures {ℓ κ} {A : Type ℓ} (P : A → Type κ) : Answer E A → Type (ℓ ⊔ κ) where
    fails : (e : E) → Ensures P (err e)
    gives : (a : A) → P a → Ensures P (ok a)

  pub Ensures-bind {ℓ κ λ' μ} :
      {A : Type ℓ} {B : Type κ} {Q : A → Type λ'} {P : B → Type μ} {start : Answer E A}
      {rest : A → Answer E B}
      → Ensures Q start
      → ((a : A) → Q a → Ensures P (rest a))
      → Ensures P (start >>= rest)
  Ensures-bind (fails e) next = fails e
  Ensures-bind (gives a h) next = next a h

  -- a part of which nothing is known
  pub Ensures-after {ℓ κ μ} :
      {A : Type ℓ} {B : Type κ} {P : B → Type μ} (start : Answer E A) {rest : A → Answer E B}
      → ((a : A) → Ensures P (rest a))
      → Ensures P (start >>= rest)
  Ensures-after (err e) next = fails e
  Ensures-after (ok a) next = next a

  -- a part that is only a check
  pub Ensures-check {ℓ μ} :
      {A : Type ℓ} {P : A → Type μ} (b : Bool) (e : E) {rest : Answer E A}
      → (b ≡ false → Ensures P rest)
      → Ensures P (fail_if b e >> rest)
  Ensures-check true e next = fails e
  Ensures-check false e next = next refl

  pub Ensures-if {ℓ μ} :
      {A : Type ℓ} {P : A → Type μ} (b : Bool) {yes_case no_case : Answer E A}
      → Ensures P yes_case
      → Ensures P no_case
      → Ensures P (if b then yes_case else no_case)
  Ensures-if true h k = h
  Ensures-if false h k = k

  pub Ensures-ok {ℓ μ} :
      {A : Type ℓ} {P : A → Type μ} {r : Answer E A} (a : A) → Ensures P r → r ≡ ok a → P a
  Ensures-ok a (fails e) eq = cc
  Ensures-ok {P} a (gives b h) eq = let same : b ≡ a = cc in subst P same h
