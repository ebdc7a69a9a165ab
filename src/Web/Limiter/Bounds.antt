-- ===== src/Web/Limiter/Bounds.antt =====
-- What one call of the login limiter does (internal/web/auth.go).
use boxctl.Base.{
  ℕ, ◌+◌, ◌-◌, ◌%◌, ◌^◌, ◌≤◌, ◌<◌, ◌≡◌, refl, Option, none, some, List, [], ◌∷◌, leb, nat_eq,
  if◌then◌else◌, lookup, remove, put, text_Eq, list_eq_iff, lookup-remove, arith, ◌==◌, Bool-cases,
  Option-cases, inl, inr, ◌⊎◌,
}
use boxctl.Web.Limiter.{
  LoginAttempt, LoginLimiter, is_live, sweep, count_check, consume, reserve, cancel, cancel_found,
  success,
}

-- The attempt that still counts at an instant.
abbrev pub live_of : ℕ → Option LoginAttempt → Option LoginAttempt
live_of now none = none
live_of now (some attempt) = if is_live now attempt then some attempt else none

-- Keys are stored once, and every stored count is above 0 and within the limit.
abbrev pub AllValid : ℕ → List (List ℕ × LoginAttempt) → Type 0
AllValid limit [] = Unit
AllValid limit ((k, a) ∷ m) =
    (lookup k m ≡ none) × (0 < a.failures) × (a.failures ≤ limit) × AllValid limit m

abbrev pub IsValid : LoginLimiter → Type 0
IsValid l = AllValid l.limit l.attempts

pub lookup-sweep :
    (k : List ℕ) (now limit : ℕ) (m : List (List ℕ × LoginAttempt))
    → AllValid limit m
    → lookup k (sweep now m) ≡ live_of now (lookup k m)
unfolding sweep
lookup-sweep k now limit [] h = refl
lookup-sweep k now limit ((j, a) ∷ m) h =
    ground (arith, lookup-sweep k now limit m h.3, list_eq_iff j k)

sweep-AllValid :
    (now limit : ℕ) (m : List (List ℕ × LoginAttempt))
    → AllValid limit m
    → AllValid limit (sweep now m)
unfolding sweep
sweep-AllValid now limit [] h = tt
sweep-AllValid now limit ((j, a) ∷ m) h =
    ground (arith, sweep-AllValid now limit m h.3, lookup-sweep j now limit m h.3)

remove-AllValid :
    (k : List ℕ) (limit : ℕ) (m : List (List ℕ × LoginAttempt))
    → AllValid limit m
    → AllValid limit (remove k m)
remove-AllValid k limit [] h = tt
remove-AllValid k limit ((j, a) ∷ m) h =
    ground (arith, remove-AllValid k limit m h.3, lookup-remove k j m)

put-AllValid :
    (k : List ℕ) (a : LoginAttempt) (limit : ℕ) (m : List (List ℕ × LoginAttempt))
    → 0 < a.failures
    → a.failures ≤ limit
    → AllValid limit m
    → AllValid limit (put k a m)
put-AllValid k a limit m p q h =
    ground (arith, remove-AllValid k limit m h, lookup-remove k k m, list_eq_iff k k)

count_check-IsValid : (now : ℕ) (l : LoginLimiter) → IsValid l → IsValid (count_check now l)
unfolding count_check
count_check-IsValid now l h = ground (arith, sweep-AllValid now l.limit l.attempts h)

-- The sweep drops nothing that still counts, now or later.
pub live_of-count_check :
    (now later : ℕ) (l : LoginLimiter) (k : List ℕ)
    → IsValid l
    → now ≤ later
    → live_of later (lookup k (count_check now l).attempts) ≡ live_of later (lookup k l.attempts)
unfolding is_live count_check
live_of-count_check now later l k h le = ground (arith, lookup-sweep k now l.limit l.attempts h)

pub window-count_check : (now : ℕ) (l : LoginLimiter) → (count_check now l).window ≡ l.window
unfolding count_check
window-count_check now l = refl

pub limit-count_check : (now : ℕ) (l : LoginLimiter) → (count_check now l).limit ≡ l.limit
unfolding count_check
limit-count_check now l = refl

consume-IsValid :
    (key : List ℕ) (now : ℕ) (a : LoginAttempt) (l : LoginLimiter)
    → IsValid l
    → IsValid (consume key now a l).0
unfolding consume
consume-IsValid key now a l h = elim (Bool-cases (leb l.limit a.failures)) [
  | inl e ↦ rw e h
  | inr e ↦ rw e (
      put-AllValid key (record a { failures = a.failures + 1 }) l.limit l.attempts (omega arith)
        (ground arith) h)
]

-- Every call keeps the limiter valid.
pub reserve-IsValid :
    (key : List ℕ) (now : ℕ) (l : LoginLimiter) → IsValid l → IsValid (reserve key now l).0
unfolding reserve
reserve-IsValid key now l h =
    consume-IsValid key now _ (count_check now l) (count_check-IsValid now l h)

pub lookup-AllValid :
    (k : List ℕ) (limit : ℕ) (m : List (List ℕ × LoginAttempt)) (a : LoginAttempt)
    → AllValid limit m
    → lookup k m ≡ some a
    → (0 < a.failures) × (a.failures ≤ limit)
lookup-AllValid k limit [] a h e = cc
lookup-AllValid k limit ((j, b) ∷ m) a h e = elim (Bool-cases (j == k)) [
  | inl t ↦ let e' : b ≡ a = cc in rw (← e') (h.1, h.2)
  | inr f ↦ lookup-AllValid k limit m a h.3 (ground arith)
]

pub cancel-IsValid : (key : List ℕ) (l : LoginLimiter) → IsValid l → IsValid (cancel key l)
unfolding cancel
cancel-IsValid key l h = elim (Option-cases (lookup key l.attempts)) [
  | inl e ↦ rw e h
  | inr (a, e) ↦ rw e (found a e)
]
  where
    found :
        (a : LoginAttempt) → lookup key l.attempts ≡ some a → IsValid (cancel_found key (some a) l)
    found a e = elim (Bool-cases (leb (a.failures - 1) 0)) [
      | inl z ↦ rw z (remove-AllValid key l.limit l.attempts h)
      | inr z ↦ rw z (
          put-AllValid key (record a { failures = a.failures - 1 }) l.limit l.attempts
            (ground arith) (omega (arith, lookup-AllValid key l.limit l.attempts a h e)) h)
    ]

pub success-IsValid : (key : List ℕ) (l : LoginLimiter) → IsValid l → IsValid (success key l)
unfolding success
success-IsValid key l h = remove-AllValid key l.limit l.attempts h

pub lookup-count_check :
    (now : ℕ) (l : LoginLimiter) (k : List ℕ)
    → IsValid l
    → (lookup k (count_check now l).attempts ≡ lookup k l.attempts)
      ⊎ (lookup k (count_check now l).attempts ≡ live_of now (lookup k l.attempts))
unfolding count_check
lookup-count_check now l k h = elim (Bool-cases (nat_eq ((l.checks + 1) % 2 ^ 64 % 128) 0)) [
  | inl e ↦ inr (rw e (lookup-sweep k now l.limit l.attempts h))
  | inr e ↦ inl (rw e)
]
