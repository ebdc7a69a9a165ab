-- ===== src/Web/Limiter/Grants.antt =====
-- How many attempts a series of calls of the login limiter grants (internal/web/auth.go).
use boxctl.Base.{
  ℕ, ◌+◌, ◌≤◌, ◌<◌, ◌≡◌, refl, false, ◌&&◌, ◌⊎◌, Option, none, some, List, [], ◌∷◌, ltb,
  if◌then◌else◌, lookup, text_Eq, list_eq_iff, lookup-remove, arith, ◌==◌, Option-cases, inl, inr,
  ap, ◌∙◌,
}
use boxctl.Web.Limiter.{
  LoginAttempt, LoginLimiter, is_live, count_check, consume, reserve, cancel, cancel_found, success,
}
use boxctl.Web.Limiter.Bounds.{
  live_of, IsValid, lookup-count_check, reserve-IsValid, cancel-IsValid, success-IsValid,
}
use boxctl.Web.Limiter.Window.{decided, reserve_lem, lookup-reserve}

-- A call of the limiter, with the instant of an attempt.
pub data Call : Type 0 where
  attempted : List ℕ → ℕ → Call
  canceled : List ℕ → Call
  succeeded : List ℕ → Call

unfoldable pub apply_call : LoginLimiter → Call → LoginLimiter
apply_call l (attempted key now) = (reserve key now l).0
apply_call l (canceled key) = cancel key l
apply_call l (succeeded key) = success key l

-- 1 for an attempt of `k` that is granted
unfoldable pub granted : List ℕ → LoginLimiter → Call → ℕ
granted k l (attempted key now) = if key == k && (reserve key now l).1 then 1 else 0
granted k l (canceled key) = 0
granted k l (succeeded key) = 0

unfoldable pub run_calls : LoginLimiter → List Call → LoginLimiter
unfolding apply_call
run_calls l [] = l
run_calls l (c ∷ cs) = run_calls (apply_call l c) cs

-- how many attempts of `k` are granted
unfoldable pub grants : List ℕ → LoginLimiter → List Call → ℕ
unfolding apply_call granted
grants k l [] = 0
grants k l (c ∷ cs) = granted k l c + grants k (apply_call l c) cs

-- how many grants of `k` are taken back
unfoldable pub cancels : List ℕ → List Call → ℕ
cancels k [] = 0
cancels k (canceled key ∷ cs) = (if key == k then 1 else 0) + cancels k cs
cancels k (attempted _ _ ∷ cs) = cancels k cs
cancels k (succeeded _ ∷ cs) = cancels k cs

-- Attempts lie in one window from `start`, and none of `k` succeeds.
abbrev pub WithinWindow : List ℕ → ℕ → ℕ → List Call → Type 0
WithinWindow k start window [] = Unit
WithinWindow k start window (attempted key now ∷ cs) =
    (start ≤ now) × (now < start + window) × WithinWindow k start window cs
WithinWindow k start window (canceled key ∷ cs) = WithinWindow k start window cs
WithinWindow k start window (succeeded key ∷ cs) =
    (key == k ≡ false) × WithinWindow k start window cs

-- A stored attempt of the window: it is over before the start, or counts until the end.
abbrev Steady : ℕ → ℕ → Option LoginAttempt → Type 0
Steady start window none = Unit
Steady start window (some a) = (a.reset_at ≤ start) ⊎ (start + window ≤ a.reset_at)

-- the failures counted since the start
abbrev used : ℕ → Option LoginAttempt → ℕ
used start none = 0
used start (some a) = if ltb start a.reset_at then a.failures else 0

module _ (start window now : ℕ) (from : start ≤ now) (until : now < start + window) where
  live-Steady :
      (o : Option LoginAttempt) → Steady start window o → Steady start window (live_of now o)
  unfolding is_live
  live-Steady o s = ground arith

  live_used :
      (o : Option LoginAttempt) → Steady start window o → used start (live_of now o) ≡ used start o
  unfolding is_live
  live_used o s = ground arith

  decided-used :
      (k : List ℕ) (l : LoginLimiter)
      → l.window ≡ window
      → Steady start window (lookup k l.attempts)
      → ((decided k now l).failures ≡ used start (lookup k l.attempts))
        × (start + window ≤ (decided k now l).reset_at)
  unfolding is_live
  decided-used k l e s = ground arith

  kept-Steady :
      (k : List ℕ) (l : LoginLimiter)
      → IsValid l
      → Steady start window (lookup k l.attempts)
      → Steady start window (lookup k (count_check now l).attempts)
        × (used start (lookup k (count_check now l).attempts) ≡ used start (lookup k l.attempts))
  kept-Steady k l v s = elim (lookup-count_check now l k v) [
    | inl e ↦ rw e (s, refl)
    | inr e ↦ rw e (live-Steady _ s, live_used _ s)
  ]

  -- an attempt in the window: what it adds to the count of `k`
  attempted_used :
      (k key : List ℕ) (l : LoginLimiter)
      → IsValid l
      → l.window ≡ window
      → Steady start window (lookup k l.attempts)
      → let l' = (reserve key now l).0 in
        Steady start window (lookup k l'.attempts)
        × (used start (lookup k l'.attempts)
            ≡ used start (lookup k l.attempts) + granted k l (attempted key now))
        × (used start (lookup k l.attempts) ≤ l.limit → used start (lookup k l'.attempts) ≤ l.limit)
  unfolding granted
  attempted_used k key l v w s =
      rw (lookup-reserve key k now l v, (reserve_lem key now l v).0)
        (ground (arith, kept-Steady k l v s, decided-used k l w s, list_eq_iff key k))

-- canceling takes back at most one count
canceled_used :
    (start window : ℕ) (k key : List ℕ) (l : LoginLimiter)
    → Steady start window (lookup k l.attempts)
    → let l' = cancel key l in
      Steady start window (lookup k l'.attempts)
      × (used start (lookup k l.attempts)
          ≤ used start (lookup k l'.attempts) + (if key == k then 1 else 0))
      × (used start (lookup k l'.attempts) ≤ used start (lookup k l.attempts))
unfolding cancel
canceled_used start window k key l s = elim (Option-cases (lookup key l.attempts)) [
  | inl e ↦ rw e (s, omega arith, omega arith)
  | inr (a, e) ↦ rw e (found a e)
]
  where
    found :
        (a : LoginAttempt)
        → lookup key l.attempts ≡ some a
        → let l' = cancel_found key (some a) l in
          Steady start window (lookup k l'.attempts)
          × (used start (lookup k l.attempts)
              ≤ used start (lookup k l'.attempts) + (if key == k then 1 else 0))
          × (used start (lookup k l'.attempts) ≤ used start (lookup k l.attempts))
    found a e = ground (arith, lookup-remove key k l.attempts, list_eq_iff key k)

lookup-success_ne :
    (k key : List ℕ) (l : LoginLimiter)
    → key == k ≡ false
    → lookup k (success key l).attempts ≡ lookup k l.attempts
unfolding success
lookup-success_ne k key l h = rw (lookup-remove, h)

limit-apply_call : (l : LoginLimiter) (c : Call) → (apply_call l c).limit ≡ l.limit
unfolding apply_call reserve consume count_check cancel success
limit-apply_call l (attempted key now) = ground arith
limit-apply_call l (canceled key) = ground arith
limit-apply_call l (succeeded key) = refl

window-apply_call : (l : LoginLimiter) (c : Call) → (apply_call l c).window ≡ l.window
unfolding apply_call reserve consume count_check cancel success
window-apply_call l (attempted key now) = ground arith
window-apply_call l (canceled key) = ground arith
window-apply_call l (succeeded key) = refl

-- Every call keeps the limiter valid.
pub apply_call-IsValid : (l : LoginLimiter) (c : Call) → IsValid l → IsValid (apply_call l c)
unfolding apply_call
apply_call-IsValid l (attempted key now) v = reserve-IsValid key now l v
apply_call-IsValid l (canceled key) v = cancel-IsValid key l v
apply_call-IsValid l (succeeded key) v = success-IsValid key l v

-- Any calls at all keep a valid limiter valid.
pub run_calls-IsValid : (l : LoginLimiter) (cs : List Call) → IsValid l → IsValid (run_calls l cs)
unfolding run_calls
run_calls-IsValid l [] v = v
run_calls-IsValid l (c ∷ cs) v = run_calls-IsValid (apply_call l c) cs (apply_call-IsValid l c v)

grants-used :
    (k : List ℕ) (start window limit : ℕ) (cs : List Call) (l : LoginLimiter)
    → IsValid l
    → l.limit ≡ limit
    → l.window ≡ window
    → Steady start window (lookup k l.attempts)
    → used start (lookup k l.attempts) ≤ limit
    → WithinWindow k start window cs
    → used start (lookup k l.attempts) + grants k l cs ≤ limit + cancels k cs
unfolding grants cancels
grants-used k start window limit [] l v el ew s u w = omega arith
grants-used k start window limit (attempted key now ∷ cs) l v el ew s u w =
    let step = attempted_used start window now w.0 w.1 k key l v ew s in
    omega (
      arith,
      step.1,
      grants-used k start window limit cs (apply_call l (attempted key now))
          (apply_call-IsValid l (attempted key now) v) (limit-apply_call l (attempted key now) ∙ el)
          (window-apply_call l (attempted key now) ∙ ew) step.0 (rw (← el) (step.2 (rw el u))) w.2,
    )
grants-used k start window limit (canceled key ∷ cs) l v el ew s u w =
    let step = canceled_used start window k key l s in
    omega (
      arith,
      step.1,
      grants-used k start window limit cs (apply_call l (canceled key))
          (apply_call-IsValid l (canceled key) v) (limit-apply_call l (canceled key) ∙ el)
          (window-apply_call l (canceled key) ∙ ew) step.0 (omega (arith, step.2)) w,
    )
grants-used k start window limit (succeeded key ∷ cs) l v el ew s u w =
    let same : lookup k (apply_call l (succeeded key)).attempts ≡ lookup k l.attempts =
      lookup-success_ne k key l w.0 in
    omega (
      arith,
      ap (used start) same,
      grants-used k start window limit cs (apply_call l (succeeded key))
          (apply_call-IsValid l (succeeded key) v) (limit-apply_call l (succeeded key) ∙ el)
          (window-apply_call l (succeeded key) ∙ ew) (rw same s) (rw same u) w.1,
    )

-- While a key has no success, no more of its attempts are granted in a window than the limit and
-- the grants that are canceled, whatever other calls come between: from a valid limiter in which
-- no attempt of the key counts at the window's start.
pub grants-le-limit :
    (k : List ℕ) (start : ℕ) (l : LoginLimiter) (cs : List Call)
    → IsValid l
    → live_of start (lookup k l.attempts) ≡ none
    → WithinWindow k start l.window cs
    → grants k l cs ≤ l.limit + cancels k cs
unfolding is_live
grants-le-limit k start l cs v fresh w =
    omega
      (arith, grants-used k start l.window l.limit cs l v refl refl (ground arith) (ground arith) w)
