-- ===== src/Web/Limiter/Window.antt =====
-- The login limiter against its specification: attempts that still count, and grants in a window
-- (internal/web/auth.go).
use boxctl.Base.{
  ℕ, ◌+◌, ◌-◌, ◌≤◌, ◌≡◌, true, ◌&&◌, Option, none, some, List, ltb, leb, if◌then◌else◌, lookup,
  text_Eq, list_eq_iff, lookup-remove, arith, ◌==◌, Option-cases, inl, inr,
}
use boxctl.Web.Limiter.{
  LoginAttempt, LoginLimiter, is_live, current_attempt, count_check, consume, reserve, cancel,
  cancel_found,
}
use boxctl.Web.Limiter.Bounds.{
  live_of, IsValid, live_of-count_check, lookup-AllValid, window-count_check, limit-count_check,
}

-- What is known of a key: the attempt that counts, or a new one.
abbrev pub spec_attempt : ℕ → ℕ → Option LoginAttempt → LoginAttempt
spec_attempt window now none = record { failures = 0; reset_at = now + window }
spec_attempt window now (some a) = a

current_attempt_lem :
    (window now : ℕ) (o : Option LoginAttempt)
    → current_attempt window now o ≡ spec_attempt window now (live_of now o)
unfolding current_attempt
current_attempt_lem window now o = ground arith

lookup-consume :
    (key j : List ℕ) (now : ℕ) (a : LoginAttempt) (l : LoginLimiter)
    → lookup j (consume key now a l).0.attempts ≡ (
        if ltb a.failures l.limit && key == j
        then some (record a { failures = a.failures + 1 })
        else lookup j l.attempts)
unfolding consume
lookup-consume key j now a l = ground (arith, lookup-remove key j l.attempts)

consume_decides :
    (key : List ℕ) (now : ℕ) (a : LoginAttempt) (l : LoginLimiter)
    → ((consume key now a l).1 ≡ ltb a.failures l.limit)
      × ((consume key now a l).2 ≡ (if ltb a.failures l.limit then 0 else a.reset_at - now))
unfolding consume
consume_decides key now a l = ground arith

-- the attempt that `reserve` decides by
abbrev pub decided : List ℕ → ℕ → LoginLimiter → LoginAttempt
decided key now l = spec_attempt l.window now (live_of now (lookup key l.attempts))

current_attempt-decided :
    (key : List ℕ) (now : ℕ) (l : LoginLimiter)
    → IsValid l
    → current_attempt (count_check now l).window now (lookup key (count_check now l).attempts)
      ≡ decided key now l
current_attempt-decided key now l v = rw (
  current_attempt_lem,
  window-count_check now l,
  live_of-count_check now now l key v (omega arith),
)

consume_live :
    (key j : List ℕ) (now later : ℕ) (a : LoginAttempt) (l : LoginLimiter)
    → live_of later (lookup j (consume key now a l).0.attempts) ≡ (
        if ltb a.failures l.limit && key == j
        then live_of later (some (record a { failures = a.failures + 1 }))
        else live_of later (lookup j l.attempts))
consume_live key j now later a l = rw (lookup-consume key j now a l) (ground arith)

pub reserve_lem :
    (key : List ℕ) (now : ℕ) (l : LoginLimiter)
    → IsValid l
    → let d = decided key now l in
      ((reserve key now l).1 ≡ ltb d.failures l.limit)
      × ((reserve key now l).2 ≡ (if ltb d.failures l.limit then 0 else d.reset_at - now))
      × ((j : List ℕ) (later : ℕ)
          → now ≤ later
          → live_of later (lookup j (reserve key now l).0.attempts) ≡ (
              if ltb d.failures l.limit && key == j
              then live_of later (some (record d { failures = d.failures + 1 }))
              else live_of later (lookup j l.attempts)))
unfolding reserve count_check
reserve_lem key now l v =
    let c = count_check now l in
    let e = current_attempt-decided key now l v in
    rw (e) (
      (consume_decides key now (decided key now l) c).0,
      (consume_decides key now (decided key now l) c).1,
      λ j later le. rw (
        consume_live key j now later (decided key now l) c,
        limit-count_check now l,
        live_of-count_check now later l j v le,
      ),
    )

-- A valid limiter grants an attempt exactly if fewer than `limit` attempts of the key still
-- count, and otherwise says how long the window still lasts; what counts for any key at any later
-- instant changes only for a granted key, by one more failure. The sweep is not observable.
pub reserve-refines :
    (key j : List ℕ) (now later : ℕ) (l : LoginLimiter)
    → IsValid l
    → now ≤ later
    → let d = decided key now l in
      ((reserve key now l).1 ≡ ltb d.failures l.limit)
      × ((reserve key now l).2 ≡ (if ltb d.failures l.limit then 0 else d.reset_at - now))
      × (live_of later (lookup j (reserve key now l).0.attempts) ≡ (
          if ltb d.failures l.limit && key == j
          then live_of later (some (record d { failures = d.failures + 1 }))
          else live_of later (lookup j l.attempts)))
reserve-refines key j now later l v le =
    let (granted, wait, counts) = reserve_lem key now l v in (granted, wait, counts j later le)

-- The stored attempts after a call.
pub lookup-reserve :
    (key j : List ℕ) (now : ℕ) (l : LoginLimiter)
    → IsValid l
    → lookup j (reserve key now l).0.attempts ≡ (
        if ltb (decided key now l).failures l.limit && key == j
        then some (record (decided key now l) { failures = (decided key now l).failures + 1 })
        else lookup j (count_check now l).attempts)
unfolding reserve
lookup-reserve key j now l v =
    rw (current_attempt-decided key now l v, lookup-consume, limit-count_check)

lookup-cancel :
    (key j : List ℕ) (l : LoginLimiter) (a : LoginAttempt)
    → lookup key l.attempts ≡ some a
    → lookup j (cancel key l).attempts ≡ (
        if key == j
        then (if leb (a.failures - 1) 0
            then none
            else some (record a { failures = a.failures - 1 }))
        else lookup j l.attempts)
unfolding cancel cancel_found
lookup-cancel key j l a e = rw e (ground (arith, lookup-remove key j l.attempts))

lookup-granted :
    (key : List ℕ) (now : ℕ) (l : LoginLimiter)
    → IsValid l
    → (reserve key now l).1 ≡ true
    → lookup key (reserve key now l).0.attempts
      ≡ some (record (decided key now l) { failures = (decided key now l).failures + 1 })
lookup-granted key now l v g =
    ground (arith, lookup-reserve key key now l v, (reserve_lem key now l v).0, list_eq_iff key key)

-- a count of 0 stands for no attempt
decided_zero :
    (key : List ℕ) (now later : ℕ) (l : LoginLimiter)
    → IsValid l
    → now ≤ later
    → live_of later (lookup key l.attempts) ≡ (
        if leb (decided key now l).failures 0
        then none
        else live_of later (some (decided key now l)))
unfolding is_live
decided_zero key now later l v le = elim (Option-cases (lookup key l.attempts)) [
  | inl e ↦ rw e (ground arith)
  | inr (a, e) ↦ let ok = lookup-AllValid key l.limit l.attempts a v e in rw e (ground arith)
]

-- Canceling a granted attempt takes it back: at every later instant each key counts what it counted
-- before the attempt.
pub cancel-reserve :
    (key j : List ℕ) (now later : ℕ) (l : LoginLimiter)
    → IsValid l
    → (reserve key now l).1 ≡ true
    → now ≤ later
    → live_of later (lookup j (cancel key (reserve key now l).0).attempts)
      ≡ live_of later (lookup j l.attempts)
cancel-reserve key j now later l v g le =
    rw (lookup-cancel key j (reserve key now l).0 _ (lookup-granted key now l v g)) (
      ground (
        arith,
        decided_zero key now later l v le,
        (reserve_lem key now l v).2 j later le,
        list_eq_iff key j,
      ))
