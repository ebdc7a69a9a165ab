-- ===== src/Web/Limiter.antt =====
-- The login limiter of internal/web/auth.go. Instants are nanoseconds; the map is an
-- association list, so an iteration with deletions is a filter. The clock is an argument.
pub mod Bounds
pub mod Window
pub mod Grants
mod Examples
use boxctl.Base.{
  ℕ, ◌+◌, ◌-◌, ◌%◌, ◌^◌, Bool, true, false, Option, none, some, List, [], ◌∷◌, ltb, leb, nat_eq,
  not, if◌then◌else◌, keep, lookup, remove, put, text_Eq,
}

pub record LoginAttempt : Type 0 where
  pub failures : ℕ
  pub reset_at : ℕ

pub record LoginLimiter : Type 0 where
  pub attempts : List (List ℕ × LoginAttempt)
  pub limit : ℕ
  pub window : ℕ
  pub checks : ℕ

unfoldable pub new_login_limiter : ℕ → ℕ → LoginLimiter
new_login_limiter limit window = record {
  attempts = [];
  limit = limit;
  window = window;
  checks = 0;
}

-- `attempt.resetAt.After(now)`
unfoldable pub is_live : ℕ → LoginAttempt → Bool
is_live now attempt = ltb now attempt.reset_at

-- the periodic loop that drops the attempts whose window is over
unfoldable pub sweep : ℕ → List (List ℕ × LoginAttempt) → List (List ℕ × LoginAttempt)
sweep now [] = []
sweep now ((candidate, attempt) ∷ m) =
    let rest = sweep now m in if is_live now attempt then (candidate, attempt) ∷ rest else rest

-- the attempt that `reserve` works on: the stored one, or a new one at its window's start
unfoldable pub current_attempt : ℕ → ℕ → Option LoginAttempt → LoginAttempt
current_attempt window now none = record { failures = 0; reset_at = now + window }
current_attempt window now (some attempt) =
    if is_live now attempt then attempt else record { failures = 0; reset_at = now + window }

-- Every 128th check drops the attempts whose window is over; the counter is a uint64.
unfoldable pub count_check : ℕ → LoginLimiter → LoginLimiter
count_check now l =
    let checks = (l.checks + 1) % 2 ^ 64 in
    record l {
      attempts = if nat_eq (checks % 128) 0 then sweep now l.attempts else l.attempts;
      checks = checks;
    }

-- The result is whether the attempt is granted, and how long to wait if it is not.
unfoldable pub consume : List ℕ → ℕ → LoginAttempt → LoginLimiter → LoginLimiter × Bool × ℕ
consume key now attempt l =
    if leb l.limit attempt.failures then (l, false, attempt.reset_at - now) else (
      record l {
        attempts = put key (record attempt { failures = attempt.failures + 1 }) l.attempts;
      },
      true,
      0,
    )

unfoldable pub reserve : List ℕ → ℕ → LoginLimiter → LoginLimiter × Bool × ℕ
reserve key now l =
    let counted = count_check now l in
    consume key now (current_attempt counted.window now (lookup key counted.attempts)) counted

-- The decremented count is stored only if it is above 0.
unfoldable pub cancel_found : List ℕ → Option LoginAttempt → LoginLimiter → LoginLimiter
cancel_found key none l = l
cancel_found key (some attempt) l =
    if leb (attempt.failures - 1) 0
    then record l { attempts = remove key l.attempts }
    else record l {
      attempts = put key (record attempt { failures = attempt.failures - 1 }) l.attempts;
    }

unfoldable pub cancel : List ℕ → LoginLimiter → LoginLimiter
unfolding cancel_found
cancel key l = cancel_found key (lookup key l.attempts) l

unfoldable pub success : List ℕ → LoginLimiter → LoginLimiter
success key l = record l { attempts = remove key l.attempts }
