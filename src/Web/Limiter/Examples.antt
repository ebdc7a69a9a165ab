-- ===== src/Web/Limiter/Examples.antt =====
-- The login limiter (internal/web/auth.go) at concrete inputs.
use boxctl.Base.{
  ℕ, ◌+◌, ◌-◌, ◌≤◌, ◌≡◌, refl, ◌&&◌, some, List, [], ◌∷◌, ltb, if◌then◌else◌, lookup, text_Eq,
  arith, ◌==◌,
}
use boxctl.Web.Limiter.{
  LoginLimiter, is_live, new_login_limiter, sweep, current_attempt, count_check, consume, reserve,
  cancel,
}
use boxctl.Web.Limiter.Bounds.{live_of, IsValid}
use boxctl.Web.Limiter.Window.{decided, reserve-refines, cancel-reserve}
use boxctl.Web.Limiter.Grants.{
  Call, attempted, canceled, succeeded, run_calls, grants, cancels, run_calls-IsValid,
  grants-le-limit,
}

abbrev alice : List ℕ
alice = 97 ∷ []

abbrev bob : List ℕ
bob = 98 ∷ []

-- one failure of alice; the next check sweeps
abbrev busy : LoginLimiter
busy = record {
  attempts = (alice, record { failures = 1; reset_at = 50 }) ∷ [];
  limit = 2;
  window = 100;
  checks = 127;
}

abbrev busy-IsValid : IsValid busy
busy-IsValid = (refl, omega arith, omega arith, tt)

granted_then_refused :
    (grants alice busy (attempted alice 10 ∷ attempted alice 20 ∷ attempted alice 50 ∷ []) ≡ 2)
unfolding grants reserve count_check sweep consume current_attempt is_live
granted_then_refused = refl

reserve-refines_example :
    ((reserve alice 10 busy).1 ≡ ltb (decided alice 10 busy).failures 2)
    × ((reserve alice 10 busy).2 ≡ (
        if ltb (decided alice 10 busy).failures 2
        then 0
        else (decided alice 10 busy).reset_at - 10))
    × (live_of 20 (lookup alice (reserve alice 10 busy).0.attempts) ≡ (
        if ltb (decided alice 10 busy).failures 2 && alice == alice
        then live_of 20 (
            some
              (record (decided alice 10 busy) { failures = (decided alice 10 busy).failures + 1 }))
        else live_of 20 (lookup alice busy.attempts)))
reserve-refines_example = reserve-refines alice alice 10 20 busy busy-IsValid (omega arith)

cancel-reserve_example :
    live_of 20 (lookup alice (cancel alice (reserve alice 10 busy).0).attempts)
    ≡ live_of 20 (lookup alice busy.attempts)
unfolding reserve count_check sweep consume current_attempt is_live
cancel-reserve_example = cancel-reserve alice alice 10 20 busy busy-IsValid refl (omega arith)

abbrev visits : List Call
visits =
    attempted alice 60
    ∷ attempted bob 61
    ∷ canceled bob
    ∷ attempted alice 62
    ∷ attempted alice 63
    ∷ succeeded bob
    ∷ attempted alice 159
    ∷ []

grants-le-limit_example : grants alice busy visits ≤ busy.limit + cancels alice visits
unfolding is_live
grants-le-limit_example = grants-le-limit alice 60 busy visits busy-IsValid refl (ground arith)

run_calls-IsValid_example : IsValid (run_calls (new_login_limiter 2 100) visits)
unfolding new_login_limiter
run_calls-IsValid_example = run_calls-IsValid (new_login_limiter 2 100) visits tt
