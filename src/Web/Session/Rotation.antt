-- ===== src/Web/Session/Rotation.antt =====
-- What a change of the signing keys does to later verifications (internal/web/auth.go).
use boxctl.Base.{
  ℕ, ◌+◌, ◌≤◌, ◌<◌, ◌≡◌, ◌≢◌, ◌⊎◌, inl, inr, refl, Bool, true, false, not, ◌||◌, Option, none, some,
  List, [], ◌∷◌, ltb, nat_eq, text_Eq, arith, list_eq_iff, Bool-cases, All,
}
use boxctl.Base.Text.{Text}
use boxctl.Web.Session.{
  SessionError, save_failed, Result, ok, err, SessionSecret, SessionSecretSet, SessionManager,
  generate_secret, find_previous, find_secret, keep_previous, rotated, publish, publish_generated,
  rotate_if_due, revoke_all,
}

-- The key found for an id, without the instant of its retirement.
abbrev pub key_of : Option SessionSecret → Option Text
key_of none = none
key_of (some s) = some s.key

find_previous-keep_previous :
    (id : Text) (at now : ℕ) (l : List SessionSecret)
    → at ≤ now
    → find_previous id now (keep_previous at l) ≡ find_previous id now l
unfolding find_previous keep_previous
find_previous-keep_previous id at now [] le = refl
find_previous-keep_previous id at now (s ∷ l) le =
    ground (arith, find_previous-keep_previous id at now l le)

-- After a rotation at `at`, the keys of all ids but the new one are found as before it, until the
-- former key retires at `at + ttl`.
pub find_secret-rotated :
    (id : Text) (at now ttl : ℕ) (set : SessionSecretSet) (next : SessionSecret)
    → next.id ≢ id
    → at ≤ now
    → now < at + ttl
    → key_of (find_secret (rotated at ttl set next) id now) ≡ key_of (find_secret set id now)
unfolding find_secret rotated
find_secret-rotated id at now ttl set next ne le lt =
    ground (arith, find_previous-keep_previous id at now set.previous le, list_eq_iff next.id id)

-- The ids of a set are distinct.
abbrev pub NotAmong : Text → List SessionSecret → Type 0
NotAmong id = All (λ s. s.id ≢ id)

find_previous-NotAmong :
    (id : Text) (now : ℕ) (l : List SessionSecret) → NotAmong id l → find_previous id now l ≡ none
unfolding find_previous
find_previous-NotAmong id now [] h = refl
find_previous-NotAmong id now (s ∷ l) h =
    ground (arith, find_previous-NotAmong id now l h.1, list_eq_iff s.id id)

-- From `at + ttl` on, the key that a rotation at `at` replaced is found no more.
pub find_secret-retired :
    (at now ttl : ℕ) (set : SessionSecretSet) (next : SessionSecret)
    → next.id ≢ set.current.id
    → NotAmong set.current.id set.previous
    → 0 < at
    → at + ttl ≤ now
    → find_secret (rotated at ttl set next) set.current.id now ≡ none
unfolding find_secret rotated
find_secret-retired at now ttl set next ne among z le = ground (
  arith,
  find_previous-keep_previous set.current.id at now set.previous (omega arith),
  find_previous-NotAmong set.current.id now set.previous among,
  list_eq_iff next.id set.current.id,
)

-- With no former keys, only the current key is found.
pub find_secret-alone :
    (id : Text) (now : ℕ) (next : SessionSecret)
    → next.id ≢ id
    → find_secret (record { current = next; previous = [] }) id now ≡ none
unfolding find_secret
find_secret-alone id now next ne = ground (arith, list_eq_iff next.id id)

module _ {S : Type 0} (save : SessionSecretSet → S → S × Bool) where
  -- What becomes of the keys: no new key is generated, and keys and store stay; or the save of the
  -- new set fails, and the keys stay, with the store as that save left it; or it succeeds, and the
  -- manager has the new set. Only then is there no error.
  abbrev pub Published :
      (SessionSecret → SessionSecretSet)
      → ℕ
      → SessionManager S
      → SessionManager S × Result (Unit {0})
      → Type 0
  Published make at m (m', r) =
      ((e : SessionError) × ((generate_secret at m.random).0 ≡ err e)
        × (m'.secrets ≡ m.secrets)
        × (m'.store ≡ m.store)
        × (r ≡ err e))
      ⊎ (((next : SessionSecret) × ((generate_secret at m.random).0 ≡ ok next)
            × (save (make next) m.store ≡ (m'.store, false))
            × (m'.secrets ≡ m.secrets)
            × (r ≡ err save_failed))
          ⊎ ((next : SessionSecret) × ((generate_secret at m.random).0 ≡ ok next)
              × (save (make next) m.store ≡ (m'.store, true))
              × (m'.secrets ≡ make next)
              × (r ≡ ok tt)))

  publish_generated_cases :
      (make : SessionSecret → SessionSecretSet) (at : ℕ) (m : SessionManager S)
      → Published make at m (publish_generated save make (generate_secret at m.random) m)
  unfolding publish_generated
  publish_generated_cases make at m = go (generate_secret at m.random) refl
    where
      saved :
          (next : SessionSecret) (rest : Text) (o : S × Bool)
          → (generate_secret at m.random ≡ (ok next, rest))
          → save (make next) m.store ≡ o
          → Published make at m (publish save (make next) o (record m { random = rest }))
      saved next rest (store, false) e f = inr (inl (next, ground arith, f, refl, refl))
      saved next rest (store, true) e f = inr (inr (next, ground arith, f, refl, refl))

      go :
          (g : Result SessionSecret × Text)
          → generate_secret at m.random ≡ g
          → Published make at m (publish_generated save make g m)
      go (err e, rest) g = inl (e, ground arith, refl, refl, refl)
      go (ok next, rest) g = saved next rest (save (make next) m.store) g refl

  -- the test of `rotateIfDue`
  abbrev pub due : ℕ → SessionManager S → Bool
  due at m =
      not (nat_eq m.rotate_interval 0 || ltb at (m.secrets.current.created_at + m.rotate_interval))

  -- A rotation that is not due changes nothing. One that is due publishes a new set in memory once the
  -- store has saved it, or returns an error and leaves the keys in memory as they were: the store is
  -- then as it was if no key was generated, and else as the failing save has left it.
  pub rotate_if_due_cases :
      (at : ℕ) (m : SessionManager S)
      → ((due at m ≡ false) × (rotate_if_due save at m ≡ (m, ok tt)))
        ⊎ ((due at m ≡ true)
            × Published (rotated at m.ttl m.secrets) at m (rotate_if_due save at m))
  unfolding rotate_if_due
  rotate_if_due_cases at m =
      elim (Bool-cases
        (nat_eq m.rotate_interval 0 || ltb at (m.secrets.current.created_at + m.rotate_interval))) [
          | inl e ↦ inl (rw e, rw e)
          | inr e ↦ inr (rw e, rw e (publish_generated_cases (rotated at m.ttl m.secrets) at m))
        ]

  -- A revocation publishes a set with one new key and no former ones in memory once the store has
  -- saved it, or returns an error and leaves the keys in memory as they were: the store is then as it
  -- was if no key was generated, and else as the failing save has left it.
  pub revoke_all_cases :
      (at : ℕ) (m : SessionManager S)
      → Published (λ next. record { current = next; previous = [] }) at m (revoke_all save at m)
  unfolding revoke_all
  revoke_all_cases at m =
      publish_generated_cases (λ next. record { current = next; previous = [] }) at m
