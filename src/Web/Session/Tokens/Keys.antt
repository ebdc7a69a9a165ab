-- ===== src/Web/Session/Tokens/Keys.antt =====
-- How a change of the signing keys acts on tokens (internal/web/auth.go).
use boxctl.Base.{
  Bool, ℕ, ◌+◌, ◌≤◌, ◌<◌, ◌≡◌, ◌≢◌, inl, inr, refl, Option, none, some, List, [], ◌∷◌, text_Eq,
  ◌==◌, Bool-cases,
}
use boxctl.Base.Answers.{err-ne-ok}
use boxctl.Base.Text.{Text, split_on}
use boxctl.Web.Session.{
  ok, err, SessionSecret, SessionSecretSet, SessionManager, SessionClaims, invalid_session, dot,
  ◌>>=◌, generate_secret, find_secret, rotate_if_due, revoke_all,
}
use boxctl.Web.Session.Rotation.{
  key_of, find_secret-rotated, find_secret-retired, find_secret-alone, NotAmong,
  rotate_if_due_cases, revoke_all_cases,
}
use boxctl.Web.Session.Tokens.{verify, verify_parts, verify_signed, version, or_invalid}

-- the key id of a token: its second part
abbrev pub second_part : List Text → Text
second_part (v ∷ id ∷ rest) = id
second_part _ = []

abbrev pub token_id : Text → Text
token_id token = second_part (split_on dot token)

-- The ids that a generator may choose at an instant are not this one.
abbrev pub Fresh : ℕ → Text → Text → Type 0
Fresh at random id = (s : SessionSecret) → (generate_secret at random).0 ≡ ok s → s.id ≢ id

module _ (mac : Text → Text → Text) (marshal : SessionClaims → Option Text)
    (unmarshal : Text → Option SessionClaims) where
  verify_signed-key :
      (s t : SessionSecret) (id body signature : Text) (now : ℕ)
      → s.key ≡ t.key
      → verify_signed mac marshal unmarshal s id body signature now
        ≡ verify_signed mac marshal unmarshal t id body signature now
  unfolding verify_signed
  verify_signed-key s t id body signature now e = rw e

  verify_found :
      (o p : Option SessionSecret) (id body signature : Text) (now : ℕ)
      → key_of o ≡ key_of p
      → (or_invalid o >>= λ s. verify_signed mac marshal unmarshal s id body signature now)
        ≡ (or_invalid p >>= λ s. verify_signed mac marshal unmarshal s id body signature now)
  verify_found none none id body signature now e = refl
  verify_found none (some t) id body signature now e = cc
  verify_found (some s) none id body signature now e = cc
  verify_found (some s) (some t) id body signature now e =
      verify_signed-key s t id body signature now (cc)

  -- A verification depends on the key set only through the key that it finds.
  verify_parts-key :
      (set set' : SessionSecretSet) (now later : ℕ) (parts : List Text)
      → key_of (find_secret set (second_part parts) now)
        ≡ key_of (find_secret set' (second_part parts) now)
      → verify_parts mac marshal unmarshal set now later parts
        ≡ verify_parts mac marshal unmarshal set' now later parts
  unfolding verify_parts
  verify_parts-key set set' now later (v ∷ id ∷ body ∷ signature ∷ []) e =
      elim (Bool-cases (v == version)) [
        | inl t ↦ rw t (
            verify_found (find_secret set id now) (find_secret set' id now) id body signature later
              e)
        | inr f ↦ rw f
      ]
  verify_parts-key set set' now later [] e = refl
  verify_parts-key set set' now later _ e = refl

  verify_parts-none :
      (set : SessionSecretSet) (now later : ℕ) (parts : List Text)
      → find_secret set (second_part parts) now ≡ none
      → verify_parts mac marshal unmarshal set now later parts ≡ err invalid_session
  unfolding verify_parts
  verify_parts-none set now later (v ∷ id ∷ body ∷ signature ∷ []) e =
      elim (Bool-cases (v == version)) [ inl t ↦ rw (t, e) | inr f ↦ rw f ]
  verify_parts-none set now later [] e = refl
  verify_parts-none set now later _ e = refl

  module _ {S : Type 0} (save : SessionSecretSet → S → S × Bool) (m : SessionManager S)
      (at now later : ℕ) (token : Text) where
    -- A call of the rotation, due or not and saved or not, changes the verification of no token whose
    -- key is looked for from then until the former key retires, `ttl` later, unless the new key has
    -- the id that the token names.
    pub verify-rotate_if_due :
        Fresh at m.random (token_id token)
        → at ≤ now
        → now < at + m.ttl
        → verify mac marshal unmarshal (rotate_if_due save at m).0.secrets now later token
          ≡ verify mac marshal unmarshal m.secrets now later token
    unfolding verify
    verify-rotate_if_due fresh le lt = elim (rotate_if_due_cases save at m) [
      | inl (_, e) ↦ rw e
      | inr (_, inl (_, _, e, _, _)) ↦ rw e
      | inr (_, inr (inl (_, _, _, e, _))) ↦ rw e
      | inr (_, inr (inr (next, g, _, e, _))) ↦
          verify_parts-key (rotate_if_due save at m).0.secrets m.secrets now later
            (split_on dot token)
            (rw e (
              find_secret-rotated (token_id token) at now m.ttl m.secrets next (fresh next g) le
                lt))
    ]

    verify-none :
        (set : SessionSecretSet)
        → find_secret set (token_id token) now ≡ none
        → verify mac marshal unmarshal set now later token ≡ err invalid_session
    unfolding verify
    verify-none set e = verify_parts-none set now later (split_on dot token) e

    -- After a revocation that succeeds no token verifies at any time, but one that names the id
    -- of the new key.
    pub verify-revoke_all :
        Fresh at m.random (token_id token)
        → (revoke_all save at m).1 ≡ ok tt
        → verify mac marshal unmarshal (revoke_all save at m).0.secrets now later token
          ≡ err invalid_session
    verify-revoke_all fresh done = elim (revoke_all_cases save at m) [
      | inl (_, _, _, _, failed) ↦ absurd (err-ne-ok (rw failed at done))
      | inr (inl (_, _, _, _, failed)) ↦ absurd (err-ne-ok (rw failed at done))
      | inr (inr (next, g, _, e, _)) ↦
          verify-none (revoke_all save at m).0.secrets
            (rw e (find_secret-alone (token_id token) now next (fresh next g)))
    ]

    -- Once a rotation, at a time that is not zero, has changed the keys, a token that names the key
    -- that was current verifies no more from `ttl` after the rotation on, if no older key and not
    -- the new one has the id of that key.
    pub verify-retired :
        (rotate_if_due save at m).0.secrets ≢ m.secrets
        → token_id token ≡ m.secrets.current.id
        → Fresh at m.random (token_id token)
        → NotAmong m.secrets.current.id m.secrets.previous
        → 0 < at
        → at + m.ttl ≤ now
        → verify mac marshal unmarshal (rotate_if_due save at m).0.secrets now later token
          ≡ err invalid_session
    verify-retired changed named fresh among z le = elim (rotate_if_due_cases save at m) [
      | inl (_, e) ↦ absurd (changed (rw e))
      | inr (_, inl (_, _, e, _, _)) ↦ absurd (changed e)
      | inr (_, inr (inl (_, _, _, e, _))) ↦ absurd (changed e)
      | inr (_, inr (inr (next, g, _, e, _))) ↦ verify-none (rotate_if_due save at m).0.secrets (
          rw (e, named)
            (find_secret-retired at now m.ttl m.secrets next (rw (← named) (fresh next g)) among z
              le))
    ]
