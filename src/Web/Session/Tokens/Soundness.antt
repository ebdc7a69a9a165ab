-- ===== src/Web/Session/Tokens/Soundness.antt =====
-- What a token that verifies is (`verify` of internal/web/auth.go).
use mathlib.Core.List.{append_assoc}
use boxctl.Base.{
  ℕ, ◌≡◌, ◌≢◌, refl, sym, ap, ◌∙◌, Bool, true, false, not, Option, none, some, List, [], ◌∷◌,
  text_Eq, ◌==◌, arith, list_eq_iff,
}
use boxctl.Base.Text.{Text, split_on, join_on, join_on-split_on}
use boxctl.Base.Int.{ℤ, pos, leb_ℤ, ltb_ℤ, add_ℕ}
use boxctl.Web.Base64.{encode, decode}
use boxctl.Web.Session.{
  SessionError, ok, SessionSecret, SessionSecretSet, SessionClaims, dot, unix, >>=-eq-ok, fail_if,
  invalid_session, find_secret, find_previous,
}
use boxctl.Web.Session.Tokens.{
  verify, verify_parts, verify_signed, check_claims, version, or_invalid, token_of, sign_session,
  signed_prefix,
}

fail_if-eq-ok : (b : Bool) (e : SessionError) {u : Unit {0}} → fail_if b e ≡ ok u → b ≡ false
fail_if-eq-ok true e h = cc
fail_if-eq-ok false e h = refl

or_invalid-eq-ok {ℓ} : {A : Type ℓ} (o : Option A) {a : A} → or_invalid o ≡ ok a → o ≡ some a
or_invalid-eq-ok none h = cc
or_invalid-eq-ok (some a) h = ground arith

-- the claims of a session that is running at an instant
pub record IsRunning (c : SessionClaims) (now : ℤ) : Type 0 where
  pub named : (c.subject ≢ []) × (c.session_id ≢ []) × (c.csrf ≢ [])
  pub positive : leb_ℤ c.issued_at (pos 0) ≡ false
  pub ordered : leb_ℤ c.expires_at c.issued_at ≡ false
  pub issued : ltb_ℤ (add_ℕ now 300) c.issued_at ≡ false
  pub running : leb_ℤ c.expires_at now ≡ false

check_claims-eq-ok :
    (c c' : SessionClaims) (now : ℤ) → check_claims c now ≡ ok c' → (c ≡ c') × IsRunning c' now
unfolding check_claims
check_claims-eq-ok c c' now h =
    ground (arith, list_eq_iff c.subject [], list_eq_iff c.session_id [], list_eq_iff c.csrf [])

find_previous-id :
    (id : Text) (now : ℕ) (l : List SessionSecret) (s : SessionSecret)
    → find_previous id now l ≡ some s
    → s.id ≡ id
unfolding find_previous
find_previous-id id now [] s h = cc
find_previous-id id now (t ∷ l) s h =
    ground (arith, find_previous-id id now l s, list_eq_iff t.id id)

find_secret-id :
    (set : SessionSecretSet) (id : Text) (now : ℕ) (s : SessionSecret)
    → find_secret set id now ≡ some s
    → s.id ≡ id
unfolding find_secret
find_secret-id set id now s h =
    ground (arith, find_previous-id id now set.previous s, list_eq_iff set.current.id id)

not-eq-false : (a b : Text) → not (a == b) ≡ false → a ≡ b
not-eq-false a b h = ground (arith, list_eq_iff a b)

module _ (mac : Text → Text → Text) (marshal : SessionClaims → Option Text)
    (unmarshal : Text → Option SessionClaims) where
  -- the parts of a token under a key
  parts_of : SessionSecret → Text → List Text
  parts_of s payload =
      version
      ∷ s.id
      ∷ encode payload
      ∷ sign_session mac marshal unmarshal s.key (signed_prefix s.id payload)
      ∷ []

  join_on-parts_of :
      (s : SessionSecret) (payload : Text)
      → join_on dot (parts_of s payload) ≡ token_of mac marshal unmarshal s payload
  unfolding parts_of token_of
  join_on-parts_of s payload = simp append_assoc

  verify_signed-eq-ok :
      (s : SessionSecret) (id body signature : Text) (now : ℕ) (c : SessionClaims)
      → verify_signed mac marshal unmarshal s id body signature now ≡ ok c
      → (payload : Text) × (encode payload ≡ body)
        × (encode (mac s.key (join_on dot (version ∷ id ∷ body ∷ []))) ≡ signature)
        × (unmarshal payload ≡ some c)
        × IsRunning c (unix now)
  unfolding verify_signed
  verify_signed-eq-ok s id body signature now c h =
      let prefix = join_on dot (version ∷ id ∷ body ∷ []) in
      let (want, e1, h1) = >>=-eq-ok (or_invalid (decode signature)) _ h in
      let (_, e2, h2) = >>=-eq-ok (fail_if (not (encode want == signature)) invalid_session) _ h1 in
      let (_, e3, h3) = >>=-eq-ok (fail_if (not (mac s.key prefix == want)) invalid_session) _ h2 in
      let (payload, e4, h4) = >>=-eq-ok (or_invalid (decode body)) _ h3 in
      let (_, e5, h5) = >>=-eq-ok (fail_if (not (encode payload == body)) invalid_session) _ h4 in
      let (claims, e6, h6) = >>=-eq-ok (or_invalid (unmarshal payload)) _ h5 in
      let (same, running) = check_claims-eq-ok claims c (unix now) h6 in
      (
        payload,
        not-eq-false (encode payload) body (fail_if-eq-ok _ _ e5),
        ap encode (not-eq-false (mac s.key prefix) want (fail_if-eq-ok _ _ e3))
            ∙ not-eq-false (encode want) signature (fail_if-eq-ok _ _ e2),
        or_invalid-eq-ok (unmarshal payload) e6 ∙ ap some same,
        running,
      )

  to_parts_of :
      (s : SessionSecret) (payload : Text) {v id body signature : Text}
      → v ≡ version
      → s.id ≡ id
      → encode payload ≡ body
      → encode (mac s.key (join_on dot (version ∷ id ∷ body ∷ []))) ≡ signature
      → v ∷ id ∷ body ∷ signature ∷ [] ≡ parts_of s payload
  unfolding parts_of sign_session signed_prefix
  to_parts_of s payload p q e f = rw (← f, ← e, ← q, p)

  verify_parts-eq-ok :
      (set : SessionSecretSet) (now later : ℕ) (parts : List Text) (c : SessionClaims)
      → verify_parts mac marshal unmarshal set now later parts ≡ ok c
      → (s : SessionSecret) × (payload : Text) × (find_secret set s.id now ≡ some s)
        × (parts ≡ parts_of s payload)
        × (unmarshal payload ≡ some c)
        × IsRunning c (unix later)
  unfolding verify_parts
  verify_parts-eq-ok set now later (v ∷ id ∷ body ∷ signature ∷ []) c h =
      let (_, e1, h1) = >>=-eq-ok (fail_if (not (v == version)) invalid_session) _ h in
      let (s, e2, h2) = >>=-eq-ok (or_invalid (find_secret set id now)) _ h1 in
      let (payload, e3, e4, e5, running) = verify_signed-eq-ok s id body signature later c h2 in
      let found = or_invalid-eq-ok (find_secret set id now) e2 in
      let named = find_secret-id set id now s found in
      let first = not-eq-false v version (fail_if-eq-ok _ _ e1) in
      (s, payload, rw named found, to_parts_of s payload first named e3 e4, e5, running)
  verify_parts-eq-ok set now later [] c h = cc
  verify_parts-eq-ok set now later _ c h = cc

  -- A token that verifies is the token of its payload under a key that the set has for it when the
  -- key is looked for, written in the one canonical way; its payload decodes to the claims returned; and
  -- these are running: named, issued at most five minutes ahead, and not expired, when
  -- the claims are checked.
  pub verify-eq-ok :
      (set : SessionSecretSet) (now later : ℕ) (token : Text) (c : SessionClaims)
      → verify mac marshal unmarshal set now later token ≡ ok c
      → (s : SessionSecret) × (payload : Text) × (find_secret set s.id now ≡ some s)
        × (token ≡ token_of mac marshal unmarshal s payload)
        × (unmarshal payload ≡ some c)
        × IsRunning c (unix later)
  unfolding verify
  verify-eq-ok set now later token c h =
      let (s, payload, found, e, decoded, running) =
        verify_parts-eq-ok set now later (split_on dot token) c h in
      (
        s,
        payload,
        found,
        sym (join_on-split_on dot token) ∙ ap (join_on dot) e ∙ join_on-parts_of s payload,
        decoded,
        running,
      )
