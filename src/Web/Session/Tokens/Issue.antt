-- ===== src/Web/Session/Tokens/Issue.antt =====
-- `issue` and the verification of what it returns (internal/web/auth.go).
use boxctl.Base.{
  Bool, ℕ, suc, ◌+◌, ◌*◌, ◌/◌, ◌^◌, ◌≤◌, ◌<◌, ◌≡◌, ◌≢◌, inl, inr, refl, ap, ◌∙◌, false, Option,
  none, some, [], ◌∷◌, text_Eq, arith, list_eq_refl, Option-cases,
}
use boxctl.Base.Text.{Text, contains}
use boxctl.Web.Base64.{encode, IsAscii, encode-IsAscii, encode-ne-nil}
use boxctl.Web.Session.{
  Result, ok, err, SessionSecret, SessionSecretSet, SessionManager, SessionClaims, Credential, dot,
  ◌>>=◌, >>=-eq-ok, take_bytes, random_token, find_secret, rotate_if_due,
}
use boxctl.Web.Session.Tokens.{verify, token_of, new_claims, seal, issue, issue_rotated}
use boxctl.Web.Session.Tokens.RoundTrip.{
  CodecLaws, AsciiClaims, verify-token_of, check_claims-new_claims,
}

encoded_bytes :
    (n : ℕ) (bs : Text) (got rest : Text)
    → take_bytes (suc n) bs ≡ some (got, rest)
    → encode got ≢ []
encoded_bytes n [] got rest e = cc
encoded_bytes n (b ∷ bs) got rest e = elim (Option-cases (take_bytes n bs)) [
  | inl f ↦ ground arith
  | inr ((g, r), f) ↦ rw (← found g r f) (encode-ne-nil b g)
]
  where
    found : (g r : Text) → take_bytes n bs ≡ some (g, r) → b ∷ g ≡ got
    found g r f = ground arith

-- A random token is not empty, and in ASCII.
random_token_lem :
    (n : ℕ) (random : Text) {t : Text}
    → (random_token (suc n) random).0 ≡ ok t
    → (t ≢ []) × IsAscii t
unfolding random_token
random_token_lem n random {t} e = go (take_bytes (suc n) random) refl
  where
    same : (got rest : Text) → take_bytes (suc n) random ≡ some (got, rest) → encode got ≡ t
    same got rest f = ground arith

    go : (o : Option (Text × Text)) → take_bytes (suc n) random ≡ o → (t ≢ []) × IsAscii t
    go none f = ground arith
    go (some (got, rest)) f =
        rw (← same got rest f) (encoded_bytes n random got rest f, encode-IsAscii got)

new_claims-AsciiClaims :
    (user : Credential) (sid csrf : Text) (now ttl : ℕ)
    → IsAscii user.user_id
    → IsAscii user.display_name
    → IsAscii sid
    → IsAscii csrf
    → AsciiClaims (new_claims user sid csrf now ttl)
unfolding new_claims
new_claims-AsciiClaims user sid csrf now ttl a b c d = (a, b, c, d)

module _ (mac : Text → Text → Text) (marshal : SessionClaims → Option Text)
    (unmarshal : Text → Option SessionClaims) where
  -- What a call of `seal` returns.
  seal_lem :
      (s : SessionSecret) (c c' : SessionClaims) (token : Text)
      → seal mac marshal unmarshal s c ≡ ok (token, c')
      → (c' ≡ c)
        × ((payload : Text) × (marshal c ≡ some payload)
            × (token ≡ token_of mac marshal unmarshal s payload))
  unfolding seal
  seal_lem s c c' token e = elim (Option-cases (marshal c)) [
    | inl f ↦ ground arith
    | inr (payload, f) ↦ (ground arith, (payload, f, ground arith))
  ]

  module _ {S : Type 0} (save : SessionSecretSet → S → S × Bool) where
    -- What `issue` returned: claims with two random tokens, under the manager's current key.
    abbrev Issued : Credential → ℕ → SessionManager S → Text → SessionClaims → Type 0
    Issued user now m token claims =
        (sid : Text) × (csrf : Text) × (payload : Text) × ((sid ≢ []) × IsAscii sid)
        × ((csrf ≢ []) × IsAscii csrf)
        × (claims ≡ new_claims user sid csrf now m.ttl)
        × (marshal claims ≡ some payload)
        × (token ≡ token_of mac marshal unmarshal m.secrets.current payload)

    issue_rotated_lem :
        (user : Credential) (now : ℕ) (m m' : SessionManager S) (r : Result Unit) (token : Text)
        (claims : SessionClaims)
        → issue_rotated mac marshal unmarshal save user now (m, r) ≡ (m', ok (token, claims))
        → Issued user now m' token claims
    unfolding issue_rotated
    issue_rotated_lem user now m m' (err e) token claims h = ground arith
    issue_rotated_lem user now m m' (ok _) token claims h =
        let pair = λ (p : SessionManager S × Result (Text × SessionClaims)). p.1 in
        let first = λ (p : SessionManager S × Result (Text × SessionClaims)). p.0 in
        let second = (random_token 24 (random_token 18 m.random).1).0 in
        let key : m.secrets ≡ m'.secrets =
          ap (λ (p : SessionManager S × Result (Text × SessionClaims)). p.0.secrets) h in
        let ttl : m.ttl ≡ m'.ttl =
          ap (λ (p : SessionManager S × Result (Text × SessionClaims)). p.0.ttl) h in
        let (sid, e1, f1) =
          >>=-eq-ok (random_token 18 m.random).0
            (λ sid. second >>= λ csrf.
              seal mac marshal unmarshal m.secrets.current (new_claims user sid csrf now m.ttl))
            (ap pair h) in
        let (csrf, e2, f2) =
          >>=-eq-ok second
            (λ csrf.
              seal mac marshal unmarshal m.secrets.current (new_claims user sid csrf now m.ttl))
            f1 in
        let (same, (payload, e3, e4)) =
          seal_lem m.secrets.current (new_claims user sid csrf now m.ttl) claims token f2 in
        (
          sid,
          csrf,
          payload,
          random_token_lem 17 m.random e1,
          random_token_lem 23 (random_token 18 m.random).1 e2,
          rw (← ttl) same,
          rw same e3,
          rw (← key) e4,
        )

  module _ {S : Type 0} (save : SessionSecretSet → S → S × Bool)
      (laws : CodecLaws mac marshal unmarshal) where
    -- A token that `issue` returned verifies, with the claims that it returned, from five minutes
    -- before it was issued until its claims expire: under the keys that the manager then has, whenever the key is looked
    -- for. The
    -- current key's id has no dot, the user has an id, the user's names are in ASCII, the clock is
    -- later than 1970, sessions live a second at least, and the codec keeps its laws.
    pub verify-issue :
        (user : Credential) (at now found_at later : ℕ) (m m' : SessionManager S) (token : Text)
        (claims : SessionClaims)
        → issue mac marshal unmarshal save user at now m ≡ (m', ok (token, claims))
        → contains dot m'.secrets.current.id ≡ false
        → user.user_id ≢ []
        → IsAscii user.user_id
        → IsAscii user.display_name
        → 62_135_597_101 * 10 ^ 9 ≤ now
        → 10 ^ 9 ≤ m'.ttl
        → now ≤ later + 300 * 10 ^ 9
        → later / 10 ^ 9 < (now + m'.ttl) / 10 ^ 9
        → verify mac marshal unmarshal m'.secrets found_at later token ≡ ok claims
    unfolding issue find_secret
    verify-issue user at now found_at later m m' token claims h plain u ua ud epoch long soon
          before =
        let (sid, csrf, payload, (s, sa), (c, ca), e1, e2, e3) =
          issue_rotated_lem save user now (rotate_if_due save at m).0 m' (rotate_if_due save at m).1
            token claims h in
        rw (e3, e1)
          (verify-token_of mac marshal unmarshal laws m'.secrets found_at later m'.secrets.current
              m'.secrets.current payload (new_claims user sid csrf now m'.ttl) plain
              (rw (list_eq_refl m'.secrets.current.id)) refl (laws.marshal_bytes claims payload e2)
              (laws.unmarshal_marshal _ payload
                (new_claims-AsciiClaims user sid csrf now m'.ttl ua ud sa ca) (rw e1 at e2))
            ∙ check_claims-new_claims user sid csrf now m'.ttl later u s c epoch long soon before)
