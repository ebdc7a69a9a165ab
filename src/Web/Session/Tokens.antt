-- ===== src/Web/Session/Tokens.antt =====
-- Issuing and verifying session tokens (`issue` and `verify` of internal/web/auth.go).
pub mod RoundTrip
pub mod Soundness
pub mod Keys
pub mod Issue
use boxctl.Base.{
  ℕ, ◌+◌, ◌^◌, Bool, true, false, not, ◌&&◌, ◌||◌, Option, none, some, List, [], ◌∷◌, ◌++◌, text_Eq,
  ◌==◌,
}
use boxctl.Base.Text.{Text, codes, split_on, join_on}
use boxctl.Base.Int.{ℤ, pos, leb_ℤ, ltb_ℤ, add_ℕ}
use boxctl.Web.Base64.{encode, decode}
use boxctl.Web.Session.{
  SessionError, invalid_session, expired_session, encode_failed, Result, ok, err, ◌>>=◌, ◌>>◌,
  fail_if, SessionSecret, SessionSecretSet, SessionClaims, Credential, dot, unix, random_token,
  find_secret, rotate_if_due, SessionManager,
}

-- "v1"
abbrev pub version : Text
version = codes "v1"

-- A value, or `errInvalidSession`.
abbrev pub or_invalid {ℓ} : {A : Type ℓ} → Option A → Result A
or_invalid none = err invalid_session
or_invalid (some a) = ok a

-- the part of a token that is signed
unfoldable pub signed_prefix : Text → Text → Text
signed_prefix id payload = join_on dot (version ∷ id ∷ encode payload ∷ [])

-- the checks of the claims themselves
unfoldable pub check_claims : SessionClaims → ℤ → Result SessionClaims
check_claims claims now = do
  fail_if
      (claims.subject == []
        || claims.session_id == []
        || claims.csrf == []
        || leb_ℤ claims.issued_at (pos 0)
        || leb_ℤ claims.expires_at claims.issued_at)
      invalid_session
  fail_if (ltb_ℤ (add_ℕ now 300) claims.issued_at) invalid_session
  fail_if (leb_ℤ claims.expires_at now) expired_session
  ok claims

unfoldable pub new_claims : Credential → Text → Text → ℕ → ℕ → SessionClaims
new_claims user session_id csrf now ttl = record {
  subject = user.user_id;
  display_name = user.display_name;
  session_id = session_id;
  csrf = csrf;
  issued_at = unix now;
  expires_at = unix (now + ttl);
}

-- The signing hash and the JSON codec are parameters.
module _ (mac : Text → Text → Text) (marshal : SessionClaims → Option Text)
    (unmarshal : Text → Option SessionClaims) where
  unfoldable pub sign_session : Text → Text → Text
  sign_session key value = encode (mac key value)

  -- the checks of a token's parts, once its key is found
  unfoldable pub verify_signed : SessionSecret → Text → Text → Text → ℕ → Result SessionClaims
  unfolding check_claims
  verify_signed secret id body signature now = do
    let prefix = join_on dot (version ∷ id ∷ body ∷ [])
    want ← or_invalid (decode signature)
    fail_if (not (encode want == signature)) invalid_session
    fail_if (not (mac secret.key prefix == want)) invalid_session
    payload ← or_invalid (decode body)
    fail_if (not (encode payload == body)) invalid_session
    claims ← or_invalid (unmarshal payload)
    check_claims claims (unix now)

  unfoldable pub verify_parts : SessionSecretSet → ℕ → ℕ → List Text → Result SessionClaims
  unfolding verify_signed
  verify_parts set now later (v ∷ id ∷ body ∷ signature ∷ []) = do
    fail_if (not (v == version)) invalid_session
    secret ← or_invalid (find_secret set id now)
    verify_signed secret id body signature later
  verify_parts set now later _ = err invalid_session

  -- The clock is read at `now` for the key, and at `later` for the claims.
  unfoldable pub verify : SessionSecretSet → ℕ → ℕ → Text → Result SessionClaims
  unfolding verify_parts
  verify set now later token = verify_parts set now later (split_on dot token)

  -- the token of some claims under a key
  unfoldable pub token_of : SessionSecret → Text → Text
  unfolding sign_session signed_prefix
  token_of secret payload =
      let prefix = signed_prefix secret.id payload in
      join_on dot (prefix ∷ sign_session secret.key prefix ∷ [])

  unfoldable pub seal : SessionSecret → SessionClaims → Result (Text × SessionClaims)
  unfolding token_of
  seal secret claims = elim (marshal claims) [
    | none ↦ err encode_failed
    | some payload ↦ ok (token_of secret payload, claims)
  ]

  module _ {S : Type 0} (save : SessionSecretSet → S → S × Bool) where
    -- the part of `issue` after the rotation: the two random tokens, then the signed claims
    unfoldable pub issue_rotated :
        Credential
        → ℕ
        → SessionManager S × Result (Unit {0})
        → SessionManager S × Result (Text × SessionClaims)
    unfolding seal new_claims
    issue_rotated user now (m, err e) = (m, err e)
    issue_rotated user now (m, ok _) =
        let (sid, rest) = random_token 18 m.random in
        let (csrf, rest') = random_token 24 rest in
        (
          record m { random = elim sid [ err _ ↦ rest | ok _ ↦ rest' ] },
          (do
            session_id ← sid
            token ← csrf
            seal m.secrets.current (new_claims user session_id token now m.ttl)),
        )

    -- The clock is read at `at` for the rotation and at `now` for the claims.
    unfoldable pub issue :
        Credential → ℕ → ℕ → SessionManager S → SessionManager S × Result (Text × SessionClaims)
    unfolding issue_rotated
    issue user at now m = issue_rotated user now (rotate_if_due save at m)
