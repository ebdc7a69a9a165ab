-- ===== src/Web/Session/Tokens/RoundTrip.antt =====
-- A token that is issued verifies (internal/web/auth.go).
use mathlib.Core.List.{append_assoc}
use boxctl.Base.{
  ℕ, ◌+◌, ◌-◌, ◌*◌, ◌/◌, ◌^◌, ◌≤◌, ◌<◌, ◌≡◌, ◌≢◌, refl, ap, ◌∙◌, false, Option, some, [], ◌∷◌, ◌++◌,
  text_Eq, ◌==◌, arith, list_eq_refl,
}
use boxctl.Base.Text.{Text, split_on, split_on-append, split_on_plain, contains}
use boxctl.Base.Int.{pos}
use boxctl.Web.Base64.{encode, decode-encode, contains-encode, AllBytes, IsAscii}
use boxctl.Web.Session.{
  ok, SessionSecret, SessionSecretSet, SessionClaims, Credential, dot, unix, find_secret,
}
use boxctl.Web.Session.Tokens.{
  verify, verify_parts, verify_signed, check_claims, version, token_of, signed_prefix, new_claims,
}

abbrev pub AsciiClaims : SessionClaims → Type 0
AsciiClaims c = IsAscii c.subject × IsAscii c.display_name × IsAscii c.session_id × IsAscii c.csrf

-- What is assumed of the hash and the codec: a hash is made of bytes, encoded claims are a text of
-- bytes, and claims in ASCII are decoded to themselves.
pub record CodecLaws (mac : Text → Text → Text) (marshal : SessionClaims → Option Text)
    (unmarshal : Text → Option SessionClaims) : Type 0 where
  pub mac_bytes : (key value : Text) → AllBytes (mac key value)
  pub marshal_bytes : (c : SessionClaims) (b : Text) → marshal c ≡ some b → AllBytes b
  pub unmarshal_marshal :
      (c : SessionClaims) (b : Text) → AsciiClaims c → marshal c ≡ some b → unmarshal b ≡ some c

module _ (mac : Text → Text → Text) (marshal : SessionClaims → Option Text)
    (unmarshal : Text → Option SessionClaims) (laws : CodecLaws mac marshal unmarshal) where
  split_on-token_of :
      (s : SessionSecret) (payload : Text)
      → contains dot s.id ≡ false
      → split_on dot (token_of mac marshal unmarshal s payload)
        ≡ version ∷ s.id ∷ encode payload ∷ encode (mac s.key (signed_prefix s.id payload)) ∷ []
  unfolding token_of
  split_on-token_of s payload plain =
      let signature = encode (mac s.key (signed_prefix s.id payload)) in
      rw (append_assoc s.id (dot ∷ encode payload) (dot ∷ signature)) (
        split_on-append dot version (s.id ++ dot ∷ (encode payload ++ dot ∷ signature)) refl
        ∙ ap (λ l. version ∷ l) (split_on-append dot s.id (encode payload ++ dot ∷ signature) plain)
        ∙ ap (λ l. version ∷ s.id ∷ l)
            (split_on-append dot (encode payload) signature (contains-encode payload))
        ∙ ap (λ l. version ∷ s.id ∷ encode payload ∷ l)
            (split_on_plain dot signature
              (contains-encode (mac s.key (signed_prefix s.id payload)))))

  -- A token passes the checks of its form, signature and encoding wherever its key is found.
  pub verify-token_of :
      (set : SessionSecretSet) (now later : ℕ) (s t : SessionSecret) (payload : Text)
      (c : SessionClaims)
      → contains dot s.id ≡ false
      → find_secret set s.id now ≡ some t
      → t.key ≡ s.key
      → AllBytes payload
      → unmarshal payload ≡ some c
      → verify mac marshal unmarshal set now later (token_of mac marshal unmarshal s payload)
        ≡ check_claims c (unix later)
  unfolding verify verify_parts verify_signed signed_prefix
  verify-token_of set now later s t payload c plain found same bytes e = rw (
    split_on-token_of s payload plain,
    found,
    decode-encode (mac s.key (signed_prefix s.id payload))
        (laws.mac_bytes s.key (signed_prefix s.id payload)),
    list_eq_refl (encode (mac s.key (signed_prefix s.id payload))),
    same,
    list_eq_refl (mac s.key (signed_prefix s.id payload)),
    decode-encode payload bytes,
    list_eq_refl (encode payload),
    e,
  )

ne_nil : (t : Text) → t ≢ [] → (t == []) ≡ false
ne_nil [] h = absurd (h refl)
ne_nil (x ∷ xs) h = refl

-- an instant after 1970, in whole seconds
unix_pos : (t : ℕ) → 62_135_596_800 ≤ t / 10 ^ 9 → unix t ≡ pos (t / 10 ^ 9 - 62_135_596_800)
unfolding unix
unix_pos t h = ground arith

check_claims_pos :
    (subject sid csrf : Text)
    → (subject == []) ≡ false
    → (sid == []) ≡ false
    → (csrf == []) ≡ false
    → {name : Text} (a b n : ℕ) → 0 < a
    → a < b
    → a ≤ n + 300
    → n < b
    → let c : SessionClaims = record {
      subject = subject;
      display_name = name;
      session_id = sid;
      csrf = csrf;
      issued_at = pos a;
      expires_at = pos b;
    } in
      check_claims c (pos n) ≡ ok c
unfolding check_claims
check_claims_pos subject sid csrf u s c {name} a b n p q r t = rw (u, s, c) (ground arith)

-- Claims with names pass until they expire, from five minutes before they were issued on.
pub check_claims-new_claims :
    (user : Credential) (sid csrf : Text) (issued ttl now : ℕ)
    → user.user_id ≢ []
    → sid ≢ []
    → csrf ≢ []
    → 62_135_597_101 * 10 ^ 9 ≤ issued
    → 10 ^ 9 ≤ ttl
    → issued ≤ now + 300 * 10 ^ 9
    → now / 10 ^ 9 < (issued + ttl) / 10 ^ 9
    → check_claims (new_claims user sid csrf issued ttl) (unix now)
      ≡ ok (new_claims user sid csrf issued ttl)
unfolding new_claims
check_claims-new_claims user sid csrf issued ttl now u s c epoch long soon before =
    rw
      (
        unix_pos issued (omega arith),
        unix_pos (issued + ttl) (omega arith),
        unix_pos now (omega arith),
      )
      (check_claims_pos _ _ _ (ne_nil user.user_id u) (ne_nil sid s) (ne_nil csrf c)
        (issued / 10 ^ 9 - 62_135_596_800) ((issued + ttl) / 10 ^ 9 - 62_135_596_800)
        (now / 10 ^ 9 - 62_135_596_800) (omega arith) (omega arith) (omega arith) (omega arith))
