-- ===== src/Web/Session/Examples.antt =====
-- Sessions (internal/web/auth.go) at concrete inputs.
use boxctl.Base.{
  ℕ, zero, suc, ◌+◌, ◌*◌, ◌%◌, ◌^◌, ◌≡◌, ◌⊎◌, refl, Bool, true, false, ◌&&◌, Option, none, some,
  List, [], ◌∷◌, ◌++◌, if◌then◌else◌, text_Eq, ◌==◌, arith, list_eq_iff, length,
}
use boxctl.Base.Text.{Text, codes, split_on}
use boxctl.Base.Int.{ℤ, pos, leb_ℤ}
use boxctl.Web.Base64.{encode, decode, AllBytes}
use boxctl.Web.Session.{
  ok, err, invalid_session, SessionSecret, SessionSecretSet, SessionClaims, Credential,
  SessionManager, unix, generate_secret, find_secret, rotated, random_token, rotate_if_due,
  revoke_all,
}
use boxctl.Web.Session.Rotation.{Published, due, rotate_if_due_cases, revoke_all_cases}
use boxctl.Web.Session.Tokens.{verify, token_of, issue}
use boxctl.Web.Session.Tokens.RoundTrip.{CodecLaws}
use boxctl.Web.Session.Tokens.Issue.{verify-issue}
use boxctl.Web.Session.Tokens.Keys.{
  token_id, Fresh, verify-rotate_if_due, verify-revoke_all, verify-retired,
}
use boxctl.Web.Session.Tokens.Soundness.{IsRunning, verify-eq-ok}

-- 2026-01-01, in nanoseconds since the zero time
abbrev start : ℕ
start = 63_902_908_800 * 10 ^ 9

abbrev hour : ℕ
hour = 3_600 * 10 ^ 9

abbrev root : Credential
root = record { user_id = codes "root"; display_name = codes "Root" }

abbrev zeros : ℕ → Text
zeros zero = []
zeros (suc n) = 0 ∷ zeros n

abbrev ones : ℕ → Text
ones zero = []
ones (suc n) = 1 ∷ ones n

abbrev root_claims : SessionClaims
root_claims = record {
  subject = codes "root";
  display_name = codes "Root";
  session_id = codes "AAAAAAAAAAAAAAAAAAAAAAAA";
  csrf = codes "AAAAAAAAAAAAAAAAAAAAAAAAAAAAAAAA";
  issued_at = pos 1_767_312_000;
  expires_at = pos 1_767_315_600;
}

abbrev eq_ℤ : ℤ → ℤ → Bool
eq_ℤ a b = leb_ℤ a b && leb_ℤ b a

eq_ℤ_sound : (a b : ℤ) → eq_ℤ a b ≡ true → a ≡ b
eq_ℤ_sound a b h = ground arith

abbrev eq_claims : SessionClaims → SessionClaims → Bool
eq_claims a b =
    a.subject == b.subject
    && (a.display_name == b.display_name
        && (a.session_id == b.session_id
            && (a.csrf == b.csrf
                && (eq_ℤ a.issued_at b.issued_at && eq_ℤ a.expires_at b.expires_at))))

eq_claims_sound : (a b : SessionClaims) → eq_claims a b ≡ true → a ≡ b
eq_claims_sound a b h = ground (
  arith,
  list_eq_iff a.subject b.subject,
  list_eq_iff a.display_name b.display_name,
  list_eq_iff a.session_id b.session_id,
  list_eq_iff a.csrf b.csrf,
  eq_ℤ_sound a.issued_at b.issued_at,
  eq_ℤ_sound a.expires_at b.expires_at,
)

-- a codec that knows one value, and a hash
abbrev toy_marshal : SessionClaims → Option Text
toy_marshal c = if eq_claims c root_claims then some (7 ∷ []) else none

abbrev toy_unmarshal : Text → Option SessionClaims
toy_unmarshal b = some root_claims

abbrev as_bytes : Text → Text
as_bytes [] = []
as_bytes (b ∷ bs) = b % 256 ∷ as_bytes bs

abbrev toy_mac : Text → Text → Text
toy_mac key value = as_bytes (key ++ value)

as_bytes-AllBytes : (bs : Text) → AllBytes (as_bytes bs)
as_bytes-AllBytes [] = tt
as_bytes-AllBytes (b ∷ bs) = (omega arith, as_bytes-AllBytes bs)

toy_marshal_bytes : (c : SessionClaims) (b : Text) → toy_marshal c ≡ some b → AllBytes b
toy_marshal_bytes c b h = let e : 7 ∷ [] ≡ b = ground arith in rw (← e) (omega arith)

toy_laws : CodecLaws toy_mac toy_marshal toy_unmarshal
toy_laws = record {
  mac_bytes = λ key value. as_bytes-AllBytes (key ++ value);
  marshal_bytes = toy_marshal_bytes;
  unmarshal_marshal = λ c b ascii h. ground (arith, eq_claims_sound c root_claims);
}

abbrev toy_save : SessionSecretSet → List SessionSecretSet → List SessionSecretSet × Bool
toy_save set saved = (set ∷ saved, true)

abbrev first_key : SessionSecret
first_key = record { id = codes "k1"; key = ones 32; created_at = start; retire_at = 0 }

abbrev manager : SessionManager (List SessionSecretSet)
manager = record {
  secrets = record { current = first_key; previous = [] };
  ttl = hour;
  rotate_interval = 24 * hour;
  store = [];
  random = zeros 90;
}

issued :
    (issue toy_mac toy_marshal toy_unmarshal toy_save root start start manager).1
    ≡ ok (token_of toy_mac toy_marshal toy_unmarshal first_key (7 ∷ []), root_claims)
unfolding issue rotate_if_due random_token encode unix
issued = refl

verify-issue_example :
    verify toy_mac toy_marshal toy_unmarshal
      (issue toy_mac toy_marshal toy_unmarshal toy_save root start start manager).0.secrets
      (start + 1_800 * 10 ^ 9)
      (start + 1_801 * 10 ^ 9)
      (token_of toy_mac toy_marshal toy_unmarshal first_key (7 ∷ []))
    ≡ ok root_claims
unfolding issue rotate_if_due
verify-issue_example =
    verify-issue toy_mac toy_marshal toy_unmarshal toy_save toy_laws root start start
      (start + 1_800 * 10 ^ 9) (start + 1_801 * 10 ^ 9) manager
      (issue toy_mac toy_marshal toy_unmarshal toy_save root start start manager).0
      (token_of toy_mac toy_marshal toy_unmarshal first_key (7 ∷ [])) root_claims
      (λ i.
        ((issue toy_mac toy_marshal toy_unmarshal toy_save root start start manager).0, issued i))
      refl (λ e. cc) (omega arith) (omega arith) (omega arith) (omega arith) (omega arith)
      (omega arith)

abbrev root_token : Text
root_token = token_of toy_mac toy_marshal toy_unmarshal first_key (7 ∷ [])

root_token_id : token_id root_token ≡ codes "k1"
unfolding token_of split_on encode
root_token_id = refl

verify-eq-ok_example :
    (s : SessionSecret) × (payload : Text) × (find_secret manager.secrets s.id start ≡ some s)
    × (root_token ≡ token_of toy_mac toy_marshal toy_unmarshal s payload)
    × (toy_unmarshal payload ≡ some root_claims)
    × IsRunning root_claims (unix start)
unfolding verify token_of split_on encode decode unix find_secret
verify-eq-ok_example =
    verify-eq-ok toy_mac toy_marshal toy_unmarshal manager.secrets start start root_token
      root_claims refl

-- the ids that the manager generates here
k1-Fresh : (at : ℕ) → Fresh at manager.random (token_id root_token)
unfolding generate_secret encode token_of split_on
k1-Fresh at s e = λ p. ground arith

rotate_if_due_cases_example :
    ((due toy_save (start + 25 * hour) manager ≡ false)
      × (rotate_if_due toy_save (start + 25 * hour) manager ≡ (manager, ok tt)))
    ⊎ ((due toy_save (start + 25 * hour) manager ≡ true)
        × Published toy_save
            (rotated (start + 25 * hour) hour manager.secrets)
            (start + 25 * hour)
            manager
            (rotate_if_due toy_save (start + 25 * hour) manager))
rotate_if_due_cases_example = rotate_if_due_cases toy_save (start + 25 * hour) manager

revoke_all_cases_example :
    Published toy_save
      (λ next. record { current = next; previous = [] })
      start
      manager
      (revoke_all toy_save start manager)
revoke_all_cases_example = revoke_all_cases toy_save start manager

verify-rotate_if_due_example :
    verify toy_mac toy_marshal toy_unmarshal
      (rotate_if_due toy_save (start + 25 * hour) manager).0.secrets
      (start + 25 * hour)
      (start + 25 * hour)
      root_token
    ≡ verify toy_mac toy_marshal toy_unmarshal manager.secrets
        (start + 25 * hour)
        (start + 25 * hour)
        root_token
verify-rotate_if_due_example =
    verify-rotate_if_due toy_mac toy_marshal toy_unmarshal toy_save manager (start + 25 * hour)
      (start + 25 * hour) (start + 25 * hour) root_token (k1-Fresh (start + 25 * hour))
      (omega arith) (omega arith)

verify-revoke_all_example :
    verify toy_mac toy_marshal toy_unmarshal
      (revoke_all toy_save start manager).0.secrets
      start
      start
      root_token
    ≡ err invalid_session
unfolding revoke_all encode
verify-revoke_all_example =
    verify-revoke_all toy_mac toy_marshal toy_unmarshal toy_save manager start start start
      root_token (k1-Fresh start) refl

verify-retired_example :
    verify toy_mac toy_marshal toy_unmarshal
      (rotate_if_due toy_save (start + 25 * hour) manager).0.secrets
      (start + 26 * hour)
      (start + 26 * hour)
      root_token
    ≡ err invalid_session
unfolding rotate_if_due rotated encode
verify-retired_example =
    verify-retired toy_mac toy_marshal toy_unmarshal toy_save manager (start + 25 * hour)
      (start + 26 * hour) (start + 26 * hour) root_token (λ e. cc) root_token_id
      (k1-Fresh (start + 25 * hour)) tt (omega arith) (omega arith)

-- A save that publishes the set and then fails: the manager keeps its keys, the store has the new one.
abbrev torn_save : SessionSecretSet → List SessionSecretSet → List SessionSecretSet × Bool
torn_save set saved = (set ∷ saved, false)

keeps_keys : (revoke_all torn_save start manager).0.secrets ≡ manager.secrets
unfolding revoke_all
keeps_keys = refl

stores_torn : length (revoke_all torn_save start manager).0.store ≡ 1
unfolding revoke_all
stores_torn = refl
