-- ===== src/Web/Session.antt =====
-- The session manager of internal/web/auth.go. An instant is a number of nanoseconds since Go's
-- zero time, so the zero time is 0; durations are not negative. The signing hash, the JSON codec
-- and the secret store are arguments; the random source is a text of bytes that may run out.
pub mod Rotation
pub mod Tokens
mod Examples
use boxctl.Base.{
  ◌≡◌, refl, ℕ, zero, suc, ◌+◌, ◌-◌, ◌/◌, ◌^◌, Bool, true, false, not, ◌&&◌, ◌||◌, Option, none,
  some, List, [], ◌∷◌, ◌++◌, ltb, leb, nat_eq, if◌then◌else◌, length, text_Eq, ◌==◌, drop,
}
use boxctl.Base.Text.{Text, codes, split_on, join_on}
use boxctl.Base.Answers.{Answer}
pub use boxctl.Base.Answers.{ok, err, ◌>>=◌, ◌>>◌, >>=-eq-ok, fail_if}
use boxctl.Base.Int.{ℤ, pos, sub_ℕ, leb_ℤ, ltb_ℤ, add_ℕ}
use boxctl.Web.Base64.{encode, decode}

pub data SessionError : Type 0 where
  invalid_session expired_session : SessionError
  generate_failed encode_failed load_failed save_failed : SessionError
  invalid_secret duplicate_secret : SessionError

abbrev pub Result {ℓ} : Type ℓ → Type ℓ
Result A = Answer SessionError A

pub record SessionSecret : Type 0 where
  pub id : Text
  pub key : Text
  pub created_at : ℕ
  pub retire_at : ℕ

pub record SessionSecretSet : Type 0 where
  pub current : SessionSecret
  pub previous : List SessionSecret

pub record SessionClaims : Type 0 where
  pub subject : Text
  pub display_name : Text
  pub session_id : Text
  pub csrf : Text
  pub issued_at : ℤ
  pub expires_at : ℤ

pub record Credential : Type 0 where
  pub user_id : Text
  pub display_name : Text

abbrev pub min_signing_key_bytes : ℕ
min_signing_key_bytes = 32

abbrev pub dot : ℕ
dot = 46

-- `now.Unix()`: whole seconds since 1970, which begins 62135596800 seconds after the zero time
unfoldable pub unix : ℕ → ℤ
unix now = sub_ℕ (now / 10 ^ 9) 62_135_596_800

-- `io.ReadFull` of `n` bytes, and what is left to read
abbrev pub take_bytes : ℕ → Text → Option (Text × Text)
take_bytes zero bs = some ([], bs)
take_bytes (suc n) [] = none
take_bytes (suc n) (b ∷ bs) = elim (take_bytes n bs) [
  | none ↦ none
  | some (got, rest) ↦ some (b ∷ got, rest)
]

unfoldable pub read_full : ℕ → Text → Result Text × Text
read_full n bs = elim (take_bytes n bs) [
  | none ↦ (err generate_failed, [])
  | some (got, rest) ↦ (ok got, rest)
]

unfoldable pub random_token : ℕ → Text → Result Text × Text
unfolding read_full
random_token n random = let (r, rest) = read_full n random in (r >>= λ b. ok (encode b), rest)

unfoldable pub read_key : Text → ℕ → Result Text × Text → Result SessionSecret × Text
read_key id_bytes created_at (r, rest) = (
  r >>= λ key.
      ok (record { id = encode id_bytes; key = key; created_at = created_at; retire_at = 0 }),
  rest,
)

-- the id is read first, then the key; no key is read if the id cannot be read
abbrev pub read_secret : ℕ → Result Text → Text → Result SessionSecret × Text
read_secret created_at (err e) rest = (err e, rest)
read_secret created_at (ok id_bytes) rest =
    read_key id_bytes created_at (read_full min_signing_key_bytes rest)

unfoldable pub generate_secret : ℕ → Text → Result SessionSecret × Text
unfolding read_full read_key
generate_secret created_at random =
    let (r, rest) = read_full 9 random in read_secret created_at r rest

-- the loop over the former keys
unfoldable pub find_previous : Text → ℕ → List SessionSecret → Option SessionSecret
find_previous id now [] = none
find_previous id now (secret ∷ rest) =
    let later = find_previous id now rest in
    if secret.id == id && (nat_eq secret.retire_at 0 || ltb now secret.retire_at)
    then some secret
    else later

unfoldable pub find_secret : SessionSecretSet → Text → ℕ → Option SessionSecret
unfolding find_previous
find_secret set id now =
    if set.current.id == id then some set.current else find_previous id now set.previous

-- the former keys that a rotation keeps
unfoldable pub keep_previous : ℕ → List SessionSecret → List SessionSecret
keep_previous now [] = []
keep_previous now (previous ∷ rest) =
    let kept = keep_previous now rest in
    if nat_eq previous.retire_at 0 || ltb now previous.retire_at then previous ∷ kept else kept

unfoldable pub rotated : ℕ → ℕ → SessionSecretSet → SessionSecret → SessionSecretSet
unfolding keep_previous
rotated now ttl secrets next = record {
  current = next;
  previous = record secrets.current { retire_at = now + ttl } ∷ keep_previous now secrets.previous;
}

abbrev pub seen_before : Text → List Text → Bool
seen_before id [] = false
seen_before id (s ∷ seen) = s == id || seen_before id seen

-- the loop of `validateSecretSet`, with the ids seen so far
unfoldable pub validate_secrets : List Text → List SessionSecret → Result (Unit {0})
validate_secrets seen [] = ok tt
validate_secrets seen (secret ∷ rest) = do
  fail_if
      (secret.id == []
        || ltb (length secret.key) min_signing_key_bytes
        || nat_eq secret.created_at 0)
      invalid_secret
  fail_if (seen_before secret.id seen) duplicate_secret
  validate_secrets (secret.id ∷ seen) rest

unfoldable pub validate_secret_set : SessionSecretSet → Result (Unit {0})
unfolding validate_secrets
validate_secret_set set = validate_secrets [] (set.current ∷ set.previous)

-- The manager beside the store's state and the bytes that the random source still has.
pub record SessionManager (S : Type 0) : Type 0 where
  pub secrets : SessionSecretSet
  pub ttl : ℕ
  pub rotate_interval : ℕ
  pub store : S
  pub random : Text

-- `save` says what becomes of the store, and whether the save succeeds: a save that fails may have
-- changed the store.
module _ {S : Type 0} (save : SessionSecretSet → S → S × Bool) where
  -- A set is published in memory only once the store has answered that it has it.
  unfoldable pub publish :
      SessionSecretSet → S × Bool → SessionManager S → SessionManager S × Result (Unit {0})
  publish candidate (store, false) m = (record m { store = store }, err save_failed)
  publish candidate (store, true) m = (record m { secrets = candidate; store = store }, ok tt)

  unfoldable pub publish_generated :
      (SessionSecret → SessionSecretSet)
      → Result SessionSecret × Text
      → SessionManager S
      → SessionManager S × Result (Unit {0})
  unfolding publish
  publish_generated make (err e, random) m = (record m { random = random }, err e)
  publish_generated make (ok next, random) m =
      publish (make next) (save (make next) m.store) (record m { random = random })

  unfoldable pub rotate_if_due : ℕ → SessionManager S → SessionManager S × Result (Unit {0})
  unfolding publish_generated generate_secret
  rotate_if_due now m =
      if nat_eq m.rotate_interval 0 || ltb now (m.secrets.current.created_at + m.rotate_interval)
      then (m, ok tt)
      else publish_generated (rotated now m.ttl m.secrets) (generate_secret now m.random) m

  unfoldable pub revoke_all : ℕ → SessionManager S → SessionManager S × Result (Unit {0})
  unfolding publish_generated generate_secret
  revoke_all now m =
      publish_generated (λ next. record { current = next; previous = [] })
        (generate_secret now m.random) m

  -- `newSessionManager` after the load: a first key if there is none, then the check of all keys
  unfoldable pub initialize : ℕ → SessionManager S → SessionManager S × Result (Unit {0})
  unfolding revoke_all validate_secret_set
  initialize now m =
      let (m', r) =
        if nat_eq (length m.secrets.current.key) 0 then revoke_all now m else (m, ok tt) in
      (m', r >>= λ _. validate_secret_set m'.secrets)

  unfoldable pub new_session_manager :
      (S → Option SessionSecretSet) → ℕ → ℕ → ℕ → S → Text → Result (SessionManager S)
  unfolding initialize
  new_session_manager load ttl rotate_interval now store random = elim (load store) [
    | none ↦ err load_failed
    | some set ↦
        let (m, r) = initialize now (record {
          secrets = set;
          ttl = ttl;
          rotate_interval = rotate_interval;
          store = store;
          random = random;
        }) in
        r >>= λ _. ok m
  ]
