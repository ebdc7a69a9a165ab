-- ===== src/Web/Base64.antt =====
-- `base64.RawURLEncoding` of Go's standard library, as internal/web/auth.go uses it: the
-- unpadded URL alphabet; the decoder skips line breaks and does not look at the bits that the
-- last digit has too many.
use boxctl.Base.{
  ℕ, ◌+◌, ◌-◌, ◌*◌, ◌/◌, ◌%◌, ◌<◌, ◌≡◌, ◌≢◌, refl, false, ◌||◌, ◌&&◌, Option, none, some, List, [],
  ◌∷◌, ltb, leb, nat_eq, if◌then◌else◌, arith, All,
}
use boxctl.Base.Text.{Text, contains}

-- the character of a digit below 64
unfoldable pub digit_char : ℕ → ℕ
digit_char v =
    if ltb v 26
    then v + 65
    else if ltb v 52
    then v + 71
    else if ltb v 62
    then v - 4
    else if nat_eq v 62
    then 45
    else 95

unfoldable pub char_digit : ℕ → Option ℕ
char_digit c =
    if leb 65 c && leb c 90
    then some (c - 65)
    else if leb 97 c && leb c 122
    then some (c - 71)
    else if leb 48 c && leb c 57
    then some (c + 4)
    else if nat_eq c 45
    then some 62
    else if nat_eq c 95
    then some 63
    else none

-- `EncodeToString`
unfoldable pub encode : Text → Text
unfolding digit_char
encode [] = []
encode (a ∷ []) = digit_char (a / 4 % 64) ∷ digit_char (a % 4 * 16) ∷ []
encode (a ∷ b ∷ []) =
    digit_char (a / 4 % 64) ∷ digit_char (a % 4 * 16 + b / 16 % 16) ∷ digit_char (b % 16 * 4) ∷ []
encode (a ∷ b ∷ c ∷ rest) =
    digit_char (a / 4 % 64)
    ∷ digit_char (a % 4 * 16 + b / 16 % 16)
    ∷ digit_char (b % 16 * 4 + c / 64 % 4)
    ∷ digit_char (c % 64)
    ∷ encode rest

-- the digits of a text; none if a character is not in the alphabet
abbrev cons_digit : Option ℕ → Option (List ℕ) → Option (List ℕ)
cons_digit none ds = none
cons_digit (some d) none = none
cons_digit (some d) (some ds) = some (d ∷ ds)

unfoldable pub digits_of : Text → Option (List ℕ)
digits_of [] = some []
digits_of (c ∷ cs) =
    let rest = digits_of cs in
    if nat_eq c 10 || nat_eq c 13 then rest else cons_digit (char_digit c) rest

-- A single digit is no byte, and an error.
unfoldable pub bytes_of : List ℕ → Option Text
bytes_of [] = some []
bytes_of (p ∷ []) = none
bytes_of (p ∷ q ∷ []) = some ((p * 4 + q / 16) ∷ [])
bytes_of (p ∷ q ∷ r ∷ []) = some ((p * 4 + q / 16) ∷ (q % 16 * 16 + r / 4) ∷ [])
bytes_of (p ∷ q ∷ r ∷ s ∷ rest) = elim (bytes_of rest) [
  | none ↦ none
  | some bs ↦ some ((p * 4 + q / 16) ∷ (q % 16 * 16 + r / 4) ∷ (r % 4 * 64 + s) ∷ bs)
]

-- `DecodeString`
unfoldable pub decode : Text → Option Text
unfolding digits_of bytes_of char_digit
decode s = elim (digits_of s) [ none ↦ none | some ds ↦ bytes_of ds ]

abbrev pub AllBytes : Text → Type 0
AllBytes = All (λ b. b < 256)

char_digit-digit_char : (v : ℕ) → v < 64 → char_digit (digit_char v) ≡ some v
unfolding char_digit digit_char
char_digit-digit_char v h = ground arith

digit_char_plain : (v : ℕ) → (nat_eq (digit_char v) 10 || nat_eq (digit_char v) 13) ≡ false
unfolding digit_char
digit_char_plain v = ground arith

pub digit_char_no_dot : (v : ℕ) → nat_eq (digit_char v) 46 ≡ false
unfolding digit_char
digit_char_no_dot v = ground arith

digits_of-cons :
    (v : ℕ) (cs : Text) (ds : List ℕ)
    → v < 64
    → digits_of cs ≡ some ds
    → digits_of (digit_char v ∷ cs) ≡ some (v ∷ ds)
unfolding digits_of
digits_of-cons v cs ds h e = rw (digit_char_plain v, char_digit-digit_char v h, e)

digits_of-nil : digits_of [] ≡ some []
unfolding digits_of
digits_of-nil = refl

-- the digits of an encoded text give the text back
digits_of-encode :
    (s : Text)
    → AllBytes s
    → (ds : List ℕ) × (digits_of (encode s) ≡ some ds) × (bytes_of ds ≡ some s)
unfolding encode bytes_of
digits_of-encode [] h = ([], unfold digits_of in refl, refl)
digits_of-encode (a ∷ []) h = (
  a / 4 % 64 ∷ a % 4 * 16 ∷ [],
  digits_of-cons _ _ _ (omega arith) (digits_of-cons _ _ _ (omega arith) digits_of-nil),
  ground arith,
)
digits_of-encode (a ∷ b ∷ []) h = (
  a / 4 % 64 ∷ (a % 4 * 16 + b / 16 % 16) ∷ b % 16 * 4 ∷ [],
  digits_of-cons _ _ _ (omega arith)
      (digits_of-cons _ _ _ (omega arith) (digits_of-cons _ _ _ (omega arith) digits_of-nil)),
  ground arith,
)
digits_of-encode (a ∷ b ∷ c ∷ rest) h =
    let (ds, e, f) = digits_of-encode rest h.1.1.1 in
    (
      a / 4 % 64 ∷ (a % 4 * 16 + b / 16 % 16) ∷ (b % 16 * 4 + c / 64 % 4) ∷ c % 64 ∷ ds,
      digits_of-cons _ _ _ (omega arith) (
          digits_of-cons _ _ _ (omega arith)
            (digits_of-cons _ _ _ (omega arith) (digits_of-cons _ _ _ (omega arith) e))),
      ground arith,
    )

pub decode-encode : (s : Text) → AllBytes s → decode (encode s) ≡ some s
unfolding decode
decode-encode s h = let (ds, e, f) = digits_of-encode s h in rw (e, decode) f

-- An encoded text has no dot.
pub contains-encode : (s : Text) → contains 46 (encode s) ≡ false
unfolding encode
contains-encode [] = refl
contains-encode (a ∷ []) = simp digit_char_no_dot
contains-encode (a ∷ b ∷ []) = simp digit_char_no_dot
contains-encode (a ∷ b ∷ c ∷ rest) = simp (digit_char_no_dot, contains-encode rest)

abbrev pub IsAscii : Text → Type 0
IsAscii = All (λ c. c < 128)

digit_char_ascii : (v : ℕ) → digit_char v < 128
unfolding digit_char
digit_char_ascii v = ground arith

pub encode-IsAscii : (s : Text) → IsAscii (encode s)
unfolding encode
encode-IsAscii [] = tt
encode-IsAscii (a ∷ []) = search digit_char_ascii
encode-IsAscii (a ∷ b ∷ []) = search digit_char_ascii
encode-IsAscii (a ∷ b ∷ c ∷ rest) = search (digit_char_ascii, encode-IsAscii rest)

pub encode-ne-nil : (b : ℕ) (s : Text) → encode (b ∷ s) ≢ []
unfolding encode
encode-ne-nil a [] e = cc
encode-ne-nil a (b ∷ []) e = cc
encode-ne-nil a (b ∷ c ∷ rest) e = cc
