-- ===== src/Web/Password.antt =====
-- The password records of internal/web/auth.go, and PBKDF2 over a keyed hash, which is an argument:
-- a function of the key and the message, with the size of its results.
pub mod Length
use boxctl.Base.{
  ℕ, zero, suc, ◌+◌, ◌-◌, ◌*◌, ◌/◌, ◌%◌, Bool, true, false, ◌||◌, ◌&&◌, not, Option, none, some,
  List, [], ◌∷◌, ◌++◌, nat_eq, ltb, leb, if◌then◌else◌, text_Eq, ◌==◌, length,
}
use boxctl.Base.Text.{Text, codes, split_on}
use boxctl.Web.Base64.{decode}

abbrev pub max_iterations : ℕ
max_iterations = 10_000_000

abbrev pub max_output_bytes : ℕ
max_output_bytes = 128

-- the exclusive or of numbers of some bits
unfoldable pub xor_bits : ℕ → ℕ → ℕ → ℕ
xor_bits zero a b = 0
xor_bits (suc n) a b = (a % 2 + b % 2) % 2 + 2 * xor_bits n (a / 2) (b / 2)

-- `t[j] ^= u[j]` for each byte of `t`
unfoldable pub xor_bytes : Text → Text → Text
unfolding xor_bits
xor_bytes [] u = []
xor_bytes (a ∷ t) [] = a ∷ t
xor_bytes (a ∷ t) (b ∷ u) = xor_bits 8 a b ∷ xor_bytes t u

-- `binary.BigEndian.PutUint32` of a `uint32`
abbrev pub big_endian : ℕ → Text
big_endian n = (n / 16777216 % 256) ∷ (n / 65536 % 256) ∷ (n / 256 % 256) ∷ (n % 256) ∷ []

abbrev pub take_bytes : ℕ → Text → Text
take_bytes zero s = []
take_bytes (suc n) [] = []
take_bytes (suc n) (c ∷ s) = c ∷ take_bytes n s

module _ (prf : Text → Text → Text) (hash_len : ℕ) where
  -- the loop over the iterations after the first one
  unfoldable pub iterate : ℕ → Text → Text → Text → Text
  unfolding xor_bytes
  iterate zero password u t = t
  iterate (suc n) password u t =
      let next = prf password u in iterate n password next (xor_bytes t next)

  unfoldable pub pbkdf2_block : Text → Text → ℕ → ℕ → Text
  unfolding iterate
  pbkdf2_block password salt iterations block =
      let u = prf password (salt ++ big_endian block) in iterate (iterations - 1) password u u

  -- the loop over the blocks that are left, from the block `block`
  unfoldable pub pbkdf2_blocks : ℕ → Text → Text → ℕ → ℕ → Text
  unfolding pbkdf2_block
  pbkdf2_blocks zero password salt iterations block = []
  pbkdf2_blocks (suc left) password salt iterations block =
      pbkdf2_block password salt iterations block
      ++ pbkdf2_blocks left password salt iterations (block + 1)

  unfoldable pub pbkdf2_key : Text → Text → ℕ → ℕ → Text
  unfolding pbkdf2_blocks
  pbkdf2_key password salt iterations key_len =
      take_bytes key_len
        (pbkdf2_blocks ((key_len + hash_len - 1) / hash_len) password salt iterations 1)

-- `strconv.Atoi` of a positive number: an optional sign and decimal digits
abbrev pub add_digits : ℕ → Text → Option ℕ
add_digits n [] = some n
add_digits n (c ∷ s) =
    let rest = add_digits (n * 10 + (c - 48)) s in if leb 48 c && leb c 57 then rest else none

unfoldable pub parse_digits : Text → Option ℕ
parse_digits [] = none
parse_digits (c ∷ s) = add_digits 0 (c ∷ s)

unfoldable pub parse_positive : Text → Option ℕ
unfolding parse_digits
parse_positive [] = none
parse_positive (c ∷ s) =
    let unsigned = parse_digits s in if nat_eq c 43 then unsigned else parse_digits (c ∷ s)

-- `hex.DecodeString`
abbrev pub hex_digit : ℕ → Option ℕ
hex_digit c =
    if leb 48 c && leb c 57
    then some (c - 48)
    else if leb 97 c && leb c 102
    then some (c - 87)
    else if leb 65 c && leb c 70
    then some (c - 55)
    else none

abbrev pub push_byte : Option ℕ → Option ℕ → Option Text → Option Text
push_byte (some a) (some b) (some s) = some ((a * 16 + b) ∷ s)
push_byte _ _ _ = none

unfoldable pub decode_hex : Text → Option Text
decode_hex [] = some []
decode_hex (_ ∷ []) = none
decode_hex (a ∷ b ∷ s) = push_byte (hex_digit a) (hex_digit b) (decode_hex s)

-- the decoder of a format, by its name
unfoldable pub decode_field : Text → Text → Option Text
unfolding decode_hex
decode_field format s =
    if format == codes "pbkdf2"
    then decode_hex s
    else if format == codes "pbkdf2-sha256"
    then decode s
    else none

abbrev pub is_sized : ℕ → Text → Bool
is_sized limit s = not (s == []) && leb (length s) limit

abbrev pub is_affordable : ℕ → Bool
is_affordable iterations = leb 1 iterations && leb iterations max_iterations

module _ (prf : Text → Text → Text) (hash_len : ℕ) where
  -- the comparison, once the fields are decoded
  unfoldable pub compare_key : Text → Option ℕ → Option Text → Option Text → Option Bool
  unfolding pbkdf2_key
  compare_key password (some iterations) (some salt) (some want) =
      if is_affordable iterations && (is_sized 128 salt && is_sized max_output_bytes want)
      then some (pbkdf2_key prf hash_len password salt iterations (length want) == want)
      else none
  compare_key password _ _ _ = none

  unfoldable pub verify_fields : Text → List Text → Option Bool
  unfolding compare_key parse_positive decode_field
  verify_fields password (format ∷ iterations ∷ salt ∷ want ∷ []) =
      compare_key password (parse_positive iterations) (decode_field format salt)
        (decode_field format want)
  verify_fields password _ = none

  -- `VerifyPBKDF2Record`, whose answer is none for a malformed record
  unfoldable pub verify_pbkdf2_record : Text → Text → Option Bool
  unfolding verify_fields split_on
  verify_pbkdf2_record record_text password = verify_fields password (split_on 36 record_text)
