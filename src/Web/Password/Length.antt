-- ===== src/Web/Password/Length.antt =====
-- The length of a derived key (`pbkdf2Key` of internal/web/auth.go), which its last slice relies on.
use native.Mathlib.Nat.{suc-mul, mod-lt, div-add-mod'}
use boxctl.Base.{
  ℕ, zero, suc, ◌+◌, ◌-◌, ◌*◌, ◌/◌, ◌%◌, ◌≤◌, ◌<◌, ◌≡◌, refl, ap, ◌∙◌, [], ◌∷◌, ◌++◌, length,
  length-append, arith,
}
use boxctl.Base.Text.{Text}
use boxctl.Web.Password.{
  xor_bytes, big_endian, take_bytes, iterate, pbkdf2_block, pbkdf2_blocks, pbkdf2_key,
}

length-xor_bytes : (t u : Text) → length (xor_bytes t u) ≡ length t
unfolding xor_bytes
length-xor_bytes [] u = refl
length-xor_bytes (a ∷ t) [] = refl
length-xor_bytes (a ∷ t) (b ∷ u) = ap suc (length-xor_bytes t u)

length-take_bytes : (n : ℕ) (s : Text) → n ≤ length s → length (take_bytes n s) ≡ n
length-take_bytes zero s le = refl
length-take_bytes (suc n) [] le = omega arith
length-take_bytes (suc n) (c ∷ s) le = ap suc (length-take_bytes n s (omega arith))

module _ (prf : Text → Text → Text) (hash_len : ℕ)
    (sized : (key message : Text) → length (prf key message) ≡ hash_len) where
  length-iterate :
      (n : ℕ) (password u t : Text) → length (iterate prf hash_len n password u t) ≡ length t
  unfolding iterate
  length-iterate zero password u t = refl
  length-iterate (suc n) password u t =
      length-iterate n password (prf password u) (xor_bytes t (prf password u))
      ∙ length-xor_bytes t (prf password u)

  length-pbkdf2_blocks :
      (left : ℕ) (password salt : Text) (iterations block : ℕ)
      → length (pbkdf2_blocks prf hash_len left password salt iterations block) ≡ left * hash_len
  unfolding pbkdf2_blocks pbkdf2_block
  length-pbkdf2_blocks zero password salt iterations block = omega arith
  length-pbkdf2_blocks (suc left) password salt iterations block =
      let u = prf password (salt ++ big_endian block) in
      let rest = length-pbkdf2_blocks left password salt iterations (block + 1) in
      length-append (iterate prf hash_len (iterations - 1) password u u) _
      ∙ rw
          (
            length-iterate (iterations - 1) password u u,
            sized password (salt ++ big_endian block),
            rest,
          )
          (distribute left)
    where
      distribute : (l : ℕ) → hash_len + l * hash_len ≡ suc l * hash_len
      distribute l = omega (arith, suc-mul l hash_len)

  -- The blocks that PBKDF2 derives have at least the bytes that are asked for, so that the key has
  -- exactly these: where the keyed hash always has results of one size that is not zero.
  pub length-pbkdf2_key :
      (password salt : Text) (iterations key_len : ℕ)
      → 0 < hash_len
      → length (pbkdf2_key prf hash_len password salt iterations key_len) ≡ key_len
  unfolding pbkdf2_key
  length-pbkdf2_key password salt iterations key_len positive =
      let blocks = (key_len + hash_len - 1) / hash_len in
      let whole : blocks * hash_len + (key_len + hash_len - 1) % hash_len ≡ key_len + hash_len - 1 =
        div-add-mod' (key_len + hash_len - 1) hash_len in
      let small = mod-lt (key_len + hash_len - 1) positive in
      let made = length-pbkdf2_blocks blocks password salt iterations 1 in
      length-take_bytes key_len (pbkdf2_blocks prf hash_len blocks password salt iterations 1)
        (omega (arith, whole, small, made))
