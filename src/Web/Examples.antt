-- ===== src/Web/Examples.antt =====
-- Runs of PBKDF2 (internal/web/auth.go) over a toy hash of two bytes.
use boxctl.Base.{ℕ, ◌+◌, ◌%◌, ◌≡◌, refl, none, [], ◌∷◌, length, arith}
use boxctl.Base.Text.{Text, codes}
use boxctl.Web.Password.{pbkdf2_key, verify_pbkdf2_record}
use boxctl.Web.Password.Length.{length-pbkdf2_key}

abbrev sum : Text → ℕ
sum [] = 7
sum (c ∷ s) = (c + sum s) % 256

abbrev toy : Text → Text → Text
toy key message = sum key ∷ (sum message ∷ [])

length-pbkdf2_key_example : length (pbkdf2_key toy 2 (codes "pw") (codes "salt") 3 5) ≡ 5
length-pbkdf2_key_example =
    length-pbkdf2_key toy 2 (λ key message. refl) (codes "pw") (codes "salt") 3 5 (omega arith)

-- no iterations, and an output that is too long
refuses_zero_iterations : verify_pbkdf2_record toy 2 (codes "pbkdf2$0$00$00") (codes "pw") ≡ none
unfolding verify_pbkdf2_record
refuses_zero_iterations = refl

refuses_other_formats : verify_pbkdf2_record toy 2 (codes "scrypt$1$00$00") (codes "pw") ≡ none
unfolding verify_pbkdf2_record
refuses_other_formats = refl
