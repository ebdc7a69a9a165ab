-- ===== src/Base/Text.antt =====
-- Texts as lists of numbers: `strings.Split` and `strings.Join` by one byte, and what they undo.
use Prim.Native.Nat.{ℕ}
use Prim.Native.Char.{code}
use Prim.Native.String.{String}
use mathlib.Core.Path.{◌≡◌, refl}
use mathlib.Core.Bool.{Bool, false, ◌||◌}
use mathlib.Core.Logic.{◌≢◌}
use mathlib.Core.List.{List, [], ◌∷◌, ◌++◌}
use native.Mathlib.Omega.{arith}
use boxctl.Base.Tests.{nat_eq, if◌then◌else◌}

-- A text: code points, or bytes where the program handles bytes.
abbrev pub Text : Type 0
Text = List ℕ

abbrev pub codes : String → Text
codes String.[] = []
codes (String.◌∷◌ c s) = code c ∷ codes s

abbrev pub contains : ℕ → Text → Bool
contains c [] = false
contains c (x ∷ xs) = nat_eq x c || contains c xs

abbrev pub push_head : ℕ → List Text → List Text
push_head x [] = (x ∷ []) ∷ []
push_head x (p ∷ ps) = (x ∷ p) ∷ ps

-- `strings.Split` with a separator of one byte
unfoldable pub split_on : ℕ → Text → List Text
split_on sep [] = [] ∷ []
split_on sep (x ∷ xs) =
    let rest = split_on sep xs in if nat_eq x sep then [] ∷ rest else push_head x rest

-- `strings.Join`
abbrev pub join_on : ℕ → List Text → Text
join_on sep [] = []
join_on sep (p ∷ []) = p
join_on sep (p ∷ q ∷ ps) = p ++ sep ∷ join_on sep (q ∷ ps)

pub split_on_plain : (sep : ℕ) (p : Text) → contains sep p ≡ false → split_on sep p ≡ p ∷ []
unfolding split_on
split_on_plain sep [] h = refl
split_on_plain sep (x ∷ xs) h = ground (arith, split_on_plain sep xs)

pub split_on-append :
    (sep : ℕ) (p rest : Text)
    → contains sep p ≡ false
    → split_on sep (p ++ sep ∷ rest) ≡ p ∷ split_on sep rest
unfolding split_on
split_on-append sep [] rest h = ground arith
split_on-append sep (x ∷ xs) rest h = ground (arith, split_on-append sep xs rest)

pub split_on-ne-nil : (sep : ℕ) (s : Text) → split_on sep s ≢ []
unfolding split_on
split_on-ne-nil sep [] e = cc
split_on-ne-nil sep (x ∷ xs) e = ground arith

join_on-push_head :
    (sep x : ℕ) (ps : List Text) → ps ≢ [] → join_on sep (push_head x ps) ≡ x ∷ join_on sep ps
join_on-push_head sep x [] h = absurd (h refl)
join_on-push_head sep x (p ∷ []) h = refl
join_on-push_head sep x (p ∷ q ∷ ps) h = refl

join_on-nil_head :
    (sep : ℕ) (ps : List Text) → ps ≢ [] → join_on sep ([] ∷ ps) ≡ sep ∷ join_on sep ps
join_on-nil_head sep [] h = absurd (h refl)
join_on-nil_head sep (p ∷ ps) h = refl

pub join_on-split_on : (sep : ℕ) (s : Text) → join_on sep (split_on sep s) ≡ s
unfolding split_on
join_on-split_on sep [] = refl
join_on-split_on sep (x ∷ xs) = ground (
  arith,
  join_on-split_on sep xs,
  join_on-push_head sep x (split_on sep xs) (split_on-ne-nil sep xs),
  join_on-nil_head sep (split_on sep xs) (split_on-ne-nil sep xs),
)
