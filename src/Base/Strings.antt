-- ===== src/Base/Strings.antt =====
-- What the program uses of Go's `strings` and `utf8`, over code points. A byte that decodes to no
-- code point is a number from 0x110000 on, and is one byte long.
use Prim.Native.Nat.{ℕ, ◌+◌}
use mathlib.Core.Path.{◌≡◌, refl}
use mathlib.Core.Option.{Option, none, some}
use native.Mathlib.Omega.{arith}
use mathlib.Core.Bool.{Bool, true, false, ◌||◌, ◌&&◌}
use mathlib.Core.List.{[], ◌∷◌, ◌++◌}
use boxctl.Base.Tests.{nat_eq, ltb, leb, if◌then◌else◌}
use boxctl.Base.Text.{Text, contains}

-- `unicode.IsSpace`
unfoldable pub is_space : ℕ → Bool
is_space c =
    (leb 0x9 c && leb c 0xd)
    || (nat_eq c 0x20
        || (nat_eq c 0x85
            || (nat_eq c 0xa0
                || (nat_eq c 0x1680
                    || ((leb 0x2000 c && leb c 0x200a)
                        || (nat_eq c 0x2028
                            || (nat_eq c 0x2029
                                || (nat_eq c 0x202f || (nat_eq c 0x205f || nat_eq c 0x3000)))))))))

-- the text without the characters of a class at its front, and at its end
unfoldable pub trim_front : (ℕ → Bool) → Text → Text
trim_front p [] = []
trim_front p (c ∷ s) = let rest = trim_front p s in if p c then rest else c ∷ s

abbrev pub cons_unless_blank : (ℕ → Bool) → ℕ → Text → Text
cons_unless_blank p c [] = if p c then [] else c ∷ []
cons_unless_blank p c (d ∷ s) = c ∷ d ∷ s

unfoldable pub trim_end : (ℕ → Bool) → Text → Text
trim_end p [] = []
trim_end p (c ∷ s) = cons_unless_blank p c (trim_end p s)

-- `strings.TrimSpace`
unfoldable pub trim_space : Text → Text
unfolding trim_front trim_end is_space
trim_space s = trim_end is_space (trim_front is_space s)

-- `strings.HasPrefix` and `strings.TrimPrefix`
unfoldable pub has_prefix : Text → Text → Bool
has_prefix s [] = true
has_prefix [] (p ∷ ps) = false
has_prefix (c ∷ s) (p ∷ ps) = nat_eq c p && has_prefix s ps

abbrev pub drop_prefix : Text → Text → Text
drop_prefix s [] = s
drop_prefix [] (p ∷ ps) = []
drop_prefix (c ∷ s) (p ∷ ps) = drop_prefix s ps

unfoldable pub trim_prefix : Text → Text → Text
unfolding has_prefix
trim_prefix s prefix = if has_prefix s prefix then drop_prefix s prefix else s

-- `strings.HasSuffix` of one character
unfoldable pub ends_with : ℕ → Text → Bool
ends_with x [] = false
ends_with x (c ∷ []) = nat_eq c x
ends_with x (c ∷ d ∷ s) = ends_with x (d ∷ s)

-- `strings.ReplaceAll(s, "\r\n", "\n")` and `strings.ReplaceAll(s, "\r", "\n")`
unfoldable pub replace_crlf : Text → Text
replace_crlf [] = []
replace_crlf (c ∷ []) = c ∷ []
replace_crlf (c ∷ d ∷ s) =
    let after_both = replace_crlf s in
    let after_one = replace_crlf (d ∷ s) in
    if nat_eq c 13 && nat_eq d 10 then 10 ∷ after_both else c ∷ after_one

unfoldable pub replace_carriage : Text → Text
replace_carriage [] = []
replace_carriage (c ∷ s) = (if nat_eq c 13 then 10 else c) ∷ replace_carriage s

-- the bytes of a code point in UTF-8
abbrev pub rune_length : ℕ → ℕ
rune_length c =
    if ltb c 0x80
    then 1
    else if ltb c 0x800
    then 2
    else if ltb c 0x10000
    then 3
    else if ltb c 0x110000
    then 4
    else 1

-- `len`
unfoldable pub byte_length : Text → ℕ
byte_length [] = 0
byte_length (c ∷ s) = rune_length c + byte_length s

-- `utf8.ValidString`
unfoldable pub valid_utf8 : Text → Bool
valid_utf8 [] = true
valid_utf8 (c ∷ s) = ltb c 0x110000 && valid_utf8 s

-- `strings.Cut` at one character: what stands before it, and what behind it if it is there
abbrev pub cons_front : ℕ → Text × Option Text → Text × Option Text
cons_front c (front, back) = (c ∷ front, back)

unfoldable pub cut : ℕ → Text → Text × Option Text
cut sep [] = ([], none)
cut sep (c ∷ s) = let rest = cons_front c (cut sep s) in if nat_eq c sep then ([], some s) else rest

pub cut-append :
    (sep : ℕ) (s rest : Text) → contains sep s ≡ false → cut sep (s ++ sep ∷ rest) ≡ (s, some rest)
unfolding cut
cut-append sep [] rest h = ground arith
cut-append sep (c ∷ s) rest h = ground (arith, cut-append sep s rest)

pub cut_plain : (sep : ℕ) (s : Text) → contains sep s ≡ false → cut sep s ≡ (s, none)
unfolding cut
cut_plain sep [] h = refl
cut_plain sep (c ∷ s) h = ground (arith, cut_plain sep s)

-- `strings.TrimSuffix(line, "\r")`
unfoldable pub trim_return : Text → Text
trim_return [] = []
trim_return (c ∷ []) = if nat_eq c 13 then [] else c ∷ []
trim_return (c ∷ d ∷ s) = c ∷ trim_return (d ∷ s)

pub trim_return_plain : (s : Text) → contains 13 s ≡ false → trim_return s ≡ s
unfolding trim_return
trim_return_plain [] h = refl
trim_return_plain (c ∷ []) h = ground arith
trim_return_plain (c ∷ d ∷ s) h = ground (arith, trim_return_plain (d ∷ s))
