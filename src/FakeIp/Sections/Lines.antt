-- ===== src/FakeIp/Sections/Lines.antt =====
-- Raw lines of a content and their texts (`sourceLines` of internal/fakeip/store.go).
use mathlib.Core.List.{append_assoc, append-nil}
use boxctl.Base.{
  ℕ, ◌≡◌, ◌⊎◌, inl, inr, refl, sym, ap, ◌∙◌, Bool, true, false, ◌&&◌, not, List, [], ◌∷◌, ◌++◌,
  nat_eq, arith, Bool-cases,
}
use boxctl.Base.Text.{Text, contains}
use boxctl.FakeIp.Sections.{newline, raw_lines, push_raw}

abbrev pub flat : List Text → Text
flat [] = []
flat (l ∷ ls) = l ++ flat ls

-- a line with its line feed, and no other line feed
unfoldable pub is_full : Text → Bool
is_full [] = false
is_full (c ∷ []) = nat_eq c newline
is_full (c ∷ d ∷ s) = not (nat_eq c newline) && is_full (d ∷ s)

-- a last line without a line feed
unfoldable pub is_open : Text → Bool
is_open [] = false
is_open (c ∷ s) = not (contains newline (c ∷ s))

abbrev pub AllFull : List Text → Type 0
AllFull [] = Unit
AllFull (l ∷ ls) = (is_full l ≡ true) × AllFull ls

-- all lines are full, but for a last one that may be open
abbrev pub AllLines : List Text → Type 0
AllLines [] = Unit
AllLines (l ∷ []) = (is_full l ≡ true) ⊎ (is_open l ≡ true)
AllLines (l ∷ m ∷ ls) = (is_full l ≡ true) × AllLines (m ∷ ls)

-- A content ends with a line feed, or is empty.
abbrev pub Ended : Text → Type 0
Ended s = AllFull (raw_lines s)

flat-push_raw : (c : ℕ) (ls : List Text) → flat (push_raw c ls) ≡ c ∷ flat ls
flat-push_raw c [] = refl
flat-push_raw c (l ∷ ls) = refl

pub flat-raw_lines : (s : Text) → flat (raw_lines s) ≡ s
unfolding raw_lines
flat-raw_lines [] = refl
flat-raw_lines (c ∷ s) = ground (arith, flat-raw_lines s, flat-push_raw c (raw_lines s))

raw_lines-full : (l s : Text) → is_full l ≡ true → raw_lines (l ++ s) ≡ l ∷ raw_lines s
unfolding is_full raw_lines
raw_lines-full [] s h = cc
raw_lines-full (c ∷ []) s h = ground arith
raw_lines-full (c ∷ d ∷ l) s h = ground (arith, raw_lines-full (d ∷ l) s)

raw_lines-open : (l : Text) → is_open l ≡ true → raw_lines l ≡ l ∷ []
unfolding is_open raw_lines
raw_lines-open [] h = cc
raw_lines-open (c ∷ []) h = ground arith
raw_lines-open (c ∷ d ∷ l) h = ground (arith, raw_lines-open (d ∷ l))

push_raw-AllLines :
    (c : ℕ) (ls : List Text) → nat_eq c newline ≡ false → AllLines ls → AllLines (push_raw c ls)
unfolding is_full is_open
push_raw-AllLines c [] n h = ground arith
push_raw-AllLines c ([] ∷ []) n h = ground arith
push_raw-AllLines c ((d ∷ l) ∷ []) n h = ground arith
push_raw-AllLines c ([] ∷ m ∷ ls) n h = cc
push_raw-AllLines c ((d ∷ l) ∷ m ∷ ls) n h = (ground arith, h.1)

cons-AllLines :
    (c : ℕ) (ls : List Text) → nat_eq c newline ≡ true → AllLines ls → AllLines ((c ∷ []) ∷ ls)
unfolding is_full
cons-AllLines c [] n h = inl n
cons-AllLines c (l ∷ ls) n h = (n, h)

pub raw_lines-AllLines : (s : Text) → AllLines (raw_lines s)
unfolding raw_lines
raw_lines-AllLines [] = tt
raw_lines-AllLines (c ∷ s) = elim (Bool-cases (nat_eq c newline)) [
  | inl t ↦ rw t (cons-AllLines c (raw_lines s) t (raw_lines-AllLines s))
  | inr f ↦ rw f (push_raw-AllLines c (raw_lines s) f (raw_lines-AllLines s))
]

pub raw_lines-flat : (ls : List Text) → AllLines ls → raw_lines (flat ls) ≡ ls
raw_lines-flat [] h = unfold raw_lines in refl
raw_lines-flat (l ∷ []) (inl f) = raw_lines-full l [] f ∙ ap (λ t. l ∷ t) (unfold raw_lines in refl)
raw_lines-flat (l ∷ []) (inr o) = rw append-nil (raw_lines-open l o)
raw_lines-flat (l ∷ m ∷ ls) h =
    raw_lines-full l (flat (m ∷ ls)) h.0 ∙ ap (λ t. l ∷ t) (raw_lines-flat (m ∷ ls) h.1)

-- lines before a full end stay lines
pub raw_lines-append : (s t : Text) → Ended s → raw_lines (s ++ t) ≡ raw_lines s ++ raw_lines t
raw_lines-append s t h = ap (λ x. raw_lines (x ++ t)) (sym (flat-raw_lines s)) ∙ go (raw_lines s) h
  where
    go : (ls : List Text) → AllFull ls → raw_lines (flat ls ++ t) ≡ ls ++ raw_lines t
    go [] f = refl
    go (l ∷ ls) f =
        rw append_assoc (raw_lines-full l (flat ls ++ t) f.0 ∙ ap (λ x. l ∷ x) (go ls f.1))

AllFull-AllLines : (ls : List Text) → AllFull ls → AllLines ls
AllFull-AllLines [] h = tt
AllFull-AllLines (l ∷ []) h = inl h.0
AllFull-AllLines (l ∷ m ∷ ls) h = (h.0, AllFull-AllLines (m ∷ ls) h.1)

-- the parts of a list of lines
pub AllLines-append :
    (xs : List Text) (y : Text) (ys : List Text)
    → AllLines (xs ++ y ∷ ys)
    → AllFull xs × AllLines (y ∷ ys)
AllLines-append [] y ys h = (tt, h)
AllLines-append (x ∷ []) y ys h = ((h.0, tt), h.1)
AllLines-append (x ∷ x' ∷ xs) y ys h =
    let (f, g) = AllLines-append (x' ∷ xs) y ys h.1 in ((h.0, f), g)
