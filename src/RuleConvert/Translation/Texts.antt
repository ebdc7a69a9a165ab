-- ===== src/RuleConvert/Translation/Texts.antt =====
-- Facts on texts: what trimming, cutting and counting parentheses do to the parts of a line
-- (internal/ruleconvert/rules.go).
use boxctl.Base.{
  ℕ, ◌+◌, ◌-◌, ◌≡◌, refl, Bool, true, false, List, [], ◌∷◌, ◌++◌, nat_eq, text_Eq, All, arith,
}
use boxctl.Base.Text.{Text, contains}
use boxctl.Base.Strings.{is_space, trim_front, trim_end, trim_space, ends_with}
use boxctl.RuleConvert.Library.{has_suffix, contains_any}
use boxctl.RuleConvert.Classical.{without_last}
use boxctl.RuleConvert.Operands.{closes, IsBalanced, wrap}
use mathlib.Core.List.{append_assoc}
pub use boxctl.Base.Strings.{cut-append, cut_plain}

trim_end-append :
    (p : ℕ → Bool) (s : Text) (c : ℕ) → p c ≡ false → trim_end p (s ++ c ∷ []) ≡ s ++ c ∷ []
unfolding trim_end
trim_end-append p [] c h = rw h
trim_end-append p (d ∷ []) c h = ground (arith, trim_end-append p [] c h)
trim_end-append p (d ∷ e ∷ s) c h = ground (arith, trim_end-append p (e ∷ s) c h)

pub trim_space-append :
    (a : ℕ) (s : Text) (c : ℕ)
    → is_space a ≡ false
    → is_space c ≡ false
    → trim_space (a ∷ (s ++ c ∷ [])) ≡ a ∷ (s ++ c ∷ [])
unfolding trim_space trim_front
trim_space-append a s c ha hc = rw ha (trim_end-append is_space (a ∷ s) c hc)

abbrev pub HasNoSpace : Text → Type 0
HasNoSpace s = All (λ c. is_space c ≡ false) s

trim_end-HasNoSpace : (s : Text) → HasNoSpace s → trim_end is_space s ≡ s
unfolding trim_end
trim_end-HasNoSpace [] h = refl
trim_end-HasNoSpace (c ∷ []) h = rw h.0
trim_end-HasNoSpace (c ∷ d ∷ s) h = rw (trim_end-HasNoSpace (d ∷ s) h.1)

pub trim_space-HasNoSpace : (s : Text) → HasNoSpace s → trim_space s ≡ s
unfolding trim_space trim_front trim_end
trim_space-HasNoSpace [] h = refl
trim_space-HasNoSpace (c ∷ s) h = rw h.0 (trim_end-HasNoSpace (c ∷ s) h)

pub without_last-append : (s : Text) (c : ℕ) → without_last (s ++ c ∷ []) ≡ s
without_last-append [] c = refl
without_last-append (d ∷ []) c = refl
without_last-append (d ∷ e ∷ s) c = rw (without_last-append (e ∷ s) c)

pub ends_with-append : (x : ℕ) (s : Text) → ends_with x (s ++ x ∷ []) ≡ true
unfolding ends_with
ends_with-append x [] = ground arith
ends_with-append x (d ∷ []) = ground arith
ends_with-append x (d ∷ e ∷ s) = ends_with-append x (e ∷ s)

pub has_suffix-contains : (c : ℕ) (s t : Text) → contains c s ≡ false → has_suffix s (c ∷ t) ≡ false
unfolding has_suffix
has_suffix-contains c [] t h = refl
has_suffix-contains c (d ∷ s) t h = ground (arith, has_suffix-contains c s t)

pub contains-contains_any :
    (c : ℕ) (s chars : Text)
    → contains_any s chars ≡ false
    → contains c chars ≡ true
    → contains c s ≡ false
unfolding contains_any
contains-contains_any c [] chars h k = refl
contains-contains_any c (d ∷ s) chars h k = ground (arith, contains-contains_any c s chars)

pub closes_plain :
    (n : ℕ) (s : Text) → contains b'(' s ≡ false → contains b')' s ≡ false → closes n s ≡ nat_eq n 0
closes_plain n [] h k = refl
closes_plain n (c ∷ s) h k = ground (arith, closes_plain n s)

-- behind a text whose parentheses match, as many are open as before
pub closes-append :
    (m n : ℕ) (s t : Text) → closes m s ≡ true → closes (m + n) (s ++ t) ≡ closes n t
closes-append m n [] t h = ground arith
closes-append m n (c ∷ s) t h =
    ground (arith, closes-append (m + 1) n s t, closes-append (m - 1) n s t, closes-append m n s t)

pub closes-balanced : (n : ℕ) (s t : Text) → IsBalanced s → closes n (s ++ t) ≡ closes n t
closes-balanced n s t h = ground (arith, closes-append 0 n s t)

pub closes-wrap :
    (n : ℕ) (lines : List Text) (t : Text)
    → All IsBalanced lines
    → closes n (wrap lines ++ t) ≡ closes n t
closes-wrap n [] t h = refl
closes-wrap n (x ∷ []) t h =
    ground (arith, append_assoc x (b')' ∷ []) t, closes-balanced (n + 1) x (b')' ∷ t))
closes-wrap n (x ∷ y ∷ ys) t h = ground (
  arith,
  append_assoc x (b')' ∷ b',' ∷ wrap (y ∷ ys)) t,
  closes-balanced (n + 1) x (b')' ∷ b',' ∷ (wrap (y ∷ ys) ++ t)),
  closes-wrap n (y ∷ ys) t,
)
