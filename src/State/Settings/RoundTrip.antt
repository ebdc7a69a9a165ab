-- ===== src/State/Settings/RoundTrip.antt =====
-- What `MarshalSettings` writes is what `ParseSettings` reads (internal/state/settings.go).
use boxctl.Base.{
  ℕ, ◌≡◌, ◌≢◌, refl, sym, ap, ◌∙◌, Bool, true, false, ◌||◌, ◌&&◌, not, none, some, List, [], ◌∷◌,
  ◌++◌, nat_eq, leb, text_Eq, ◌==◌, list_eq_iff, lookup, Bool-cases, inl, inr, ◌⊎◌, arith,
  nat_eq_iff,
}
use boxctl.Base.Text.{Text, contains, split_on, split_on-append}
use boxctl.Base.Strings.{
  has_prefix, trim_space, trim_front, trim_end, is_space, cons_unless_blank, cut-append,
  trim_return_plain,
}
use boxctl.Base.Answers.{ok, fail_if-eq-ok, >>=-eq-ok}
use mathlib.Core.List.{append_assoc, append-nil}
use boxctl.State.Settings.Order.{
  IsClean, AllClean, IsMap, lookup-sort_entries, sort_entries-IsMap, sort_entries-AllClean,
}
use boxctl.State.Settings.{
  Settings, is_key, is_key_start, is_key_part, entry_of, is_skipped, parse_lines, parse_settings,
  sort_entries, check_entries, render, marshal_settings,
}

Bool-clash : true ≢ false
Bool-clash e = cc

both_of : (a b : Bool) → (a && b) ≡ true → (a ≡ true) × (b ≡ true)
both_of true b h = (refl, h)
both_of false b h = cc

-- a key of the one map is not a key of the other
abbrev AreApart : Settings → Settings → Type 0
AreApart l m = (key : Text) → (lookup key l ≡ none) ⊎ (lookup key m ≡ none)

check_entries-AllClean : (m : Settings) → check_entries m ≡ ok tt → AllClean m
unfolding IsClean
check_entries-AllClean [] h = tt
check_entries-AllClean ((key, value) ∷ m) h =
    let (is_fine, h1) = fail_if-eq-ok (not (is_key key)) _ _ h in
    let (no_break, h2) =
      fail_if-eq-ok (contains 0 value || (contains 13 value || contains 10 value)) _ _ h1 in
    ((ground arith, ground arith, ground arith, ground arith), check_entries-AllClean m h2)

-- the characters of a key
abbrev is_part : ℕ → Bool
is_part c = is_key_start c || (leb 48 c && leb c 57)

other_character : (p : ℕ → Bool) (c x : ℕ) → p c ≡ false → p x ≡ true → nat_eq x c ≡ false
other_character p c x f h = elim (Bool-cases (nat_eq x c)) [
  | inl e ↦ let same : x ≡ c = (nat_eq_iff x c).0 e in absurd (Bool-clash (sym h ∙ ap p same ∙ f))
  | inr e ↦ e
]

key_part-contains :
    (c : ℕ) (key : Text) → is_part c ≡ false → is_key_part key ≡ true → contains c key ≡ false
key_part-contains c [] f h = refl
key_part-contains c (x ∷ key) f h =
    let (first, rest) = both_of (is_part x) (is_key_part key) h in
    rw (other_character is_part c x f first) (key_part-contains c key f rest)

start-part : (x : ℕ) → is_key_start x ≡ true → is_part x ≡ true
start-part x h = rw h refl

key-contains : (c : ℕ) (key : Text) → is_part c ≡ false → is_key key ≡ true → contains c key ≡ false
key-contains c [] f h = refl
key-contains c (x ∷ key) f h =
    let (first, rest) = both_of (is_key_start x) (is_key_part key) h in
    rw (other_character is_part c x f (start-part x first)) (key_part-contains c key f rest)

contains-append : (c : ℕ) (s t : Text) → contains c (s ++ t) ≡ (contains c s || contains c t)
contains-append c [] t = refl
contains-append c (x ∷ s) t = ground (arith, contains-append c s t)

-- a line that starts like a key is not skipped
start-is_space : (x : ℕ) → is_key_start x ≡ true → is_space x ≡ false
unfolding is_space
start-is_space x h = ground arith

start_not_sharp : (x : ℕ) → is_key_start x ≡ true → nat_eq x 35 ≡ false
start_not_sharp x h = ground arith

skips_by_head :
    (x : ℕ) (s : Text)
    → is_space x ≡ false
    → nat_eq x 35 ≡ false
    → is_skipped (cons_unless_blank is_space x s) ≡ false
unfolding has_prefix
skips_by_head x [] h k = rw h (rw k refl)
skips_by_head x (d ∷ s) h k = rw k refl

start-is_skipped :
    (x : ℕ) (s : Text) → is_key_start x ≡ true → is_skipped (trim_space (x ∷ s)) ≡ false
unfolding trim_space trim_front trim_end
start-is_skipped x s h =
    rw (start-is_space x h)
      (skips_by_head x (trim_end is_space s) (start-is_space x h) (start_not_sharp x h))

line-contains :
    (c : ℕ) (key value : Text)
    → nat_eq 61 c ≡ false
    → contains c key ≡ false
    → contains c value ≡ false
    → contains c (key ++ b'=' ∷ value) ≡ false
line-contains c key value h in_key in_value =
    contains-append c key (b'=' ∷ value) ∙ rw in_key (rw h in_value)

entry_of-ok :
    (acc : Settings) (key value : Text)
    → IsClean (key, value)
    → lookup key acc ≡ none
    → entry_of acc (key, some value) ≡ ok (key, value)
unfolding IsClean
entry_of-ok acc key value (good, no_nul, _, _) fresh = rw good (rw fresh (rw no_nul refl))

key-is_skipped :
    (key rest : Text) → is_key key ≡ true → is_skipped (trim_space (key ++ rest)) ≡ false
key-is_skipped [] rest h = absurd (Bool-clash (sym h))
key-is_skipped (x ∷ key) rest h =
    start-is_skipped x (key ++ rest) (both_of (is_key_start x) (is_key_part key) h).0

read_entry :
    (acc : Settings) (key value : Text) (lines : List Text)
    → IsClean (key, value)
    → lookup key acc ≡ none
    → parse_lines ((key ++ b'=' ∷ value) ∷ lines) acc ≡ parse_lines lines (acc ++ (key, value) ∷ [])
unfolding parse_lines IsClean
read_entry acc key value lines (good, no_nul, no_return, no_feed) fresh =
    let plain =
      trim_return_plain (key ++ b'=' ∷ value)
        (line-contains 13 key value refl (key-contains 13 key refl good) no_return) in
    rw plain (
      rw (key-is_skipped key (b'=' ∷ value) good) (
        rw (cut-append b'=' key value (key-contains b'=' key refl good))
          (rw (entry_of-ok acc key value (good, no_nul, no_return, no_feed) fresh) refl)))

pub lookup_other :
    (acc : Settings) (key value k : Text)
    → key == k ≡ false
    → lookup k acc ≡ none
    → lookup k (acc ++ (key, value) ∷ []) ≡ none
lookup_other [] key value k other h = rw other refl
lookup_other ((j, w) ∷ acc) key value k other h =
    ground (arith, lookup_other acc key value k, list_eq_iff j k)

AreApart-next :
    (acc : Settings) (key value : Text) (m : Settings)
    → lookup key m ≡ none
    → AreApart acc ((key, value) ∷ m)
    → AreApart (acc ++ (key, value) ∷ []) m
AreApart-next acc key value m fresh h k = elim (Bool-cases (key == k)) [
  | inl same ↦ inr (ap (λ j. lookup j m) (sym ((list_eq_iff key k).0 same)) ∙ fresh)
  | inr other ↦ elim (h k) [
    | inl absent ↦ inl (lookup_other acc key value k other absent)
    | inr absent ↦ inr (rw other at absent)
  ]
]

some-ne-none : (value : Text) → some value ≢ none
some-ne-none value e = cc

apart-head :
    (acc : Settings) (key value : Text) (m : Settings)
    → AreApart acc ((key, value) ∷ m)
    → lookup key acc ≡ none
apart-head acc key value m h = elim (h key) [
  | inl absent ↦ absent
  | inr absent ↦ absurd (some-ne-none value (rw ((list_eq_iff key key).1 refl) at absent))
]

parse_lines-render :
    (acc m : Settings)
    → AllClean m
    → IsMap m
    → AreApart acc m
    → parse_lines (split_on 10 (render m)) acc ≡ ok (acc ++ m)
unfolding render split_on parse_lines IsClean
parse_lines-render acc [] clean distinct apart = ap ok (sym (append-nil acc))
parse_lines-render acc ((key, value) ∷ m) (first, clean) (fresh, distinct) apart =
    let (good, no_nul, no_return, no_feed) = first in
    let one_line = line-contains 10 key value refl (key-contains 10 key refl good) no_feed in
    ap (λ s. parse_lines (split_on 10 s) acc)
      (sym (append_assoc key (b'=' ∷ value) (10 ∷ render m)))
    ∙ ap (λ l. parse_lines l acc) (split_on-append 10 (key ++ b'=' ∷ value) (render m) one_line)
    ∙ read_entry acc key value (split_on 10 (render m)) first (apart-head acc key value m apart)
    ∙ parse_lines-render (acc ++ (key, value) ∷ []) m clean distinct
        (AreApart-next acc key value m fresh apart)
    ∙ ap ok (append_assoc acc ((key, value) ∷ []) m)

-- What is written of a map of settings is read back: if it can be written, reading the text gives
-- its entries in the order of their keys, and they have every setting of the map and no other. The
-- map is an association list without a key that stands twice.
pub parse_settings-marshal_settings :
    (m : Settings) (text : Text)
    → IsMap m
    → marshal_settings m ≡ ok text
    → (parse_settings text ≡ ok (sort_entries m))
      × ((k : Text) → lookup k (sort_entries m) ≡ lookup k m)
unfolding parse_settings marshal_settings
parse_settings-marshal_settings m text distinct h =
    let (_, checked, written) = >>=-eq-ok (check_entries m) _ h in
    let same : text ≡ render (sort_entries m) = cc in
    (
      rw same (
          parse_lines-render [] (sort_entries m)
            (sort_entries-AllClean m (check_entries-AllClean m checked))
            (sort_entries-IsMap m distinct) (λ key. inl refl)),
      λ k. lookup-sort_entries m k distinct,
    )
