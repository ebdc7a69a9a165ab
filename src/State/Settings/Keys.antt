-- ===== src/State/Settings/Keys.antt =====
-- What `ParseSettings` reads can be written again, but for carriage returns
-- (internal/state/settings.go).
use boxctl.Base.{
  ◌≡◌, ◌⊎◌, refl, Bool, ◌||◌, nat_eq, true, arith, ℕ, All, false, Option, none, some, List, [], ◌∷◌,
  ◌++◌, text_Eq, lookup, if◌then◌else◌, Bool-cases, inl, inr,
}
use boxctl.Base.Text.{Text, contains, push_head, split_on}
use boxctl.Base.Strings.{trim_space, cut, cons_front, trim_return}
use boxctl.Base.Answers.{ok, err, Ensures, fails, gives, Ensures-if, Ensures-ok}
use boxctl.State.Settings.Order.{lookup-none, IsMap}
use boxctl.State.Settings.RoundTrip.{lookup_other, parse_settings-marshal_settings}
use boxctl.State.Settings.{
  Settings, Result, is_set, is_key, entry_of, and_entry, is_skipped, parse_lines, parse_settings,
  sort_entries, marshal_settings, check_entries, invalid_value, render,
}

add-IsMap :
    (acc : Settings) (key value : Text)
    → IsMap acc
    → lookup key acc ≡ none
    → IsMap (acc ++ (key, value) ∷ [])
add-IsMap [] key value h fresh = (refl, tt)
add-IsMap ((j, w) ∷ acc) key value (first, h) fresh =
    let (other, absent) = lookup-none key j w acc fresh in
    (lookup_other acc key value j other first, add-IsMap acc key value h absent)

is_set-none : (o : Option Text) → is_set o ≡ false → o ≡ none
is_set-none none h = refl
is_set-none (some value) h = cc

-- an entry that can be read: its value may have a carriage return, but no line break
abbrev IsSound : Text × Text → Type 0
IsSound (key, value) =
    (is_key key ≡ true) × (contains 0 value ≡ false) × (contains 10 value ≡ false)

abbrev IsRead : Settings → Type 0
IsRead m = IsMap m × All IsSound m

add-AllSound :
    (acc : Settings) (e : Text × Text) → All IsSound acc → IsSound e → All IsSound (acc ++ e ∷ [])
add-AllSound [] e h k = (k, tt)
add-AllSound (f ∷ acc) e (first, h) k = (first, add-AllSound acc e h k)

-- no line break in the value
abbrev IsPlain : Text × Option Text → Type 0
IsPlain (key, none) = Unit
IsPlain (key, some value) = contains 10 value ≡ false

and_entry-IsRead :
    (next : Settings → Result Settings) (acc : Settings) (parts : Text × Option Text)
    → IsPlain parts
    → IsRead acc
    → ((more : Settings) → IsRead more → Ensures IsRead (next more))
    → Ensures IsRead (and_entry next acc (entry_of acc parts))
and_entry-IsRead next acc (key, none) one_line h rest = fails _
and_entry-IsRead next acc (key, some value) one_line (distinct, sound) rest =
    elim (Bool-cases (is_key key)) [
      | inr bad ↦ rw bad (fails _)
      | inl good ↦ elim (Bool-cases (is_set (lookup key acc))) [
        | inl again ↦ rw good (rw again (fails _))
        | inr fresh ↦ elim (Bool-cases (contains 0 value)) [
          | inl nul ↦ rw good (rw fresh (rw nul (fails _)))
          | inr plain ↦
              let grown : IsRead (acc ++ (key, value) ∷ []) = (
                add-IsMap acc key value distinct (is_set-none (lookup key acc) fresh),
                add-AllSound acc (key, value) sound (good, plain, one_line),
              ) in
              rw good (rw fresh (rw plain (rest (acc ++ (key, value) ∷ []) grown)))
        ]
      ]
    ]

-- the lines have no line break
abbrev IsLine : Text → Type 0
IsLine s = contains 10 s ≡ false

push_head-IsLine :
    (x : ℕ) (ps : List Text) → nat_eq x 10 ≡ false → All IsLine ps → All IsLine (push_head x ps)
push_head-IsLine x [] h k = (rw h refl, tt)
push_head-IsLine x (p ∷ ps) h (first, k) = (rw h first, k)

split_on-IsLine : (s : Text) → All IsLine (split_on 10 s)
unfolding split_on
split_on-IsLine [] = (refl, tt)
split_on-IsLine (x ∷ s) = elim (Bool-cases (nat_eq x 10)) [
  | inl ended ↦ rw ended (refl, split_on-IsLine s)
  | inr goes_on ↦ rw goes_on (push_head-IsLine x (split_on 10 s) goes_on (split_on-IsLine s))
]

trim_return-IsLine : (s : Text) → IsLine s → IsLine (trim_return s)
unfolding trim_return
trim_return-IsLine [] h = refl
trim_return-IsLine (c ∷ []) h = ground arith
trim_return-IsLine (c ∷ d ∷ s) h = ground (arith, trim_return-IsLine (d ∷ s))

cons_front-IsPlain :
    (c : ℕ) (parts : Text × Option Text) → IsPlain parts → IsPlain (cons_front c parts)
cons_front-IsPlain c (key, none) h = tt
cons_front-IsPlain c (key, some value) h = h

tail-IsLine : (c : ℕ) (s : Text) → IsLine (c ∷ s) → IsLine s
tail-IsLine c s h = ground arith

cut-IsPlain : (s : Text) → IsLine s → IsPlain (cut b'=' s)
unfolding cut
cut-IsPlain [] h = tt
cut-IsPlain (c ∷ s) h = elim (Bool-cases (nat_eq c b'=')) [
  | inl found ↦ rw found (tail-IsLine c s h)
  | inr before ↦ rw before (cons_front-IsPlain c (cut b'=' s) (cut-IsPlain s (tail-IsLine c s h)))
]

parse_lines-IsRead :
    (lines : List Text) (acc : Settings)
    → All IsLine lines
    → IsRead acc
    → Ensures IsRead (parse_lines lines acc)
unfolding parse_lines
parse_lines-IsRead [] acc k h = gives acc h
parse_lines-IsRead (raw ∷ lines) acc (first, k) h =
    Ensures-if (is_skipped (trim_space (trim_return raw))) (parse_lines-IsRead lines acc k h) (
      and_entry-IsRead (parse_lines lines) acc (cut b'=' (trim_return raw))
        (cut-IsPlain (trim_return raw) (trim_return-IsLine raw first)) h
        (λ more. parse_lines-IsRead lines more k))

-- a value has a carriage return
abbrev pub has_return : Settings → Bool
has_return [] = false
has_return ((key, value) ∷ m) = contains 13 value || has_return m

check_entries_lem :
    (m : Settings)
    → All IsSound m
    → check_entries m ≡ (if has_return m then err invalid_value else ok tt)
check_entries_lem [] h = refl
check_entries_lem ((key, value) ∷ m) ((good, no_nul, no_break), h) =
    elim (Bool-cases (contains 13 value)) [
      | inl return ↦ rw good (rw no_nul (rw return refl))
      | inr plain ↦ rw good (rw no_nul (rw plain (rw no_break (check_entries_lem m h))))
    ]

-- Whatever a settings file holds, if it can be read, no key of what is read stands twice. Writing
-- what is read is refused for its values if one of them has a carriage return, and otherwise gives
-- a text that is read back as the same entries in the order of their keys.
pub marshal_settings-parse_settings :
    (source : Text) (m : Settings)
    → parse_settings source ≡ ok m
    → IsMap m
      × (((has_return m ≡ true) × (marshal_settings m ≡ err invalid_value))
          ⊎ ((has_return m ≡ false)
              × (text : Text) × (marshal_settings m ≡ ok text)
              × (parse_settings text ≡ ok (sort_entries m))))
unfolding parse_settings marshal_settings
marshal_settings-parse_settings source m h =
    let (distinct, sound) =
      Ensures-ok m (parse_lines-IsRead (split_on 10 source) [] (split_on-IsLine source) (tt, tt))
        h in
    let checked = check_entries_lem m sound in
    (
      distinct,
      elim (Bool-cases (has_return m)) [
        | inl return ↦ inl (return, rw checked (rw return refl))
        | inr plain ↦
            let written : marshal_settings m ≡ ok (render (sort_entries m)) =
              rw checked (rw plain refl) in
            inr (
              plain,
              render (sort_entries m),
              written,
              (parse_settings-marshal_settings m (render (sort_entries m)) distinct written).0,
            )
      ],
    )
