-- ===== src/RuleList/AutoPrefix/Lines.antt =====
-- The lines of a list with their prefixes (internal/rulelist/prefix.go).
use boxctl.Base.{
  ℕ, ◌≡◌, ◌≢◌, refl, sym, ap, ◌∙◌, Bool, true, false, ◌||◌, List, [], ◌∷◌, ◌++◌, nat_eq, text_Eq,
  ◌==◌, arith, Bool-cases, nat_eq_iff, inl, inr,
}
use boxctl.Base.Text.{
  Text, codes, split_on, join_on, contains, split_on_plain, split_on-append, push_head,
  split_on-ne-nil,
}
use boxctl.Base.Strings.{is_space, trim_space, trim_front, trim_end, cons_unless_blank}
use boxctl.RuleList.AutoPrefix.{
  newline, comma, leading, is_kept, prefix_line, prefix_lines, prefix_table, find_candidate,
  auto_prefix_for_name, auto_prefix_content, trim_suffix, map_text,
}

contains-append : (c : ℕ) (s t : Text) → contains c (s ++ t) ≡ (contains c s || contains c t)
contains-append c [] t = refl
contains-append c (x ∷ s) t = ground (arith, contains-append c s t)

contains-trim_front :
    (p : ℕ → Bool) (c : ℕ) (s : Text) → contains c (trim_front p s) ≡ true → contains c s ≡ true
unfolding trim_front
contains-trim_front p c [] h = h
contains-trim_front p c (x ∷ s) h = ground (arith, contains-trim_front p c s)

contains-trim_end :
    (p : ℕ → Bool) (c : ℕ) (s : Text) → contains c (trim_end p s) ≡ true → contains c s ≡ true
unfolding trim_end
contains-trim_end p c [] h = h
contains-trim_end p c (x ∷ s) h = go (trim_end p s) (contains-trim_end p c s) h
  where
    go :
        (t : Text)
        → (contains c t ≡ true → contains c s ≡ true)
        → contains c (cons_unless_blank p x t) ≡ true
        → contains c (x ∷ s) ≡ true
    go [] ih g = ground (arith, g)
    go (y ∷ t) ih g = ground (arith, ih, g)

-- A character that is in no class of blanks stays.
trim_front-contains :
    (p : ℕ → Bool) (c : ℕ) (s : Text)
    → p c ≡ false
    → contains c s ≡ true
    → contains c (trim_front p s) ≡ true
unfolding trim_front
trim_front-contains p c [] f h = h
trim_front-contains p c (x ∷ s) f h = elim (Bool-cases (nat_eq x c)) [
  | inl t ↦ let e : p x ≡ false = ap p ((nat_eq_iff x c).0 t) ∙ f in rw e h
  | inr n ↦
      let rest : contains c s ≡ true = ground (arith, h, n) in
      ground (arith, n, trim_front-contains p c s f rest)
]

trim_end-contains :
    (p : ℕ → Bool) (c : ℕ) (s : Text)
    → p c ≡ false
    → contains c s ≡ true
    → contains c (trim_end p s) ≡ true
unfolding trim_end
trim_end-contains p c [] f h = h
trim_end-contains p c (x ∷ s) f h = elim (Bool-cases (nat_eq x c)) [
  | inl t ↦ let e : p x ≡ false = ap p ((nat_eq_iff x c).0 t) ∙ f in first (trim_end p s) e t
  | inr n ↦
      let rest : contains c s ≡ true = ground (arith, h, n) in
      later (trim_end p s) (trim_end-contains p c s f rest)
]
  where
    first :
        (t : Text) → p x ≡ false → nat_eq x c ≡ true → contains c (cons_unless_blank p x t) ≡ true
    first [] e n = rw e (rw n refl)
    first (y ∷ t) e n = rw n refl

    later : (t : Text) → contains c t ≡ true → contains c (cons_unless_blank p x t) ≡ true
    later [] g = cc
    later (y ∷ t) g = ground (arith, g)

contains-leading : (c : ℕ) (s : Text) → contains c (leading s) ≡ true → contains c s ≡ true
contains-leading c [] h = h
contains-leading c (x ∷ s) h = ground (arith, contains-leading c s)

false_unless : (a b : Bool) → (a ≡ true → b ≡ true) → b ≡ false → a ≡ false
false_unless true b f h = sym (f refl) ∙ h
false_unless false b f h = refl

-- a line with a prefix is kept by another run
is_kept-comma : (s : Text) → contains comma s ≡ true → is_kept s ≡ true
unfolding is_kept
is_kept-comma s h = ground (arith, h)

prefix_line_again :
    (prefix line : Text) → prefix_line prefix (prefix_line prefix line) ≡ prefix_line prefix line
unfolding prefix_line trim_space
prefix_line_again prefix line =
    elim (Bool-cases (is_kept (trim_end is_space (trim_front is_space line)))) [
      | inl t ↦ rw (t, t) refl
      | inr f ↦
          let new =
            leading line ++ (prefix ++ comma ∷ trim_end is_space (trim_front is_space line)) in
          let has : contains comma new ≡ true =
            contains-append comma (leading line)
              (prefix ++ comma ∷ trim_end is_space (trim_front is_space line))
            ∙ ap (λ b. contains comma (leading line) || b) (contains-append comma prefix _)
            ∙ or_true (contains comma (leading line)) (contains comma prefix) in
          let kept = is_kept-comma (trim_end is_space (trim_front is_space new)) (
            trim_end-contains is_space comma (trim_front is_space new) (unfold is_space in refl)
              (trim_front-contains is_space comma new (unfold is_space in refl) has)) in
          rw (f, kept) refl
    ]
  where
    or_true : (a b : Bool) → (a || (b || true)) ≡ true
    or_true true b = refl
    or_true false true = refl
    or_true false false = refl

abbrev AllPlain : List Text → Type 0
AllPlain [] = Unit
AllPlain (l ∷ ls) = (contains newline l ≡ false) × AllPlain ls

push_head-AllPlain :
    (c : ℕ) (ls : List Text) → nat_eq c newline ≡ false → AllPlain ls → AllPlain (push_head c ls)
push_head-AllPlain c [] n h = (rw n refl, tt)
push_head-AllPlain c (l ∷ ls) n h = (rw (n, h.0) refl, h.1)

split_on-AllPlain : (s : Text) → AllPlain (split_on newline s)
unfolding split_on
split_on-AllPlain [] = (refl, tt)
split_on-AllPlain (c ∷ s) = elim (Bool-cases (nat_eq c newline)) [
  | inl t ↦ rw t (refl, split_on-AllPlain s)
  | inr f ↦ rw f (push_head-AllPlain c (split_on newline s) f (split_on-AllPlain s))
]

split_on-join_on :
    (l : Text) (ls : List Text)
    → AllPlain (l ∷ ls)
    → split_on newline (join_on newline (l ∷ ls)) ≡ l ∷ ls
split_on-join_on l [] h = split_on_plain newline l h.0
split_on-join_on l (m ∷ ls) h =
    split_on-append newline l (join_on newline (m ∷ ls)) h.0
    ∙ ap (λ t. l ∷ t) (split_on-join_on m ls h.1)

prefix_line-newline :
    (prefix line : Text)
    → contains newline prefix ≡ false
    → contains newline line ≡ false
    → contains newline (prefix_line prefix line) ≡ false
unfolding prefix_line trim_space
prefix_line-newline prefix line p n =
    let trimmed = trim_end is_space (trim_front is_space line) in
    let front =
      false_unless (contains newline (leading line)) _ (contains-leading newline line) n in
    let back =
      false_unless (contains newline trimmed) _
        (λ h.
          contains-trim_front is_space newline line
            (contains-trim_end is_space newline (trim_front is_space line) h))
        n in
    elim (Bool-cases (is_kept trimmed)) [
      | inl t ↦ rw t n
      | inr f ↦ rw f (
          contains-append newline (leading line) (prefix ++ comma ∷ trimmed)
          ∙ rw (front, contains-append newline prefix (comma ∷ trimmed), p, back) refl)
    ]

prefix_lines-AllPlain :
    (prefix : Text) (ls : List Text)
    → contains newline prefix ≡ false
    → AllPlain ls
    → AllPlain (prefix_lines prefix ls)
unfolding prefix_lines
prefix_lines-AllPlain prefix [] p h = tt
prefix_lines-AllPlain prefix (l ∷ ls) p h =
    (prefix_line-newline prefix l p h.0, prefix_lines-AllPlain prefix ls p h.1)

prefix_lines_again :
    (prefix : Text) (ls : List Text)
    → prefix_lines prefix (prefix_lines prefix ls) ≡ prefix_lines prefix ls
unfolding prefix_lines
prefix_lines_again prefix [] = refl
prefix_lines_again prefix (l ∷ ls) =
    rw (prefix_line_again prefix l, prefix_lines_again prefix ls) refl

-- The lines of a text with its prefixes are the lines of the text, with theirs.
split_on-prefix_lines :
    (prefix content : Text)
    → contains newline prefix ≡ false
    → split_on newline (join_on newline (prefix_lines prefix (split_on newline content)))
      ≡ prefix_lines prefix (split_on newline content)
split_on-prefix_lines prefix content p =
    go (split_on newline content) (split_on-AllPlain content) (split_on-ne-nil newline content)
  where
    go :
        (ls : List Text)
        → AllPlain ls
        → ls ≢ []
        → split_on newline (join_on newline (prefix_lines prefix ls)) ≡ prefix_lines prefix ls
    go [] h ne = absurd (ne refl)
    go (l ∷ ls) h ne =
        unfold prefix_lines in
        split_on-join_on (prefix_line prefix l) (prefix_lines prefix ls)
          (prefix_lines-AllPlain prefix (l ∷ ls) p h)

abbrev AllPlainPrefixes : List (Text × Text) → Type 0
AllPlainPrefixes [] = Unit
AllPlainPrefixes ((suffix, prefix) ∷ rest) =
    (contains newline prefix ≡ false) × AllPlainPrefixes rest

find_candidate-newline :
    (name : Text) (table : List (Text × Text))
    → AllPlainPrefixes table
    → contains newline (find_candidate name table) ≡ false
unfolding find_candidate
find_candidate-newline name [] h = refl
find_candidate-newline name ((suffix, prefix) ∷ rest) h =
    ground (arith, h.0, find_candidate-newline name rest h.1)

-- The prefixes are put once: another run over the result changes nothing.
pub auto_prefix_content_again :
    (lower : ℕ → ℕ) (name content : Text)
    → auto_prefix_content lower name (auto_prefix_content lower name content)
      ≡ auto_prefix_content lower name content
unfolding auto_prefix_content auto_prefix_for_name
auto_prefix_content_again lower name content =
    let prefix = auto_prefix_for_name lower name in
    let plain : contains newline prefix ≡ false =
      find_candidate-newline (trim_suffix (map_text lower (trim_space name)) (codes ".txt"))
        prefix_table (refl, (refl, (refl, (refl, (refl, (refl, tt)))))) in
    elim (Bool-cases (prefix == [])) [
      | inl t ↦ rw t refl
      | inr f ↦
          rw
            (
              f,
              split_on-prefix_lines prefix content plain,
              prefix_lines_again prefix (split_on newline content),
            )
            refl
    ]
