-- ===== src/FakeIp/Sections/Scan.antt =====
-- The scan for the two markers (the loop of `splitSections`, internal/fakeip/store.go).
use mathlib.Core.List.{append-nil}
use boxctl.Base.{
  ℕ, suc, ◌+◌, ◌≡◌, ◌⊎◌, inl, inr, refl, sym, ap, ◌∙◌, true, false, Option, none, some, List, [],
  ◌∷◌, ◌++◌, arith, Bool-cases, length, text_Eq, ◌==◌, list_eq_iff,
}
use boxctl.Base.Text.{Text}
use boxctl.FakeIp.Sections.{
  ok, auto_begin_marker, auto_end_marker, to_lines, trim_carriage, drop_newline, find_markers,
  DocumentSections,
}
use boxctl.FakeIp.Sections.Lines.{flat}

abbrev pub text_of : Text → Text
text_of l = trim_carriage (drop_newline l)

-- Neither marker is the text of one of these lines.
abbrev pub Plain : List Text → Type 0
Plain [] = Unit
Plain (l ∷ ls) =
    (text_of l == auto_begin_marker ≡ false) × (text_of l == auto_end_marker ≡ false) × Plain ls

-- Lines with one AUTO block.
pub record Marked (ls : List Text) : Type 0 where
  pub pre : List Text
  pub begin : Text
  pub mid : List Text
  pub end : Text
  pub post : List Text
  pub lines : ls ≡ pre ++ (begin ∷ (mid ++ (end ∷ post)))
  pub begins : text_of begin ≡ auto_begin_marker
  pub ends : text_of end ≡ auto_end_marker
  pub plain_pre : Plain pre
  pub plain_mid : Plain mid
  pub plain_post : Plain post

-- the sections of such lines
abbrev pub sections_of : {ls : List Text} → Marked ls → DocumentSections
sections_of m = record {
  before = flat m.pre;
  generated_body = flat m.mid;
  generated_block = m.begin ++ (flat m.mid ++ m.end);
  after = flat m.post;
  has_generated = true;
}

end_is_not_begin :
    (l : Text) → text_of l ≡ auto_end_marker → (text_of l == auto_begin_marker) ≡ false
end_is_not_begin l e = rw e refl

-- the scan over lines without a marker
find-Plain :
    (ls rest : List Text) (i : ℕ) (b e : Option ℕ)
    → Plain ls
    → find_markers i b e (to_lines (ls ++ rest)) ≡ find_markers (i + length ls) b e (to_lines rest)
unfolding find_markers
find-Plain [] rest i b e p = let z : i + 0 ≡ i = omega arith in rw z
find-Plain (l ∷ ls) rest i b e p =
    let z : i + suc (length ls) ≡ suc i + length ls = omega arith in
    rw (z, p.0, p.1) (find-Plain ls rest (suc i) b e p.2)

pub find-Plain_all :
    (ls : List Text) (i : ℕ) (b e : Option ℕ)
    → Plain ls
    → find_markers i b e (to_lines ls) ≡ ok (b, e)
unfolding find_markers
find-Plain_all ls i b e p =
    ap (λ l. find_markers i b e (to_lines l)) (sym (append-nil ls)) ∙ find-Plain ls [] i b e p

-- the scan of lines with one block
pub find_marked :
    {ls : List Text} (m : Marked ls)
    → find_markers 0 none none (to_lines ls)
      ≡ ok (some (length m.pre), some (length m.pre + 1 + length m.mid))
find_marked m =
    let b : ℕ = length m.pre in
    let z : 0 + length m.pre ≡ length m.pre = omega arith in
    let s : suc (length m.pre) + length m.mid ≡ length m.pre + 1 + length m.mid = omega arith in
    rw m.lines (
      rw (find-Plain m.pre (m.begin ∷ (m.mid ++ (m.end ∷ m.post))) 0 none none m.plain_pre, z)
        (unfold find_markers in
          rw m.begins (
            rw (find-Plain m.mid (m.end ∷ m.post) (suc b) (some b) none m.plain_mid, s)
              (unfold find_markers in
                rw (end_is_not_begin m.end m.ends, m.ends)
                  (find-Plain_all m.post _ (some b) _ m.plain_post)))))

-- After both markers no line has one.
found_both :
    (ls : List Text) (i b e : ℕ) (r : Option ℕ × Option ℕ)
    → find_markers i (some b) (some e) (to_lines ls) ≡ ok r
    → Plain ls × (r ≡ (some b, some e))
unfolding find_markers
found_both [] i b e r h = (tt, ground arith)
found_both (l ∷ ls) i b e r h = elim (Bool-cases (text_of l == auto_begin_marker)) [
  | inl t ↦ cc (rw t at h)
  | inr f ↦ elim (Bool-cases (text_of l == auto_end_marker)) [
    | inl t' ↦ absurd (ground arith)
    | inr f' ↦ let (p, same) = found_both ls (suc i) b e r (rw (f, f') at h) in ((f, f', p), same)
  ]
]

-- lines with an end marker, after the begin marker
record Closed (ls : List Text) : Type 0 where
  mid : List Text
  end : Text
  post : List Text
  lines : ls ≡ mid ++ (end ∷ post)
  ends : text_of end ≡ auto_end_marker
  plain_mid : Plain mid
  plain_post : Plain post

found_begin :
    (ls : List Text) (i b : ℕ) (r : Option ℕ × Option ℕ)
    → find_markers i (some b) none (to_lines ls) ≡ ok r
    → (r ≡ (some b, none)) ⊎ Closed ls
unfolding find_markers
found_begin [] i b r h = inl (ground arith)
found_begin (l ∷ ls) i b r h = elim (Bool-cases (text_of l == auto_begin_marker)) [
  | inl t ↦ cc (rw t at h)
  | inr f ↦ elim (Bool-cases (text_of l == auto_end_marker)) [
    | inl t' ↦
        let (p, same) = found_both ls (suc i) b i r (rw (f, t') at h) in
        inr (record {
          mid = [];
          end = l;
          post = ls;
          lines = refl;
          ends = (list_eq_iff (text_of l) auto_end_marker).0 t';
          plain_mid = tt;
          plain_post = p;
        })
    | inr f' ↦ elim (found_begin ls (suc i) b r (rw (f, f') at h)) [
      | inl e ↦ inl e
      | inr c ↦ inr (record {
        mid = l ∷ c.mid;
        end = c.end;
        post = c.post;
        lines = ap (λ t. l ∷ t) c.lines;
        ends = c.ends;
        plain_mid = (f, f', c.plain_mid);
        plain_post = c.plain_post;
      })
    ]
  ]
]

-- what a scan that succeeds has seen
pub found_none :
    (ls : List Text) (i : ℕ) (r : Option ℕ × Option ℕ)
    → find_markers i none none (to_lines ls) ≡ ok r
    → ((b : ℕ) × (r ≡ (some b, none))) ⊎ (Plain ls ⊎ Marked ls)
unfolding find_markers
found_none [] i r h = inr (inl tt)
found_none (l ∷ ls) i r h = elim (Bool-cases (text_of l == auto_begin_marker)) [
  | inl t ↦ elim (found_begin ls (suc i) i r (rw t at h)) [
    | inl e ↦ inl (i, e)
    | inr c ↦ inr (
        inr (record {
          pre = [];
          begin = l;
          mid = c.mid;
          end = c.end;
          post = c.post;
          lines = ap (λ t. l ∷ t) c.lines;
          begins = (list_eq_iff (text_of l) auto_begin_marker).0 t;
          ends = c.ends;
          plain_pre = tt;
          plain_mid = c.plain_mid;
          plain_post = c.plain_post;
        }))
  ]
  | inr f ↦ elim (Bool-cases (text_of l == auto_end_marker)) [
    | inl t' ↦ cc (rw (f, t') at h)
    | inr f' ↦ elim (found_none ls (suc i) r (rw (f, f') at h)) [
      | inl e ↦ inl e
      | inr (inl p) ↦ inr (inl (f, f', p))
      | inr (inr m) ↦ inr (
          inr (record {
            pre = l ∷ m.pre;
            begin = m.begin;
            mid = m.mid;
            end = m.end;
            post = m.post;
            lines = ap (λ t. l ∷ t) m.lines;
            begins = m.begins;
            ends = m.ends;
            plain_pre = (f, f', m.plain_pre);
            plain_mid = m.plain_mid;
            plain_post = m.plain_post;
          }))
    ]
  ]
]
