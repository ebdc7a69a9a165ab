-- ===== src/FakeIp/Sections/Split.antt =====
-- When a content splits into sections, and what these are (internal/fakeip/store.go).
use mathlib.Core.List.{append_assoc, append-nil}
use boxctl.Base.{
  ℕ, suc, ◌+◌, ◌-◌, ◌≡◌, ◌⊎◌, inl, inr, refl, sym, ap, ◌∙◌, true, false, none, some, List, [], ◌∷◌,
  ◌++◌, leb, arith, length, length-append, drop, text_Eq,
}
use boxctl.Base.Text.{Text}
use boxctl.FakeIp.Sections.{
  ok, raw_lines, to_lines, content_of, find_markers, between, DocumentSections, take, cut,
  split_sections, >>=-eq-ok,
}
use boxctl.FakeIp.Sections.Lines.{flat}
use boxctl.FakeIp.Sections.Scan.{
  text_of, Plain, Marked, sections_of, find-Plain_all, find_marked, found_none,
}

-- the sections of a content without a block
abbrev pub no_sections : Text → DocumentSections
no_sections content = record {
  before = content;
  generated_body = [];
  generated_block = [];
  after = [];
  has_generated = false;
}

content_of-to_lines : (ls : List Text) → content_of (to_lines ls) ≡ flat ls
unfolding content_of
content_of-to_lines [] = refl
content_of-to_lines (l ∷ ls) = ap (λ t. l ++ t) (content_of-to_lines ls)

to_lines-append : (xs ys : List Text) → to_lines (xs ++ ys) ≡ to_lines xs ++ to_lines ys
to_lines-append [] ys = refl
to_lines-append (x ∷ xs) ys =
    ap (λ t. record { raw = x; text = text_of x } ∷ t) (to_lines-append xs ys)

length-to_lines : (ls : List Text) → length (to_lines ls) ≡ length ls
length-to_lines [] = refl
length-to_lines (l ∷ ls) = ap suc (length-to_lines ls)

take-append {ℓ} : {A : Type ℓ} (xs ys : List A) → take (length xs) (xs ++ ys) ≡ xs
take-append [] ys = refl
take-append (x ∷ xs) ys = ap (λ t. x ∷ t) (take-append xs ys)

drop-append {ℓ} : {A : Type ℓ} (xs ys : List A) → drop (length xs) (xs ++ ys) ≡ ys
drop-append [] ys = refl
drop-append (x ∷ xs) ys = drop-append xs ys

-- the first lines, and the lines behind them
take_lines :
    (n : ℕ) (xs ys : List Text) → n ≡ length xs → take n (to_lines (xs ++ ys)) ≡ to_lines xs
take_lines n xs ys e =
    rw (e, ← length-to_lines xs, to_lines-append xs ys) (take-append (to_lines xs) (to_lines ys))

drop_lines :
    (n : ℕ) (xs ys : List Text) → n ≡ length xs → drop n (to_lines (xs ++ ys)) ≡ to_lines ys
drop_lines n xs ys e =
    rw (e, ← length-to_lines xs, to_lines-append xs ys) (drop-append (to_lines xs) (to_lines ys))

flat-append : (xs ys : List Text) → flat (xs ++ ys) ≡ flat xs ++ flat ys
flat-append [] ys = refl
flat-append (x ∷ xs) ys =
    ap (λ t. x ++ t) (flat-append xs ys) ∙ sym (append_assoc x (flat xs) (flat ys))

-- the content of the lines `ys`
segment :
    (ls xs ys zs : List Text) (first last : ℕ)
    → ls ≡ xs ++ (ys ++ zs)
    → first ≡ length xs
    → last - first ≡ length ys
    → content_of (between first last (to_lines ls)) ≡ flat ys
segment ls xs ys zs first last e f l =
    rw (e, drop_lines first xs (ys ++ zs) f, take_lines (last - first) ys zs l)
      (content_of-to_lines ys)

module _ (content : Text) {ls : List Text} (m : Marked ls) where
  cut_before : content_of (take (length m.pre) (to_lines ls)) ≡ flat m.pre
  cut_before =
      rw (m.lines, take_lines (length m.pre) m.pre (m.begin ∷ (m.mid ++ (m.end ∷ m.post))) refl)
        (content_of-to_lines m.pre)

  cut_body :
      content_of (between (length m.pre + 1) (length m.pre + 1 + length m.mid) (to_lines ls))
      ≡ flat m.mid
  cut_body =
      segment ls (m.pre ++ m.begin ∷ []) m.mid (m.end ∷ m.post) (length m.pre + 1)
        (length m.pre + 1 + length m.mid)
        (m.lines ∙ sym (append_assoc m.pre (m.begin ∷ []) (m.mid ++ (m.end ∷ m.post))))
        (omega (arith, length-append m.pre (m.begin ∷ []))) (omega arith)

  cut_block :
      content_of (between (length m.pre) (length m.pre + 1 + length m.mid + 1) (to_lines ls))
      ≡ m.begin ++ (flat m.mid ++ m.end)
  cut_block =
      let block = m.begin ∷ (m.mid ++ m.end ∷ []) in
      segment ls m.pre block m.post (length m.pre) (length m.pre + 1 + length m.mid + 1)
        (m.lines ∙ ap (λ t. m.pre ++ (m.begin ∷ t)) (sym (append_assoc m.mid (m.end ∷ []) m.post)))
        refl (omega (arith, length-append m.mid (m.end ∷ [])))
      ∙ ap (λ t. m.begin ++ t)
          (flat-append m.mid (m.end ∷ []) ∙ ap (λ t. flat m.mid ++ t) (append-nil m.end))

  cut_after : content_of (drop (length m.pre + 1 + length m.mid + 1) (to_lines ls)) ≡ flat m.post
  cut_after =
      let front = m.pre ++ (m.begin ∷ (m.mid ++ m.end ∷ [])) in
      let e : ls ≡ front ++ m.post = rw m.lines (simp append_assoc) in
      rw
        (
          e,
          drop_lines (length m.pre + 1 + length m.mid + 1) front m.post (
              omega (
                arith,
                length-append m.pre (m.begin ∷ (m.mid ++ m.end ∷ [])),
                length-append m.mid (m.end ∷ []),
              )),
        )
        (content_of-to_lines m.post)

  cut_marked :
      cut content (to_lines ls) (some (length m.pre), some (length m.pre + 1 + length m.mid))
      ≡ ok (sections_of m)
  unfolding cut
  cut_marked =
      let t : leb (length m.pre + 1 + length m.mid) (length m.pre) ≡ false = ground arith in
      rw t (λ i. ok (record {
        before = cut_before i;
        generated_body = cut_body i;
        generated_block = cut_block i;
        after = cut_after i;
        has_generated = true;
      }))

-- A content with one AUTO block splits into the texts before it, in it and behind it.
pub split_sections-Marked :
    (content : Text) (m : Marked (raw_lines content)) → split_sections content ≡ ok (sections_of m)
unfolding split_sections
split_sections-Marked content m = rw (find_marked m) (cut_marked content m)

-- A content without a marker line is one section.
pub split_sections-Plain :
    (content : Text) → Plain (raw_lines content) → split_sections content ≡ ok (no_sections content)
unfolding split_sections
split_sections-Plain content p =
    rw (find-Plain_all (raw_lines content) 0 none none p) (unfold cut in refl)

-- A content splits only if it has no marker line, and is then one section, or if it has one line
-- with the begin marker and behind it one with the end marker, and is then cut at these lines.
pub split_sections-eq-ok :
    (content : Text) (s : DocumentSections)
    → split_sections content ≡ ok s
    → (Plain (raw_lines content) × (s ≡ no_sections content))
      ⊎ ((m : Marked (raw_lines content)) × (s ≡ sections_of m))
unfolding split_sections cut
split_sections-eq-ok content s h =
    let lines = to_lines (raw_lines content) in
    let (r, e, f) =
      >>=-eq-ok (find_markers 0 none none lines) (λ markers. cut content lines markers) h in
    elim (found_none (raw_lines content) 0 r e) [
      | inl (b, open_ended) ↦ cc (ap (cut content lines) open_ended)
      | inr (inl p) ↦ inl (p, cc (split_sections-Plain content p))
      | inr (inr m) ↦ inr (m, cc (split_sections-Marked content m))
    ]
