-- ===== src/Engine/LineLog/Chunks.antt =====
-- The lines of a core's output do not depend on how the output is cut into writes
-- (`lineLogWriter` of internal/engine/supervisor.go).
use boxctl.Base.{
  ℕ, ◌+◌, ◌≤◌, ◌≡◌, refl, true, false, ◌&&◌, List, [], ◌∷◌, ◌++◌, nat_eq, ltb, leb, length, arith,
  ap, sym, ◌∙◌, Bool-cases, inl, inr, ◌⊎◌, ◌≢◌,
}
use boxctl.Base.Text.{Text}
use boxctl.Base.Strings.{trim_return}
use mathlib.Core.List.{append_assoc, append-nil}
use mathlib.Core.Path.{subst}
use boxctl.Engine.LineLog.{
  max_line, LineLogWriter, cons_line, line_end, take_lines, trim_each, keep_rest, write, write_all,
  joined, has_short_lines,
}

abbrev then_parts : List Text × Text → (Text → List Text × Text) → List Text × Text
then_parts (lines, rest) next = (lines ++ (next rest).0, (next rest).1)

cons_line-then_parts :
    (c : ℕ) (parts : List Text × Text) (b : Text)
    → nat_eq c 10 ≡ false
    → cons_line c (then_parts parts (λ rest. take_lines (rest ++ b)))
      ≡ then_parts (cons_line c parts) (λ rest. take_lines (rest ++ b))
unfolding take_lines
cons_line-then_parts c ([], rest) b h = rw h refl
cons_line-then_parts c (line ∷ lines, rest) b h = refl

take_lines-append :
    (a b : Text) → take_lines (a ++ b) ≡ then_parts (take_lines a) (λ rest. take_lines (rest ++ b))
unfolding take_lines
take_lines-append [] b = refl
take_lines-append (c ∷ a) b = elim (Bool-cases (nat_eq c 10)) [
  | inl ended ↦ rw ended (ap line_end (take_lines-append a b))
  | inr goes_on ↦
      rw goes_on
        (ap (cons_line c) (take_lines-append a b) ∙ cons_line-then_parts c (take_lines a) b goes_on)
]

has_short_lines_mono :
    (run more : ℕ) (s : Text)
    → run ≤ more
    → has_short_lines more s ≡ true
    → has_short_lines run s ≡ true
has_short_lines_mono run more [] h k = ground arith
has_short_lines_mono run more (c ∷ s) h k =
    ground (arith, has_short_lines_mono (run + 1) (more + 1) s)

cons_ne : {A : Type 0} {x : A} {xs : List A} → x ∷ xs ≢ []
cons_ne e = cc

cons_line-cases :
    (c : ℕ) (parts : List Text × Text)
    → ((parts.0 ≡ []) × (cons_line c parts ≡ ([], c ∷ parts.1)))
      ⊎ (((cons_line c parts).0 ≢ []) × ((cons_line c parts).1 ≡ parts.1))
cons_line-cases c ([], rest) = inl (refl, refl)
cons_line-cases c (line ∷ lines, rest) = inr ((λ e. cc), refl)

-- where no line has ended, the rest is all
take_lines_open : (a : Text) → (take_lines a).0 ≡ [] → (take_lines a).1 ≡ a
unfolding take_lines
take_lines_open [] h = refl
take_lines_open (c ∷ a) h = elim (Bool-cases (nat_eq c 10)) [
  | inl ended ↦ absurd (cons_ne (rw ended at h))
  | inr goes_on ↦ elim (cons_line-cases c (take_lines a)) [
    | inl (none_yet, e) ↦ rw goes_on (rw e (ap (λ s. c ∷ s) (take_lines_open a none_yet)))
    | inr (some_line, e) ↦ absurd (some_line (rw goes_on at h))
  ]
]

-- what is left behind the lines of a text is short, too
take_lines-short :
    (a b : Text) (run : ℕ)
    → has_short_lines run (a ++ b) ≡ true
    → has_short_lines 0 ((take_lines a).1 ++ b) ≡ true
unfolding take_lines
take_lines-short [] b run h = has_short_lines_mono 0 run b (omega arith) h
take_lines-short (c ∷ a) b run h = elim (Bool-cases (nat_eq c 10)) [
  | inl ended ↦ rw ended (take_lines-short a b 0 (rest_short 0 (rw ended at h)))
  | inr goes_on ↦ elim (cons_line-cases c (take_lines a)) [
    | inl (none_yet, e) ↦ rw goes_on (
        rw e (
          rw (take_lines_open a none_yet)
            (has_short_lines_mono 0 run (c ∷ (a ++ b)) (omega arith) h)))
    | inr (some_line, e) ↦
        rw goes_on (rw e (take_lines-short a b (run + 1) (rest_short (run + 1) (rw goes_on at h))))
  ]
]
  where
    rest_short :
        (next : ℕ)
        → (leb run max_line && has_short_lines next (a ++ b)) ≡ true
        → has_short_lines next (a ++ b) ≡ true
    rest_short next e = ground arith

run-le : (run : ℕ) (b : Text) → has_short_lines run b ≡ true → run ≤ max_line
run-le run [] h = ground arith
run-le run (c ∷ b) h = ground arith

open_length-le :
    (a b : Text) (run : ℕ)
    → (take_lines a).0 ≡ []
    → has_short_lines run (a ++ b) ≡ true
    → run + length a ≤ max_line
unfolding take_lines
open_length-le [] b run e h = omega (arith, run-le run b h)
open_length-le (c ∷ a) b run e h = elim (Bool-cases (nat_eq c 10)) [
  | inl ended ↦ absurd (cons_ne (rw ended at e))
  | inr goes_on ↦ elim (cons_line-cases c (take_lines a)) [
    | inl (none_yet, _) ↦
        omega (arith, open_length-le a b (run + 1) none_yet (step (run + 1) (rw goes_on at h)))
    | inr (some_line, _) ↦ absurd (some_line (rw goes_on at e))
  ]
]
  where
    step :
        (next : ℕ)
        → (leb run max_line && has_short_lines next (a ++ b)) ≡ true
        → has_short_lines next (a ++ b) ≡ true
    step next e' = ground arith

rest_length-le :
    (a b : Text) (run : ℕ)
    → has_short_lines run (a ++ b) ≡ true
    → length (take_lines a).1 ≤ max_line
unfolding take_lines
rest_length-le [] b run h = omega arith
rest_length-le (c ∷ a) b run h = elim (Bool-cases (nat_eq c 10)) [
  | inl ended ↦ rw ended (rest_length-le a b 0 (step 0 (rw ended at h)))
  | inr goes_on ↦ elim (cons_line-cases c (take_lines a)) [
    | inl (none_yet, e) ↦
        let bound = open_length-le a b (run + 1) none_yet (step (run + 1) (rw goes_on at h)) in
        rw goes_on (rw e (rw (take_lines_open a none_yet) (omega arith)))
    | inr (some_line, e) ↦
        rw goes_on (rw e (rest_length-le a b (run + 1) (step (run + 1) (rw goes_on at h))))
  ]
]
  where
    step :
        (next : ℕ)
        → (leb run max_line && has_short_lines next (a ++ b)) ≡ true
        → has_short_lines next (a ++ b) ≡ true
    step next e' = ground arith

trim_each-append : (xs ys : List Text) → trim_each (xs ++ ys) ≡ trim_each xs ++ trim_each ys
trim_each-append [] ys = refl
trim_each-append (x ∷ xs) ys = ap (λ l. trim_return x ∷ l) (trim_each-append xs ys)

-- the state after a write that leaves no overlong rest
kept :
    (emitted : List Text) (rest : Text)
    → length rest ≤ max_line
    → keep_rest emitted rest ≡ record { buffer = rest; emitted = emitted }
kept emitted rest h = rw (leb_test (length rest) h)
  where
    leb_test : (n : ℕ) → n ≤ max_line → ltb max_line n ≡ false
    leb_test n e = ground arith

abbrev finish : List Text → List Text × Text → LineLogWriter
finish emitted parts = keep_rest (emitted ++ trim_each parts.0) parts.1

finish-then_parts :
    (emitted : List Text) (parts : List Text × Text) (next : Text → List Text × Text)
    → finish emitted (then_parts parts next) ≡ finish (emitted ++ trim_each parts.0) (next parts.1)
finish-then_parts emitted (lines, rest) next =
    ap (λ l. keep_rest l (next rest).1)
      (ap (λ l. emitted ++ l) (trim_each-append lines (next rest).0)
        ∙ sym (append_assoc emitted (trim_each lines) (trim_each (next rest).0)))

write_kept :
    (w : LineLogWriter) (a : Text)
    → length (take_lines (w.buffer ++ a)).1 ≤ max_line
    → write w a ≡ record {
      buffer = (take_lines (w.buffer ++ a)).1;
      emitted = w.emitted ++ trim_each (take_lines (w.buffer ++ a)).0;
    }
unfolding write
write_kept w a h = kept _ (take_lines (w.buffer ++ a)).1 h

write-write :
    (w : LineLogWriter) (a b : Text)
    → has_short_lines 0 ((w.buffer ++ a) ++ b) ≡ true
    → write (write w a) b ≡ write w (a ++ b)
unfolding write
write-write w a b h =
    ap (λ v. write v b) (write_kept w a (rest_length-le (w.buffer ++ a) b 0 h))
    ∙ sym (
        ap (finish w.emitted)
          (ap take_lines (sym (append_assoc w.buffer a b)) ∙ take_lines-append (w.buffer ++ a) b)
        ∙ finish-then_parts w.emitted (take_lines (w.buffer ++ a)) (λ rest. take_lines (rest ++ b)))

-- However the output of a core is cut into writes, the writer emits the same lines and keeps the
-- same rest, if no line with what the buffer holds is longer than the limit of 2 ^ 20 bytes.
pub write_all-joined :
    (w : LineLogWriter) (chunk : Text) (chunks : List Text)
    → has_short_lines 0 (w.buffer ++ joined (chunk ∷ chunks)) ≡ true
    → write_all w (chunk ∷ chunks) ≡ write w (joined (chunk ∷ chunks))
write_all-joined w chunk [] h = ap (write w) (sym (append-nil chunk))
write_all-joined w chunk (next ∷ chunks) h =
    write_all-joined (write w chunk) next chunks (
      subst (λ v. has_short_lines 0 (v.buffer ++ joined (next ∷ chunks)) ≡ true)
        (sym (
          write_kept w chunk (rest_length-le (w.buffer ++ chunk) (joined (next ∷ chunks)) 0 short)))
        (take_lines-short (w.buffer ++ chunk) (joined (next ∷ chunks)) 0 short))
    ∙ write-write w chunk (joined (next ∷ chunks)) short
  where
    short : has_short_lines 0 ((w.buffer ++ chunk) ++ joined (next ∷ chunks)) ≡ true
    short =
        subst (λ s. has_short_lines 0 s ≡ true)
          (sym (append_assoc w.buffer chunk (joined (next ∷ chunks)))) h
