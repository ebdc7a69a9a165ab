-- ===== src/FakeIp/Store/Locking.antt =====
-- The revision that guards the operations of the store (internal/fakeip/store.go).
use boxctl.Base.{
  ℕ, ◌≡◌, ◌⊎◌, inl, inr, refl, sym, ap, ◌∙◌, true, false, Option, none, some, List, [], Bool-cases,
  text_Eq, arith, ◌==◌, list_eq_iff,
}
use boxctl.Base.Text.{Text}
use boxctl.Base.Answers.{Answer-cases, err-ne-ok}
use boxctl.FakeIp.Sections.{
  StoreError, Result, ok, err, ◌>>=◌, ◌>>◌, fail_if, conflict, split_sections,
}
use boxctl.FakeIp.Prefix.{NetPrefix}
use boxctl.FakeIp.Document.{
  Document, parse_document, parse_sections, build_document, validate_manual,
}
use boxctl.FakeIp.Store.{
  File, regular, World, read_file, read, check_revision, prepare, commit_unlocked, commit_made,
  finish, is_stale, save_manual, save_content, succeed_unless, replaced_generated_document,
  preview_replace_generated_with_scope, replace_generated_with_scope,
}

succeed_unless-eq-ok {ℓ} :
    {A : Type ℓ} (o : Option StoreError) (m : Result A) {a : A}
    → (succeed_unless o >> m) ≡ ok a
    → (o ≡ none) × (m ≡ ok a)
succeed_unless-eq-ok none m h = (refl, h)
succeed_unless-eq-ok (some e) m h = cc

-- the file stands at this revision
abbrev pub AtRevision : (Text → Text) → File → Text → Type 0
AtRevision revision file expected =
    (read_file file >>= λ content. ok (revision content)) ≡ ok expected

check_revision-eq-ok :
    (revision : Text → Text) (file : File) (expected : Text) {u : Unit {0}}
    → check_revision revision file expected ≡ ok u
    → AtRevision revision file expected
unfolding check_revision
check_revision-eq-ok revision file expected h = grind (arith, list_eq_iff)

module _ (parse_time : Text → Option ℕ) (revision : Text → Text) where
  -- a document is one of its content
  pub parse_document-content :
      (content : Text) {d : Document}
      → parse_document parse_time revision content ≡ ok d
      → (d.content ≡ content) × (d.revision ≡ revision content)
  unfolding parse_document parse_sections build_document
  parse_document-content content {d} h = ground arith

  parse_document-again :
      (content : Text) {d : Document}
      → parse_document parse_time revision content ≡ ok d
      → parse_document parse_time revision d.content ≡ ok d
  parse_document-again content {d} h =
      ap (parse_document parse_time revision) (parse_document-content content h).0 ∙ h

  replaced_generated_document-again :
      (format_time : ℕ → Text) (current : Document) (prefixes : List NetPrefix)
      (generated_at now : ℕ) (scope : Text) {d : Document}
      → replaced_generated_document parse_time format_time revision current prefixes generated_at
          now scope
        ≡ ok d
      → parse_document parse_time revision d.content ≡ ok d
  unfolding replaced_generated_document
  replaced_generated_document-again format_time current prefixes generated_at now scope h =
      grind (arith, parse_document-again)

  -- What holds when an operation has renamed: it was asked for at a revision that is not empty, which
  -- the file had at the read and at both rechecks; and the new content reads as the document.
  pub record Committed (world : World) (file : File) (expected : Text) (next : Document)
      : Type 0 where
    pub asked : (expected == []) ≡ false
    pub first_read : AtRevision revision file expected
    pub second_read : AtRevision revision world.first_recheck expected
    pub third_read : AtRevision revision world.second_recheck expected
    pub read_again : read parse_time revision (regular next.content) ≡ ok next

  -- what an operation leaves and answers
  abbrev pub Outcome : World → File → Text → File × Result Document → Type 0
  Outcome world file expected r =
      ((e : StoreError) × (r ≡ (world.second_recheck, err e)))
      ⊎ ((next : Document) × Committed world file expected next
          × (r ≡ (regular next.content, (succeed_unless world.sync_failure >> ok next))))

  prepare-eq-ok :
      (world : World) (content expected : Text) {next : Document}
      → prepare parse_time revision world content expected ≡ ok next
      → AtRevision revision world.first_recheck expected
        × AtRevision revision world.second_recheck expected
        × (parse_document parse_time revision content ≡ ok next)
        × (read_file (regular content) ≡ ok content)
  unfolding prepare read_file
  prepare-eq-ok world content expected h = grind (arith, check_revision-eq-ok)

  read-eq-ok :
      (file : File) {d : Document}
      → read parse_time revision file ≡ ok d
      → AtRevision revision file d.revision
  unfolding read
  read-eq-ok file h = grind (arith, parse_document-content)

  read-regular :
      (content : Text) {next : Document}
      → parse_document parse_time revision content ≡ ok next
      → read_file (regular content) ≡ ok content
      → read parse_time revision (regular next.content) ≡ ok next
  unfolding read
  read-regular content {next} h r =
      let (e, _) = parse_document-content content h in
      ap (λ c. read parse_time revision (regular c)) e ∙ rw r h

  -- a commit at the revision that the client has seen
  Outcome-commit :
      (world : World) (file : File) (expected content : Text) {current : Document}
      → read parse_time revision file ≡ ok current
      → is_stale expected current ≡ false
      → Outcome world file expected
          (commit_unlocked parse_time revision world content current.revision)
  unfolding commit_unlocked
  Outcome-commit world file expected content {current} h s =
      elim (Answer-cases (prepare parse_time revision world content current.revision)) [
        | inl (e, failed) ↦ inl (e, ap (finish world content) failed)
        | inr (next, prepared) ↦
            let asked : (expected == []) ≡ false = ground (arith, s) in
            let same : expected == current.revision ≡ true = ground (arith, s) in
            let e : expected ≡ current.revision = (list_eq_iff expected current.revision).0 same in
            let (second, third, parsed, is_read) =
              prepare-eq-ok world content current.revision prepared in
            inr (
              next,
              record {
                asked = asked;
                first_read = rw e (read-eq-ok file h);
                second_read = rw e second;
                third_read = rw e third;
                read_again = read-regular content parsed is_read;
              },
              ap (finish world content) prepared
                  ∙ ap (λ c. (regular c, succeed_unless world.sync_failure >> ok next))
                      (sym (parse_document-content content parsed).0),
            )
      ]

  -- the first part of an operation, in which the client's revision is compared
  Outcome-commit_made :
      (world : World) (file : File) (expected : Text) (made : Document → Result (Text × Text))
      → ((d : Document) (p : Text × Text) → made d ≡ ok p → p.1 ≡ d.revision)
      → Outcome world file expected (
          commit_made parse_time revision world (
            read parse_time revision file >>= λ current.
            fail_if (is_stale expected current) conflict >> made current))
  Outcome-commit_made world file expected made seen =
      elim (Answer-cases (read parse_time revision file)) [
        | inl (e, failed) ↦ inl (e, rw failed refl)
        | inr (current, done) ↦ elim (Bool-cases (is_stale expected current)) [
          | inl stale ↦ inl (conflict, rw (done, stale) refl)
          | inr fresh ↦ elim (Answer-cases (made current)) [
            | inl (e, failed) ↦ inl (e, rw (done, fresh, failed) refl)
            | inr ((content, at), is_made) ↦
                rw (done, fresh, is_made, seen current (content, at) is_made)
                  (Outcome-commit world file expected content done fresh)
          ]
        ]
      ]

  -- A save either answers with an error and leaves the file as it stood at the second recheck, or has
  -- renamed: then it was asked for at a revision that is not empty, which the file had at the read and
  -- at both rechecks; the file has the new content, which reads as its document; and the answer is
  -- this document, unless the sync of the directory failed.
  pub save_manual_cases :
      (world : World) (file : File) (content expected : Text)
      → Outcome world file expected (save_manual parse_time revision world file content expected)
  unfolding save_manual
  save_manual_cases world file content expected =
      Outcome-commit_made world file expected
        (λ current. validate_manual parse_time content >>= λ manual.
          split_sections current.content >>= λ sections.
          ok (save_content sections manual, current.revision))
        (λ d p h. ground arith)

  -- the answer of a commit
  commit_unlocked-parsed :
      (world : World) (content expected : Text) {next : Document}
      → (commit_unlocked parse_time revision world content expected).1 ≡ ok next
      → parse_document parse_time revision content ≡ ok next
  unfolding commit_unlocked
  commit_unlocked-parsed world content expected {next} h =
      elim (Answer-cases (prepare parse_time revision world content expected)) [
        | inl (e, failed) ↦
            absurd (err-ne-ok (ap (λ r. (finish world content r).1) (sym failed) ∙ h))
        | inr (d, prepared) ↦
            let (_, _, parsed, _) = prepare-eq-ok world content expected prepared in
            let answered : (succeed_unless world.sync_failure >> ok d) ≡ ok next =
              ap (λ r. (finish world content r).1) (sym prepared) ∙ h in
            parsed ∙ (succeed_unless-eq-ok world.sync_failure (ok d) answered).1
      ]

  module _ (format_time : ℕ → Text) where
    -- A replacement of the generated block has the same outcomes as a save.
    pub replace_generated_cases :
        (world : World) (file : File) (prefixes : List NetPrefix) (expected : Text)
        (generated_at now : ℕ) (scope : Text)
        → Outcome world file expected (
            replace_generated_with_scope parse_time format_time revision world file prefixes
              expected generated_at now scope)
    unfolding replace_generated_with_scope
    replace_generated_cases world file prefixes expected generated_at now scope =
        Outcome-commit_made world file expected
          (λ current.
            replaced_generated_document parse_time format_time revision current prefixes
              generated_at now scope
            >>= λ next. ok (next.content, current.revision))
          (λ d p h. ground arith)

    -- If a replacement answers with a document, a preview from the same file and arguments answers
    -- with the same one.
    pub preview-replace_generated :
        (world : World) (file : File) (prefixes : List NetPrefix) (expected : Text)
        (generated_at now : ℕ) (scope : Text) {next : Document}
        → (replace_generated_with_scope parse_time format_time revision world file prefixes expected
            generated_at now scope).1
          ≡ ok next
        → preview_replace_generated_with_scope parse_time format_time revision file prefixes
            expected generated_at now scope
          ≡ ok next
    unfolding replace_generated_with_scope preview_replace_generated_with_scope
    preview-replace_generated world file prefixes expected generated_at now scope {next} h =
        elim (Answer-cases (read parse_time revision file)) [
          | inl (e, failed) ↦ absurd (err-ne-ok (rw failed at h))
          | inr (current, done) ↦ elim (Bool-cases (is_stale expected current)) [
            | inl stale ↦ absurd (err-ne-ok (rw (done, stale) at h))
            | inr fresh ↦
                rw (done, fresh)
                  (shown current
                    (Answer-cases (
                      replaced_generated_document parse_time format_time revision current prefixes
                        generated_at now scope))
                    (rw (done, fresh) at h))
          ]
        ]
      where
        shown :
            (current : Document)
            → let r =
                replaced_generated_document parse_time format_time revision current prefixes
                  generated_at now scope in
              ((e : StoreError) × (r ≡ err e)) ⊎ ((d : Document) × (r ≡ ok d))
              → (commit_made parse_time revision world
                  (r >>= λ d. ok (d.content, current.revision))).1
                ≡ ok next
              → r ≡ ok next
        shown current (inl (e, failed)) h' = absurd (err-ne-ok (rw failed at h'))
        shown current (inr (d, made)) h' =
            let again =
              replaced_generated_document-again format_time current prefixes generated_at now scope
                made in
            made
            ∙ sym again
            ∙ commit_unlocked-parsed world d.content current.revision (rw made at h')
