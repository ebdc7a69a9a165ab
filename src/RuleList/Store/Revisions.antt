-- ===== src/RuleList/Store/Revisions.antt =====
-- What the changes of the lists do to the directory (internal/rulelist/store.go).
use boxctl.Base.{
  ℕ, ◌≡◌, ◌≢◌, ◌⊎◌, inl, inr, refl, sym, ap, ◌∙◌, Bool, true, false, ◌||◌, not, Option, none, some,
  [], ◌∷◌, ltb, if◌then◌else◌, text_Eq, ◌==◌, list_eq_iff, list_eq_refl, lookup, put, remove,
  lookup-put, lookup-remove, arith, Bool-cases,
}
use boxctl.Base.Text.{Text, codes}
use boxctl.Base.Strings.{trim_space, trim_front, trim_end, is_space, byte_length}
use boxctl.Base.Answers.{ok, err, >>=-eq-ok, fail_if-eq-ok, Answer-cases, err-ne-ok}
use boxctl.RuleList.AutoPrefix.{map_text}
use boxctl.RuleList.Store.{
  not_found, Result, Item, Node, regular, Files, Faults, max_list_bytes, is_name_char, all_chars,
  valid_name, normalize_content, is_text, read_node, or_missing, refuses_put, refuses_delete, path,
  item_of, get, check_put, publish, put_locked, create, check_delete, delete,
}

or-false : (a b : Bool) → (a || b) ≡ false → (a ≡ false) × (b ≡ false)
or-false false false h = (refl, refl)
or-false false true h = cc
or-false true b h = cc

not-false : (b : Bool) → not b ≡ false → b ≡ true
not-false true h = refl
not-false false h = cc

none-ne-some {ℓ} : {A : Type ℓ} {a : A} → none ≢ some a
none-ne-some h = cc

-- The case mapping leaves small letters, digits, `_` and `-` as they are.
abbrev pub KeepsNames : (ℕ → ℕ) → Type 0
KeepsNames lower = (c : ℕ) → is_name_char c ≡ true → lower c ≡ c

name_char_space : (c : ℕ) → is_name_char c ≡ true → is_space c ≡ false
unfolding is_space
name_char_space c h = ground arith

valid_name-chars : (s : Text) → valid_name s ≡ true → all_chars is_name_char s ≡ true
unfolding valid_name
valid_name-chars [] h = refl
valid_name-chars (c ∷ s) h = ground arith

map_text-kept :
    (lower : ℕ → ℕ) (s : Text)
    → KeepsNames lower
    → all_chars is_name_char s ≡ true
    → map_text lower s ≡ s
map_text-kept lower [] k h = refl
map_text-kept lower (c ∷ s) k h =
    let first : is_name_char c ≡ true = ground (arith, h) in
    let rest : all_chars is_name_char s ≡ true = ground (arith, h) in
    rw (k c first, map_text-kept lower s k rest)

trim_front-kept : (s : Text) → all_chars is_name_char s ≡ true → trim_front is_space s ≡ s
unfolding trim_front
trim_front-kept [] h = refl
trim_front-kept (c ∷ s) h =
    let first : is_name_char c ≡ true = ground (arith, h) in rw (name_char_space c first)

trim_end-kept : (s : Text) → all_chars is_name_char s ≡ true → trim_end is_space s ≡ s
unfolding trim_end
trim_end-kept [] h = refl
trim_end-kept (c ∷ []) h =
    let first : is_name_char c ≡ true = ground (arith, h) in rw (name_char_space c first)
trim_end-kept (c ∷ d ∷ s) h =
    let rest : all_chars is_name_char (d ∷ s) ≡ true = ground (arith, h) in
    rw (trim_end-kept (d ∷ s) rest)

module _ (lower : ℕ → ℕ) (revision : Text → Text) (keeps : KeepsNames lower) where
  -- a normalized name stands for itself
  path_again :
      (faults later : Faults) (name : Text) {n : Text}
      → path lower revision faults name ≡ ok n
      → later.directory ≡ false
      → path lower revision later n ≡ ok n
  unfolding path trim_space
  path_again faults later name {n} h d =
      let valid : valid_name n ≡ true = ground arith in
      let chars = valid_name-chars n valid in
      rw (
        d,
        trim_front-kept n chars,
        trim_end-kept n chars,
        map_text-kept lower n keeps chars,
        valid,
      )

  path-directory :
      (faults : Faults) (name : Text) {n : Text}
      → path lower revision faults name ≡ ok n
      → faults.directory ≡ false
  unfolding path
  path-directory faults name h = ground arith

  get-eq-ok :
      (faults : Faults) (files : Files) (name n : Text) {item : Item}
      → path lower revision faults name ≡ ok n
      → get lower revision faults files name ≡ ok item
      → (lookup n files ≡ some (regular item.content))
        × (item ≡ item_of lower revision n item.content)
  unfolding get read_node
  get-eq-ok faults files name n {item} p h = ground (arith, p)

  get-not_found :
      (faults : Faults) (files : Files) (name n : Text)
      → path lower revision faults name ≡ ok n
      → get lower revision faults files name ≡ err not_found
      → lookup n files ≡ none
  unfolding get read_node
  get-not_found faults files name n p h = ground (arith, p)

  -- that a change with this `if_match` may replace a list of this content
  abbrev pub Matches : Text → Text → Type 0
  Matches if_match content =
      (if_match ≡ []) ⊎ ((if_match ≡ codes "*") ⊎ (revision content ≡ if_match))

  -- what a put finds under the name that it writes
  abbrev pub MayWrite : Bool → Text → Option Node → Type 0
  MayWrite create_only if_match found =
      ((found ≡ none) × (if_match ≡ []))
      ⊎ ((content : Text) × (found ≡ some (regular content))
          × (create_only ≡ false)
          × Matches if_match content)

  refuses_put-none :
      (create_only : Bool) (if_match : Text)
      → refuses_put create_only if_match none ≡ false
      → if_match ≡ []
  unfolding refuses_put
  refuses_put-none create_only if_match h =
      let e : (if_match == []) ≡ true = ground (arith, h) in (list_eq_iff if_match []).0 e

  refuses_put-some :
      (create_only : Bool) (if_match : Text) (item : Item)
      → refuses_put create_only if_match (some item) ≡ false
      → item.revision ≡ revision item.content
      → (create_only ≡ false) × Matches if_match item.content
  unfolding refuses_put
  refuses_put-some create_only if_match item h r =
      let c : create_only ≡ false = ground (arith, h) in
      elim (Bool-cases (if_match == [])) [
        | inl e ↦ (c, inl ((list_eq_iff if_match []).0 e))
        | inr ne ↦ elim (Bool-cases (if_match == codes "*")) [
          | inl e ↦ (c, inr (inl ((list_eq_iff if_match (codes "*")).0 e)))
          | inr ns ↦
              let e : (item.revision == if_match) ≡ true = ground (arith, h, ne, ns, c) in
              (c, inr (inr (sym r ∙ (list_eq_iff item.revision if_match).0 e)))
        ]
      ]

  or_missing-eq-ok :
      (r : Result Item) {found : Option Item}
      → or_missing r ≡ ok found
      → ((r ≡ err not_found) × (found ≡ none))
        ⊎ ((item : Item) × (r ≡ ok item) × (found ≡ some item))
  or_missing-eq-ok (ok item) h = inr (item, refl, cc)
  or_missing-eq-ok (err not_found) h = inl (refl, cc)
  or_missing-eq-ok (err _) h = cc

  check_put-eq-ok :
      (faults : Faults) (files : Files) (name raw if_match : Text) (create_only : Bool)
      {n content : Text}
      → check_put lower revision faults files name raw if_match create_only ≡ ok (n, content)
      → (path lower revision faults name ≡ ok n)
        × (content ≡ normalize_content raw)
        × (ltb max_list_bytes (byte_length content) ≡ false)
        × (is_text content ≡ true)
        × MayWrite create_only if_match (lookup n files)
  unfolding check_put
  check_put-eq-ok faults files name raw if_match create_only {n} {content} h =
      let (m, p, h1) = >>=-eq-ok (path lower revision faults name) _ h in
      let checks =
        ltb max_list_bytes (byte_length (normalize_content raw))
        || not (is_text (normalize_content raw)) in
      let (good, h2) = fail_if-eq-ok checks _ _ h1 in
      let (found, f, h3) = >>=-eq-ok (or_missing (get lower revision faults files m)) _ h2 in
      let (allowed, h4) = fail_if-eq-ok (refuses_put create_only if_match found) _ _ h3 in
      let (_, h5) = fail_if-eq-ok faults.write _ _ h4 in
      let em : m ≡ n = cc in
      let ec : normalize_content raw ≡ content = cc in
      let small : ltb max_list_bytes (byte_length (normalize_content raw)) ≡ false =
        (or-false _ _ good).0 in
      let textual : is_text (normalize_content raw) ≡ true =
        not-false (is_text (normalize_content raw)) (or-false _ _ good).1 in
      let again = path_again faults faults name p (path-directory faults name p) in
      let may : MayWrite create_only if_match (lookup m files) =
        elim (or_missing-eq-ok (get lower revision faults files m) f) [
          | inl (missing, e) ↦ inl (
            get-not_found faults files m m again missing,
            refuses_put-none create_only if_match (rw e at allowed),
          )
          | inr (item, got, e) ↦
              let (l, same) = get-eq-ok faults files m m again got in
              let (c, matches) =
                refuses_put-some create_only if_match item (rw e at allowed)
                  (ap (λ i. i.revision) same) in
              inr (item.content, l, c, matches)
        ] in
      (p ∙ ap ok em, sym ec, rw ec at small, rw ec at textual, rw em at may)

  -- the answer of a put
  publish-eq-ok :
      (faults : Faults) (files : Files) (made : Result (Text × Text)) {item : Item}
      → (publish lower revision faults files made).1 ≡ ok item
      → (made ≡ ok (item.name, item.content))
        × (item ≡ item_of lower revision item.name item.content)
        × ((publish lower revision faults files made).0
            ≡ put item.name (regular item.content) files)
  publish-eq-ok faults files (err e) h = cc
  publish-eq-ok faults files (ok (name, content)) {item} h =
      let (_, answered) = fail_if-eq-ok faults.sync _ _ h in
      let same : item_of lower revision name content ≡ item = cc in
      let n : name ≡ item.name = ap (λ i. i.name) same in
      let c : content ≡ item.content = ap (λ i. i.content) same in
      (
        ap (λ i. ok (i.name, i.content)) same,
        sym same ∙ ap (λ i. item_of lower revision i.name i.content) same,
        ap (λ i. put i.name (regular i.content) files) same,
      )

  -- A put that answers with an item has found no list of the item's name, and no revision was asked
  -- for, or has found one, was no creation, and the revision asked for is empty, `*` or the one found.
  -- The item has the normalized content and its revision; a later read that meets no failure gives
  -- the same item; and each other list is as before. The case mapping keeps valid names.
  pub put_locked-eq-ok :
      (faults calm : Faults) (files : Files) (name raw if_match j : Text) (create_only : Bool)
      {item : Item}
      → (put_locked lower revision faults files name raw if_match create_only).1 ≡ ok item
      → calm.directory ≡ false
      → calm.inspect ≡ false
      → calm.read ≡ false
      → MayWrite create_only if_match (lookup item.name files)
        × (item ≡ item_of lower revision item.name (normalize_content raw))
        × (get lower revision calm
              (put_locked lower revision faults files name raw if_match create_only).0
              item.name
            ≡ ok item)
        × (lookup j (put_locked lower revision faults files name raw if_match create_only).0
            ≡ (if item.name == j then some (regular item.content) else lookup j files))
  unfolding put_locked get read_node
  put_locked-eq-ok faults calm files name raw if_match j create_only {item} h d i r =
      let (made, whole, after) =
        publish-eq-ok faults files
          (check_put lower revision faults files name raw if_match create_only) h in
      let (p, c, small, textual, may) =
        check_put-eq-ok faults files name raw if_match create_only made in
      let again = path_again faults calm name p d in
      let stored : lookup item.name (put item.name (regular item.content) files)
          ≡ some (regular item.content) =
        rw (lookup-put item.name item.name (regular item.content) files, list_eq_refl item.name)
          refl in
      (
        may,
        whole ∙ ap (item_of lower revision item.name) c,
        ap (λ f. get lower revision calm f item.name) after
            ∙ (rw (again, i, stored, small, r, textual) (ap ok (sym whole))),
        ap (lookup j) after ∙ lookup-put item.name j (regular item.content) files,
      )

  -- A creation keeps every node that the directory has under any name, whatever it answers. The case
  -- mapping keeps valid names.
  pub lookup-create :
      (faults : Faults) (files : Files) (name raw j : Text) {node : Node}
      → lookup j files ≡ some node
      → lookup j (create lower revision faults files name raw).0 ≡ some node
  unfolding create put_locked
  lookup-create faults files name raw j {node} h =
      elim (Answer-cases (check_put lower revision faults files name raw [] true)) [
        | inl (e, failed) ↦ rw failed h
        | inr ((n, content), made) ↦
            let (_, _, _, _, may) = check_put-eq-ok faults files name raw [] true made in
            rw made (lookup-put n j (regular content) files ∙ kept n content may)
      ]
    where
      kept :
          (n content : Text)
          → MayWrite true [] (lookup n files)
          → (if n == j then some (regular content) else lookup j files) ≡ some node
      kept n content (inl (missing, _)) = elim (Bool-cases (n == j)) [
        | inl t ↦
            let e : n ≡ j = (list_eq_iff n j).0 t in
            absurd (none-ne-some (sym missing ∙ ap (λ k. lookup k files) e ∙ h))
        | inr f ↦ rw f h
      ]
      kept n content (inr (_, _, never, _)) = cc

  refuses_delete-some :
      (if_match : Text) (item : Item)
      → refuses_delete if_match item ≡ false
      → item.revision ≡ revision item.content
      → ((if_match == []) ≡ false) × ((if_match ≡ codes "*") ⊎ (revision item.content ≡ if_match))
  unfolding refuses_delete
  refuses_delete-some if_match item h r =
      let (asked, rest) = or-false (if_match == []) _ h in
      elim (Bool-cases (if_match == codes "*")) [
        | inl e ↦ (asked, inl ((list_eq_iff if_match (codes "*")).0 e))
        | inr ns ↦
            let e : (item.revision == if_match) ≡ true = ground (arith, rest, ns) in
            (asked, inr (sym r ∙ (list_eq_iff item.revision if_match).0 e))
      ]

  check_delete-eq-ok :
      (faults : Faults) (files : Files) (name if_match : Text) {n : Text}
      → check_delete lower revision faults files name if_match ≡ ok n
      → (content : Text) × (path lower revision faults name ≡ ok n)
        × (lookup n files ≡ some (regular content))
        × ((if_match == []) ≡ false)
        × ((if_match ≡ codes "*") ⊎ (revision content ≡ if_match))
  unfolding check_delete
  check_delete-eq-ok faults files name if_match {n} h =
      let (m, p, h1) = >>=-eq-ok (path lower revision faults name) _ h in
      let (item, got, h2) = >>=-eq-ok (get lower revision faults files m) _ h1 in
      let (allowed, h3) = fail_if-eq-ok (refuses_delete if_match item) _ _ h2 in
      let (_, h4) = fail_if-eq-ok faults.remove _ _ h3 in
      let em : m ≡ n = cc in
      let again = path_again faults faults name p (path-directory faults name p) in
      let (l, same) = get-eq-ok faults files m m again got in
      let (asked, matches) =
        refuses_delete-some if_match item allowed (ap (λ i. i.revision) same) in
      (item.content, p ∙ ap ok em, rw em at l, asked, matches)

  -- A deletion that answers without an error was asked for at a revision, found a list at this revision
  -- or was asked for at `*`, and leaves a directory without the list and with each other list as
  -- before. The case mapping keeps valid names.
  pub delete-eq-ok :
      (faults calm : Faults) (files : Files) (name if_match j : Text) {u : Unit {0}}
      → (delete lower revision faults files name if_match).1 ≡ ok u
      → calm.directory ≡ false
      → calm.inspect ≡ false
      → (n content : Text) × (path lower revision faults name ≡ ok n)
        × (lookup n files ≡ some (regular content))
        × ((if_match == []) ≡ false)
        × ((if_match ≡ codes "*") ⊎ (revision content ≡ if_match))
        × (get lower revision calm (delete lower revision faults files name if_match).0 n
            ≡ err not_found)
        × (lookup j (delete lower revision faults files name if_match).0
            ≡ (if n == j then none else lookup j files))
  unfolding delete get read_node
  delete-eq-ok faults calm files name if_match j h d i =
      elim (Answer-cases (check_delete lower revision faults files name if_match)) [
        | inl (e, failed) ↦ absurd (err-ne-ok (rw failed at h))
        | inr (n, made) ↦
            let (content, p, found, asked, matches) =
              check_delete-eq-ok faults files name if_match made in
            let again = path_again faults calm name p d in
            let gone : lookup n (remove n files) ≡ none =
              rw (lookup-remove n n files, list_eq_refl n) refl in
            (
              n,
              content,
              p,
              found,
              asked,
              matches,
              rw (made, again, i, gone) refl,
              rw made (lookup-remove n j files),
            )
      ]
