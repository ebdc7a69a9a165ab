-- ===== src/State/Profiles/Removal.antt =====
-- A deletion never takes the active profile (`Delete` of internal/state/profiles.go).
use boxctl.Base.{
  ℕ, ◌≡◌, ◌≢◌, refl, sym, ap, ◌∙◌, Bool, true, false, Option, none, text_Eq, ◌==◌, list_eq_iff,
  lookup, lookup-remove, remove, Bool-cases, inl, inr,
}
use boxctl.Base.Text.{Text, codes}
use boxctl.Base.Answers.{err-ne-ok, ok, err, ◌>>=◌, fail_if, fail_if-eq-ok, >>=-eq-ok, Answer-cases}
use mathlib.Core.List.{append_cancel_left}
use boxctl.State.Files.{StateError, not_exist, still_active, Files, read, content_of}
use boxctl.State.Profiles.Names.{
  IsWhole, with_engine-IsWhole, file_name, file_name-Injective, profile_relative_path-eq-ok,
  current-IsWhole,
}
use boxctl.State.Profiles.{
  ActiveProfile, with_engine, same_profile, active_path, parse_active_profile,
  profile_relative_path, get, current, check_active, require_regular, check_delete, delete,
}

clash : true ≢ false
clash e = cc

one_profile :
    (a b : ActiveProfile) → a.name ≡ b.name → a.engine ≡ b.engine → same_profile a b ≡ true
one_profile a b h k =
    rw ((list_eq_iff a.name b.name).1 h) (rw ((list_eq_iff a.engine b.engine).1 k) refl)

only_if-ok : (b : Bool) (e : StateError) {u : Unit {0}} → fail_if b e ≡ ok u → b ≡ false
only_if-ok false e h = refl
only_if-ok true e h = cc

module _ (unmarshal : Text → Option ActiveProfile) (marshal : ActiveProfile → Option Text)
    (fold : ℕ → ℕ) where
  abbrev name_of : ActiveProfile → Text
  name_of = file_name unmarshal marshal fold

  deleted_path-ne :
      (p active : ActiveProfile) {path other : Text}
      → IsWhole active
      → same_profile active (with_engine p) ≡ false
      → profile_relative_path unmarshal marshal fold p ≡ ok path
      → profile_relative_path unmarshal marshal fold active ≡ ok other
      → (path == other) ≡ false
  deleted_path-ne p active {path} {other} whole differs h k = elim (Bool-cases (path == other)) [
    | inr e ↦ e
    | inl e ↦
        let (fine, made) = profile_relative_path-eq-ok unmarshal marshal fold p h in
        let (_, of_active) = profile_relative_path-eq-ok unmarshal marshal fold active k in
        let one_file =
          append_cancel_left (codes "configs/") (name_of (with_engine p))
            (name_of (with_engine active)) (sym made ∙ (list_eq_iff path other).0 e ∙ of_active) in
        let (names, engines) =
          file_name-Injective unmarshal marshal fold (with_engine p) active fine whole
            (one_file ∙ ap name_of (with_engine-IsWhole active whole)) in
        absurd
          (clash (sym (one_profile active (with_engine p) (sym names) (sym engines)) ∙ differs))
  ]

  kept :
      (path j : Text) (files : Files)
      → (path == j) ≡ false
      → lookup j (remove path files) ≡ lookup j files
  kept path j files h = lookup-remove path j files ∙ rw h refl

  gone : (path : Text) (files : Files) → lookup path (remove path files) ≡ none
  gone path files = lookup-remove path path files ∙ rw ((list_eq_iff path path).1 refl) refl

  -- what a deletion has checked
  check_delete-eq-ok :
      (fails_now : Bool) (p : ActiveProfile) (files : Files) {path : Text}
      → check_delete unmarshal marshal fold fails_now p files ≡ ok path
      → (profile_relative_path unmarshal marshal fold p ≡ ok path)
        × ((active : ActiveProfile)
            → current unmarshal marshal fold false files ≡ ok active
            → same_profile active (with_engine p) ≡ false)
  unfolding check_delete
  check_delete-eq-ok fails_now p files {path} checked =
      let (first, made, h1) =
        >>=-eq-ok (profile_relative_path unmarshal marshal fold p) _ checked in
      let (_, h2) = fail_if-eq-ok fails_now _ _ h1 in
      let (_, free, h3) =
        >>=-eq-ok (check_active (current unmarshal marshal fold false files) (with_engine p)) _
          h2 in
      let (_, _, h4) = >>=-eq-ok (require_regular (lookup first files)) _ h3 in
      let same : first ≡ path = cc in
      (made ∙ ap ok same, λ active h. only_if-ok _ still_active (rw h at free))

  removed :
      (p active : ActiveProfile) (files : Files) {path : Text}
      → current unmarshal marshal fold false files ≡ ok active
      → profile_relative_path unmarshal marshal fold p ≡ ok path
      → ((other : ActiveProfile)
          → current unmarshal marshal fold false files ≡ ok other
          → same_profile other (with_engine p) ≡ false)
      → (current unmarshal marshal fold false (remove path files) ≡ ok active)
        × (get unmarshal marshal fold false active (remove path files)
            ≡ get unmarshal marshal fold false active files)
        × (get unmarshal marshal fold false p (remove path files) ≡ err not_exist)
  unfolding current get read
  removed p active files {path} is_active made free =
      let (_, at_path) = profile_relative_path-eq-ok unmarshal marshal fold p made in
      let apart : (path == active_path) ≡ false = rw at_path refl in
      (
        ap (λ o. content_of o >>= parse_active_profile unmarshal marshal fold)
              (kept path active_path files apart)
            ∙ is_active,
        elim (Answer-cases (profile_relative_path unmarshal marshal fold active)) [
          | inl (e, no_path) ↦ rw no_path refl
          | inr (other, a_path) ↦ rw a_path (
              ap content_of (
                kept path other files (
                  deleted_path-ne p active (current-IsWhole unmarshal marshal fold files is_active)
                    (free active is_active) made a_path)))
        ],
        rw made (ap content_of (gone path files)),
      )

  -- If a deletion succeeds while there is an active profile, that profile stays the active one and
  -- keeps its content, and the deleted profile has no file any more. It holds for any JSON codec
  -- and any folding of case.
  pub delete-current :
      (fails_now : Bool) (p active : ActiveProfile) (files : Files)
      → current unmarshal marshal fold false files ≡ ok active
      → (delete unmarshal marshal fold fails_now p files).1 ≡ ok tt
      → (current unmarshal marshal fold false (delete unmarshal marshal fold fails_now p files).0
          ≡ ok active)
        × (get unmarshal marshal fold false active
              (delete unmarshal marshal fold fails_now p files).0
            ≡ get unmarshal marshal fold false active files)
        × (get unmarshal marshal fold false p (delete unmarshal marshal fold fails_now p files).0
            ≡ err not_exist)
  unfolding delete check_delete
  delete-current fails_now p active files is_active done =
      elim (Answer-cases (check_delete unmarshal marshal fold fails_now p files)) [
        | inl (e, refused) ↦ absurd (err-ne-ok (rw refused at done))
        | inr (path, checked) ↦
            let (made, free) = check_delete-eq-ok fails_now p files checked in
            rw checked (removed p active files is_active made free)
      ]
