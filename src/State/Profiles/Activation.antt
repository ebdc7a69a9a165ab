-- ===== src/State/Profiles/Activation.antt =====
-- The activation of a profile (`Activate` of internal/state/profiles.go).
use boxctl.Base.{
  ℕ, ◌≡◌, ◌≢◌, ◌⊎◌, inl, inr, refl, sym, ap, ◌∙◌, Bool, true, false, Option, none, some, [], ◌∷◌,
  ◌++◌, if◌then◌else◌, text_Eq, ◌==◌, list_eq_iff, list_eq_refl, lookup, put, lookup-put,
  lookup-remove, Bool-cases,
}
use boxctl.Base.Text.{Text}
use boxctl.Base.Strings.{trim_space}
use boxctl.Base.Answers.{ok, err, Answer-cases, fail_if-eq-ok, >>=-eq-ok}
use boxctl.State.Files.{
  StateError, Node, irregular, regular, Files, Fault, fine, before_rename, after_rename,
  write_file_atomic, write_over, read, system_failed, refuse_irregular,
}
use boxctl.State.Profiles.{
  ActiveProfile, with_engine, mirror_path, check_activate, activate, record_active, rollback_mirror,
  save_active_profile, save_encoded, mirror_content, marshal_active_profile, active_path,
  private_mode, read_mirror, get, current, parse_active_profile, validate_active_profile,
  engine_sing_box, accept_profile, starts_with_brace, or_invalid,
}

-- A write that answers with an error before its rename changes nothing, and one that succeeds changes
-- its path only.
write_file_atomic_cases :
    (fault : Fault) (path content : Text) (mode : ℕ) (files : Files)
    → fault ≢ after_rename
    → ((e : StateError) × (write_file_atomic fault path content mode files ≡ (files, err e)))
      ⊎ (write_file_atomic fault path content mode files
          ≡ (put path (regular content mode) files, ok tt))
unfolding write_file_atomic write_over
write_file_atomic_cases fault path content mode files ne = go (lookup path files) fault ne
  where
    go :
        (node : Option Node) (f : Fault)
        → f ≢ after_rename
        → ((e : StateError) × (refuse_irregular node files (write_over f path content mode files)
              ≡ (files, err e)))
          ⊎ (refuse_irregular node files (write_over f path content mode files)
              ≡ (put path (regular content mode) files, ok tt))
    go (some irregular) f n = inl (_, refl)
    go none fine n = inr refl
    go none before_rename n = inl (_, refl)
    go none after_rename n = absurd (n refl)
    go (some (regular _ _)) fine n = inr refl
    go (some (regular _ _)) before_rename n = inl (_, refl)
    go (some (regular _ _)) after_rename n = absurd (n refl)

-- the mirror goes back to what it was
lookup-rollback_mirror :
    (target content j : Text) (mode : ℕ) (files : Files) (old : Option (Text × ℕ))
    → read_mirror (lookup target files) ≡ ok old
    → lookup j (rollback_mirror fine target old (put target (regular content mode) files))
      ≡ lookup j files
unfolding rollback_mirror write_file_atomic write_over
lookup-rollback_mirror target content j mode files old h = go (lookup target files) old refl h
  where
    now : Files
    now = put target (regular content mode) files

    back :
        (found : Option Node)
        → lookup target files ≡ found
        → (if target == j then found else lookup j now) ≡ lookup j files
    back found e = elim (Bool-cases (target == j)) [
      | inl t ↦ rw t (sym e ∙ ap (λ k. lookup k files) ((list_eq_iff target j).0 t))
      | inr f ↦ rw f (lookup-remove target j files ∙ rw f refl)
    ]

    stored : lookup target now ≡ some (regular content mode)
    stored =
        lookup-put target target (regular content mode) files
        ∙ ap (λ b. if b then some (regular content mode) else lookup target files)
            (list_eq_refl target)

    go :
        (node : Option Node) (o : Option (Text × ℕ))
        → lookup target files ≡ node
        → read_mirror node ≡ ok o
        → lookup j (rollback_mirror fine target o now) ≡ lookup j files
    go none none e r = lookup-remove target j now ∙ back none e
    go none (some _) e r = cc
    go (some irregular) o e r = cc
    go (some (regular c m)) none e r = cc
    go (some (regular c m)) (some (c', m')) e r =
        let same : some (regular c m) ≡ some (regular c' m') = cc in
        ap (λ n. lookup j (refuse_irregular n now (put target (regular c' m') now, ok tt)).0) stored
        ∙ lookup-put target j (regular c' m') now
        ∙ back (some (regular c' m')) (e ∙ same)

module _ (unmarshal : Text → Option ActiveProfile) (marshal : ActiveProfile → Option Text)
    (fold : ℕ → ℕ) where
  save_active_profile_cases :
      (fault : Fault) (profile : ActiveProfile) (files : Files)
      → fault ≢ after_rename
      → ((e : StateError) × (save_active_profile unmarshal marshal fold fault profile files
            ≡ (files, err e)))
        ⊎ ((encoded : Text) × (marshal_active_profile unmarshal marshal fold profile ≡ ok encoded)
            × (save_active_profile unmarshal marshal fold fault profile files
                ≡ (put active_path (regular encoded private_mode) files, ok tt)))
  unfolding save_active_profile
  save_active_profile_cases fault profile files ne =
      elim (Answer-cases (marshal_active_profile unmarshal marshal fold profile)) [
        | inl (e, failed) ↦ inl (e, ap (save_encoded fault files) failed)
        | inr (encoded, made) ↦
            elim (write_file_atomic_cases fault active_path encoded private_mode files ne) [
              | inl (e, failed) ↦ inl (e, ap (save_encoded fault files) made ∙ failed)
              | inr done ↦ inr (encoded, made, ap (save_encoded fault files) made ∙ done)
            ]
      ]

  -- what `Activate` does once it has a content, if no write fails after its rename and the mirror can
  -- be put back
  mirror_content_cases :
      (mirror metadata : Fault) (profile : ActiveProfile) (files : Files) (content : Text)
      (old : Option (Text × ℕ))
      → mirror ≢ after_rename
      → metadata ≢ after_rename
      → read_mirror (lookup (mirror_path profile) files) ≡ ok old
      → let r =
          mirror_content unmarshal marshal fold mirror metadata fine profile files
            (ok (content, old)) in
        ((e : StateError) × (r.1 ≡ err e) × ((j : Text) → lookup j r.0 ≡ lookup j files))
        ⊎ ((encoded : Text) × (marshal_active_profile unmarshal marshal fold profile ≡ ok encoded)
            × (r ≡ (
              put active_path
                  (regular encoded private_mode)
                  (put (mirror_path profile) (regular content private_mode) files),
              ok tt,
            )))
  unfolding mirror_content record_active
  mirror_content_cases mirror metadata profile files content old nm nd h =
      let target = mirror_path profile in
      let now = put target (regular content private_mode) files in
      elim (write_file_atomic_cases mirror target content private_mode files nm) [
        | inl (e, failed) ↦ inl (e, rw failed refl, λ j. rw failed refl)
        | inr written ↦ elim (save_active_profile_cases metadata profile now nd) [
          | inl (e, failed) ↦ inl (
            e,
            rw (written, failed) refl,
            λ j.
                rw (written, failed)
                  (lookup-rollback_mirror target content j private_mode files old h),
          )
          | inr (encoded, made, saved) ↦ inr (encoded, made, rw (written, saved) refl)
        ]
      ]

mirror_path-ne : (p : ActiveProfile) → (active_path == mirror_path p) ≡ false
unfolding mirror_path
mirror_path-ne p = elim (Bool-cases (p.engine == engine_sing_box)) [
  | inl t ↦ rw t refl
  | inr f ↦ rw f refl
]

with_engine_again : (p : ActiveProfile) → with_engine (with_engine p) ≡ with_engine p
unfolding with_engine
with_engine_again p = elim (Bool-cases (p.engine == [])) [
  | inl t ↦ rw t refl
  | inr f ↦ rw f (rw f refl)
]

accept_profile-eq-ok :
    (p : ActiveProfile) {whole : ActiveProfile}
    → accept_profile p ≡ ok whole
    → with_engine p ≡ whole
unfolding accept_profile
accept_profile-eq-ok p {whole} h =
    let (_, _, same) = >>=-eq-ok (validate_active_profile (with_engine p)) _ h in cc

-- What the JSON codec does with a profile: it writes an object without white space around it, and reads
-- what it has written.
pub record CodecLaws (unmarshal : Text → Option ActiveProfile)
    (marshal : ActiveProfile → Option Text) : Type 0 where
  pub unmarshal_marshal : (p : ActiveProfile) (b : Text) → marshal p ≡ some b → unmarshal b ≡ some p
  pub marshal_object :
      (p : ActiveProfile) (b : Text) → marshal p ≡ some b → starts_with_brace b ≡ true
  pub marshal_trimmed :
      (p : ActiveProfile) (b : Text) → marshal p ≡ some b → trim_space (b ++ 10 ∷ []) ≡ b

module _ (unmarshal : Text → Option ActiveProfile) (marshal : ActiveProfile → Option Text)
    (fold : ℕ → ℕ) (laws : CodecLaws unmarshal marshal) where
  or_invalid-eq-ok : {A : Type 0} (o : Option A) {a : A} → or_invalid o ≡ ok a → o ≡ some a
  or_invalid-eq-ok none h = cc
  or_invalid-eq-ok (some a) h = cc

  brace-ne-nil : (s : Text) → starts_with_brace s ≡ true → (s == []) ≡ false
  brace-ne-nil [] h = cc
  brace-ne-nil (c ∷ s) h = refl

  parse-marshal_active_profile :
      (p : ActiveProfile) (encoded : Text)
      → with_engine p ≡ p
      → marshal_active_profile unmarshal marshal fold p ≡ ok encoded
      → parse_active_profile unmarshal marshal fold encoded ≡ ok p
  unfolding marshal_active_profile parse_active_profile
  parse-marshal_active_profile p encoded whole h =
      let (q, accepted, h1) = >>=-eq-ok (accept_profile p) _ h in
      let (b, made, h2) = >>=-eq-ok (or_invalid (marshal q)) _ h1 in
      let eq : p ≡ q = sym whole ∙ accept_profile-eq-ok p accepted in
      let written : marshal p ≡ some b = ap marshal eq ∙ or_invalid-eq-ok (marshal q) made in
      let eb : b ++ 10 ∷ [] ≡ encoded = cc in
      let trimmed : trim_space encoded ≡ b =
        ap trim_space (sym eb) ∙ laws.marshal_trimmed p b written in
      let object = laws.marshal_object p b written in
      rw (trimmed, brace-ne-nil b object, object, laws.unmarshal_marshal p b written)
        (accepted ∙ ap ok (sym eq))

  -- the files that a successful activation leaves
  activated_files :
      (profile : ActiveProfile) (files : Files) (content encoded j : Text)
      → with_engine profile ≡ profile
      → marshal_active_profile unmarshal marshal fold profile ≡ ok encoded
      → let after =
          put active_path
            (regular encoded private_mode)
            (put (mirror_path profile) (regular content private_mode) files) in
        (current unmarshal marshal fold false after ≡ ok profile)
        × (lookup (mirror_path profile) after ≡ some (regular content private_mode))
        × (lookup j after ≡ (
            if active_path == j
            then some (regular encoded private_mode)
            else if mirror_path profile == j
            then some (regular content private_mode)
            else lookup j files))
  unfolding current read
  activated_files profile files content encoded j whole made =
      let target = mirror_path profile in
      let mid = put target (regular content private_mode) files in
      (
        parse-marshal_active_profile profile encoded whole made,
        lookup-put active_path target (regular encoded private_mode) mid
            ∙ rw (mirror_path-ne profile) (
                lookup-put target target (regular content private_mode) files
                ∙ rw (list_eq_refl target) refl),
        lookup-put active_path j (regular encoded private_mode) mid
            ∙ ap (λ o. if active_path == j then some (regular encoded private_mode) else o)
                (lookup-put target j (regular content private_mode) files),
      )

  -- An activation in which no write fails after its rename, and the mirror can be put back, is one of
  -- two: it answers with an error, and then each path has what it had; or it succeeds, and then the
  -- mirror has the content of the profile, the profile is the active one, and each path but the
  -- mirror's and the metadata's has what it had. The JSON codec keeps its laws.
  pub activate_cases :
      (fails : Bool) (mirror metadata : Fault) (profile : ActiveProfile) (files : Files) (j : Text)
      → mirror ≢ after_rename
      → metadata ≢ after_rename
      → let r = activate unmarshal marshal fold fails mirror metadata fine profile files in
        let whole = with_engine profile in
        ((e : StateError) × (r.1 ≡ err e) × (lookup j r.0 ≡ lookup j files))
        ⊎ ((content encoded : Text) × (r.1 ≡ ok tt)
            × (get unmarshal marshal fold false whole files ≡ ok content)
            × (current unmarshal marshal fold false r.0 ≡ ok whole)
            × (lookup (mirror_path whole) r.0 ≡ some (regular content private_mode))
            × (lookup j r.0 ≡ (
                if active_path == j
                then some (regular encoded private_mode)
                else if mirror_path whole == j
                then some (regular content private_mode)
                else lookup j files)))
  unfolding activate check_activate
  activate_cases fails mirror metadata profile files j nm nd =
      let whole = with_engine profile in
      elim (Answer-cases (check_activate unmarshal marshal fold fails whole files)) [
        | inl (e, failed) ↦ inl (e, rw failed refl, rw failed refl)
        | inr ((content, old), checked) ↦
            let (_, _, h1) = >>=-eq-ok (validate_active_profile whole) _ checked in
            let (_, h2) = fail_if-eq-ok fails system_failed _ h1 in
            let (c, got, h3) = >>=-eq-ok (get unmarshal marshal fold false whole files) _ h2 in
            let (o, seen, h4) = >>=-eq-ok (read_mirror (lookup (mirror_path whole) files)) _ h3 in
            let ec : c ≡ content = cc in
            let eo : o ≡ old = cc in
            elim (mirror_content_cases unmarshal marshal fold mirror metadata whole files content
              old nm nd (seen ∙ ap ok eo)) [
                | inl (e, failed, kept) ↦ inl (e, rw checked failed, rw checked (kept j))
                | inr (encoded, made, done) ↦
                    let (now, mirrored, others) =
                      activated_files whole files content encoded j (with_engine_again profile)
                        made in
                    inr (
                      content,
                      encoded,
                      rw (checked, done) refl,
                      got ∙ ap ok ec,
                      rw (checked, done) now,
                      rw (checked, done) mirrored,
                      rw (checked, done) others,
                    )
              ]
      ]
