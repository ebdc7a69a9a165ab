-- ===== src/Engine/Supervisor/Records.antt =====
-- What the state file says of the process that runs (internal/engine/supervisor.go): what a read of
-- it gives, and what a write leaves in it.
use boxctl.Base.{
  true, false, nat_eq_iff, ◌≡◌, ◌⊎◌, leb, ltb, sym, ap, ◌∙◌, ◌++◌, inl, inr, refl, Bool, ◌||◌, not,
  Option, none, some, List, [], ◌∷◌, nat_eq, text_Eq, ◌==◌, nat_Eq, arith, Bool-cases,
}
use boxctl.Base.Text.{Text}
use boxctl.Base.Answers.{ok, err, fail_if-eq-ok, >>=-eq-ok, Answer-cases, err-ne-ok}
use mathlib.Core.Path.{subst}
use boxctl.Base.Strings.{byte_length}
use boxctl.State.Files.{Fault, fine, before_rename, after_rename}
use boxctl.Engine.StateFile.{
  SupervisorError, Result, PreparedCore, PersistedProcess, Codec, CodecLaws, has_utf8, Found,
  validate_persisted_state, read_process_state, read_version, read_present, read_legacy, record_of,
  encode_state, or_error, invalid_state, refused, not_owned, write_failed, mihomo_engine, upgraded,
  max_process_state_size,
}
use boxctl.Engine.Supervisor.{System, write_text, write_process_state, recorded, after_upgrade}

module _ (codec : Codec) (engine : Text) where
  -- a text of the present version that is read as a record
  abbrev pub Holds : Text → PersistedProcess → Type 0
  Holds text p = (codec.header text ≡ some 2) × (codec.decode text ≡ some p)

  -- a text that was written for a record
  abbrev pub Encodes : Text → PersistedProcess → Type 0
  Encodes text p =
      (p.version ≡ 2) × (json : Text) × (codec.encode p ≡ some json) × (json ++ 10 ∷ [] ≡ text)

  -- a text that is read as a record, or was written for one whose texts are not all in UTF-8
  abbrev pub Keeps : Text → PersistedProcess → Type 0
  Keeps text p = Holds text p ⊎ ((has_utf8 p ≡ false) × Encodes text p)

  -- the state file keeps a valid record of the process
  abbrev pub IsNamed : System → Type 0
  IsNamed system =
      (text : Text) × (p : PersistedProcess) × (system.state_file ≡ some text)
      × Keeps text p
      × (validate_persisted_state p engine ≡ ok tt)
      × (p.pid ≡ system.supervisor.pid)
      × (p.execution ≡ system.supervisor.execution)

  -- the state file names the process that runs, if one does
  abbrev pub IsRecorded : System → Type 0
  IsRecorded system = (system.supervisor.pid ≡ 0) ⊎ IsNamed system

  or_error-eq-ok {ℓ} :
      {A : Type ℓ} (e : SupervisorError) (o : Option A) {a : A} → or_error e o ≡ ok a → o ≡ some a
  or_error-eq-ok e none h = cc
  or_error-eq-ok e (some a) h = cc

  read_present-eq-ok :
      (text : Text) (found : Found)
      → read_present codec engine text ≡ ok found
      → (found.legacy ≡ none)
        × (codec.decode text ≡ some found.process)
        × (validate_persisted_state found.process engine ≡ ok tt)
  unfolding read_present
  read_present-eq-ok text found h =
      let (p, decoded, h1) = >>=-eq-ok (or_error invalid_state (codec.decode text)) _ h in
      let (_, valid, h2) = >>=-eq-ok (validate_persisted_state p engine) _ h1 in
      let same : record { process = p; legacy = none } ≡ found = cc in
      subst
        (λ f.
          (f.legacy ≡ none)
          × (codec.decode text ≡ some f.process)
          × (validate_persisted_state f.process engine ≡ ok tt))
        same (refl, or_error-eq-ok invalid_state (codec.decode text) decoded, valid)

  read_legacy-eq-ok :
      (text : Text) (found : Found)
      → read_legacy codec engine text ≡ ok found
      → (args : List Text) × (found.legacy ≡ some args)
  unfolding read_legacy
  read_legacy-eq-ok text found h =
      let (_, h1) = fail_if-eq-ok (not (engine == mihomo_engine)) not_owned _ h in
      let (legacy, decoded, h2) =
        >>=-eq-ok (or_error invalid_state (codec.decode_legacy text)) _ h1 in
      let (_, h3) =
        fail_if-eq-ok (leb legacy.pid 1 || (legacy.identity == [] || nat_eq legacy.started_at 0))
          invalid_state _ h2 in
      let same : upgraded legacy ≡ found = cc in
      (legacy.launch_args, ap (λ (f : Found). f.legacy) (sym same))

  -- a record that is read is of the present version, and the one in the file, or it is an old one
  pub read_process_state-eq-ok :
      (private_file readable : Bool) (file : Option Text) (found : Found)
      → read_process_state codec engine private_file readable file ≡ ok found
      → ((text : Text) × (file ≡ some text)
          × (found.legacy ≡ none)
          × Holds text found.process
          × (validate_persisted_state found.process engine ≡ ok tt))
        ⊎ ((args : List Text) × (found.legacy ≡ some args))
  unfolding read_process_state read_version
  read_process_state-eq-ok private_file readable none found h = cc
  read_process_state-eq-ok private_file readable (some text) found h =
      let (_, h1) =
        fail_if-eq-ok (not private_file || ltb max_process_state_size (byte_length text)) refused _
          h in
      let (_, h2) = fail_if-eq-ok (not readable) refused _ h1 in
      let (version, headed, h3) = >>=-eq-ok (or_error invalid_state (codec.header text)) _ h2 in
      elim (Bool-cases (nat_eq version 2)) [
        | inl present ↦
            let (current, decoded, valid) = read_present-eq-ok text found (rw present at h3) in
            let two : version ≡ 2 = omega (arith, (nat_eq_iff version 2).0 present) in
            inl (
              text,
              refl,
              current,
              (or_error-eq-ok invalid_state (codec.header text) headed ∙ ap some two, decoded),
              valid,
            )
        | inr other ↦ elim (Bool-cases (nat_eq version 1)) [
          | inl old ↦ inr (read_legacy-eq-ok text found (rw (other, old) at h3))
          | inr unknown ↦ absurd (err-ne-ok (rw (other, unknown) at h3))
        ]
      ]

module _ (codec : Codec) (laws : CodecLaws codec) (engine : Text) where
  pub Encodes-Holds :
      (p : PersistedProcess) (text : Text)
      → has_utf8 p ≡ true
      → Encodes codec engine text p
      → Holds codec engine text p
  Encodes-Holds p text utf8 (two, json, made, same) =
      subst (λ t. Holds codec engine t p) same
        (laws.header-encode p json made ∙ ap some two, laws.decode-encode p json utf8 made)

  encode_state-Keeps :
      (p : PersistedProcess) (text : Text)
      → p.version ≡ 2
      → encode_state codec engine p ≡ ok text
      → Keeps codec engine text p × (validate_persisted_state p engine ≡ ok tt)
  unfolding encode_state
  encode_state-Keeps p text two h =
      let (_, valid, h1) = >>=-eq-ok (validate_persisted_state p engine) _ h in
      let (json, made, h2) = >>=-eq-ok (or_error write_failed (codec.encode p)) _ h1 in
      let same : json ++ 10 ∷ [] ≡ text = cc in
      let encodes : Encodes codec engine text p =
        (two, json, or_error-eq-ok codec engine write_failed (codec.encode p) made, same) in
      (
        elim (Bool-cases (has_utf8 p)) [
          | inl utf8 ↦ inl (Encodes-Holds p text utf8 encodes)
          | inr other ↦ inr (other, encodes)
        ],
        valid,
      )

  -- a write puts a record of the process into the file, or leaves everything as it was
  pub write_process_state_cases :
      (fault : Fault) (prepared : PreparedCore) (system : System)
      → IsNamed codec engine (write_process_state codec engine fault prepared system).0
        ⊎ ((e : SupervisorError) × (write_process_state codec engine fault prepared system
              ≡ (system, err e)))
  unfolding write_process_state
  write_process_state_cases fault prepared system =
      elim (Answer-cases (encode_state codec engine p)) [
        | inl (e, failed) ↦ inr (e, ap (write_text fault system) failed)
        | inr (text, made) ↦ rw made (written fault text (encode_state-Keeps p text refl made))
      ]
    where
      p : PersistedProcess
      p =
          record_of codec engine system.supervisor.pid system.supervisor.execution
            system.supervisor.started_at prepared

      written :
          (f : Fault) (text : Text)
          → Keeps codec engine text p × (validate_persisted_state p engine ≡ ok tt)
          → IsNamed codec engine (write_text f system (ok text)).0
            ⊎ ((e : SupervisorError) × (write_text f system (ok text) ≡ (system, err e)))
      written fine text (kept, valid) = inl (text, p, refl, kept, valid, refl, refl)
      written after_rename text (kept, valid) = inl (text, p, refl, kept, valid, refl, refl)
      written before_rename text h = inr (_, refl)

  pub recorded-IsRecorded :
      (system : System) (written : System × Result (Unit {0}))
      → IsNamed codec engine written.0 ⊎ ((e : SupervisorError) × (written ≡ (system, err e)))
      → IsRecorded codec engine (recorded written).0
  recorded-IsRecorded system (now, err e) h = inl refl
  recorded-IsRecorded system (now, ok _) (inl named) = inr named
  recorded-IsRecorded system (now, ok _) (inr (e, h)) =
      absurd (err-ne-ok (sym (ap (λ (r : System × Result (Unit {0})). r.1) h)))

  pub after_upgrade-IsRecorded :
      (prepared : PreparedCore) (system : System) (written : System × Result (Unit {0}))
      → IsNamed codec engine written.0 ⊎ ((e : SupervisorError) × (written ≡ (system, err e)))
      → IsRecorded codec engine (after_upgrade codec engine prepared written).0
  after_upgrade-IsRecorded prepared system (now, err e) h = inl refl
  after_upgrade-IsRecorded prepared system (now, ok _) (inl named) = inr named
  after_upgrade-IsRecorded prepared system (now, ok _) (inr (e, h)) =
      absurd (err-ne-ok (sym (ap (λ (r : System × Result (Unit {0})). r.1) h)))
