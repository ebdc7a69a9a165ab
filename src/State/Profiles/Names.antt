-- ===== src/State/Profiles/Names.antt =====
-- The files of the profiles (`profileRelativePath` of internal/state/profiles.go): two profiles have
-- two files, and the active profile has an engine.
use boxctl.Base.{
  ℕ, ◌≡◌, ◌≢◌, refl, sym, ap, ◌∙◌, Bool, true, false, ◌||◌, not, Option, [], ◌∷◌, ◌++◌, text_Eq,
  ◌==◌, list_eq_iff, Bool-cases, inl, inr, ◌⊎◌,
}
use boxctl.Base.Text.{Text, codes}
use boxctl.Base.Strings.{ends_with, trim_space}
use boxctl.Base.Answers.{
  ok, fail_if, >>=-eq-ok, Ensures, fails, gives, Ensures-bind, Ensures-after, Ensures-check,
  Ensures-if, Ensures-ok,
}
use mathlib.Core.Path.{subst}
use mathlib.Core.List.{append_cancel_right}
use boxctl.RuleList.AutoPrefix.{map_text}
use boxctl.State.Files.{StateError, Result, invalid_profile, Files, read}
use boxctl.State.Profiles.{
  ActiveProfile, profile_name, engine_mihomo, engine_sing_box, validate_active_profile, with_engine,
  accept_profile, starts_with_brace, active_path, or_invalid, parse_active_profile,
  profile_config_name, profile_relative_path, current,
}

-- the profile has one of the two engines
abbrev pub IsWhole : ActiveProfile → Type 0
IsWhole p = (p.engine ≡ engine_mihomo) ⊎ (p.engine ≡ engine_sing_box)

valid_engine :
    (engine : Text)
    → not (engine == engine_mihomo || engine == engine_sing_box) ≡ false
    → (engine ≡ engine_mihomo) ⊎ (engine ≡ engine_sing_box)
valid_engine engine h = elim (Bool-cases (engine == engine_mihomo)) [
  | inl e ↦ inl ((list_eq_iff engine engine_mihomo).0 e)
  | inr e ↦ elim (Bool-cases (engine == engine_sing_box)) [
    | inl f ↦ inr ((list_eq_iff engine engine_sing_box).0 f)
    | inr f ↦ absurd (Bool-clash (rw (e, f) at h))
  ]
]
  where
    Bool-clash : true ≢ false
    Bool-clash e = cc

IsAccepted : ActiveProfile → ActiveProfile → Type 0
IsAccepted p whole = (whole ≡ with_engine p) × IsWhole whole

only_if :
    {P : Type 0} (b : Bool) (e : StateError)
    → (b ≡ false → P)
    → Ensures (λ (_ : Unit {0}). P) (fail_if b e)
only_if true e h = fails e
only_if false e h = gives tt (h refl)

accept_profile-IsAccepted : (p : ActiveProfile) → Ensures (IsAccepted p) (accept_profile p)
unfolding accept_profile validate_active_profile IsAccepted
accept_profile-IsAccepted p =
    Ensures-bind {Q = λ _. IsWhole (with_engine p)}
      (Ensures-check (not (profile_name (with_engine p).name)) invalid_profile
        {rest = fail_if
          (not
            ((with_engine p).engine == engine_mihomo || (with_engine p).engine == engine_sing_box))
          invalid_profile}
        (λ _. only_if _ invalid_profile (valid_engine (with_engine p).engine)))
      (λ _ whole. gives (with_engine p) (refl, whole))

accept_profile-IsWhole : (p : ActiveProfile) → Ensures IsWhole (accept_profile p)
unfolding IsAccepted
accept_profile-IsWhole p = weaken (accept_profile-IsAccepted p)
  where
    weaken : {r : Result ActiveProfile} → Ensures (IsAccepted p) r → Ensures IsWhole r
    weaken (fails e) = fails e
    weaken (gives a (_, h)) = gives a h

pub with_engine-IsWhole : (p : ActiveProfile) → IsWhole p → with_engine p ≡ p
unfolding with_engine
with_engine-IsWhole p (inl e) = rw e refl
with_engine-IsWhole p (inr e) = rw e refl

-- the two endings of a file name
ends_with-append : (x c : ℕ) (s t : Text) → ends_with x (s ++ c ∷ t) ≡ ends_with x (c ∷ t)
unfolding ends_with
ends_with-append x c [] t = refl
ends_with-append x c (a ∷ []) t = refl
ends_with-append x c (a ∷ b ∷ s) t = ends_with-append x c (b ∷ s) t

endings_differ : (s t : Text) → s ++ codes ".yaml" ≢ t ++ codes ".json"
unfolding ends_with
endings_differ s t e =
    let clash : true ≡ false =
      sym (ends_with-append b'l' b'.' s (codes "yaml"))
      ∙ ap (ends_with b'l') e
      ∙ ends_with-append b'l' b'.' t (codes "json") in
    cc

other_engines :
    (fold : ℕ → ℕ) → (map_text fold engine_mihomo == map_text fold engine_sing_box) ≡ false
other_engines fold =
    elim (Bool-cases (map_text fold engine_mihomo == map_text fold engine_sing_box)) [
      | inl e ↦ absurd (lengths ((list_eq_iff _ _).0 e))
      | inr e ↦ e
    ]
  where
    lengths : map_text fold engine_mihomo ≢ map_text fold engine_sing_box
    lengths e = cc

module _ (unmarshal : Text → Option ActiveProfile) (marshal : ActiveProfile → Option Text)
    (fold : ℕ → ℕ) where
  abbrev pub file_name : ActiveProfile → Text
  file_name = profile_config_name unmarshal marshal fold

  file_name_mihomo :
      (p : ActiveProfile) → p.engine ≡ engine_mihomo → file_name p ≡ p.name ++ codes ".yaml"
  unfolding profile_config_name
  file_name_mihomo p e = rw e (rw (other_engines fold) refl)

  file_name_sing_box :
      (p : ActiveProfile) → p.engine ≡ engine_sing_box → file_name p ≡ p.name ++ codes ".json"
  unfolding profile_config_name
  file_name_sing_box p e = rw e (rw ((list_eq_iff (map_text fold engine_sing_box) _).1 refl) refl)

  -- two profiles have two files
  pub file_name-Injective :
      (p q : ActiveProfile)
      → IsWhole p
      → IsWhole q
      → file_name p ≡ file_name q
      → (p.name ≡ q.name) × (p.engine ≡ q.engine)
  file_name-Injective p q (inl e) (inl f) h = (
    append_cancel_right p.name q.name (codes ".yaml")
        (sym (file_name_mihomo p e) ∙ h ∙ file_name_mihomo q f),
    e ∙ sym f,
  )
  file_name-Injective p q (inr e) (inr f) h = (
    append_cancel_right p.name q.name (codes ".json")
        (sym (file_name_sing_box p e) ∙ h ∙ file_name_sing_box q f),
    e ∙ sym f,
  )
  file_name-Injective p q (inl e) (inr f) h =
      absurd
        (endings_differ p.name q.name (sym (file_name_mihomo p e) ∙ h ∙ file_name_sing_box q f))
  file_name-Injective p q (inr e) (inl f) h =
      absurd
        (endings_differ q.name p.name (sym (file_name_mihomo q f) ∙ sym h ∙ file_name_sing_box p e))

  -- the file of a profile
  pub profile_relative_path-eq-ok :
      (p : ActiveProfile) {relative : Text}
      → profile_relative_path unmarshal marshal fold p ≡ ok relative
      → IsWhole (with_engine p) × (relative ≡ codes "configs/" ++ file_name (with_engine p))
  unfolding profile_relative_path IsAccepted
  profile_relative_path-eq-ok p {relative} h =
      let (whole, accepted, h1) = >>=-eq-ok (accept_profile p) _ h in
      let (same, fine) = Ensures-ok whole (accept_profile-IsAccepted p) accepted in
      let written : codes "configs/" ++ file_name whole ≡ relative = cc in
      (subst IsWhole same fine, sym written ∙ ap (λ q. codes "configs/" ++ file_name q) same)

  -- the active profile is one with an engine
  parse_active_profile-IsWhole :
      (raw : Text) → Ensures IsWhole (parse_active_profile unmarshal marshal fold raw)
  unfolding parse_active_profile
  parse_active_profile-IsWhole raw = Ensures-if (trim_space raw == []) (fails _) (
      Ensures-if (starts_with_brace (trim_space raw))
        (Ensures-after (or_invalid (unmarshal (trim_space raw))) accept_profile-IsWhole)
        (accept_profile-IsWhole (record { name = trim_space raw; engine = [] })))

  pub current-IsWhole :
      (files : Files) {active : ActiveProfile}
      → current unmarshal marshal fold false files ≡ ok active
      → IsWhole active
  unfolding current
  current-IsWhole files {active} h =
      Ensures-ok active (Ensures-after (read false active_path files) parse_active_profile-IsWhole)
        h
