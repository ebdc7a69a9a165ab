-- ===== src/State/Examples.antt =====
-- Runs of the profiles (internal/state/profiles.go).
use boxctl.Base.{
  ℕ, ◌≡◌, ◌≢◌, ◌⊎◌, inl, inr, refl, sym, ap, ◌∙◌, false, ◌&&◌, Option, none, some, [], ◌∷◌, ◌++◌,
  if◌then◌else◌, text_Eq, ◌==◌, list_eq_iff, lookup, Bool-cases,
}
use boxctl.Base.Text.{Text, codes}
use boxctl.Base.Strings.{trim_space}
use boxctl.Base.Answers.{ok, err}
use boxctl.State.Files.{
  StateError, regular, Files, fine, before_rename, after_rename, sync_failed, not_exist,
  still_active,
}
use boxctl.State.Profiles.{
  delete, engine_sing_box, ActiveProfile, engine_mihomo, with_engine, mirror_path, active_path,
  private_mode, activate, get, current, starts_with_brace,
}
use boxctl.State.Profiles.Removal.{delete-current}
use boxctl.State.Profiles.Activation.{CodecLaws, activate_cases}

abbrev home : ActiveProfile
home = record { name = codes "home"; engine = engine_mihomo }

-- a codec that knows one profile
abbrev encoded_home : Text
encoded_home = codes "{home}"

abbrev marshal : ActiveProfile → Option Text
marshal p = if p.name == home.name && p.engine == home.engine then some encoded_home else none

abbrev unmarshal : Text → Option ActiveProfile
unmarshal s = some home

abbrev fold : ℕ → ℕ
fold c = c

marshal-home : (p : ActiveProfile) (b : Text) → marshal p ≡ some b → (p ≡ home) × (encoded_home ≡ b)
marshal-home p b h = elim (Bool-cases (p.name == home.name)) [
  | inl n ↦ elim (Bool-cases (p.engine == home.engine)) [
    | inl e ↦ (
      (λ i. record {
        name = (list_eq_iff p.name home.name).0 n i;
        engine = (list_eq_iff p.engine home.engine).0 e i;
      }),
      some_some (rw (n, e) at h),
    )
    | inr f ↦ absurd (none_some (rw (n, f) at h))
  ]
  | inr f ↦ absurd (none_some (rw f at h))
]
  where
    none_some : none ≢ some b
    none_some g = cc

    some_some : some encoded_home ≡ some b → encoded_home ≡ b
    some_some g = cc

codec_laws : CodecLaws unmarshal marshal
codec_laws = record {
  unmarshal_marshal = λ p b h. ap some (sym (marshal-home p b h).0);
  marshal_object = λ p b h. ap starts_with_brace (sym (marshal-home p b h).1);
  marshal_trimmed = λ p b h. trimmed b (marshal-home p b h).1;
}
  where
    trimmed : (b : Text) → encoded_home ≡ b → trim_space (b ++ 10 ∷ []) ≡ b
    trimmed b e = ap (λ s. trim_space (s ++ 10 ∷ [])) (sym e) ∙ unfold trim_space in e

abbrev stored : Files
stored =
    (codes "configs/home.yaml", regular (codes "mode: rule") 384)
    ∷ (codes "config.yaml", regular (codes "old") 420)
    ∷ []

activate_cases_example :
    let r = activate unmarshal marshal fold false fine fine fine home stored in
    let whole = with_engine home in
    ((e : StateError) × (r.1 ≡ err e) × (lookup active_path r.0 ≡ lookup active_path stored))
    ⊎ ((content encoded : Text) × (r.1 ≡ ok tt)
        × (get unmarshal marshal fold false whole stored ≡ ok content)
        × (current unmarshal marshal fold false r.0 ≡ ok whole)
        × (lookup (mirror_path whole) r.0 ≡ some (regular content private_mode))
        × (lookup active_path r.0 ≡ (
            if active_path == active_path
            then some (regular encoded private_mode)
            else if mirror_path whole == active_path
            then some (regular content private_mode)
            else lookup active_path stored)))
activate_cases_example =
    activate_cases unmarshal marshal fold codec_laws false fine fine home stored active_path
      (λ h. cc) (λ h. cc)

-- A metadata write that fails before its rename puts the old mirror back, with its mode.
restores_mirror :
    lookup
      (codes "config.yaml")
      (activate unmarshal marshal fold false fine before_rename fine home stored).0
    ≡ some (regular (codes "old") 420)
unfolding activate
restores_mirror = refl

-- A mirror write that fails after its rename leaves the new mirror, and no metadata.
leaves_new_mirror :
    (activate unmarshal marshal fold false after_rename fine fine home stored).1 ≡ err sync_failed
unfolding activate
leaves_new_mirror = refl

keeps_new_mirror :
    lookup
      (codes "config.yaml")
      (activate unmarshal marshal fold false after_rename fine fine home stored).0
    ≡ some (regular (codes "mode: rule") 384)
unfolding activate
keeps_new_mirror = refl

-- Two profiles of one name, of which the one of Mihomo is active.
abbrev other_home : ActiveProfile
other_home = record { name = codes "home"; engine = engine_sing_box }

abbrev both : Files
both =
    (codes "configs/home.yaml", regular (codes "mode: rule") 384)
    ∷ (codes "configs/home.json", regular (codes "{}") 384)
    ∷ (active_path, regular (codes "home\n") 384)
    ∷ []

abbrev active_home : ActiveProfile
active_home = record { name = codes "home"; engine = engine_mihomo }

current_home : current unmarshal marshal fold false both ≡ ok active_home
unfolding current
current_home = refl

deletes_other : (delete unmarshal marshal fold false other_home both).1 ≡ ok tt
unfolding delete
deletes_other = refl

delete-current_example :
    (current unmarshal marshal fold false (delete unmarshal marshal fold false other_home both).0
      ≡ ok active_home)
    × (get unmarshal marshal fold false active_home
          (delete unmarshal marshal fold false other_home both).0
        ≡ get unmarshal marshal fold false active_home both)
    × (get unmarshal marshal fold false other_home
          (delete unmarshal marshal fold false other_home both).0
        ≡ err not_exist)
delete-current_example =
    delete-current unmarshal marshal fold false other_home active_home both current_home
      deletes_other

keeps_active : (delete unmarshal marshal fold false active_home both).1 ≡ err still_active
unfolding delete
keeps_active = refl
