-- ===== src/State/Settings/Order.antt =====
-- The order in which `MarshalSettings` writes the entries, which the map does not see
-- (internal/state/settings.go).
use boxctl.Base.{
  ◌≡◌, refl, ◌∙◌, true, false, none, [], ◌∷◌, text_Eq, ◌==◌, list_eq_iff, lookup, Bool-cases, inl,
  inr, arith,
}
use boxctl.Base.Text.{Text, contains}
use boxctl.State.Settings.{Settings, is_key, precedes, insert_entry, sort_entries}

-- an entry that has a line
unfoldable pub IsClean : Text × Text → Type 0
IsClean (key, value) =
    (is_key key ≡ true)
    × (contains 0 value ≡ false)
    × (contains 13 value ≡ false)
    × (contains 10 value ≡ false)

abbrev pub AllClean : Settings → Type 0
AllClean [] = Unit
AllClean (e ∷ m) = IsClean e × AllClean m

-- no key stands twice
abbrev pub IsMap : Settings → Type 0
IsMap [] = Unit
IsMap ((key, value) ∷ m) = (lookup key m ≡ none) × IsMap m

lookup-insert_entry :
    (key value k : Text) (m : Settings)
    → lookup key m ≡ none
    → lookup k (insert_entry (key, value) m) ≡ lookup k ((key, value) ∷ m)
unfolding insert_entry
lookup-insert_entry key value k [] h = refl
lookup-insert_entry key value k ((j, w) ∷ m) h = ground (
  arith,
  lookup-insert_entry key value k m,
  list_eq_iff j key,
  list_eq_iff j k,
  list_eq_iff key k,
)

-- a key that a map does not have
pub lookup-none :
    (key j w : Text) (m : Settings)
    → lookup key ((j, w) ∷ m) ≡ none
    → (key == j ≡ false) × (lookup key m ≡ none)
lookup-none key j w m h = ground (arith, list_eq_iff j key, list_eq_iff key j)

insert_entry-IsMap :
    (key value : Text) (m : Settings)
    → lookup key m ≡ none
    → IsMap m
    → IsMap (insert_entry (key, value) m)
unfolding insert_entry
insert_entry-IsMap key value [] h k = (refl, tt)
insert_entry-IsMap key value ((j, w) ∷ m) h (fresh, k) = elim (Bool-cases (precedes key j)) [
  | inl before ↦ rw before (h, (fresh, k))
  | inr behind ↦
      let (other, absent) = lookup-none key j w m h in
      rw behind (
        lookup-insert_entry key value j m absent ∙ rw other fresh,
        insert_entry-IsMap key value m absent k,
      )
]

insert_entry-AllClean :
    (e : Text × Text) (m : Settings) → IsClean e → AllClean m → AllClean (insert_entry e m)
unfolding insert_entry
insert_entry-AllClean e [] h k = (h, tt)
insert_entry-AllClean e (f ∷ m) h (first, k) = elim (Bool-cases (precedes e.0 f.0)) [
  | inl before ↦ rw before (h, (first, k))
  | inr behind ↦ rw behind (first, insert_entry-AllClean e m h k)
]

pub lookup-sort_entries :
    (m : Settings) (k : Text) → IsMap m → lookup k (sort_entries m) ≡ lookup k m
unfolding sort_entries
lookup-sort_entries [] k h = refl
lookup-sort_entries ((key, value) ∷ m) k (fresh, h) =
    lookup-insert_entry key value k (sort_entries m) (lookup-sort_entries m key h ∙ fresh)
    ∙ rw (lookup-sort_entries m k h) refl

pub sort_entries-IsMap : (m : Settings) → IsMap m → IsMap (sort_entries m)
unfolding sort_entries
sort_entries-IsMap [] h = tt
sort_entries-IsMap ((key, value) ∷ m) (fresh, h) =
    insert_entry-IsMap key value (sort_entries m) (lookup-sort_entries m key h ∙ fresh)
      (sort_entries-IsMap m h)

pub sort_entries-AllClean : (m : Settings) → AllClean m → AllClean (sort_entries m)
unfolding sort_entries
sort_entries-AllClean [] h = tt
sort_entries-AllClean (e ∷ m) (first, h) =
    insert_entry-AllClean e (sort_entries m) first (sort_entries-AllClean m h)
