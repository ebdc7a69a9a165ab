-- ===== src/EventLog/Safety.antt =====
-- What the redaction of internal/eventlog/eventlog.go leaves in the fields of an entry.
use boxctl.Base.{
  ℕ, ◌≡◌, ◌⊎◌, inl, inr, refl, Bool, true, false, List, [], ◌∷◌, if◌then◌else◌, All, Bool-cases,
}
use boxctl.Base.Text.{Text}
use boxctl.EventLog.Redact.{
  Value, text, error_text, object, items, texts, text_map, other, Items, nil, cons, Fields, end,
  field, redacted, sensitive_field, redact_all, redact_text_map, redact_fields, redact_value,
  redact_items, redact_item,
}

module _ (lower : ℕ → ℕ) (redact_text : Text → Text) where
  -- a text that was redacted
  abbrev pub SafeText : Text → Type 0
  SafeText t = (s : Text) × (t ≡ redact_text s)

  -- Below a sensitive key stands the mark, and below any other a value whose texts were redacted.
  -- What stands in a list and is neither text nor map is not described.
  unfoldable mutual
    pub SafeFields : Fields → Type 0
    SafeFields end = Unit
    SafeFields (field key value rest) =
        ((sensitive_field lower key ≡ true) × (value ≡ redacted)
          ⊎ (sensitive_field lower key ≡ false) × SafeValue value)
        × SafeFields rest

    pub SafeValue : Value → Type 0
    SafeValue (object fs) = SafeFields fs
    SafeValue (text t) = SafeText t
    SafeValue (items xs) = SafeItems xs
    SafeValue (texts ts) = All SafeText ts
    SafeValue (text_map m) = ⊥
    SafeValue (error_text t) = ⊥
    SafeValue (other n) = Unit

    pub SafeItems : Items → Type 0
    SafeItems nil = Unit
    SafeItems (cons item rest) = SafeItem item × SafeItems rest

    pub SafeItem : Value → Type 0
    SafeItem (text t) = SafeText t
    SafeItem (object fs) = SafeFields fs
    SafeItem (items xs) = Unit
    SafeItem (texts ts) = Unit
    SafeItem (text_map m) = Unit
    SafeItem (error_text t) = Unit
    SafeItem (other n) = Unit

  redact_all_safe : (ts : List Text) → All SafeText (redact_all lower redact_text ts)
  redact_all_safe [] = tt
  redact_all_safe (t ∷ ts) = ((t, refl), redact_all_safe ts)

  redact_text_map_safe : (m : List (Text × Text)) → SafeFields (redact_text_map lower redact_text m)
  unfolding redact_text_map SafeFields
  redact_text_map_safe [] = tt
  redact_text_map_safe ((key, item) ∷ m) = elim (Bool-cases (sensitive_field lower key)) [
    | inl s ↦ rw s (inl (refl, refl), redact_text_map_safe m)
    | inr p ↦ rw p (inr (refl, (item, refl)), redact_text_map_safe m)
  ]

  field_safe :
      (key : Text) (b : Bool) (v : Value)
      → sensitive_field lower key ≡ b
      → SafeValue v
      → (sensitive_field lower key ≡ true) × ((if b then redacted else v) ≡ redacted)
        ⊎ (sensitive_field lower key ≡ false) × SafeValue (if b then redacted else v)
  field_safe key true v e safe = inl (e, refl)
  field_safe key false v e safe = inr (e, safe)

  mutual
    unfolding redact_fields SafeFields

    fields_safe : (fs : Fields) → SafeFields (redact_fields lower redact_text fs)
    fields_safe end = tt
    fields_safe (field key value rest) = (
      field_safe key (sensitive_field lower key) (redact_value lower redact_text value) refl
          (value_safe value),
      fields_safe rest,
    )

    value_safe : (v : Value) → SafeValue (redact_value lower redact_text v)
    value_safe (object fs) = fields_safe fs
    value_safe (text t) = (t, refl)
    value_safe (items xs) = items_safe xs
    value_safe (texts ts) = redact_all_safe ts
    value_safe (text_map m) = redact_text_map_safe m
    value_safe (error_text t) = (t, refl)
    value_safe (other n) = tt

    items_safe : (xs : Items) → SafeItems (redact_items lower redact_text xs)
    items_safe nil = tt
    items_safe (cons item rest) = (item_safe item, items_safe rest)

    item_safe : (v : Value) → SafeItem (redact_item lower redact_text v)
    item_safe (text t) = (t, refl)
    item_safe (object fs) = fields_safe fs
    item_safe (items xs) = tt
    item_safe (texts ts) = tt
    item_safe (text_map m) = tt
    item_safe (error_text t) = tt
    item_safe (other n) = tt

  -- Whatever the fields of an entry, after the redaction each sensitive key of a map, at any depth of
  -- maps, has the mark for its value; each other text, error text or list of texts in a map is the
  -- result of `RedactText`; and texts and maps in a list are treated alike.
  pub redact_fields-SafeFields : (fs : Fields) → SafeFields (redact_fields lower redact_text fs)
  redact_fields-SafeFields fs = fields_safe fs
