-- ===== src/EventLog/Redact.antt =====
-- The redaction of structured fields in internal/eventlog/eventlog.go. A Go map is a list of its
-- fields, and a nil map one with none; `RedactText` and the lower case of a character are
-- parameters.
use boxctl.Base.{ℕ, Bool, true, false, ◌&&◌, ◌||◌, List, [], ◌∷◌, nat_eq, if◌then◌else◌}
use boxctl.Base.Text.{Text, codes}

-- The values that the type switch tells apart; `other` stands for all the rest.
mutual
  pub data Value : Type 0 where
    text : Text → Value
    error_text : Text → Value
    object : Fields → Value
    items : Items → Value
    texts : List Text → Value
    text_map : List (Text × Text) → Value
    other : ℕ → Value

  pub data Items : Type 0 where
    nil : Items
    cons : Value → Items → Items

  pub data Fields : Type 0 where
    end : Fields
    field : Text → Value → Fields → Fields

abbrev pub redacted : Value
redacted = text (codes "[REDACTED]")

-- `strings.HasPrefix` and `strings.Contains`
abbrev pub has_prefix : Text → Text → Bool
has_prefix [] s = true
has_prefix (p ∷ ps) [] = false
has_prefix (p ∷ ps) (c ∷ s) = nat_eq p c && has_prefix ps s

unfoldable pub contains_text : Text → Text → Bool
contains_text part [] = has_prefix part []
contains_text part (c ∷ s) = has_prefix part (c ∷ s) || contains_text part s

abbrev pub contains_any : List Text → Text → Bool
contains_any [] s = false
contains_any (part ∷ parts) s = contains_text part s || contains_any parts s

abbrev pub sensitive_parts : List Text
sensitive_parts =
    codes "password"
    ∷ codes "passwd"
    ∷ codes "secret"
    ∷ codes "token"
    ∷ codes "authorization"
    ∷ codes "cookie"
    ∷ codes "credential"
    ∷ codes "private"
    ∷ codes "apikey"
    ∷ codes "url"
    ∷ codes "uri"
    ∷ codes "path"
    ∷ codes "controller"
    ∷ codes "subscription"
    ∷ []

module _ (lower : ℕ → ℕ) where
  -- the lower case of a key without `_`, `-` and `.`
  unfoldable pub normalize_key : Text → Text
  normalize_key [] = []
  normalize_key (c ∷ cs) =
      let rest = normalize_key cs in
      let l = lower c in
      if nat_eq l b'_' || (nat_eq l b'-' || nat_eq l b'.') then rest else l ∷ rest

  unfoldable pub sensitive_field : Text → Bool
  unfolding normalize_key contains_text
  sensitive_field key = contains_any sensitive_parts (normalize_key key)

module _ (lower : ℕ → ℕ) (redact_text : Text → Text) where
  abbrev pub redact_all : List Text → List Text
  redact_all [] = []
  redact_all (t ∷ ts) = redact_text t ∷ redact_all ts

  -- a `map[string]string` becomes a `map[string]any`
  unfoldable pub redact_text_map : List (Text × Text) → Fields
  redact_text_map [] = end
  redact_text_map ((key, item) ∷ m) =
      field key (if sensitive_field lower key then redacted else text (redact_text item))
        (redact_text_map m)

  unfoldable mutual
    pub redact_fields : Fields → Fields
    redact_fields end = end
    redact_fields (field key value rest) =
        field key (if sensitive_field lower key then redacted else redact_value value)
          (redact_fields rest)

    pub redact_value : Value → Value
    redact_value (object fs) = object (redact_fields fs)
    redact_value (text t) = text (redact_text t)
    redact_value (items xs) = items (redact_items xs)
    redact_value (texts ts) = texts (redact_all ts)
    redact_value (text_map m) = object (redact_text_map m)
    redact_value (error_text t) = text (redact_text t)
    redact_value (other n) = other n

    -- In an `[]any` only texts and maps are looked into.
    pub redact_items : Items → Items
    redact_items nil = nil
    redact_items (cons item rest) = cons (redact_item item) (redact_items rest)

    pub redact_item : Value → Value
    redact_item (text t) = text (redact_text t)
    redact_item (object fs) = object (redact_fields fs)
    redact_item (items xs) = items xs
    redact_item (texts ts) = texts ts
    redact_item (text_map m) = text_map m
    redact_item (error_text t) = error_text t
    redact_item (other n) = other n
