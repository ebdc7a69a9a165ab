-- ===== src/RuleConvert/Library.antt =====
-- What internal/ruleconvert uses of Go's library: `strings`, `regexp.QuoteMeta`, and, as a record of
-- functions, the case mappings of the characters beyond ASCII, `regexp.Compile`, the parsers of
-- `net/netip`, `bufio.Scanner` and the YAML decoder.
use boxctl.Base.{
  ℕ, ◌+◌, ◌-◌, Bool, true, false, ◌||◌, ◌&&◌, Option, List, [], ◌∷◌, ◌++◌, nat_eq, leb,
  if◌then◌else◌, text_Eq, ◌==◌,
}
use boxctl.Base.Text.{Text, codes, contains}
unfoldable pub use boxctl.Base.Strings.{cut, cons_front}

-- What the code asks of a `netip.Prefix`.
pub record NetPrefix : Type 0 where
  pub is_valid : Bool
  pub is_4in6 : Bool
  pub has_zone : Bool
  pub masked_text : Text

pub record Library : Type 0 where
  pub lower_other : ℕ → ℕ
  pub upper_other : ℕ → ℕ
  pub compiles : Text → Bool
  pub parse_prefix : Text → Option NetPrefix
  pub parse_address : Text → Option NetPrefix
  -- the lines of a text, none if one is too long
  pub scan_lines : Text → Option (List Text)
  -- the entries of a payload, those that are strings with their text, and whether another document
  -- follows
  pub decode_payload : Text → Option (List (Option Text) × Bool)

abbrev pub map_text : (ℕ → ℕ) → Text → Text
map_text f [] = []
map_text f (c ∷ s) = f c ∷ map_text f s

-- `unicode.ToLower` and `unicode.ToUpper`
abbrev pub to_lower : Library → ℕ → ℕ
to_lower library c =
    if leb 65 c && leb c 90 then c + 32 else if leb c 127 then c else library.lower_other c

abbrev pub to_upper : Library → ℕ → ℕ
to_upper library c =
    if leb 97 c && leb c 122 then c - 32 else if leb c 127 then c else library.upper_other c

-- `strings.HasSuffix`
unfoldable pub has_suffix : Text → Text → Bool
has_suffix [] suffix = [] == suffix
has_suffix (c ∷ s) suffix = (c ∷ s) == suffix || has_suffix s suffix

-- `strings.ContainsAny`
unfoldable pub contains_any : Text → Text → Bool
contains_any [] chars = false
contains_any (c ∷ s) chars = contains c chars || contains_any s chars

-- `strings.ReplaceAll` of one character, and of a pair that starts with a backslash
unfoldable pub replace_char : ℕ → ℕ → Text → Text
replace_char old new [] = []
replace_char old new (c ∷ s) = (if nat_eq c old then new else c) ∷ replace_char old new s

unfoldable pub replace_escaped : ℕ → Text → Text → Text
replace_escaped c new [] = []
replace_escaped c new (a ∷ []) = a ∷ []
replace_escaped c new (a ∷ b ∷ s) =
    let found = new ++ replace_escaped c new s in
    let other = a ∷ replace_escaped c new (b ∷ s) in
    if nat_eq a b'\\' && nat_eq b c then found else other

-- `regexp.QuoteMeta`
abbrev pub special : Text
special = codes "\\.+*?()|[]{}^$"

unfoldable pub quote_meta : Text → Text
quote_meta [] = []
quote_meta (c ∷ s) = if contains c special then b'\\' ∷ c ∷ quote_meta s else c ∷ quote_meta s

abbrev pub starts_with : ℕ → Text → Bool
starts_with c [] = false
starts_with c (d ∷ s) = nat_eq d c

-- `regexp` flags at the front of a text: whether `U` is among them
unfoldable pub has_ungreedy : Text → Bool
has_ungreedy [] = false
has_ungreedy (c ∷ s) =
    let rest = has_ungreedy s in
    if nat_eq c b'U' then true else if contains c (codes "ims-") then rest else false
