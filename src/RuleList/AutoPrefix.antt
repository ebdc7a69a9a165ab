-- ===== src/RuleList/AutoPrefix.antt =====
-- The prefixes put before the lines of a list (internal/rulelist/prefix.go). The case mapping of a
-- character is an argument.
pub mod Lines
use boxctl.Base.{
  ℕ, Bool, true, false, ◌||◌, ◌&&◌, not, List, [], ◌∷◌, ◌++◌, nat_eq, if◌then◌else◌, text_Eq, ◌==◌,
  length, ◌-◌, ◌≤◌, leb, drop,
}
use boxctl.Base.Text.{Text, codes, split_on, join_on, contains}
use boxctl.Base.Strings.{trim_space, has_prefix, trim_front}

abbrev pub newline : ℕ
newline = 10

abbrev pub comma : ℕ
comma = b','

-- a space or a tab
abbrev pub is_blank : ℕ → Bool
is_blank c = nat_eq c 32 || nat_eq c 9

-- what stands before the first character that is no space or tab
abbrev pub leading : Text → Text
leading [] = []
leading (c ∷ s) = let rest = leading s in if is_blank c then c ∷ rest else []

-- `strings.HasSuffix` and `strings.TrimSuffix`
unfoldable pub has_suffix : Text → Text → Bool
has_suffix s suffix = leb (length suffix) (length s) && drop (length s - length suffix) s == suffix

abbrev pub take_text : ℕ → Text → Text
take_text n [] = []
take_text n (c ∷ s) = let rest = take_text (n - 1) s in if nat_eq n 0 then [] else c ∷ rest

unfoldable pub trim_suffix : Text → Text → Text
unfolding has_suffix
trim_suffix s suffix = if has_suffix s suffix then take_text (length s - length suffix) s else s

abbrev pub map_text : (ℕ → ℕ) → Text → Text
map_text f [] = []
map_text f (c ∷ s) = f c ∷ map_text f s

-- The suffixes of names, the longer ones of a common end first.
abbrev pub prefix_table : List (Text × Text)
prefix_table =
    (codes "-src-ip", codes "SRC-IP-CIDR")
    ∷ (codes "-domain", codes "DOMAIN-SUFFIX")
    ∷ (codes "-keyword", codes "DOMAIN-KEYWORD")
    ∷ (codes "-geosite", codes "GEOSITE")
    ∷ (codes "-geoip", codes "GEOIP")
    ∷ (codes "-ip", codes "IP-CIDR")
    ∷ []

unfoldable pub find_candidate : Text → List (Text × Text) → Text
unfolding has_suffix
find_candidate name [] = []
find_candidate name ((suffix, prefix) ∷ rest) =
    let later = find_candidate name rest in if has_suffix name suffix then prefix else later

-- a line that stays as it is: empty, a comment, or with a rule prefix
unfoldable pub is_kept : Text → Bool
unfolding has_prefix
is_kept trimmed =
    trimmed == []
    || (has_prefix trimmed (codes "#")
        || (has_prefix trimmed (codes "//")
            || (has_prefix trimmed (codes ";") || contains comma trimmed)))

unfoldable pub prefix_line : Text → Text → Text
unfolding is_kept trim_space
prefix_line prefix line =
    let trimmed = trim_space line in
    if is_kept trimmed then line else leading line ++ (prefix ++ comma ∷ trimmed)

unfoldable pub prefix_lines : Text → List Text → List Text
unfolding prefix_line
prefix_lines prefix [] = []
prefix_lines prefix (line ∷ lines) = prefix_line prefix line ∷ prefix_lines prefix lines

module _ (lower : ℕ → ℕ) where
  unfoldable pub auto_prefix_for_name : Text → Text
  unfolding find_candidate trim_suffix trim_space
  auto_prefix_for_name name =
      find_candidate (trim_suffix (map_text lower (trim_space name)) (codes ".txt")) prefix_table

  unfoldable pub auto_prefix_content : Text → Text → Text
  unfolding auto_prefix_for_name prefix_lines split_on
  auto_prefix_content name content =
      let prefix = auto_prefix_for_name name in
      if prefix == []
      then content
      else join_on newline (prefix_lines prefix (split_on newline content))
