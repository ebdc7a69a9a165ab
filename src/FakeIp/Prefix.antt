-- ===== src/FakeIp/Prefix.antt =====
-- IPv4 prefixes of the allowlist (internal/fakeip/store.go) and what it uses of Go's `net/netip`
-- and `sort`: an address is its 32-bit number, and a prefix of another kind is `foreign`.
use boxctl.Base.{
  ℕ, ◌+◌, ◌-◌, ◌*◌, ◌/◌, ◌%◌, ◌^◌, Bool, true, false, ◌||◌, ◌&&◌, not, Option, none, some, List, [],
  ◌∷◌, ◌++◌, nat_eq, ltb, leb, if◌then◌else◌, text_Eq, ◌==◌, length,
}
use boxctl.Base.Text.{Text, split_on, contains}
use boxctl.FakeIp.Sections.{Result, ok, err, too_many_entries, not_ipv4, ◌>>=◌, ◌>>◌, fail_if}

pub record Prefix : Type 0 where
  pub address : ℕ
  pub bits : ℕ

pub data NetPrefix : Type 0 where
  ipv4 : Prefix → NetPrefix
  foreign : NetPrefix

-- `prefix.Masked()`
unfoldable pub masked : Prefix → Prefix
masked p = record p { address = p.address / 2 ^ (32 - p.bits) * 2 ^ (32 - p.bits) }

-- a number below 1000 in decimal
unfoldable pub print_small : ℕ → Text
print_small n =
    if ltb n 10
    then (n + 48) ∷ []
    else if ltb n 100
    then (n / 10 + 48) ∷ (n % 10 + 48) ∷ []
    else (n / 100 + 48) ∷ (n / 10 % 10 + 48) ∷ (n % 10 + 48) ∷ []

abbrev pub dot : ℕ
dot = b'.'

abbrev pub slash : ℕ
slash = b'/'

-- `prefix.String()`
unfoldable pub prefix_string : Prefix → Text
unfolding print_small
prefix_string p =
    print_small (p.address / 16777216 % 256)
    ++ (dot
        ∷ (print_small (p.address / 65536 % 256)
            ++ (dot
                ∷ (print_small (p.address / 256 % 256)
                    ++ (dot ∷ (print_small (p.address % 256) ++ (slash ∷ print_small p.bits)))))))

-- the value of decimal digits
abbrev pub digits_value : ℕ → Text → Option ℕ
digits_value n [] = some n
digits_value n (c ∷ s) =
    let rest = digits_value (n * 10 + (c - 48)) s in if leb 48 c && leb c 57 then rest else none

-- A field is a number without sign and leading zeros, and at most `limit`.
unfoldable pub parse_field : ℕ → Text → Option ℕ
parse_field limit [] = none
parse_field limit (c ∷ s) = elim (digits_value 0 (c ∷ s)) [
  | none ↦ none
  | some n ↦ if (nat_eq c 48 && not (s == [])) || ltb limit n then none else some n
]

abbrev pub address_of : Option ℕ → Option ℕ → Option ℕ → Option ℕ → Option ℕ
address_of (some a) (some b) (some c) (some d) = some (a * 16777216 + b * 65536 + c * 256 + d)
address_of _ _ _ _ = none

abbrev pub parse_octets : List Text → Option ℕ
parse_octets (a ∷ b ∷ c ∷ d ∷ []) =
    address_of (parse_field 255 a) (parse_field 255 b) (parse_field 255 c) (parse_field 255 d)
parse_octets _ = none

-- `netip.ParseAddr` of an IPv4 address
unfoldable pub parse_address : Text → Option ℕ
unfolding parse_field split_on
parse_address s = parse_octets (split_on dot s)

abbrev pub prefix_of : Option ℕ → Option ℕ → Option Prefix
prefix_of (some a) (some bits) = some (record { address = a; bits = bits })
prefix_of _ _ = none

-- `netip.ParsePrefix` of an IPv4 prefix; a second slash is in no address
abbrev pub parse_slashed : List Text → Option Prefix
parse_slashed (address ∷ bits ∷ []) = prefix_of (parse_address address) (parse_field 32 bits)
parse_slashed _ = none

unfoldable pub parse_prefix : Text → Option Prefix
unfolding parse_address
parse_prefix s = parse_slashed (split_on slash s)

abbrev pub map_option {ℓ κ} : {A : Type ℓ} {B : Type κ} → (A → B) → Option A → Option B
map_option f none = none
map_option f (some a) = some (f a)

unfoldable pub parse_ipv4_prefix : Text → Option Prefix
unfolding parse_prefix masked
parse_ipv4_prefix value =
    if contains slash value
    then map_option masked (parse_prefix value)
    else map_option (λ a. record { address = a; bits = 32 }) (parse_address value)

-- the order of texts by bytes, which that of code points agrees with
abbrev pub text_leb : Text → Text → Bool
text_leb [] t = true
text_leb (c ∷ s) [] = false
text_leb (c ∷ s) (d ∷ t) = ltb c d || (nat_eq c d && text_leb s t)

-- `sort.Strings`
abbrev pub insert_sorted : Text → List Text → List Text
insert_sorted x [] = x ∷ []
insert_sorted x (y ∷ ys) = if text_leb x y then x ∷ y ∷ ys else y ∷ insert_sorted x ys

unfoldable pub sort_strings : List Text → List Text
sort_strings [] = []
sort_strings (x ∷ xs) = insert_sorted x (sort_strings xs)

abbrev pub max_entries : ℕ
max_entries = 65_536

unfoldable pub prefix_strings : List NetPrefix → Result (List Text)
unfolding masked prefix_string
prefix_strings [] = ok []
prefix_strings (foreign ∷ rest) = err not_ipv4
prefix_strings (ipv4 p ∷ rest) =
    prefix_strings rest >>= λ values. ok (prefix_string (masked p) ∷ values)

-- the loop that leaves out a value equal to the one before it
unfoldable pub parse_distinct : Text → List Text → Result (List Prefix)
unfolding parse_prefix
parse_distinct previous [] = ok []
parse_distinct previous (value ∷ rest) =
    let skip = parse_distinct previous rest in
    let tail = parse_distinct value rest in
    if value == previous then skip else elim (parse_prefix value) [
      | none ↦ err not_ipv4
      | some p ↦ tail >>= λ result. ok (p ∷ result)
    ]

unfoldable pub canonical_prefixes : List NetPrefix → Result (List Prefix)
unfolding prefix_strings sort_strings parse_distinct
canonical_prefixes prefixes = do
  fail_if (ltb max_entries (length prefixes)) too_many_entries
  values ← prefix_strings prefixes
  parse_distinct [] (sort_strings values)

abbrev pub to_net : List Prefix → List NetPrefix
to_net [] = []
to_net (p ∷ ps) = ipv4 p ∷ to_net ps
