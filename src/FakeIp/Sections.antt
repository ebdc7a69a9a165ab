-- ===== src/FakeIp/Sections.antt =====
-- The AUTO block of the allowlist file (`splitSections` of internal/fakeip/store.go). A source line
-- has its raw text in place of its two offsets: a slice of the content between two lines' offsets
-- is the raw text of the lines between them.
pub mod Lines
pub mod Scan
pub mod Split
use boxctl.Base.{
  ℕ, zero, suc, ◌+◌, ◌-◌, ◌≡◌, refl, Bool, true, false, ◌||◌, ◌&&◌, not, Option, none, some, List,
  [], ◌∷◌, ◌++◌, nat_eq, leb, if◌then◌else◌, text_Eq, ◌==◌, drop,
}
use boxctl.Base.Text.{Text, codes}
use boxctl.Base.Answers.{Answer}
pub use boxctl.Base.Answers.{ok, err, ◌>>=◌, ◌>>◌, >>=-eq-ok, fail_if}

pub data StoreError : Type 0 where
  conflict invalid_manual malformed_markers too_large too_many_entries unsafe_path : StoreError
  not_text invalid_scope not_ipv4 io_error : StoreError

abbrev pub Result {ℓ} : Type ℓ → Type ℓ
Result A = Answer StoreError A

abbrev pub auto_begin_marker : Text
auto_begin_marker =
    codes "# AUTO-BEGIN: generated from rule-providers — do not edit between markers"

abbrev pub auto_end_marker : Text
auto_end_marker = codes "# AUTO-END"

abbrev pub newline : ℕ
newline = 10

abbrev pub carriage : ℕ
carriage = 13

-- the text without one `\r` at its end
unfoldable pub trim_carriage : Text → Text
trim_carriage [] = []
trim_carriage (c ∷ []) = if nat_eq c carriage then [] else c ∷ []
trim_carriage (c ∷ d ∷ s) = c ∷ trim_carriage (d ∷ s)

pub record SourceLine : Type 0 where
  pub raw : Text
  pub text : Text

-- The raw lines of a content: each ends with its line feed, but for a last one without.
abbrev pub push_raw : ℕ → List Text → List Text
push_raw c [] = (c ∷ []) ∷ []
push_raw c (l ∷ ls) = (c ∷ l) ∷ ls

unfoldable pub raw_lines : Text → List Text
raw_lines [] = []
raw_lines (c ∷ s) =
    let rest = raw_lines s in if nat_eq c newline then (c ∷ []) ∷ rest else push_raw c rest

abbrev pub drop_newline : Text → Text
drop_newline [] = []
drop_newline (c ∷ []) = if nat_eq c newline then [] else c ∷ []
drop_newline (c ∷ d ∷ s) = c ∷ drop_newline (d ∷ s)

abbrev pub to_lines : List Text → List SourceLine
to_lines [] = []
to_lines (l ∷ ls) = record { raw = l; text = trim_carriage (drop_newline l) } ∷ to_lines ls

unfoldable pub source_lines : Text → List SourceLine
unfolding raw_lines trim_carriage
source_lines content = to_lines (raw_lines content)

abbrev pub is_some {ℓ} : {A : Type ℓ} → Option A → Bool
is_some none = false
is_some (some a) = true

-- The loop over the lines: where the two markers stand.
unfoldable pub find_markers :
    ℕ → Option ℕ → Option ℕ → List SourceLine → Result (Option ℕ × Option ℕ)
find_markers index begin end [] = ok (begin, end)
find_markers index begin end (line ∷ lines) =
    let at_begin = find_markers (suc index) (some index) end lines in
    let at_end = find_markers (suc index) begin (some index) lines in
    let at_other = find_markers (suc index) begin end lines in
    if line.text == auto_begin_marker
    then (if is_some begin || is_some end then err malformed_markers else at_begin)
    else if line.text == auto_end_marker
    then (if not (is_some begin) || is_some end then err malformed_markers else at_end)
    else at_other

pub record DocumentSections : Type 0 where
  pub before : Text
  pub generated_body : Text
  pub generated_block : Text
  pub after : Text
  pub has_generated : Bool

abbrev pub take {ℓ} : {A : Type ℓ} → ℕ → List A → List A
take zero xs = []
take (suc n) [] = []
take (suc n) (x ∷ xs) = x ∷ take n xs

-- the content between the line `first` and the line `last`, which is left out
unfoldable pub content_of : List SourceLine → Text
content_of [] = []
content_of (l ∷ ls) = l.raw ++ content_of ls

abbrev pub between : ℕ → ℕ → List SourceLine → List SourceLine
between first last lines = take (last - first) (drop first lines)

unfoldable pub cut : Text → List SourceLine → Option ℕ × Option ℕ → Result DocumentSections
unfolding content_of
cut content lines (none, none) = ok (record {
  before = content;
  generated_body = [];
  generated_block = [];
  after = [];
  has_generated = false;
})
cut content lines (none, some end) = err malformed_markers
cut content lines (some begin, none) = err malformed_markers
cut content lines (some begin, some end) =
    if leb end begin
    then err malformed_markers
    else ok (record {
      before = content_of (take begin lines);
      generated_body = content_of (between (begin + 1) end lines);
      generated_block = content_of (between begin (end + 1) lines);
      after = content_of (drop (end + 1) lines);
      has_generated = true;
    })

unfoldable pub split_sections : Text → Result DocumentSections
unfolding source_lines find_markers cut
split_sections content =
    let lines = source_lines content in
    find_markers 0 none none lines >>= λ markers. cut content lines markers
