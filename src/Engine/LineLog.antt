-- ===== src/Engine/LineLog.antt =====
-- The lines of a core's output (`lineLogWriter` of internal/engine/supervisor.go), over bytes. The
-- lines that are emitted are kept in order.
pub mod Chunks
use boxctl.Base.{
  ℕ, zero, suc, ◌+◌, ◌-◌, ◌≤◌, ◌≡◌, refl, Bool, true, false, ◌&&◌, List, [], ◌∷◌, ◌++◌, nat_eq, ltb,
  leb, if◌then◌else◌, length, arith, length-append, ap, ◌∙◌, Bool-cases, inl, inr,
}
use boxctl.Base.Text.{Text}
use mathlib.Core.List.{append_assoc, append-nil}
use boxctl.Base.Strings.{trim_return}

-- `maxCommandOutput`
abbrev pub max_line : ℕ
max_line = 1048576

pub record LineLogWriter : Type 0 where
  pub buffer : Text
  pub emitted : List Text

abbrev pub cons_line : ℕ → List Text × Text → List Text × Text
cons_line c ([], rest) = ([], c ∷ rest)
cons_line c (line ∷ lines, rest) = ((c ∷ line) ∷ lines, rest)

abbrev pub line_end : List Text × Text → List Text × Text
line_end (lines, rest) = ([] ∷ lines, rest)

-- the lines of a text that a line feed ends, and what follows the last
unfoldable pub take_lines : Text → List Text × Text
take_lines [] = ([], [])
take_lines (c ∷ s) =
    let parts = take_lines s in if nat_eq c 10 then line_end parts else cons_line c parts

abbrev pub trim_each : List Text → List Text
trim_each [] = []
trim_each (line ∷ lines) = trim_return line ∷ trim_each lines

abbrev pub first_bytes : ℕ → Text → Text
first_bytes zero s = []
first_bytes (suc n) [] = []
first_bytes (suc n) (c ∷ s) = c ∷ first_bytes n s

-- "…" in UTF-8
abbrev pub ellipsis : Text
ellipsis = 0xe2 ∷ 0x80 ∷ 0xa6 ∷ []

-- what is left of a line that is too long is emitted, cut
abbrev pub keep_rest : List Text → Text → LineLogWriter
keep_rest emitted rest =
    if ltb max_line (length rest)
    then record { buffer = []; emitted = emitted ++ (first_bytes max_line rest ++ ellipsis) ∷ [] }
    else record { buffer = rest; emitted = emitted }

unfoldable pub write : LineLogWriter → Text → LineLogWriter
unfolding take_lines trim_return
write w bytes =
    let parts = take_lines (w.buffer ++ bytes) in keep_rest (w.emitted ++ trim_each parts.0) parts.1

abbrev pub flush_buffer : List Text → Text → LineLogWriter
flush_buffer emitted [] = record { buffer = []; emitted = emitted }
flush_buffer emitted (c ∷ s) = record { buffer = []; emitted = emitted ++ trim_return (c ∷ s) ∷ [] }

unfoldable pub flush : LineLogWriter → LineLogWriter
unfolding trim_return
flush w = flush_buffer w.emitted w.buffer

-- writes one after the other
abbrev pub write_all : LineLogWriter → List Text → LineLogWriter
write_all w [] = w
write_all w (chunk ∷ chunks) = write_all (write w chunk) chunks

abbrev pub joined : List Text → Text
joined [] = []
joined (chunk ∷ chunks) = chunk ++ joined chunks

-- No line is longer than the limit; `run` is the length of the line so far.
abbrev pub has_short_lines : ℕ → Text → Bool
has_short_lines run [] = leb run max_line
has_short_lines run (c ∷ s) =
    leb run max_line && has_short_lines (if nat_eq c 10 then 0 else run + 1) s
