-- ===== src/FakeIp/Examples.antt =====
-- Runs of the allowlist file (internal/fakeip/store.go).
use boxctl.Base.{ℕ, ◌≡◌, refl, ap, true, false, Option, none, [], ◌∷◌, ◌++◌, ◌⊎◌}
use boxctl.Base.Text.{Text, codes}
use boxctl.FakeIp.Sections.{
  ok, err, newline, auto_begin_marker, auto_end_marker, raw_lines, split_sections, trim_carriage,
  malformed_markers, conflict,
}
use boxctl.FakeIp.Sections.Scan.{Plain, Marked, sections_of}
use boxctl.FakeIp.Sections.Split.{
  split_sections-Marked, split_sections-Plain, split_sections-eq-ok, no_sections,
}
use boxctl.Base.Strings.{byte_length, trim_space, has_prefix, trim_prefix, ends_with}
use boxctl.FakeIp.Prefix.{ipv4, Prefix, parse_ipv4_prefix, canonical_prefixes}
use boxctl.FakeIp.Document.{
  Document, is_text, valid_auto_scope, parse_document, parse_prefix_text, validate_manual,
  parse_auto_scope, render_generated_block,
}
use boxctl.FakeIp.Store.{
  regular, World, save_manual, join_manual, preview_replace_generated_with_scope,
  replace_generated_with_scope,
}
use boxctl.FakeIp.Store.Locking.{
  Outcome, save_manual_cases, replace_generated_cases, preview-replace_generated,
}

abbrev line : Text → Text
line s = s ++ newline ∷ []

abbrev plain_file : Text
plain_file = line (codes "# mine") ++ line (codes "10.0.0.0/8")

abbrev marked_file : Text
marked_file =
    line (codes "10.0.0.0/8")
    ++ (line auto_begin_marker
        ++ (line (codes "1.1.1.1") ++ (line auto_end_marker ++ codes "8.8.8.8")))

marked_lines : Marked (raw_lines marked_file)
unfolding raw_lines trim_carriage
marked_lines = record {
  pre = line (codes "10.0.0.0/8") ∷ [];
  begin = line auto_begin_marker;
  mid = line (codes "1.1.1.1") ∷ [];
  end = line auto_end_marker;
  post = codes "8.8.8.8" ∷ [];
  lines = refl;
  begins = refl;
  ends = refl;
  plain_pre = (refl, refl, tt);
  plain_mid = (refl, refl, tt);
  plain_post = (refl, refl, tt);
}

split_sections-Marked_example : split_sections marked_file ≡ ok (sections_of marked_lines)
split_sections-Marked_example = split_sections-Marked marked_file marked_lines

split_sections-Plain_example : split_sections plain_file ≡ ok (no_sections plain_file)
split_sections-Plain_example =
    split_sections-Plain plain_file
      (unfold raw_lines trim_carriage in (refl, refl, (refl, refl, tt)))

split_sections-eq-ok_example :
    (Plain (raw_lines marked_file) × (sections_of marked_lines ≡ no_sections marked_file))
    ⊎ ((m : Marked (raw_lines marked_file)) × (sections_of marked_lines ≡ sections_of m))
split_sections-eq-ok_example =
    split_sections-eq-ok marked_file (sections_of marked_lines)
      (split_sections-Marked marked_file marked_lines)

-- a system without clock and hash
abbrev no_time : Text → Option ℕ
no_time s = none

abbrev epoch : ℕ → Text
epoch at = codes "1970-01-01T00:00:00Z"

abbrev tag : Text → Text
tag content = 1 ∷ content

abbrev quiet : Text → World
quiet content = record {
  directory_failure = none;
  first_recheck = regular content;
  write_failure = none;
  second_recheck = regular content;
  rename_failure = none;
  sync_failure = none;
}

abbrev old_file : Text
old_file = line (codes "1.1.1.1")

abbrev new_file : Text
new_file = line (codes "10.0.0.0/8")

abbrev ten : Prefix
ten = record { address = 167772160; bits = 8 }

-- the document of the saved file
abbrev saved : Document
saved = record {
  content = new_file;
  manual_content = new_file;
  manual = ten ∷ [];
  generated = [];
  effective = ten ∷ [];
  count = 1;
  manual_count = 1;
  generated_count = 0;
  effective_count = 1;
  revision = tag new_file;
  generated_at = 0;
  generated_scope = [];
  has_generated = false;
}

save_manual_cases_example : Outcome no_time tag (quiet old_file) (regular old_file) (tag old_file) (
    save_manual no_time tag (quiet old_file) (regular old_file) (codes "10.0.0.0/8") (tag old_file))
save_manual_cases_example =
    save_manual_cases no_time tag (quiet old_file) (regular old_file) (codes "10.0.0.0/8")
      (tag old_file)

saves :
    save_manual no_time tag (quiet old_file) (regular old_file) (codes "10.0.0.0/8") (tag old_file)
    ≡ (regular new_file, ok saved)
unfolding save_manual byte_length is_text parse_document split_sections parse_prefix_text trim_space
    has_prefix parse_ipv4_prefix canonical_prefixes validate_manual ends_with parse_auto_scope
saves = refl

refuses_stale :
    save_manual no_time tag (quiet old_file) (regular old_file) (codes "10.0.0.0/8") (tag new_file)
    ≡ (regular old_file, err conflict)
unfolding save_manual byte_length is_text parse_document split_sections parse_prefix_text trim_space
    has_prefix parse_ipv4_prefix canonical_prefixes validate_manual ends_with parse_auto_scope
refuses_stale = refl

abbrev replaced_file : Text
replaced_file =
    line auto_begin_marker
    ++ (line (codes "# Generated: 1970-01-01T00:00:00Z")
        ++ (line (codes "# Source scope: local-only")
            ++ (line (codes "10.0.0.0/8") ++ (line auto_end_marker ++ old_file))))

abbrev one_host : Prefix
one_host = record { address = 16843009; bits = 32 }

-- the document of the file with the new block
abbrev replaced : Document
replaced = record {
  content = replaced_file;
  manual_content = old_file;
  manual = one_host ∷ [];
  generated = ten ∷ [];
  effective = one_host ∷ ten ∷ [];
  count = 2;
  manual_count = 1;
  generated_count = 1;
  effective_count = 2;
  revision = tag replaced_file;
  generated_at = 0;
  generated_scope = codes "local-only";
  has_generated = true;
}

replace_generated_cases_example :
    Outcome no_time tag (quiet old_file) (regular old_file) (tag old_file) (
      replace_generated_with_scope no_time epoch tag
        (quiet old_file)
        (regular old_file)
        (ipv4 ten ∷ [])
        (tag old_file)
        0
        7
        (codes "local-only"))
replace_generated_cases_example =
    replace_generated_cases no_time tag epoch (quiet old_file) (regular old_file) (ipv4 ten ∷ [])
      (tag old_file) 0 7 (codes "local-only")

replaces :
    replace_generated_with_scope no_time epoch tag
      (quiet old_file)
      (regular old_file)
      (ipv4 ten ∷ [])
      (tag old_file)
      0
      7
      (codes "local-only")
    ≡ (regular replaced_file, ok replaced)
unfolding replace_generated_with_scope valid_auto_scope trim_prefix render_generated_block
    byte_length is_text parse_document split_sections parse_prefix_text trim_space has_prefix
    parse_ipv4_prefix canonical_prefixes ends_with parse_auto_scope
replaces = refl

preview-replace_generated_example :
    preview_replace_generated_with_scope no_time epoch tag
      (regular old_file)
      (ipv4 ten ∷ [])
      (tag old_file)
      0
      7
      (codes "local-only")
    ≡ ok replaced
preview-replace_generated_example =
    preview-replace_generated no_time tag epoch (quiet old_file) (regular old_file) (ipv4 ten ∷ [])
      (tag old_file) 0 7 (codes "local-only") (ap (λ r. r.1) replaces)

-- an end marker that a carriage return ends, as the last line of the file
abbrev carriage_file : Text
carriage_file = line auto_begin_marker ++ (auto_end_marker ++ 13 ∷ [])

-- Manual text is put on the line of that marker, and the save fails.
glues_to_marker :
    save_manual no_time tag
      (quiet carriage_file)
      (regular carriage_file)
      (codes "10.0.0.0/8")
      (tag carriage_file)
    ≡ (regular carriage_file, err malformed_markers)
unfolding save_manual byte_length is_text parse_document split_sections parse_prefix_text trim_space
    has_prefix parse_ipv4_prefix canonical_prefixes validate_manual ends_with parse_auto_scope
    join_manual
glues_to_marker = refl
