-- ===== src/RuleList/Examples.antt =====
-- Runs of the local rule lists (internal/rulelist).
use boxctl.Base.{
  ℕ, ◌+◌, ◌≡◌, ◌⊎◌, refl, false, ◌&&◌, none, some, [], ◌∷◌, ◌++◌, ltb, if◌then◌else◌, text_Eq, ◌==◌,
  lookup, arith,
}
use boxctl.Base.Text.{Text, codes}
use boxctl.Base.Strings.{byte_length, trim_space}
use boxctl.Base.Answers.{ok, err}
use boxctl.RuleList.AutoPrefix.{newline, auto_prefix_content}
use boxctl.RuleList.AutoPrefix.Lines.{auto_prefix_content_again}
use boxctl.RuleList.Store.{
  regular, Files, Faults, path, item_of, get, put_locked, create, delete, not_found,
  normalize_content, valid_name, is_text,
}
use boxctl.RuleList.Store.Revisions.{
  KeepsNames, MayWrite, put_locked-eq-ok, lookup-create, delete-eq-ok,
}

abbrev lower : ℕ → ℕ
lower c = if ltb 64 c && ltb c 91 then c + 32 else c

abbrev lower-KeepsNames : KeepsNames lower
lower-KeepsNames = λ c h. ground arith

abbrev tag : Text → Text
tag content = 1 ∷ content

abbrev calm : Faults
calm = record {
  directory = false;
  inspect = false;
  read = false;
  write = false;
  remove = false;
  sync = false;
}

abbrev line : Text → Text
line s = s ++ newline ∷ []

abbrev stored : Files
stored =
    (codes "dns", regular (line (codes "a"))) ∷ (codes "other", regular (line (codes "b"))) ∷ []

auto_prefix_content_again_example :
    auto_prefix_content lower
      (codes "dns-ip")
      (auto_prefix_content lower (codes "dns-ip") (codes " 1.1.1.0/24"))
    ≡ auto_prefix_content lower (codes "dns-ip") (codes " 1.1.1.0/24")
auto_prefix_content_again_example =
    auto_prefix_content_again lower (codes "dns-ip") (codes " 1.1.1.0/24")

puts_prefix :
    auto_prefix_content lower (codes "dns-ip") (line (codes "# x") ++ codes " 1.1.1.0/24")
    ≡ line (codes "# x") ++ codes " IP-CIDR,1.1.1.0/24"
unfolding auto_prefix_content
puts_prefix = refl

put_locked-eq-ok_example :
    MayWrite lower tag lower-KeepsNames false (tag (line (codes "a"))) (lookup (codes "dns") stored)
    × (item_of lower tag (codes "dns") (line (codes "new"))
        ≡ item_of lower tag (codes "dns") (normalize_content (codes "new ")))
    × (get lower tag calm
          (put_locked lower tag calm stored
            (codes " DNS")
            (codes "new ")
            (tag (line (codes "a")))
            false).0
          (codes "dns")
        ≡ ok (item_of lower tag (codes "dns") (line (codes "new"))))
    × (lookup
          (codes "other")
          (put_locked lower tag calm stored
            (codes " DNS")
            (codes "new ")
            (tag (line (codes "a")))
            false).0
        ≡ (if codes "dns" == codes "other"
            then some (regular (line (codes "new")))
            else lookup (codes "other") stored))
put_locked-eq-ok_example =
    put_locked-eq-ok lower tag lower-KeepsNames calm calm stored (codes " DNS") (codes "new ")
      (tag (line (codes "a"))) (codes "other") false
      (unfold put_locked trim_space valid_name normalize_content byte_length is_text in refl) refl
      refl refl

lookup-create_example :
    lookup (codes "dns") (create lower tag calm stored (codes "dns") (codes "new")).0
    ≡ some (regular (line (codes "a")))
lookup-create_example =
    lookup-create lower tag lower-KeepsNames calm stored (codes "dns") (codes "new") (codes "dns")
      refl

delete-eq-ok_example :
    (n content : Text) × (path lower tag calm (codes "dns") ≡ ok n)
    × (lookup n stored ≡ some (regular content))
    × ((codes "*" == []) ≡ false)
    × ((codes "*" ≡ codes "*") ⊎ (tag content ≡ codes "*"))
    × (get lower tag calm (delete lower tag calm stored (codes "dns") (codes "*")).0 n
        ≡ err not_found)
    × (lookup (codes "other") (delete lower tag calm stored (codes "dns") (codes "*")).0
        ≡ (if n == codes "other" then none else lookup (codes "other") stored))
delete-eq-ok_example =
    delete-eq-ok lower tag lower-KeepsNames calm calm stored (codes "dns") (codes "*")
      (codes "other") (unfold delete trim_space valid_name byte_length is_text in refl) refl refl
