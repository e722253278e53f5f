-- ===== src/Audit/Annotations.antt =====
-- internal/sync/annotations.go: tags that say why a commit looks as it does.
use gh_audit.Prelude.{
  ℕ, Bool, true, false, not, ◌&&◌, ◌||◌, Option, none, some, List, [], ◌∷◌, ◌++◌, leb, ◌==◌, ◌/=◌,
  nat_eq, text_eq, if◌then◌else◌,
}
use gh_audit.Text.{Text, text, to_lower, has_prefix, first_line, strip_prefix, trim_space}
use gh_audit.Model.{Commit}

-- automationPrefixes: (tag, prefix)
abbrev pub automation_prefixes : List (Text × Text)
automation_prefixes =
    (text "depex", text "[depex]")
    ∷ (text "renovate", text "[renovate]")
    ∷ (text "dependabot", text "[dependabot]")
    ∷ (text "auto-merge", text "[auto-merge]")
    ∷ (text "autoupgrade", text "[autoupgrade]")
    ∷ (text "merge-queue", text "[merge-queue]")
    ∷ []

unfoldable pub prefix_tag : Text → List (Text × Text) → Option Text
prefix_tag subject [] = none
prefix_tag subject ((tag, prefix) ∷ rest) =
    if has_prefix subject prefix then some tag else prefix_tag subject rest

-- A byte of a word, as `\b` sees it.
abbrev pub is_word : ℕ → Bool
is_word c =
    leb b'0' c && leb c b'9' || leb b'A' c && leb c b'Z' || leb b'a' c && leb c b'z' || c == b'_'

abbrev pub word_ends : Text → Bool
word_ends [] = true
word_ends (c ∷ s) = not (is_word c)

-- descriptionCheckOverrideRe, `(?im)\bDESCRIPTIONCHECKOVERRIDE\b`, behind a byte that is a word's
-- or not: the search works on a lowercased message.
unfoldable pub has_override : Bool → Text → Bool
has_override behind_word [] = false
has_override behind_word (c ∷ s) =
    let later = has_override (is_word c) s in
    elim (strip_prefix (text "descriptioncheckoverride") (c ∷ s)) [
      | none ↦ later
      | some rest ↦ if not behind_word && word_ends rest then true else later
    ]

-- detectAutomationTag
unfoldable pub detect_automation_tag : Text → Text
unfolding prefix_tag has_override
detect_automation_tag message =
    elim (prefix_tag (to_lower (trim_space (first_line message))) automation_prefixes) [
      | some tag ↦ tag
      | none ↦
          if has_override false (to_lower message) then text "description-check-override" else []
    ]

-- ComputeAnnotations; it does not look at the enrichment.
unfoldable pub compute_annotations : Commit → List Text
unfolding detect_automation_tag
compute_annotations commit =
    let tag = detect_automation_tag commit.message in
    if tag /= [] then (text "automation:" ++ tag) ∷ [] else []
