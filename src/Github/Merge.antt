-- ===== src/Github/Merge.antt =====
-- internal/github/merge.go
pub mod Reference
use gh_audit.Prelude.{
  ℕ, Bool, true, false, ◌&&◌, Option, none, some, [], ◌∷◌, ltb, leb, ◌==◌, nat_eq, if◌then◌else◌,
  all,
}
use gh_audit.Text.{
  Text, text, equal_fold, has_prefix, first_line, strip_prefix, leftmost, span_digits, is_space,
  positive_int,
}

pub data MergeKind : Type 0 where
  not_merge clean_merge dirty_merge octopus_merge : MergeKind

abbrev pub merge_pull_request_prefix : Text
merge_pull_request_prefix = text "Merge pull request #"

abbrev pub web_flow_committer : Text
web_flow_committer = text "web-flow"

-- ClassifyMerge
unfoldable pub classify_merge : ℕ → Text → Text → Bool → MergeKind
classify_merge parent_count message committer_login is_verified =
    if ltb parent_count 2
    then not_merge
    else if leb 3 parent_count
    then octopus_merge
    else if has_prefix message merge_pull_request_prefix
        && equal_fold committer_login web_flow_committer
        && is_verified
    then clean_merge
    else dirty_merge

abbrev pub is_clean : MergeKind → Bool
is_clean clean_merge = true
is_clean _ = false

-- MergeKindVerification
unfoldable pub merge_kind_verification : MergeKind → Text
merge_kind_verification clean_merge = text "verified-merge-bot"
merge_kind_verification dirty_merge = text "dirty"
merge_kind_verification octopus_merge = text "octopus"
merge_kind_verification not_merge = text "none"

-- What prReferenceRE wants behind its digits: `\)\s*$`.
unfoldable pub closes : Text → Text → Option Text
closes ds [] = none
closes [] (c ∷ s) = none
closes (d ∷ ds) (c ∷ s) = if c == b')' && all is_space s then some (d ∷ ds) else none

-- prReferenceRE, `\(#(\d+)\)\s*$`, at the front of a text.
unfoldable pub pr_token : Text → Option Text
unfolding closes
pr_token s = elim (strip_prefix (text "(#") s) [
  | none ↦ none
  | some rest ↦ let (ds, tail) = span_digits rest in closes ds tail
]

-- ParsePRReference; `none` is its (0, false).
unfoldable pub parse_pr_reference : Text → Option ℕ
parse_pr_reference message = elim (leftmost pr_token (first_line message)) [
  | none ↦ none
  | some ds ↦ positive_int ds
]
