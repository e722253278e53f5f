-- ===== src/Github/Revert.antt =====
-- internal/github/revert.go: what a commit's message or branch says that it reverts.
pub mod Parse
use gh_audit.Prelude.{
  ℕ, zero, suc, Bool, ◌&&◌, ◌||◌, Option, none, some, List, [], ◌∷◌, leb, ◌==◌, nat_eq, text_eq,
  if◌then◌else◌, Outcome, ok, failed,
}
use gh_audit.Text.{Text, text, has_prefix, strip_prefix, leftmost, span_digits, positive_int}
use gh_audit.Model.{PullRequest}

pub data RevertKind : Type 0 where
  not_revert auto_revert manual_revert revert_of_revert : RevertKind

-- `[0-9a-f]`
abbrev pub is_hex : ℕ → Bool
is_hex c = leb b'0' c && leb c b'9' || leb b'a' c && leb c b'f'

-- `([0-9a-f]{n})`: exactly n hexadecimal digits, and the rest.
unfoldable pub hex_run : ℕ → Text → Option (Text × Text)
hex_run zero s = some ([], s)
hex_run (suc n) [] = none
hex_run (suc n) (c ∷ s) =
    let more = hex_run n s in
    if is_hex c then (elim more [ none ↦ none | some (h, rest) ↦ some (c ∷ h, rest) ]) else none

-- autoRevertRe, `^Automatic revert of ([0-9a-f]{40})\.\.([0-9a-f]{40})`: its first group.
unfoldable pub auto_revert_sha : Text → Option Text
auto_revert_sha message = elim (strip_prefix (text "Automatic revert of ") message) [
  | none ↦ none
  | some s ↦ elim (hex_run 40 s) [
    | none ↦ none
    | some (new_sha, dots) ↦ elim (strip_prefix (text "..") dots) [
      | none ↦ none
      | some t ↦ elim (hex_run 40 t) [ none ↦ none | some old ↦ some new_sha ]
    ]
  ]
]

-- manualRevertBodySHAre, `This reverts commit ([0-9a-f]{40})`, at the front of a text.
unfoldable pub trailer_at : Text → Option Text
trailer_at s = elim (strip_prefix (text "This reverts commit ") s) [
  | none ↦ none
  | some t ↦ elim (hex_run 40 t) [ none ↦ none | some (sha, rest) ↦ some sha ]
]

unfoldable pub trailer_sha : Text → Option Text
unfolding trailer_at
trailer_sha = leftmost trailer_at

abbrev pub or_empty : Option Text → Text
or_empty none = []
or_empty (some s) = s

-- The three prefixes of a revert of a revert; in the second the inner quote is escaped.
unfoldable pub reverts_a_revert : Text → Bool
reverts_a_revert message =
    has_prefix message (text "Revert \"Revert \"")
    || has_prefix message (text "Revert \"Revert \\\"")
    || has_prefix message (text "Revert \"Automatic revert of")

-- ParseRevert
unfoldable pub parse_revert : Text → RevertKind × Text
parse_revert message =
    if reverts_a_revert message then (revert_of_revert, []) else elim (auto_revert_sha message) [
      | some sha ↦ (auto_revert, sha)
      | none ↦
          if has_prefix message (text "Revert \"")
          then (manual_revert, or_empty (trailer_sha message))
          else (not_revert, [])
    ]

-- What revertBranchRe wants behind its digits.
numbered : Text → Text → Option ℕ
numbered ds [] = none
numbered [] (c ∷ s) = none
numbered (d ∷ ds) (c ∷ s) = if c == b'-' then positive_int (d ∷ ds) else none

-- ParseRevertBranchName: revertBranchRe is `^revert-(\d+)-`; `none` is its (0, false).
unfoldable pub parse_revert_branch_name : Text → Option ℕ
unfolding numbered
parse_revert_branch_name branch = elim (strip_prefix (text "revert-") branch) [
  | none ↦ none
  | some rest ↦ let (ds, tail) = span_digits rest in numbered ds tail
]

-- The callback `lookupPR`; its result is a pointer that may be nil.
abbrev pub LookupPr : Type 0
LookupPr = ℕ → Outcome (Option PullRequest)

-- One round's answer: `none` goes on with the next pull request.
unfoldable pub merge_sha_of : Outcome (Option PullRequest) → Option (Outcome Text)
merge_sha_of failed = some failed
merge_sha_of (ok none) = none
merge_sha_of (ok (some target)) =
    if target.merge_commit_sha == [] then none else some (ok target.merge_commit_sha)

-- The loop of ResolveRevertedSHA over the associated pull requests.
unfoldable pub reverted_by_branch : LookupPr → List PullRequest → Outcome Text
unfolding merge_sha_of
reverted_by_branch lookup [] = ok []
reverted_by_branch lookup (pr ∷ prs) = elim (parse_revert_branch_name pr.head_branch) [
  | none ↦ reverted_by_branch lookup prs
  | some n ↦ elim (merge_sha_of (lookup n)) [
    | none ↦ reverted_by_branch lookup prs
    | some answer ↦ answer
  ]
]

-- ResolveRevertedSHA; `none` for the callback is nil.
unfoldable pub resolve_reverted_sha : Text → List PullRequest → Option LookupPr → Outcome Text
unfolding reverted_by_branch
resolve_reverted_sha message prs lookup = elim (trailer_sha message) [
  | some sha ↦ ok sha
  | none ↦ elim lookup [ none ↦ ok [] | some f ↦ reverted_by_branch f prs ]
]
