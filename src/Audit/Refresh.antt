-- ===== src/Audit/Refresh.antt =====
-- Rule 4's carve-out in audit.go: an approval of an older commit still covers the head when only
-- exempt accounts have pushed since. What came since is read off the first-parent graph.
pub mod Ancestry
pub mod Complete
use gh_audit.Prelude.{
  ℕ, zero, suc, Bool, true, false, not, ◌&&◌, ◌||◌, Option, none, some, List, [], ◌∷◌, ◌++◌, ltb,
  ◌==◌, ◌/=◌, nat_eq, text_eq, if◌then◌else◌, any, all, length,
}
use gh_audit.Text.{Text}
use gh_audit.Model.{Commit, Review, ExemptAuthor}
use gh_audit.Audit.Exempt.{is_exempt_commit}

-- `bySHA[sha]`: of two commits with one SHA the map holds the later.
unfoldable pub by_sha : List Commit → Text → Option Commit
by_sha [] sha = none
by_sha (c ∷ cs) sha = elim (by_sha cs sha) [
  | some d ↦ some d
  | none ↦ if c.sha == sha then some c else none
]

abbrev pub has_parents : Commit → Bool
has_parents c = ltb 0 (length c.parent_shas)

-- The walk: `rounds` are the rounds of the loop that are left, `post` what was passed so far.
unfoldable pub walk : List Commit → Text → ℕ → Text → List Commit → Option (List Commit)
unfolding by_sha
walk commits approved_sha zero cur post = none
walk commits approved_sha (suc rounds) cur post = elim (cur == approved_sha) [
  | true ↦ some post
  | false ↦ elim (by_sha commits cur) [
    | none ↦ none
    | some c ↦ elim c.parent_shas [
      | [] ↦ none
      | parent ∷ _ ↦ walk commits approved_sha rounds parent (post ++ c ∷ [])
    ]
  ]
]

-- postApprovalByGraph; `none` is its (nil, false).
unfoldable pub post_approval_by_graph : Text → Text → List Commit → Option (List Commit)
post_approval_by_graph approved_sha head_sha pr_branch_commits =
    if approved_sha == [] || head_sha == []
    then none
    else if not (any has_parents pr_branch_commits)
    then none
    else walk pr_branch_commits approved_sha (suc (length pr_branch_commits)) head_sha []

-- The loop over what came since: it skips the merge commit and wants all others exempt.
abbrev pub covered : Text → List ExemptAuthor → Bool → Commit → Bool
covered merge_commit_sha exempt_authors require_signing c =
    merge_commit_sha /= [] && c.sha == merge_commit_sha
    || is_exempt_commit c exempt_authors require_signing

-- isApprovalRefreshable
unfoldable pub is_approval_refreshable :
    Review → List Commit → Text → Text → List ExemptAuthor → Bool → Bool
is_approval_refreshable approval pr_branch_commits head_sha merge_commit_sha exempt_authors
      require_signing =
    if length pr_branch_commits == 0
    then false
    else elim (post_approval_by_graph approval.commit_id head_sha pr_branch_commits) [
      | none ↦ false
      | some post ↦
          if length post == 0
          then false
          else all (covered merge_commit_sha exempt_authors require_signing) post
    ]
