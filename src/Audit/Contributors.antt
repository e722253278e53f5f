-- ===== src/Audit/Contributors.antt =====
-- Rule 5 of audit.go: who wrote the code, and so cannot approve it.
pub mod Self
pub mod Groups
pub mod Kept
use gh_audit.Prelude.{
  ℕ, Bool, true, false, not, ◌&&◌, ◌||◌, none, some, List, [], ◌∷◌, ◌++◌, ltb, ◌==◌, ◌/=◌, nat_eq,
  text_eq, if◌then◌else◌, any, Outcome, ok, failed,
}
use gh_audit.Text.{Text, text, to_lower}
use gh_audit.Text.Decimal.{itoa}
use gh_audit.Model.{Commit, PullRequest, Review, BranchCommits, trusted_id}
use gh_audit.Github.Merge.{classify_merge, is_clean}
use gh_audit.Audit.Types.{StatsFetcher, Stats, self_approval, same_user}

abbrev pub positive_stats : ℕ → ℕ → ℕ → Bool
positive_stats a d f = ltb 0 a || ltb 0 d || ltb 0 f

abbrev pub refetched : Outcome Stats → Bool
refetched failed = true
refetched (ok s) = positive_stats s.additions s.deletions s.files_changed

-- hasNonEmptyContribution
unfoldable pub has_non_empty_contribution : Text → Text → List Commit → StatsFetcher → Bool
has_non_empty_contribution org repo commits fetch_stats =
    if any (λ c. positive_stats c.additions c.deletions c.files_changed) commits
    then true
    else elim fetch_stats [
      | none ↦ true
      | some fetch ↦ any (λ (c : Commit). refetched (fetch self_approval org repo c.sha)) commits
    ]

-- The key by which filterNonEmptyContributors groups commits.
unfoldable pub author_key : Commit → Text
author_key c = if c.author_id /= 0 then text "id:" ++ itoa c.author_id else to_lower c.author_login

-- authorGroup, with its key: the map and the slice `order` of keys are one list in that order.
pub record AuthorGroup : Type 0 where
  pub key : Text
  pub representative : Commit
  pub commits : List Commit

unfoldable pub add_to_group : Text → Commit → List AuthorGroup → List AuthorGroup
add_to_group key c [] = record { key = key; representative = c; commits = c ∷ [] } ∷ []
add_to_group key c (g ∷ gs) =
    let rest = add_to_group key c gs in
    if g.key == key then record g { commits = g.commits ++ c ∷ [] } ∷ gs else g ∷ rest

abbrev pub is_anonymous : Commit → Bool
is_anonymous c = c.author_id == 0 && c.author_login == []

unfoldable pub group_by_author : List AuthorGroup → List Commit → List AuthorGroup
unfolding author_key add_to_group
group_by_author groups [] = groups
group_by_author groups (c ∷ cs) =
    group_by_author (if is_anonymous c then groups else add_to_group (author_key c) c groups) cs

unfoldable pub contributing : Text → Text → StatsFetcher → List AuthorGroup → List Commit
contributing org repo fetch_stats [] = []
contributing org repo fetch_stats (g ∷ gs) =
    let rest = contributing org repo fetch_stats gs in
    if has_non_empty_contribution org repo g.commits fetch_stats
    then g.representative ∷ rest
    else rest

-- filterNonEmptyContributors
unfoldable pub filter_non_empty_contributors :
    Text → Text → List Commit → StatsFetcher → List Commit
unfolding group_by_author contributing
filter_non_empty_contributors org repo commits fetch_stats =
    contributing org repo fetch_stats (group_by_author [] commits)

-- isSelfApproval
unfoldable pub is_self_approval : Review → Commit → PullRequest → List Commit → Bool
is_self_approval review commit pr pr_branch_commits =
    if not (trusted_id review.reviewer_id)
    then false
    else if same_user review.reviewer_id pr.author_id
    then true
    else if not (
          is_clean (
            classify_merge commit.parent_count commit.message commit.committer_login
              commit.is_verified))
        && same_user review.reviewer_id commit.author_id
    then true
    else any (λ c. same_user review.reviewer_id c.author_id) pr_branch_commits

-- distinctPRBranchAuthors, one commit at a time: `seen` holds lowercased logins.
unfoldable pub distinct_authors : List Text → List Commit → List Text × List Text
distinct_authors seen [] = (seen, [])
distinct_authors seen (c ∷ cs) =
    let fresh = c.author_login /= [] && not (any (λ s. s == to_lower c.author_login) seen) in
    let (seen', rest) =
      distinct_authors (if fresh then to_lower c.author_login ∷ seen else seen) cs in
    if fresh then (seen', c.author_login ∷ rest) else (seen', rest)

unfoldable pub distinct_branch_authors : List Text → BranchCommits → List Text
unfolding distinct_authors
distinct_branch_authors seen [] = []
distinct_branch_authors seen ((number, commits) ∷ branches) =
    let (seen', logins) = distinct_authors seen commits in
    logins ++ distinct_branch_authors seen' branches

unfoldable pub distinct_pr_branch_authors : BranchCommits → List Text
unfolding distinct_branch_authors
distinct_pr_branch_authors = distinct_branch_authors []
