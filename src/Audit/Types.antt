-- ===== src/Audit/Types.antt =====
-- The types that the rules of audit.go share, and its small utilities.
use gh_audit.Prelude.{
  ℕ, Bool, ◌&&◌, ◌||◌, Option, ltb, leb, ◌==◌, ◌/=◌, nat_eq, if◌then◌else◌, length, take, Outcome,
}
use gh_audit.Text.{Text, text, equal_fold}
use gh_audit.Model.{Commit, trusted_id}

pub record RequiredCheck : Type 0 where
  pub name : Text
  pub conclusion : Text

pub data StatsTrigger : Type 0 where
  empty_commit self_approval exemption : StatsTrigger

-- (additions, deletions, filesChanged)
pub record Stats : Type 0 where
  pub additions : ℕ
  pub deletions : ℕ
  pub files_changed : ℕ

-- A StatsFetcher asks the database or GitHub: trigger, org, repo, sha.
abbrev pub FetchStats : Type 0
FetchStats = StatsTrigger → Text → Text → Text → Outcome Stats

-- A StatsFetcher value may be nil.
abbrev pub StatsFetcher : Type 0
StatsFetcher = Option FetchStats

abbrev pub has_content : ℕ → ℕ → ℕ → Bool
has_content additions deletions files = additions /= 0 || deletions /= 0 || files /= 0

-- truncateSHA
unfoldable pub truncate_sha : Text → Text
truncate_sha sha = if leb (length sha) 12 then sha else take 12 sha

-- sameUser
unfoldable pub same_user : ℕ → ℕ → Bool
unfolding trusted_id
same_user id1 id2 = trusted_id id1 && trusted_id id2 && id1 == id2

-- classifyMergeStrategy
unfoldable pub classify_merge_strategy : Commit → Bool → Text
classify_merge_strategy c has_pr =
    if c.parent_count == 0
    then text "initial"
    else if ltb 1 c.parent_count
    then text "merge"
    else if has_pr && equal_fold c.committer_login (text "web-flow")
    then text "squash"
    else if has_pr
    then text "rebase"
    else text "direct-push"
