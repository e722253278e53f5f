-- ===== src/Model.antt =====
-- internal/model/types.go: the domain records. Times are nanoseconds since Go's zero time, which
-- is 0 here; ids, counts and sizes are numbers, as GitHub sends them.
pub mod CoAuthors
use gh_audit.Prelude.{ℕ, Bool, ◌&&◌, List, ◌==◌, ◌/=◌, nat_eq, ltb}
use gh_audit.Text.{Text}

-- The account "ghost", to which GitHub attributes what deleted users did.
abbrev pub ghost_user_id : ℕ
ghost_user_id = 10137

unfoldable pub trusted_id : ℕ → Bool
trusted_id id = id /= 0 && id /= ghost_user_id

-- time.Time
abbrev pub Time : Type 0
Time = ℕ

abbrev pub is_zero : Time → Bool
is_zero t = t == 0

abbrev pub after : Time → Time → Bool
after t u = ltb u t

abbrev pub before : Time → Time → Bool
before t u = ltb t u

pub record CoAuthor : Type 0 where
  pub login : Text
  pub email : Text
  pub name : Text

pub record Commit : Type 0 where
  pub org : Text
  pub repo : Text
  pub sha : Text
  pub author_login : Text
  pub author_id : ℕ
  pub author_email : Text
  pub committer_login : Text
  pub committer_id : ℕ
  pub co_authors : List CoAuthor
  pub committed_at : Time
  pub message : Text
  pub is_verified : Bool
  pub parent_count : ℕ
  pub additions : ℕ
  pub deletions : ℕ
  pub files_changed : ℕ
  pub stats_verified : Bool
  pub parent_shas : List Text
  pub branch : Text
  pub href : Text

pub record FileDiff : Type 0 where
  pub filename : Text
  pub status : Text
  pub additions : ℕ
  pub deletions : ℕ
  pub patch : Text

pub record PullRequest : Type 0 where
  pub org : Text
  pub repo : Text
  pub number : ℕ
  pub title : Text
  pub merged : Bool
  pub head_sha : Text
  pub head_branch : Text
  pub base_branch : Text
  pub merge_commit_sha : Text
  pub author_login : Text
  pub author_id : ℕ
  pub merged_by_login : Text
  pub merged_by_id : ℕ
  pub merged_at : Time
  pub href : Text

pub record Review : Type 0 where
  pub org : Text
  pub repo : Text
  pub pr_number : ℕ
  pub review_id : ℕ
  pub reviewer_login : Text
  pub reviewer_id : ℕ
  pub state : Text
  pub commit_id : Text
  pub submitted_at : Time
  pub dismissed_at : Time
  pub dismissed_state : Text
  pub href : Text

pub record CheckRun : Type 0 where
  pub org : Text
  pub repo : Text
  pub commit_sha : Text
  pub check_run_id : ℕ
  pub check_name : Text
  pub status : Text
  pub conclusion : Text
  pub completed_at : Time

pub record AuditResult : Type 0 where
  pub org : Text
  pub repo : Text
  pub sha : Text
  pub is_empty_commit : Bool
  pub is_bot : Bool
  pub is_exempt_author : Bool
  pub exemption_forgeable : Bool
  pub has_pr : Bool
  pub pr_number : ℕ
  pub pr_count : ℕ
  pub has_final_approval : Bool
  pub has_stale_approval : Bool
  pub has_post_merge_concern : Bool
  pub is_clean_revert : Bool
  pub revert_verification : Text
  pub reverted_sha : Text
  pub is_clean_merge : Bool
  pub merge_verification : Text
  pub is_self_approved : Bool
  pub approver_logins : List Text
  pub owner_approval_check : Text
  pub is_compliant : Bool
  pub reasons : List Text
  pub merge_strategy : Text
  pub pr_commit_author_logins : List Text
  pub commit_href : Text
  pub pr_href : Text
  pub annotations : List Text
  pub audited_at : Time

-- `map[int][]Commit`: the entries in the order in which Go ranges over them, which it leaves open.
abbrev pub BranchCommits : Type 0
BranchCommits = List (ℕ × List Commit)

pub record EnrichmentResult : Type 0 where
  pub commit : Commit
  pub prs : List PullRequest
  pub reviews : List Review
  pub check_runs : List CheckRun
  pub pr_branch_commits : BranchCommits
  pub is_clean_revert : Bool
  pub revert_verification : Text
  pub reverted_sha : Text
  pub is_clean_merge : Bool
  pub merge_verification : Text

pub record ExemptAuthor : Type 0 where
  pub login : Text
  pub id : ℕ
  pub kind : Text  -- Type
  pub name : Text
  pub comment : Text
  pub verified_emails : List Text
