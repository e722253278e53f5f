-- ===== src/Store/Rows.antt =====
-- internal/db/schema.go: the tables, their columns and primary keys. A column that is NULL and is
-- read by COALESCE as the zero of its type is that zero here; the `fetched_at` columns, which
-- nothing reads, are left out.
use gh_audit.Prelude.{ℕ, Bool, Option, List, nat_eq, text_eq}
use gh_audit.Text.{Text}
use gh_audit.Model.{Time, PullRequest, Review, CheckRun, AuditResult}
use gh_audit.History.{HistoryRewrite}
use gh_audit.Store.Table.{Columns, ◌&◌}

-- model.SyncCursor
pub record SyncCursor : Type 0 where
  pub org : Text
  pub repo : Text
  pub branch : Text
  pub last_date : Time
  pub last_sha : Text
  pub updated_at : Time

-- model.AuditRun
pub record AuditRun : Type 0 where
  pub finished_at : Time
  pub tool_version : Text
  pub config_fingerprint : Text
  pub commits_synced : ℕ
  pub commits_audited : ℕ

-- model.RepoInfo
pub record RepoInfo : Type 0 where
  pub org : Text
  pub name : Text
  pub full_name : Text
  pub default_branch : Text
  pub archived : Bool

-- A row of commits; `none` is NULL in the columns where NULL has a meaning.
pub record CommitRow : Type 0 where
  pub org : Text
  pub repo : Text
  pub sha : Text
  pub author_login : Text
  pub author_id : ℕ
  pub author_email : Text
  pub committer_login : Text
  pub committer_id : ℕ
  pub committed_at : Time
  pub message : Text
  pub parent_count : ℕ
  pub parent_shas : Text
  pub additions : ℕ
  pub deletions : ℕ
  pub files_changed : Option ℕ
  pub detail_fetched_at : Option Time
  pub is_verified : Bool
  pub href : Text

pub record CoAuthorRow : Type 0 where
  pub org : Text
  pub repo : Text
  pub sha : Text
  pub name : Text
  pub email : Text
  pub login : Text

pub record CommitBranchRow : Type 0 where
  pub org : Text
  pub repo : Text
  pub sha : Text
  pub branch : Text

pub record CommitPrRow : Type 0 where
  pub org : Text
  pub repo : Text
  pub sha : Text
  pub pr_number : ℕ

pub record OrgRepoRow : Type 0 where
  pub org : Text
  pub name : Text
  pub full_name : Text
  pub default_branch : Text
  pub archived : Bool
  pub fetched_at : Time

-- The tables. The cache of an organisation's repositories stands in Store/OrgRepos.
pub record Store : Type 0 where
  pub sync_cursors : List SyncCursor
  pub commits : List CommitRow
  pub co_authors : List CoAuthorRow
  pub commit_prs : List CommitPrRow
  pub pull_requests : List PullRequest
  pub reviews : List Review
  pub check_runs : List CheckRun
  pub audit_runs : List AuditRun
  pub commit_branches : List CommitBranchRow
  pub history_rewrites : List HistoryRewrite
  pub org_repos : List OrgRepoRow
  pub audit_results : List AuditResult

-- The primary keys.
abbrev pub NameKey : Type 0
NameKey = Columns Text (Columns Text Text)

abbrev pub NumberKey : Type 0
NumberKey = Columns Text (Columns Text ℕ)

abbrev pub cursor_key : SyncCursor → NameKey
cursor_key c = c.org & c.repo & c.branch

abbrev pub commit_key : CommitRow → NameKey
commit_key c = c.org & c.repo & c.sha

abbrev pub co_author_key : CoAuthorRow → Columns Text (Columns Text (Columns Text Text))
co_author_key c = c.org & c.repo & c.sha & c.email

abbrev pub branch_key : CommitBranchRow → Columns Text (Columns Text (Columns Text Text))
branch_key b = b.org & b.repo & b.sha & b.branch

abbrev pub link_key : CommitPrRow → Columns Text (Columns Text (Columns Text ℕ))
link_key l = l.org & l.repo & l.sha & l.pr_number

abbrev pub pr_key : PullRequest → NumberKey
pr_key p = p.org & p.repo & p.number

abbrev pub review_key : Review → Columns Text (Columns Text (Columns ℕ ℕ))
review_key r = r.org & r.repo & r.pr_number & r.review_id

abbrev pub check_run_key : CheckRun → Columns Text (Columns Text (Columns Text ℕ))
check_run_key c = c.org & c.repo & c.commit_sha & c.check_run_id

abbrev pub audit_key : AuditResult → NameKey
audit_key a = a.org & a.repo & a.sha

abbrev pub rewrite_key :
    HistoryRewrite → Columns Text (Columns Text (Columns Text (Columns Text Text)))
rewrite_key h = h.org & h.repo & h.branch & h.prior_sha & h.new_sha

abbrev pub org_repo_key : OrgRepoRow → Columns Text Text
org_repo_key r = r.org & r.name
