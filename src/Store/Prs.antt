-- ===== src/Store/Prs.antt =====
-- internal/db/prs.go: pull requests, reviews, check runs and what links commits to pull requests.
use gh_audit.Prelude.{
  ℕ, Bool, ◌&&◌, Option, none, some, List, [], map, leb, if◌then◌else◌, ◌==◌, nat_eq, text_eq, ◌/=◌,
  any, select,
}
use gh_audit.Text.{Text, text}
use gh_audit.Model.{Commit, PullRequest, Review, CheckRun}
use gh_audit.Github.Diff.{text_leb}
use gh_audit.Store.Table.{columns_eq, ◌&◌, row_at, as_staged, bulk_upsert, order_by}
use gh_audit.Store.Rows.{Store, CommitRow, CommitPrRow, link_key, pr_key, review_key, check_run_key}
use gh_audit.Store.Commits.{scan_commit, load_co_authors_for_commits}

abbrev pub with_merger : PullRequest → Option PullRequest → PullRequest
with_merger s none = s
with_merger s (some p) =
    if s.merged_by_login == [] && p.merged_by_login /= []
    then record s { merged_by_login = p.merged_by_login; merged_by_id = p.merged_by_id }
    else s

-- preservePRDetailSQL, for one staged row
unfoldable pub preserve_pr_detail : List PullRequest → PullRequest → PullRequest
preserve_pr_detail prs s = with_merger s (row_at pr_key (pr_key s) prs)

-- UpsertPullRequests
unfoldable pub upsert_pull_requests : List PullRequest → Store → Store
upsert_pull_requests prs s = record s {
  pull_requests = bulk_upsert pr_key preserve_pr_detail prs s.pull_requests;
}

abbrev pub is_submitted : Review → Bool
is_submitted r = r.state /= text "PENDING"

-- UpsertReviews
unfoldable pub upsert_reviews : List Review → Store → Store
upsert_reviews reviews s = record s {
  reviews = bulk_upsert review_key as_staged (select is_submitted reviews) s.reviews;
}

-- UpsertCheckRuns
unfoldable pub upsert_check_runs : List CheckRun → Store → Store
upsert_check_runs runs s = record s {
  check_runs = bulk_upsert check_run_key as_staged runs s.check_runs;
}

pub record CommitPrLink : Type 0 where
  pub sha : Text
  pub pr_number : ℕ

abbrev pub link_row : Text → Text → CommitPrLink → CommitPrRow
link_row org repo l = record { org = org; repo = repo; sha = l.sha; pr_number = l.pr_number }

-- UpsertCommitPRLinks
unfoldable pub upsert_commit_pr_links : Text → Text → List CommitPrLink → Store → Store
upsert_commit_pr_links org repo links s = record s {
  commit_prs = bulk_upsert link_key as_staged (map (link_row org repo) links) s.commit_prs;
}

-- UpsertCommitPRs
unfoldable pub upsert_commit_prs : Text → Text → Text → List ℕ → Store → Store
upsert_commit_prs org repo sha numbers s = record s {
  commit_prs =
      bulk_upsert link_key as_staged
        (map (λ n. link_row org repo (record { sha = sha; pr_number = n })) numbers) s.commit_prs;
}

-- GetPullRequest
unfoldable pub get_pull_request : Text → Text → ℕ → Store → Option PullRequest
get_pull_request org repo number s = row_at pr_key (org & repo & number) s.pull_requests

abbrev pub links_commit : Text → Text → Text → ℕ → Store → Bool
links_commit org repo sha number s =
    any (λ l. link_key l == (org & repo & sha & number)) s.commit_prs

-- GetPRsForCommit
unfoldable pub get_prs_for_commit : Text → Text → Text → Store → List PullRequest
get_prs_for_commit org repo sha s =
    select
      (λ (p : PullRequest). p.org == org && p.repo == repo && links_commit org repo sha p.number s)
      s.pull_requests

-- GetCommitsForPR
unfoldable pub get_commits_for_pr : Text → Text → ℕ → Store → List Commit
get_commits_for_pr org repo number s = load_co_authors_for_commits org repo s (
    map scan_commit (
      select
        (λ (c : CommitRow). c.org == org && c.repo == repo && links_commit org repo c.sha number s)
        s.commits))

-- GetReviewsForPR
unfoldable pub get_reviews_for_pr : Text → Text → ℕ → Store → List Review
get_reviews_for_pr org repo number s =
    order_by (λ (a : Review) (b : Review). leb a.submitted_at b.submitted_at)
      (select (λ (r : Review). r.org == org && r.repo == repo && r.pr_number == number) s.reviews)

-- GetCheckRunsForCommit
unfoldable pub get_check_runs_for_commit : Text → Text → Text → Store → List CheckRun
get_check_runs_for_commit org repo sha s =
    order_by (λ (a : CheckRun) (b : CheckRun). text_leb a.check_name b.check_name)
      (select (λ (c : CheckRun). c.org == org && c.repo == repo && c.commit_sha == sha)
        s.check_runs)
