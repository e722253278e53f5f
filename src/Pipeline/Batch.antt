-- ===== src/Pipeline/Batch.antt =====
-- writeEnrichmentBatch of internal/sync/pipeline.go: what an enriched batch of commits writes, as the
-- statements in their order. A statement takes effect or does not; a batch ends at the first that
-- fails, and where the process dies in between, it ends there too.
pub mod Gathered
pub mod Growth
pub mod Landed
pub mod Crash
use gh_audit.Prelude.{
  ℕ, zero, suc, ◌+◌, ◌||◌, Option, none, some, List, [], ◌∷◌, ◌++◌, map, arith, ltb, if◌then◌else◌,
  Equality, ◌==◌, nat_eq, text_eq, length, any, ok,
}
use mathlib.Core.List.{flat_map}
use gh_audit.Text.{Text}
use gh_audit.Model.{Time, Commit, PullRequest, Review, CheckRun, EnrichmentResult}
use gh_audit.Github.Caching.{EnrichmentCache, find}
use gh_audit.Store.Rows.{Store}
use gh_audit.Store.Commits.{
  insert_commits_if_absent, update_commit_stats, upsert_co_authors, upsert_commit_branches,
  get_commits_by_sha,
}
use gh_audit.Store.Prs.{
  CommitPrLink, upsert_reviews, upsert_check_runs, upsert_commit_pr_links, upsert_pull_requests,
  get_pull_request, get_prs_for_commit, get_reviews_for_pr, get_check_runs_for_commit,
  get_commits_for_pr,
}

-- A loop that appends what has an id not seen before.
unfoldable pub gather {ℓ} :
    {A : Type ℓ} {K : Type 0} ⦃ids : Equality K⦄ → (A → K) → List A → List A → List A
gather id seen [] = seen
gather id seen (x ∷ xs) =
    gather id (if any (λ y. id y == id x) seen then seen else seen ++ x ∷ []) xs

abbrev pub or_no_commits : Option (List Commit) → List Commit
or_no_commits none = []
or_no_commits (some cs) = cs

-- e.PRBranchCommits[pr.Number]
abbrev pub branch_commits_of : EnrichmentResult → PullRequest → List Commit
branch_commits_of e pr = or_no_commits (find pr.number e.pr_branch_commits)

-- The six lists that the loops over the batch gather.
unfoldable pub all_prs : List EnrichmentResult → List PullRequest
unfolding gather
all_prs es =
    gather (λ (p : PullRequest). p.number) [] (flat_map (λ (e : EnrichmentResult). e.prs) es)

unfoldable pub all_reviews : List EnrichmentResult → List Review
unfolding gather
all_reviews es =
    gather (λ (r : Review). r.review_id) [] (flat_map (λ (e : EnrichmentResult). e.reviews) es)

unfoldable pub all_check_runs : List EnrichmentResult → List CheckRun
unfolding gather
all_check_runs es =
    gather (λ (c : CheckRun). c.check_run_id) []
      (flat_map (λ (e : EnrichmentResult). e.check_runs) es)

unfoldable pub all_branch_commits : List EnrichmentResult → List Commit
unfolding gather
all_branch_commits es =
    gather (λ (c : Commit). c.sha) []
      (flat_map (λ (e : EnrichmentResult). flat_map (branch_commits_of e) e.prs) es)

pub record BranchCommitLink : Type 0 where
  pub pr_number : ℕ
  pub shas : List Text
  pub branch : Text

abbrev pub branch_link : EnrichmentResult → PullRequest → List BranchCommitLink
branch_link e pr =
    let shas = map (λ (c : Commit). c.sha) (branch_commits_of e pr) in
    if length shas == 0
    then []
    else record { pr_number = pr.number; shas = shas; branch = pr.head_branch } ∷ []

unfoldable pub all_branch_links : List EnrichmentResult → List BranchCommitLink
all_branch_links es = flat_map (λ (e : EnrichmentResult). flat_map (branch_link e) e.prs) es

-- allLinks, with one entry for each of the numbers.
unfoldable pub all_links : List EnrichmentResult → List CommitPrLink
all_links es =
    flat_map
      (λ (e : EnrichmentResult).
        map (λ (p : PullRequest). record { sha = e.commit.sha; pr_number = p.number }) e.prs)
      es

unfoldable pub pr_links : List EnrichmentResult → List CommitPrLink
unfolding all_branch_links all_links
pr_links es =
    flat_map
      (λ (b : BranchCommitLink). map (λ sha. record { sha = sha; pr_number = b.pr_number }) b.shas)
      (all_branch_links es)
    ++ all_links es

-- A statement that changes the tables.
abbrev pub Statement : Type 0
Statement = Store → Store

unfoldable pub stats_statements : List EnrichmentResult → List Statement
stats_statements [] = []
stats_statements (e ∷ es) =
    let rest = stats_statements es in
    let c = e.commit in
    if ltb 0 c.additions || ltb 0 c.deletions
    then update_commit_stats c.org c.repo c.sha c.additions c.deletions ∷ rest
    else rest

unfoldable pub branch_statements : Text → Text → List BranchCommitLink → List Statement
branch_statements org repo [] = []
branch_statements org repo (b ∷ bs) =
    let rest = branch_statements org repo bs in
    if b.branch == [] then rest else upsert_commit_branches org repo b.shas b.branch ∷ rest

-- What stands before the last statement. Each upsert of no rows is a statement that changes nothing.
unfoldable pub sub_row_statements : Time → Text → Text → List EnrichmentResult → List Statement
unfolding stats_statements branch_statements
sub_row_statements now org repo es =
    stats_statements es
    ++ (upsert_reviews (all_reviews es)
        ∷ upsert_check_runs (all_check_runs es)
        ∷ insert_commits_if_absent now (all_branch_commits es)
        ∷ upsert_co_authors (all_branch_commits es)
        ∷ (branch_statements org repo (all_branch_links es)
            ++ (upsert_commit_pr_links org repo (pr_links es) ∷ [])))

-- Statements one after another, of which the first `reach` can take effect before one fails or the
-- process dies; the number that is left, or `none` where one failed.
unfoldable pub perform : ℕ → List Statement → Store → Store × Option ℕ
perform reach [] s = (s, some reach)
perform zero (w ∷ ws) s = (s, none)
perform (suc reach) (w ∷ ws) s = perform reach ws (w s)

unfoldable pub batch_statements : Time → Text → Text → List EnrichmentResult → List Statement
unfolding sub_row_statements
batch_statements now org repo es =
    sub_row_statements now org repo es ++ upsert_pull_requests (all_prs es) ∷ []

-- writeEnrichmentBatch
unfoldable pub write_enrichment_batch :
    ℕ → Time → Text → Text → List EnrichmentResult → Store → Store × Option ℕ
unfolding perform batch_statements
write_enrichment_batch reach now org repo es = perform reach (batch_statements now org repo es)

-- The database as the EnrichmentCache of one repository, where its reads succeed.
unfoldable pub enrichment_cache : Text → Text → Store → EnrichmentCache
enrichment_cache org repo s = record {
  db_pull_request = λ n. ok (get_pull_request org repo n s);
  db_prs_for_commit = λ sha. ok (get_prs_for_commit org repo sha s);
  db_reviews_for_pr = λ n. ok (get_reviews_for_pr org repo n s);
  db_check_runs_for_commit = λ sha. ok (get_check_runs_for_commit org repo sha s);
  db_commits_for_pr = λ n. ok (get_commits_for_pr org repo n s);
  db_commit_by_sha = λ sha. ok (get_commits_by_sha org repo (sha ∷ []) s);
}
