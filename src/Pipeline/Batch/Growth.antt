-- ===== src/Pipeline/Batch/Growth.antt =====
-- No statement before the last one removes a row, or touches the pull requests.
use gh_audit.Prelude.{
  on_if, ℕ, zero, suc, ◌≡◌, refl, ◌∙◌, ◌||◌, List, [], ◌∷◌, ◌++◌, map, ltb, ◌==◌, nat_eq, text_eq,
}
use gh_audit.Text.{Text}
use gh_audit.Model.{Time, EnrichmentResult, Review, CheckRun, Commit}
use gh_audit.Store.Table.{Columns, columns_eq}
use gh_audit.Store.Table.Present.{
  IsThere, bulk_upsert-IsThere, bulk_insert_if_absent-IsThere, map-IsThere,
}
use gh_audit.Store.Rows.{Store, NameKey, commit_key, link_key, review_key, check_run_key}
use gh_audit.Store.Commits.{
  commit_row, insert_commits_if_absent, update_commit_stats, upsert_co_authors,
  upsert_commit_branches,
}
use gh_audit.Store.Prs.{CommitPrLink, upsert_reviews, upsert_check_runs, upsert_commit_pr_links}
use gh_audit.Pipeline.Batch.{
  Statement, BranchCommitLink, stats_statements, branch_statements, perform,
}

-- The rows of one state are there in the other, and the pull requests and the verdicts are the same.
pub record Grows (s t : Store) : Type 0 where
  pub reviews :
      (r : Review)
      → IsThere review_key (review_key r) s.reviews
      → IsThere review_key (review_key r) t.reviews
  pub check_runs :
      (c : CheckRun)
      → IsThere check_run_key (check_run_key c) s.check_runs
      → IsThere check_run_key (check_run_key c) t.check_runs
  pub commits : (k : NameKey) → IsThere commit_key k s.commits → IsThere commit_key k t.commits
  pub commit_prs :
      (k : Columns Text (Columns Text (Columns Text ℕ)))
      → IsThere link_key k s.commit_prs
      → IsThere link_key k t.commit_prs
  pub pull_requests : t.pull_requests ≡ s.pull_requests
  pub audit_results : t.audit_results ≡ s.audit_results

pub Grows-refl : (s : Store) → Grows s s
Grows-refl s = record {
  reviews = λ r h. h;
  check_runs = λ c h. h;
  commits = λ k h. h;
  commit_prs = λ k h. h;
  pull_requests = refl;
  audit_results = refl;
}

pub Grows-trans : {s t u : Store} → Grows s t → Grows t u → Grows s u
Grows-trans g h = record {
  reviews = λ r there. h.reviews r (g.reviews r there);
  check_runs = λ c there. h.check_runs c (g.check_runs c there);
  commits = λ k there. h.commits k (g.commits k there);
  commit_prs = λ k there. h.commit_prs k (g.commit_prs k there);
  pull_requests = h.pull_requests ∙ g.pull_requests;
  audit_results = h.audit_results ∙ g.audit_results;
}

pub upsert_reviews-Grows : (rs : List Review) (s : Store) → Grows s (upsert_reviews rs s)
unfolding upsert_reviews
upsert_reviews-Grows rs s = record {
  reviews = λ r h. bulk_upsert-IsThere review_key _ _ s.reviews (review_key r) h;
  check_runs = λ c h. h;
  commits = λ k h. h;
  commit_prs = λ k h. h;
  pull_requests = refl;
  audit_results = refl;
}

pub upsert_check_runs-Grows : (cs : List CheckRun) (s : Store) → Grows s (upsert_check_runs cs s)
unfolding upsert_check_runs
upsert_check_runs-Grows cs s = record {
  reviews = λ r h. h;
  check_runs = λ c h. bulk_upsert-IsThere check_run_key _ cs s.check_runs (check_run_key c) h;
  commits = λ k h. h;
  commit_prs = λ k h. h;
  pull_requests = refl;
  audit_results = refl;
}

pub insert_commits_if_absent-Grows :
    (now : Time) (cs : List Commit) (s : Store) → Grows s (insert_commits_if_absent now cs s)
unfolding insert_commits_if_absent
insert_commits_if_absent-Grows now cs s = record {
  reviews = λ r h. h;
  check_runs = λ c h. h;
  commits = λ k h. bulk_insert_if_absent-IsThere commit_key (map (commit_row now) cs) s.commits k h;
  commit_prs = λ k h. h;
  pull_requests = refl;
  audit_results = refl;
}

pub upsert_co_authors-Grows : (cs : List Commit) (s : Store) → Grows s (upsert_co_authors cs s)
unfolding upsert_co_authors
upsert_co_authors-Grows cs s = record {
  reviews = λ r h. h;
  check_runs = λ c h. h;
  commits = λ k h. h;
  commit_prs = λ k h. h;
  pull_requests = refl;
  audit_results = refl;
}

pub upsert_commit_branches-Grows :
    (org repo : Text) (shas : List Text) (branch : Text) (s : Store)
    → Grows s (upsert_commit_branches org repo shas branch s)
unfolding upsert_commit_branches
upsert_commit_branches-Grows org repo shas branch s = record {
  reviews = λ r h. h;
  check_runs = λ c h. h;
  commits = λ k h. h;
  commit_prs = λ k h. h;
  pull_requests = refl;
  audit_results = refl;
}

pub upsert_commit_pr_links-Grows :
    (org repo : Text) (links : List CommitPrLink) (s : Store)
    → Grows s (upsert_commit_pr_links org repo links s)
unfolding upsert_commit_pr_links
upsert_commit_pr_links-Grows org repo links s = record {
  reviews = λ r h. h;
  check_runs = λ c h. h;
  commits = λ k h. h;
  commit_prs = λ k h. bulk_upsert-IsThere link_key _ _ s.commit_prs k h;
  pull_requests = refl;
  audit_results = refl;
}

update_commit_stats-Grows :
    (org repo sha : Text) (additions deletions : ℕ) (s : Store)
    → Grows s (update_commit_stats org repo sha additions deletions s)
unfolding update_commit_stats
update_commit_stats-Grows org repo sha additions deletions s = record {
  reviews = λ r h. h;
  check_runs = λ c h. h;
  commits = λ k h.
      map-IsThere commit_key _ (λ r. on_if (λ x. commit_key x ≡ commit_key r) _ refl refl) k
        s.commits h;
  commit_prs = λ k h. h;
  pull_requests = refl;
  audit_results = refl;
}

abbrev pub AllGrow : List Statement → Type 0
AllGrow [] = Unit {0}
AllGrow (w ∷ ws) = ((s : Store) → Grows s (w s)) × AllGrow ws

pub append-AllGrow : (ws vs : List Statement) → AllGrow ws → AllGrow vs → AllGrow (ws ++ vs)
append-AllGrow [] vs g h = h
append-AllGrow (w ∷ ws) vs g h = (g.0, append-AllGrow ws vs g.1 h)

pub stats_statements-AllGrow : (es : List EnrichmentResult) → AllGrow (stats_statements es)
unfolding stats_statements
stats_statements-AllGrow [] = tt
stats_statements-AllGrow (e ∷ es) =
    let rest = stats_statements-AllGrow es in
    on_if AllGrow (ltb 0 e.commit.additions || ltb 0 e.commit.deletions)
      (update_commit_stats-Grows _ _ _ _ _, rest) rest

pub branch_statements-AllGrow :
    (org repo : Text) (bs : List BranchCommitLink) → AllGrow (branch_statements org repo bs)
unfolding branch_statements
branch_statements-AllGrow org repo [] = tt
branch_statements-AllGrow org repo (b ∷ bs) =
    let rest = branch_statements-AllGrow org repo bs in
    on_if AllGrow (b.branch == []) rest (upsert_commit_branches-Grows _ _ _ _, rest)

perform-Grows :
    (reach : ℕ) (ws : List Statement) (s : Store) → AllGrow ws → Grows s (perform reach ws s).0
unfolding perform
perform-Grows reach [] s h = Grows-refl s
perform-Grows zero (w ∷ ws) s h = Grows-refl s
perform-Grows (suc reach) (w ∷ ws) s h = Grows-trans (h.0 s) (perform-Grows reach ws (w s) h.1)
