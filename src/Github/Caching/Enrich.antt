-- ===== src/Github/Caching/Enrich.antt =====
-- enrichOneCommit of caching.go, with its look-ups one after another. What the classification of a
-- revert leaves in the caches is not modelled.
pub mod Clean
use gh_audit.Prelude.{
  ℕ, ◌+◌, false, not, ◌||◌, Option, some, List, [], ◌∷◌, ◌++◌, arith, if◌then◌else◌, ◌==◌, nat_eq,
  text_eq, any, Outcome, ok, failed,
}
use gh_audit.Text.{Text}
use gh_audit.Model.{Commit, PullRequest, Review, CheckRun, BranchCommits, EnrichmentResult}
use gh_audit.Github.Revert.{LookupPr}
use gh_audit.Github.Caching.{Client, EnrichmentCache, CachingEnricher}
use gh_audit.Github.Caching.Fetch.{get_commit, get_pr, get_reviews, get_check_runs, get_pr_commits}
use gh_audit.Github.Caching.Links.{get_prs_for_commit, keep_prs}
use gh_audit.Github.Caching.Classify.{classify_revert_and_merge}

-- prEnrichment
pub record PrEnrichment : Type 0 where
  pub full_pr : PullRequest
  pub reviews : List Review
  pub check_runs : List CheckRun
  pub branch_commits : List Commit

abbrev pub head_of : PullRequest → PullRequest → Text
head_of pr full_pr = if full_pr.head_sha == [] then pr.head_sha else full_pr.head_sha

-- The pull request of a list with what its detail adds.
abbrev pub detailed : PullRequest → PullRequest → PullRequest
detailed pr full_pr = record pr {
  merged_by_login = full_pr.merged_by_login;
  merged_by_id = full_pr.merged_by_id;
  head_sha = head_of pr full_pr;
  head_branch = full_pr.head_branch;
}

unfoldable pub put_branch : ℕ → List Commit → BranchCommits → BranchCommits
put_branch number commits [] = (number, commits) ∷ []
put_branch number commits ((n, cs) ∷ m) =
    let rest = put_branch number commits m in
    if n == number then (number, commits) ∷ m else (n, cs) ∷ rest

-- The result while it is put together, with seenCheckRef.
pub record Assembly : Type 0 where
  pub prs : List PullRequest
  pub reviews : List Review
  pub check_runs : List CheckRun
  pub branches : BranchCommits
  pub seen : List Text

-- One round of the loop that puts the result together.
unfoldable pub assemble_step : PullRequest × PrEnrichment → Assembly → Assembly
unfolding put_branch
assemble_step (pr, e) a =
    let full = detailed pr e.full_pr in
    let is_new = not (full.head_sha == [] || any (λ s. s == full.head_sha) a.seen) in
    record {
      prs = a.prs ++ full ∷ [];
      reviews = a.reviews ++ e.reviews;
      check_runs = if is_new then a.check_runs ++ e.check_runs else a.check_runs;
      branches = put_branch full.number e.branch_commits a.branches;
      seen = if is_new then full.head_sha ∷ a.seen else a.seen;
    }

unfoldable pub assemble_loop : List (PullRequest × PrEnrichment) → Assembly → Assembly
unfolding assemble_step
assemble_loop [] a = a
assemble_loop (x ∷ xs) a = assemble_loop xs (assemble_step x a)

abbrev pub no_assembly : Assembly
no_assembly = record { prs = []; reviews = []; check_runs = []; branches = []; seen = [] }

-- The result before it is classified.
unfoldable pub assembled : Commit → List (PullRequest × PrEnrichment) → EnrichmentResult
unfolding assemble_loop
assembled detail es =
    let a = assemble_loop es no_assembly in
    record {
      commit = detail;
      prs = a.prs;
      reviews = a.reviews;
      check_runs = a.check_runs;
      pr_branch_commits = a.branches;
      is_clean_revert = false;
      revert_verification = [];
      reverted_sha = [];
      is_clean_merge = false;
      merge_verification = [];
    }

-- What is fetched by the second step, where the first has not failed.
abbrev pub then_get :
    {A B : Type 0}
    → Outcome A × CachingEnricher
    → (A → CachingEnricher → Outcome B × CachingEnricher)
    → Outcome B × CachingEnricher
then_get x next = elim x.0 [ failed ↦ (failed, x.1) | ok a ↦ next a x.1 ]

module _ (client : Client) (db : Option EnrichmentCache) where
  -- The check runs of a head, where there is one.
  abbrev pub runs_at : Text → ℕ → CachingEnricher → Outcome (List CheckRun) × CachingEnricher
  runs_at [] number ce = (ok [], ce)
  runs_at (c ∷ sha) number ce = get_check_runs client db (c ∷ sha) number ce

  -- The work on one pull request.
  unfoldable pub enrich_pr : PullRequest → CachingEnricher → Outcome PrEnrichment × CachingEnricher
  enrich_pr pr ce = then_get (get_pr client db pr.number ce) (λ full_pr ce.
      then_get (get_reviews client db pr.number ce) (λ reviews ce.
        then_get (runs_at (head_of pr full_pr) pr.number ce) (λ runs ce.
          then_get (get_pr_commits client db pr.number ce) (λ commits ce. (
            ok (record {
              full_pr = full_pr;
              reviews = reviews;
              check_runs = runs;
              branch_commits = commits;
            }),
            ce,
          )))))

  unfoldable pub enrich_prs :
      List PullRequest
      → CachingEnricher
      → Outcome (List (PullRequest × PrEnrichment)) × CachingEnricher
  unfolding enrich_pr
  enrich_prs [] ce = (ok [], ce)
  enrich_prs (pr ∷ prs) ce =
      then_get (enrich_pr pr ce)
        (λ e ce. then_get (enrich_prs prs ce) (λ es ce. (ok ((pr, e) ∷ es), ce)))

  -- The callback of classifyRevertAndMerge.
  abbrev pub lookup_pr : CachingEnricher → LookupPr
  lookup_pr ce number = elim (get_pr client db number ce).0 [
    | failed ↦ failed
    | ok pr ↦ ok (some pr)
  ]

  -- The classified result. The loop wrote to the list that commitPRCache holds.
  unfoldable pub classified :
      Text
      → Commit
      → List (PullRequest × PrEnrichment)
      → CachingEnricher
      → Outcome EnrichmentResult × CachingEnricher
  unfolding assembled
  classified sha detail es ce =
      let r = assembled detail es in
      (
        ok (
            classify_revert_and_merge client.get_commit_files (lookup_pr ce) sha detail.parent_count
              r),
        keep_prs client db sha r.prs ce,
      )

  -- enrichOneCommit
  unfoldable pub enrich_one_commit :
      Text → CachingEnricher → Outcome EnrichmentResult × CachingEnricher
  unfolding enrich_prs classified
  enrich_one_commit sha ce = then_get (get_commit client db sha ce) (λ detail ce.
      then_get (get_prs_for_commit client db sha ce)
        (λ prs ce. then_get (enrich_prs prs ce) (λ es ce. classified sha detail es ce)))

  -- EnrichCommits, one commit after another. The slice of the hash in the text of an error is left out.
  unfoldable pub enrich_commits :
      List Text → CachingEnricher → Outcome (List EnrichmentResult) × CachingEnricher
  unfolding enrich_one_commit
  enrich_commits [] ce = (ok [], ce)
  enrich_commits (sha ∷ shas) ce =
      then_get (enrich_one_commit sha ce)
        (λ r ce. then_get (enrich_commits shas ce) (λ rs ce. (ok (r ∷ rs), ce)))
