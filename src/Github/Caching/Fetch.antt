-- ===== src/Github/Caching/Fetch.antt =====
-- The look-ups of caching.go: getCommit, getPR, getReviews, getCheckRuns and getPRCommits.
use gh_audit.Prelude.{
  ℕ, ◌+◌, true, false, Option, none, some, List, ◌∷◌, ◌++◌, if◌then◌else◌, nat_eq, text_eq, Outcome,
  ok, failed,
}
use gh_audit.Text.{Text}
use gh_audit.Model.{Commit, PullRequest, Review, CheckRun}
use gh_audit.Github.Caching.{
  Client, EnrichmentCache, CachingEnricher, find, index_pr, on_stats, cache_hit, db_hit,
  missing_required_check, all_check_runs_completed, stored, frozen_pr, is_pr_merged, if_merged,
  resolve_dismissals, has_dismissed,
}

module _ (client : Client) (db : Option EnrichmentCache) where
  -- getCommit
  unfoldable pub get_commit : Text → CachingEnricher → Outcome Commit × CachingEnricher
  get_commit sha ce = elim (stored db (λ d. d.db_commit_by_sha sha)) [
    | some (c ∷ cs) ↦ (ok c, db_hit ce)
    | _ ↦ (
      client.get_commit_detail sha,
      on_stats (λ s. record s { commit_detail_eager = s.commit_detail_eager + 1 }) ce,
    )
  ]

  abbrev pub keep_pr : ℕ → PullRequest → CachingEnricher → CachingEnricher
  keep_pr number pr ce = index_pr pr (record ce { pr_cache = (number, pr) ∷ ce.pr_cache })

  -- getPR
  unfoldable pub get_pr : ℕ → CachingEnricher → Outcome PullRequest × CachingEnricher
  unfolding index_pr
  get_pr number ce = elim (find number ce.pr_cache) [
    | some pr ↦ (ok pr, cache_hit ce)
    | none ↦ elim (frozen_pr db number) [
      | some pr ↦ (ok pr, db_hit (keep_pr number pr ce))
      | none ↦
          let ce' = on_stats (λ s. record s { pr_detail = s.pr_detail + 1 }) ce in
          elim (client.get_pull_request number) [
            | failed ↦ (failed, ce')
            | ok pr ↦ (ok pr, keep_pr number pr ce')
          ]
    ]
  ]

  abbrev pub count_reviews : CachingEnricher → CachingEnricher
  count_reviews = on_stats (λ s. record s { reviews = s.reviews + 1 })

  abbrev pub keep_reviews : ℕ → List Review → CachingEnricher → CachingEnricher
  keep_reviews number rs ce = record ce { review_cache = (number, rs) ∷ ce.review_cache }

  -- The reviews from the client, with the times of their dismissals.
  unfoldable pub fetch_reviews : ℕ → CachingEnricher → Outcome (List Review) × CachingEnricher
  unfolding resolve_dismissals
  fetch_reviews number ce = elim (client.list_reviews number) [
    | failed ↦ (failed, count_reviews ce)
    | ok rs ↦ elim (has_dismissed rs) [
      | false ↦ (ok rs, keep_reviews number rs (count_reviews ce))
      | true ↦ elim (client.list_review_dismissals number) [
        | failed ↦ (failed, count_reviews (count_reviews ce))
        | ok ds ↦ (
          ok (resolve_dismissals ds rs),
          keep_reviews number (resolve_dismissals ds rs) (count_reviews (count_reviews ce)),
        )
      ]
    ]
  ]

  -- getReviews
  unfoldable pub get_reviews : ℕ → CachingEnricher → Outcome (List Review) × CachingEnricher
  unfolding is_pr_merged fetch_reviews
  get_reviews number ce = elim (find number ce.review_cache) [
    | some rs ↦ (ok rs, cache_hit ce)
    | none ↦
        elim (if_merged (is_pr_merged db number) (stored db (λ d. d.db_reviews_for_pr number))) [
          | some rs ↦ (ok rs, db_hit (keep_reviews number rs ce))
          | none ↦ fetch_reviews number ce
        ]
  ]

  abbrev pub count_check_runs : CachingEnricher → CachingEnricher
  count_check_runs = on_stats (λ s. record s { check_runs = s.check_runs + 1 })

  abbrev pub keep_runs : Text → List CheckRun → CachingEnricher → CachingEnricher
  keep_runs ref rs ce = record ce { check_run_cache = (ref, rs) ∷ ce.check_run_cache }

  -- The check runs from the client, with the statuses where a required check is missing.
  unfoldable pub fetch_check_runs :
      Text → CachingEnricher → Outcome (List CheckRun) × CachingEnricher
  unfolding missing_required_check
  fetch_check_runs ref ce = elim (client.list_check_runs_for_ref ref) [
    | failed ↦ (failed, count_check_runs ce)
    | ok runs ↦ elim (missing_required_check ce.required_check_names runs) [
      | false ↦ (ok runs, keep_runs ref runs (count_check_runs ce))
      | true ↦ elim (client.list_status_contexts ref) [
        | failed ↦ (failed, count_check_runs (count_check_runs ce))
        | ok statuses ↦ (
          ok (runs ++ statuses),
          keep_runs ref (runs ++ statuses) (count_check_runs (count_check_runs ce)),
        )
      ]
    ]
  ]

  abbrev pub if_completed : Option (List CheckRun) → Option (List CheckRun)
  if_completed none = none
  if_completed (some runs) = if all_check_runs_completed runs then some runs else none

  -- getCheckRuns
  unfoldable pub get_check_runs :
      Text → ℕ → CachingEnricher → Outcome (List CheckRun) × CachingEnricher
  unfolding is_pr_merged fetch_check_runs
  get_check_runs ref number ce = elim (find ref ce.check_run_cache) [
    | some runs ↦ (ok runs, cache_hit ce)
    | none ↦
        elim (if_completed
          (if_merged (is_pr_merged db number) (stored db (λ d. d.db_check_runs_for_commit ref)))) [
            | some runs ↦ (ok runs, db_hit (keep_runs ref runs ce))
            | none ↦ fetch_check_runs ref ce
          ]
  ]

  abbrev pub keep_commits : ℕ → List Commit → CachingEnricher → CachingEnricher
  keep_commits number cs ce = record ce { pr_commit_cache = (number, cs) ∷ ce.pr_commit_cache }

  -- getPRCommits
  unfoldable pub get_pr_commits : ℕ → CachingEnricher → Outcome (List Commit) × CachingEnricher
  unfolding is_pr_merged
  get_pr_commits number ce = elim (find number ce.pr_commit_cache) [
    | some cs ↦ (ok cs, cache_hit ce)
    | none ↦
        elim (if_merged (is_pr_merged db number) (stored db (λ d. d.db_commits_for_pr number))) [
          | some cs ↦ (ok cs, db_hit (keep_commits number cs ce))
          | none ↦
              let ce' = on_stats (λ s. record s { pr_commits = s.pr_commits + 1 }) ce in
              elim (client.list_pr_commits number) [
                | failed ↦ (failed, ce')
                | ok cs ↦ (ok cs, keep_commits number cs ce')
              ]
        ]
  ]
