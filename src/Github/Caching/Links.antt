-- ===== src/Github/Caching/Links.antt =====
-- The pull requests of a commit: getPRsForCommit and recoverPRFromMergeMessage of caching.go.
use gh_audit.Prelude.{
  ℕ, ◌+◌, not, ◌||◌, Option, none, some, List, [], ◌∷◌, if◌then◌else◌, nat_eq, text_eq, ◌/=◌,
  Outcome, ok, failed,
}
use gh_audit.Text.{Text}
use gh_audit.Model.{PullRequest}
use gh_audit.Github.Merge.{parse_pr_reference}
use gh_audit.Github.Caching.{
  Cache, Client, EnrichmentCache, CachingEnricher, find, on_stats, cache_hit, db_hit, stored,
  or_no_numbers,
}
use gh_audit.Github.Caching.Fetch.{get_commit, get_pr}

module _ (client : Client) (db : Option EnrichmentCache) where
  -- recoverPRFromMergeMessage
  unfoldable pub recover_pr_from_merge_message :
      Text → CachingEnricher → Option PullRequest × CachingEnricher
  unfolding get_commit get_pr
  recover_pr_from_merge_message sha ce =
      let (commit, ce') = get_commit client db sha ce in
      elim commit [
        | failed ↦ (none, ce')
        | ok c ↦ elim (parse_pr_reference c.message) [
          | none ↦ (none, ce')
          | some number ↦
              let (found, ce'') = get_pr client db number ce' in
              elim found [
                | failed ↦ (none, ce'')
                | ok pr ↦
                    (if not pr.merged || pr.merge_commit_sha /= sha then none else some pr, ce'')
              ]
        ]
      ]

  -- The cached pull requests whose merge commit is on record as this one.
  unfoldable pub indexed : Cache ℕ PullRequest → List ℕ → List PullRequest
  unfolding find
  indexed cache [] = []
  indexed cache (n ∷ ns) =
      let rest = indexed cache ns in elim (find n cache) [ none ↦ rest | some pr ↦ pr ∷ rest ]

  abbrev pub keep_prs : Text → List PullRequest → CachingEnricher → CachingEnricher
  keep_prs sha prs ce = record ce { commit_pr_cache = (sha, prs) ∷ ce.commit_pr_cache }

  abbrev pub count_recovered : CachingEnricher → CachingEnricher
  count_recovered = on_stats (λ s. record s { pr_recovered = s.pr_recovered + 1 })

  abbrev pub with_recovered :
      Text → Option PullRequest × CachingEnricher → Outcome (List PullRequest) × CachingEnricher
  with_recovered sha (none, ce) = (ok [], keep_prs sha [] ce)
  with_recovered sha (some pr, ce) = (ok (pr ∷ []), keep_prs sha (pr ∷ []) (count_recovered ce))

  -- The pull requests from the client, or the one that the message names.
  unfoldable pub fetch_prs : Text → CachingEnricher → Outcome (List PullRequest) × CachingEnricher
  unfolding recover_pr_from_merge_message
  fetch_prs sha ce = elim (client.list_commit_pull_requests sha) [
    | failed ↦ (failed, ce)
    | ok [] ↦ with_recovered sha (recover_pr_from_merge_message sha ce)
    | ok (pr ∷ prs) ↦ (ok (pr ∷ prs), keep_prs sha (pr ∷ prs) ce)
  ]

  -- getPRsForCommit
  unfoldable pub get_prs_for_commit :
      Text → CachingEnricher → Outcome (List PullRequest) × CachingEnricher
  unfolding indexed fetch_prs
  get_prs_for_commit sha ce = elim (find sha ce.commit_pr_cache) [
    | some prs ↦ (ok prs, cache_hit ce)
    | none ↦ elim (indexed ce.pr_cache (or_no_numbers (find sha ce.merge_commit_idx))) [
      | pr ∷ prs ↦ (ok (pr ∷ prs), cache_hit (keep_prs sha (pr ∷ prs) ce))
      | [] ↦ elim (stored db (λ d. d.db_prs_for_commit sha)) [
        | some (pr ∷ prs) ↦ (ok (pr ∷ prs), db_hit (keep_prs sha (pr ∷ prs) ce))
        | _ ↦ fetch_prs sha (on_stats (λ s. record s { commit_prs = s.commit_prs + 1 }) ce)
      ]
    ]
  ]
