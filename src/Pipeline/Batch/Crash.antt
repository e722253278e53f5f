-- ===== src/Pipeline/Batch/Crash.antt =====
-- Wherever a batch stops, a pull request is stored only when all that belongs to it is.
use gh_audit.Prelude.{
  ◌-◌, ◌≢◌, ℕ, zero, suc, ◌≤◌, ◌≡◌, refl, sym, ap, ◌∙◌, subst, ◌⊎◌, inl, inr, true, some, List, [],
  ◌∷◌, ◌++◌, arith, nat_eq, text_eq, length,
}
use gh_audit.Text.{Text}
use gh_audit.Model.{Time, EnrichmentResult}
use gh_audit.Github.Caching.{is_pr_merged}
use gh_audit.Store.Rows.{Store}
use gh_audit.Store.Commits.{insert_commits_if_absent, upsert_co_authors}
use gh_audit.Store.Prs.{
  upsert_reviews, upsert_check_runs, upsert_commit_pr_links, upsert_pull_requests, get_pull_request,
}
use gh_audit.Pipeline.Batch.{
  none, batch_statements, Statement, all_prs, all_reviews, all_check_runs, all_branch_commits,
  all_branch_links, pr_links, stats_statements, branch_statements, sub_row_statements, perform,
  write_enrichment_batch, enrichment_cache,
}
use gh_audit.Pipeline.Batch.Growth.{
  Grows, Grows-refl, Grows-trans, AllGrow, append-AllGrow, upsert_reviews-Grows,
  upsert_check_runs-Grows, insert_commits_if_absent-Grows, upsert_co_authors-Grows,
  upsert_commit_pr_links-Grows, stats_statements-AllGrow, branch_statements-AllGrow,
}
use gh_audit.Pipeline.Batch.Landed.{
  IsConsistent, Landed, reviews_in, check_runs_in, commits_in, branch_links_in, links_in,
}

-- All the statements, one after another.
unfoldable pub run_all : List Statement → Store → Store
run_all [] s = s
run_all (w ∷ ws) s = run_all ws (w s)

run_all-append :
    (ws vs : List Statement) (s : Store) → run_all (ws ++ vs) s ≡ run_all vs (run_all ws s)
unfolding run_all
run_all-append [] vs s = refl
run_all-append (w ∷ ws) vs s = run_all-append ws vs (w s)

run_all-Grows : (ws : List Statement) (s : Store) → AllGrow ws → Grows s (run_all ws s)
unfolding run_all
run_all-Grows [] s h = Grows-refl s
run_all-Grows (w ∷ ws) s h = Grows-trans (h.0 s) (run_all-Grows ws (w s) h.1)

-- Either the last statement was not reached, or all were.
perform-last :
    (reach : ℕ) (ws : List Statement) (w : Statement) (s : Store)
    → AllGrow ws
    → Grows s (perform reach (ws ++ w ∷ []) s).0
      ⊎ ((perform reach (ws ++ w ∷ []) s).0 ≡ w (run_all ws s))
unfolding perform run_all
perform-last zero [] w s h = inl (Grows-refl s)
perform-last (suc reach) [] w s h = inr refl
perform-last zero (v ∷ ws) w s h = inl (Grows-refl s)
perform-last (suc reach) (v ∷ ws) w s h = elim (perform-last reach ws w (v s) h.1) [
  | inl before ↦ inl (Grows-trans (h.0 s) before)
  | inr after ↦ inr after
]

perform_enough :
    (reach : ℕ) (ws : List Statement) (s : Store)
    → length ws ≤ reach
    → perform reach ws s ≡ (run_all ws s, some (reach - length ws))
unfolding perform run_all
perform_enough reach [] s h = ap (λ n. (s, some n)) (omega arith)
perform_enough zero (w ∷ ws) s h = absurd (omega arith)
perform_enough (suc reach) (w ∷ ws) s h =
    perform_enough reach ws (w s) (omega arith) ∙ ap (λ n. (run_all ws (w s), some n)) (omega arith)

some_ne : {A : Type 0} {a : A} → some a ≢ none
some_ne e = cc

module _ (now : Time) (org repo : Text) (es : List EnrichmentResult) where
  pub sub_row_statements-AllGrow : AllGrow (sub_row_statements now org repo es)
  unfolding sub_row_statements
  sub_row_statements-AllGrow =
      append-AllGrow (stats_statements es) _ (stats_statements-AllGrow es) (
        upsert_reviews-Grows (all_reviews es),
        (
          upsert_check_runs-Grows (all_check_runs es),
          (
            insert_commits_if_absent-Grows now (all_branch_commits es),
            (
              upsert_co_authors-Grows (all_branch_commits es),
              (append-AllGrow (branch_statements org repo (all_branch_links es)) _
                  (branch_statements-AllGrow org repo (all_branch_links es))
                  (upsert_commit_pr_links-Grows org repo (pr_links es), tt)),
            ),
          ),
        ),
      )

  -- The states between the statements.
  abbrev with_reviews : Store → Store
  with_reviews s = upsert_reviews (all_reviews es) (run_all (stats_statements es) s)

  abbrev with_check_runs : Store → Store
  with_check_runs s = upsert_check_runs (all_check_runs es) (with_reviews s)

  abbrev with_commits : Store → Store
  with_commits s = insert_commits_if_absent now (all_branch_commits es) (with_check_runs s)

  abbrev with_branches : Store → Store
  with_branches s =
      run_all (branch_statements org repo (all_branch_links es))
        (upsert_co_authors (all_branch_commits es) (with_commits s))

  abbrev with_links : Store → Store
  with_links s = upsert_commit_pr_links org repo (pr_links es) (with_branches s)

  run_all-with_links : (s : Store) → run_all (sub_row_statements now org repo es) s ≡ with_links s
  unfolding sub_row_statements run_all
  run_all-with_links s =
      run_all-append (stats_statements es) _ s
      ∙ run_all-append (branch_statements org repo (all_branch_links es)) _ _

  after_commits : (s : Store) → Grows (with_commits s) (with_links s)
  after_commits s = Grows-trans (upsert_co_authors-Grows (all_branch_commits es) _) (
      Grows-trans
        (run_all-Grows (branch_statements org repo (all_branch_links es)) _
          (branch_statements-AllGrow org repo (all_branch_links es)))
        (upsert_commit_pr_links-Grows org repo (pr_links es) _))

  after_check_runs : (s : Store) → Grows (with_check_runs s) (with_links s)
  after_check_runs s =
      Grows-trans (insert_commits_if_absent-Grows now (all_branch_commits es) _) (after_commits s)

  after_reviews : (s : Store) → Grows (with_reviews s) (with_links s)
  after_reviews s = Grows-trans (upsert_check_runs-Grows (all_check_runs es) _) (after_check_runs s)

  all-Landed :
      IsConsistent org repo es
      → (s : Store) → Landed org repo es (run_all (sub_row_statements now org repo es) s)
  all-Landed consistent s = subst (Landed org repo es) (sym (run_all-with_links s)) (record {
    reviews =
        λ e r m n p. (after_reviews s).reviews r (reviews_in org repo es consistent e r _ m n p);
    check_runs = λ e c m n.
        (after_check_runs s).check_runs c (check_runs_in org repo es consistent e c _ m n);
    commits = λ e pr c m n o.
        (after_commits s).commits _ (commits_in org repo es consistent now e pr c _ m n o);
    branch_links = λ e pr c m n o. branch_links_in org repo es consistent e pr c _ m n o;
    links = λ e pr m n. links_in org repo es consistent e pr _ m n;
  })

  upsert_pull_requests-Landed :
      (s : Store) → Landed org repo es s → Landed org repo es (upsert_pull_requests (all_prs es) s)
  unfolding upsert_pull_requests
  upsert_pull_requests-Landed s h = record {
    reviews = h.reviews;
    check_runs = h.check_runs;
    commits = h.commits;
    branch_links = h.branch_links;
    links = h.links;
  }

  -- Wherever the batch stops, the pull requests are those that were stored, or all it brings landed.
  prs_last :
      (reach : ℕ) (s : Store)
      → IsConsistent org repo es
      → ((write_enrichment_batch reach now org repo es s).0.pull_requests ≡ s.pull_requests)
        ⊎ Landed org repo es (write_enrichment_batch reach now org repo es s).0
  unfolding write_enrichment_batch
  prs_last reach s consistent =
      elim (perform-last reach (sub_row_statements now org repo es)
        (upsert_pull_requests (all_prs es)) s sub_row_statements-AllGrow) [
          | inl before ↦ inl before.pull_requests
          | inr after ↦ inr (
              subst (Landed org repo es) (sym after)
                (upsert_pull_requests-Landed _ (all-Landed consistent s)))
        ]

  frozen_of_same :
      (s t : Store) (n : ℕ)
      → t.pull_requests ≡ s.pull_requests
      → is_pr_merged (some (enrichment_cache org repo t)) n
        ≡ is_pr_merged (some (enrichment_cache org repo s)) n
  unfolding enrichment_cache is_pr_merged get_pull_request
  frozen_of_same s t n e = rw e refl

  -- Wherever a batch stops, by an error or by the death of the process, a pull request that the
  -- enricher then takes from the store as merged, and whose reviews, check runs and commits it no
  -- longer fetches, was so before the batch, or all that the batch brings has landed: its submitted
  -- reviews, check runs, branch commits and links. The ids are taken to be unique, as GitHub
  -- documents.
  pub write_enrichment_batch-Landed :
      (reach : ℕ) (s : Store) (n : ℕ)
      → IsConsistent org repo es
      → let t = (write_enrichment_batch reach now org repo es s).0 in
        is_pr_merged (some (enrichment_cache org repo t)) n ≡ true
        → (is_pr_merged (some (enrichment_cache org repo s)) n ≡ true) ⊎ Landed org repo es t
  write_enrichment_batch-Landed reach s n consistent frozen = elim (prs_last reach s consistent) [
    | inl same ↦ inl (sym (frozen_of_same s _ n same) ∙ frozen)
    | inr landed ↦ inr landed
  ]

  -- A batch whose every statement takes effect ends without an error, and all it brings has landed.
  write_enrichment_batch_total :
      (reach : ℕ) (s : Store)
      → IsConsistent org repo es
      → length (batch_statements now org repo es) ≤ reach
      → ((write_enrichment_batch reach now org repo es s).1 ≢ none)
        × Landed org repo es (write_enrichment_batch reach now org repo es s).0
  unfolding write_enrichment_batch run_all batch_statements
  write_enrichment_batch_total reach s consistent enough =
      let done = perform_enough reach _ s enough in
      let last =
        run_all-append (sub_row_statements now org repo es) (upsert_pull_requests (all_prs es) ∷ [])
          s in
      (
        λ e. absurd (some_ne (sym (ap (λ x. x.1) done) ∙ e)),
        subst (Landed org repo es) (sym (ap (λ x. x.0) done ∙ last))
            (upsert_pull_requests-Landed _ (all-Landed consistent s)),
      )
