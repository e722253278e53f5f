-- ===== src/Pipeline/Branch/Growth/Whole.antt =====
-- The enrichment, the audit and the whole sync of a branch remove no stored commit and no verdict.
use gh_audit.Prelude.{Option, none, some, List, [], ◌∷◌, ◌++◌, map, nat_eq, text_eq, length}
use gh_audit.Text.{Text}
use gh_audit.Model.{Time, Commit, AuditResult, EnrichmentResult}
use gh_audit.Audit.Types.{StatsFetcher}
use gh_audit.Store.Table.{columns_eq}
use gh_audit.Store.Rows.{SyncCursor, RepoInfo}
use gh_audit.Store.Commits.{get_unaudited_commits}
use gh_audit.Store.Audits.{upsert_audit_results, get_sync_cursor}
use gh_audit.Pipeline.Batch.{sub_row_statements, batch_statements, write_enrichment_batch}
use gh_audit.Pipeline.Batch.Crash.{sub_row_statements-AllGrow}
use gh_audit.Pipeline.Sync.{◌>>=◌, ◌>>◌, pure, ask, write}
use gh_audit.Pipeline.Sync.Kept.{
  append-AllKeep, Keeps, bind-Keeps, ask-Keeps, write-Keeps, perform-Kept, counted-Keeps,
}
use gh_audit.Pipeline.Fetch.{SyncConfig, GithubSource, fetch_branch_commits}
use gh_audit.Pipeline.Branch.{
  Enricher, write_commits, sync_repo_branch, next_cursor, write_cursor, write_batch, enrich_batch,
  enrich_batches, enrich_in_parallel, batches_of, rules_of, shas_of, audit_commit, audit_backlog,
}
use gh_audit.Pipeline.Branch.Growth.{
  lasting, AllGrow-Lasts, upsert_pull_requests-Lasts, upsert_audit_results-Lasts,
  upsert_sync_cursor-Lasts, fetch-Lasts, write_commits-Lasts,
}

module _ (config : SyncConfig) (source : GithubSource) (enricher : Enricher)
    (fetch_stats : StatsFetcher) (now : Time) (repo : RepoInfo) where
  write_batch-Lasts :
      (es : List EnrichmentResult)
      → Keeps lasting (write_batch config source enricher fetch_stats now repo es)
  unfolding write_enrichment_batch batch_statements
  write_batch-Lasts es =
      counted-Keeps lasting (λ reach s. write_enrichment_batch reach now repo.org repo.name es s)
        (λ reach s. perform-Kept lasting (batch_statements now repo.org repo.name es) reach s (
          append-AllKeep lasting (sub_row_statements now repo.org repo.name es) _
            (AllGrow-Lasts _ (sub_row_statements-AllGrow now repo.org repo.name es))
            (upsert_pull_requests-Lasts es, tt)))

  enrich_batch-Lasts :
      (batch : List Commit)
      → Keeps lasting (enrich_batch config source enricher fetch_stats now repo batch)
  unfolding enrich_batch
  enrich_batch-Lasts batch reach s =
      bind-Keeps lasting (ask (enricher.enrich_commits repo.org repo.name (shas_of batch) s))
        (λ es. write_batch config source enricher fetch_stats now repo es >> pure es)
        (ask-Keeps lasting _)
        (λ es.
          bind-Keeps lasting (write_batch config source enricher fetch_stats now repo es)
            (λ done. pure es) (write_batch-Lasts es) (λ done r u. lasting.same u))
        reach s

  pub enrich_batches-Lasts :
      (batches : List (List Commit))
      → Keeps lasting (enrich_batches config source enricher fetch_stats now repo batches)
  unfolding enrich_batches
  enrich_batches-Lasts [] = λ reach s. lasting.same s
  enrich_batches-Lasts (batch ∷ batches) =
      bind-Keeps lasting (enrich_batch config source enricher fetch_stats now repo batch)
        (λ es. enrich_batches config source enricher fetch_stats now repo batches >>= λ rest.
          pure (es ++ rest))
        (enrich_batch-Lasts batch)
        (λ es.
          bind-Keeps lasting (enrich_batches config source enricher fetch_stats now repo batches)
            (λ rest. pure (es ++ rest)) (enrich_batches-Lasts batches)
            (λ rest reach s. lasting.same s))

  audit_backlog-Lasts :
      (audited_branches : List Text)
      → Keeps lasting (audit_backlog config source enricher fetch_stats now repo audited_branches)
  unfolding audit_backlog enrich_in_parallel
  audit_backlog-Lasts audited_branches reach s =
      let unaudited = get_unaudited_commits repo.org repo.name config.since config.until s in
      let results : List EnrichmentResult → List AuditResult =
        λ es. map (audit_commit now (rules_of config fetch_stats audited_branches) es) unaudited in
      bind-Keeps lasting
        (enrich_batches config source enricher fetch_stats now repo
          (batches_of (length unaudited) unaudited))
        (λ es. write (upsert_audit_results (results es) ∷ []) >> pure (results es))
        (enrich_batches-Lasts (batches_of (length unaudited) unaudited))
        (λ es.
          bind-Keeps lasting (write (upsert_audit_results (results es) ∷ []))
            (λ done. pure (results es))
            (write-Keeps lasting (upsert_audit_results (results es) ∷ [])
              (upsert_audit_results-Lasts (results es), tt))
            (λ done r u. lasting.same u))
        reach s

  write_cursor-Lasts : (cursor : Option SyncCursor) → Keeps lasting (write_cursor now cursor)
  write_cursor-Lasts none = λ reach s. lasting.same s
  write_cursor-Lasts (some c) = write-Keeps lasting _ (upsert_sync_cursor-Lasts now c, tt)

  pub sync_repo_branch-Lasts :
      (branch : Text) (audited_branches : List Text)
      → Keeps lasting
          (sync_repo_branch config source enricher fetch_stats now repo branch audited_branches)
  unfolding sync_repo_branch
  sync_repo_branch-Lasts branch audited_branches reach s =
      let cursor = get_sync_cursor repo.org repo.name branch s in
      let backlog = audit_backlog config source enricher fetch_stats now repo audited_branches in
      bind-Keeps lasting (fetch_branch_commits config source now repo branch cursor)
        (λ fetched.
          write_commits config source enricher fetch_stats now repo branch fetched.commits
          >> (backlog >>= λ results.
              write_cursor now (next_cursor now config repo branch cursor fetched) >> pure results))
        (fetch-Lasts config source now repo branch cursor)
        (λ fetched.
          bind-Keeps lasting
            (write_commits config source enricher fetch_stats now repo branch fetched.commits)
            (λ done. backlog >>= λ results.
              write_cursor now (next_cursor now config repo branch cursor fetched) >> pure results)
            (write_commits-Lasts config source now repo enricher fetch_stats branch fetched.commits)
            (λ done.
              bind-Keeps lasting backlog
                (λ results.
                  write_cursor now (next_cursor now config repo branch cursor fetched)
                  >> pure results)
                (audit_backlog-Lasts audited_branches)
                (λ results.
                  bind-Keeps lasting
                    (write_cursor now (next_cursor now config repo branch cursor fetched))
                    (λ done. pure results) (write_cursor-Lasts _) (λ done r u. lasting.same u))))
        reach s
