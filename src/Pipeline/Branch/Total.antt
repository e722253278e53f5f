-- ===== src/Pipeline/Branch/Total.antt =====
-- A sync whose calls are answered ends, and then nothing that was stored is without a verdict.
use gh_audit.Prelude.{
  map, on_if, ◌+◌, ◌≡◌, refl, ◌≢◌, inl, ◌&&◌, Option, none, some, List, [], ◌∷◌, ◌++◌,
  if◌then◌else◌, ◌==◌, nat_eq, text_eq, ◌/=◌, length, Outcome, ok, failed,
}
use gh_audit.Text.{Text, text}
use gh_audit.Model.{Time, Commit, AuditResult, EnrichmentResult, is_zero}
use gh_audit.Audit.Types.{StatsFetcher}
use gh_audit.History.{record_if_rewritten}
use gh_audit.Store.Table.{columns_eq, ◌&◌}
use gh_audit.Store.Table.Present.{IsThere}
use gh_audit.Store.Rows.{Store, SyncCursor, RepoInfo, commit_key, audit_key}
use gh_audit.Store.Commits.{
  upsert_commits, upsert_co_authors, upsert_commit_branches, get_unaudited_commits,
}
use gh_audit.Store.Audits.{
  upsert_audit_results, upsert_sync_cursor, get_sync_cursor, record_history_rewrite,
}
use gh_audit.Pipeline.Batch.{Statement, batch_statements, write_enrichment_batch}
use gh_audit.Pipeline.Sync.{Sync, ◌>>=◌, ◌>>◌, pure, ask, write, try_write}
use gh_audit.Pipeline.Sync.Total.{Ends, pure-Ends, bind-Ends, perform-Ends, try_write-Ends}
use gh_audit.Pipeline.Fetch.{
  SyncConfig, GithubSource, Fetched, Comparison, compared, unavailable, refused, first_sha,
  since_for, fetch_window, fetch_compared, fetch_head, fetch_branch_commits,
}
use gh_audit.Pipeline.Branch.{
  Enricher, rules_of, shas_of, write_batch, enrich_batch, enrich_batches, enrich_in_parallel,
  batches_of, audit_commit, write_commits, audit_backlog, next_cursor, write_cursor,
  sync_repo_branch,
}
use gh_audit.Pipeline.Branch.Drained.{sync_repo_branch-IsThere}

-- GitHub answers: the commits of a window are listed, a comparison is served or unavailable, and a
-- slice is enriched.
pub record Answering (source : GithubSource) (enricher : Enricher) : Type 0 where
  pub lists :
      (org repo branch : Text) (since until : Time)
      → (cs : List Commit) × (source.list_commits org repo branch since until ≡ ok cs)
  pub compares :
      (org repo base head branch : Text)
      → source.compare_commits org repo base head branch ≢ refused
  pub enriches :
      (org repo : Text) (shas : List Text) (s : Store)
      → (es : List EnrichmentResult) × (enricher.enrich_commits org repo shas s ≡ ok es)

pub ask-Ends : {A : Type 0} (o : Outcome A) (s : Store) → (a : A) × (o ≡ ok a) → Ends (ask o) s
ask-Ends failed s (a, e) = absurd (cc e)
ask-Ends (ok b) s (a, e) = pure-Ends b s

module _ (config : SyncConfig) (source : GithubSource) (enricher : Enricher)
    (fetch_stats : StatsFetcher) (now : Time) (repo : RepoInfo)
    (answering : Answering source enricher) where
  fetch_window-Ends :
      (branch : Text) (cursor : Option SyncCursor) (s : Store)
      → Ends (fetch_window config source now repo branch cursor) s
  unfolding fetch_window
  fetch_window-Ends branch cursor s =
      bind-Ends
        (ask (
          source.list_commits repo.org repo.name branch (since_for config now cursor)
            (if is_zero config.until then now else config.until)))
        (λ commits.
          pure
            (record { commits = commits; head_sha = first_sha commits; via = text "date-window" }))
        s (ask-Ends _ s (answering.lists repo.org repo.name branch _ _)) (pure-Ends _ _)

  fetch_compared-Ends :
      (branch : Text) (cursor : SyncCursor) (head : Text) (c : Comparison) (s : Store)
      → c ≢ refused
      → Ends (fetch_compared config source now repo branch cursor head c) s
  unfolding fetch_compared
  fetch_compared-Ends branch cursor head (compared commits status) s h =
      bind-Ends
        (try_write (
          record_if_rewritten record_history_rewrite now repo.org repo.name branch cursor.last_sha
            head status
          ∷ []))
        (λ done. pure (record { commits = commits; head_sha = head; via = text "graph" })) s
        (try_write-Ends _ s) (pure-Ends _ _)
  fetch_compared-Ends branch cursor head unavailable s h = fetch_window-Ends branch (some cursor) s
  fetch_compared-Ends branch cursor head refused s h = absurd (h refl)

  fetch_head-Ends :
      (branch : Text) (cursor : SyncCursor) (o : Outcome Text) (s : Store)
      → Ends (fetch_head config source now repo branch cursor o) s
  unfolding fetch_head
  fetch_head-Ends branch cursor failed s = fetch_window-Ends branch (some cursor) s
  fetch_head-Ends branch cursor (ok head) s =
      on_if (λ (m : Sync Fetched). Ends m s) (head == cursor.last_sha) (pure-Ends _ s)
        (fetch_compared-Ends branch cursor head _ s
          (answering.compares repo.org repo.name cursor.last_sha head branch))

  fetch-Ends :
      (branch : Text) (cursor : Option SyncCursor) (s : Store)
      → Ends (fetch_branch_commits config source now repo branch cursor) s
  unfolding fetch_branch_commits
  fetch-Ends branch none s = fetch_window-Ends branch none s
  fetch-Ends branch (some cursor) s =
      on_if (λ (m : Sync Fetched). Ends m s)
        (is_zero config.since && is_zero config.until && cursor.last_sha /= [])
        (fetch_head-Ends branch cursor (source.get_branch_head repo.org repo.name branch) s)
        (fetch_window-Ends branch (some cursor) s)

  write_commits-Ends :
      (branch : Text) (cs : List Commit) (s : Store)
      → Ends (write_commits config source enricher fetch_stats now repo branch cs) s
  unfolding write_commits
  write_commits-Ends branch cs s =
      on_if (λ (m : Sync (Unit {0})). Ends m s) (length cs == 0) (pure-Ends tt s)
        (bind-Ends (write (upsert_commits now cs ∷ upsert_co_authors cs ∷ []))
          (λ done. write (upsert_commit_branches repo.org repo.name (shas_of cs) branch ∷ [])) s
          (perform-Ends (upsert_commits now cs ∷ upsert_co_authors cs ∷ []) s)
          (perform-Ends (upsert_commit_branches repo.org repo.name (shas_of cs) branch ∷ []) _))

  batch-Ends :
      (o : Outcome (List EnrichmentResult)) (s : Store)
      → (es : List EnrichmentResult) × (o ≡ ok es)
      → Ends
          (ask o >>= λ es. write_batch config source enricher fetch_stats now repo es >> pure es)
          s
  unfolding write_enrichment_batch
  batch-Ends failed s (es, e) = absurd (cc e)
  batch-Ends (ok es) s answered =
      bind-Ends (write_batch config source enricher fetch_stats now repo es) (λ done. pure es) s
        (perform-Ends (batch_statements now repo.org repo.name es) s) (pure-Ends es _)

  enrich_batch-Ends :
      (batch : List Commit) (s : Store)
      → Ends (enrich_batch config source enricher fetch_stats now repo batch) s
  unfolding enrich_batch
  enrich_batch-Ends batch s =
      let o = enricher.enrich_commits repo.org repo.name (shas_of batch) s in
      let asked = batch-Ends o s (answering.enriches repo.org repo.name (shas_of batch) s) in
      record { cost = asked.cost; left = asked.left; value = asked.value; ends = asked.ends }

  enrich_batches-Ends :
      (batches : List (List Commit)) (s : Store)
      → Ends (enrich_batches config source enricher fetch_stats now repo batches) s
  unfolding enrich_batches
  enrich_batches-Ends [] s = pure-Ends [] s
  enrich_batches-Ends (batch ∷ batches) s =
      bind-Ends (enrich_batch config source enricher fetch_stats now repo batch)
        (λ es. enrich_batches config source enricher fetch_stats now repo batches >>= λ rest.
          pure (es ++ rest))
        s (enrich_batch-Ends batch s)
        (bind-Ends (enrich_batches config source enricher fetch_stats now repo batches)
          (λ rest. pure _) _ (enrich_batches-Ends batches _) (pure-Ends _ _))

  write_then-Ends :
      (w : Statement) (results : List AuditResult) (s : Store)
      → Ends (write (w ∷ []) >> pure results) s
  write_then-Ends w results s =
      bind-Ends (write (w ∷ [])) (λ done. pure results) s (perform-Ends (w ∷ []) s)
        (pure-Ends results _)

  audit_backlog-Ends :
      (audited_branches : List Text) (s : Store)
      → Ends (audit_backlog config source enricher fetch_stats now repo audited_branches) s
  unfolding audit_backlog enrich_in_parallel
  audit_backlog-Ends audited_branches s =
      let unaudited = get_unaudited_commits repo.org repo.name config.since config.until s in
      let batches = batches_of (length unaudited) unaudited in
      let rules = rules_of config fetch_stats audited_branches in
      let first = enrich_batches-Ends batches s in
      let results = map (audit_commit now rules first.value) unaudited in
      let audited =
        bind-Ends (enrich_batches config source enricher fetch_stats now repo batches)
          (λ es.
            write (upsert_audit_results (map (audit_commit now rules es) unaudited) ∷ [])
            >> pure (map (audit_commit now rules es) unaudited))
          s first (write_then-Ends (upsert_audit_results results) results first.left) in
      record {
        cost = audited.cost;
        left = audited.left;
        value = audited.value;
        ends = audited.ends;
      }

  write_cursor-Ends : (cursor : Option SyncCursor) (s : Store) → Ends (write_cursor now cursor) s
  write_cursor-Ends none s = pure-Ends tt s
  write_cursor-Ends (some cursor) s = perform-Ends (upsert_sync_cursor now cursor ∷ []) s

  pub sync-Ends :
      (branch : Text) (audited_branches : List Text) (s : Store)
      → Ends
          (sync_repo_branch config source enricher fetch_stats now repo branch audited_branches)
          s
  unfolding sync_repo_branch
  sync-Ends branch audited_branches s =
      let cursor = get_sync_cursor repo.org repo.name branch s in
      let backlog = audit_backlog config source enricher fetch_stats now repo audited_branches in
      let finish : Fetched → List AuditResult → Sync (List AuditResult) = λ fetched results.
        write_cursor now (next_cursor now config repo branch cursor fetched) >> pure results in
      let fetched = fetch-Ends branch cursor s in
      let stored = write_commits-Ends branch fetched.value.commits fetched.left in
      let audited = audit_backlog-Ends audited_branches stored.left in
      let next = next_cursor now config repo branch cursor fetched.value in
      let moved = write_cursor-Ends next audited.left in
      let ended =
        bind-Ends (write_cursor now next) (λ done. pure audited.value) audited.left moved
          (pure-Ends audited.value moved.left) in
      let judged = bind-Ends backlog (finish fetched.value) stored.left audited ended in
      let written =
        bind-Ends
          (write_commits config source enricher fetch_stats now repo branch fetched.value.commits)
          (λ done. backlog >>= finish fetched.value) fetched.left stored judged in
      let synced =
        bind-Ends (fetch_branch_commits config source now repo branch cursor)
          (λ fetched.
            write_commits config source enricher fetch_stats now repo branch fetched.commits
            >> (backlog >>= finish fetched))
          s fetched written in
      record { cost = synced.cost; left = synced.left; value = synced.value; ends = synced.ends }

  -- Where GitHub answers, a sync without bounds of dates ends, as soon as enough of its statements
  -- take effect, and every commit that was stored before it then has a verdict: no failed run leaves
  -- a backlog that the next good one does not clear.
  pub sync_repo_branch-Ends :
      (branch : Text) (audited_branches : List Text) (sha : Text) (s : Store)
      → config.since ≡ 0
      → config.until ≡ 0
      → IsThere commit_key (repo.org & repo.name & sha) s.commits
      → (e : Ends
          (sync_repo_branch config source enricher fetch_stats now repo branch audited_branches)
          s)
        × IsThere audit_key (repo.org & repo.name & sha) e.left.audit_results
  sync_repo_branch-Ends branch audited_branches sha s no_since no_until there =
      let e = sync-Ends branch audited_branches s in
      (
        e,
        sync_repo_branch-IsThere config source enricher fetch_stats now repo branch audited_branches
            sha (0 + e.cost) s e.left (0, e.value) no_since no_until
            (record { stored_or_fetched = inl there }) (e.ends 0),
      )
