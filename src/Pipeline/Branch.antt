-- ===== src/Pipeline/Branch.antt =====
-- syncRepoBranch of internal/sync/pipeline.go: the sync of one branch of a repository. The branches
-- of a repository and the batches of an enrichment run one after another here.
pub mod Cursor
pub mod Batches
pub mod Audited
pub mod Growth
pub mod Stored
pub mod Drained
pub mod Total
use gh_audit.Prelude.{
  ℕ, zero, suc, ◌+◌, ◌/◌, Bool, true, false, not, ◌&&◌, ◌||◌, Option, none, some, List, [], ◌∷◌,
  ◌++◌, map, arith, ltb, if◌then◌else◌, ◌==◌, nat_eq, text_eq, ◌/=◌, length, take, drop, Outcome,
}
use gh_audit.Text.{Text}
use gh_audit.Model.{Time, Commit, AuditResult, EnrichmentResult, is_zero, after}
use gh_audit.Audit.Types.{StatsFetcher}
use gh_audit.Audit.Pr.{Rules}
use gh_audit.Audit.Evaluate.{evaluate_commit}
use gh_audit.Store.Rows.{Store, SyncCursor, RepoInfo}
use gh_audit.Store.Commits.{
  upsert_commits, upsert_co_authors, upsert_commit_branches, get_unaudited_commits,
}
use gh_audit.Store.Audits.{upsert_audit_results, get_sync_cursor, upsert_sync_cursor}
use gh_audit.Pipeline.Batch.{write_enrichment_batch}
use gh_audit.Pipeline.Sync.{Sync, ◌>>=◌, ◌>>◌, pure, read, ask, write, counted}
use gh_audit.Pipeline.Fetch.{
  SyncConfig, GithubSource, Fetched, landing_scoped, fetch_branch_commits,
}

-- Enricher, which also reads the tables.
pub record Enricher : Type 0 where
  pub enrich_commits : Text → Text → List Text → Store → Outcome (List EnrichmentResult)

-- enrichBatchSize
abbrev pub enrich_batch_size : ℕ
enrich_batch_size = 25

-- The slices of the loop in enrichInParallel.
unfoldable pub batches_of : ℕ → List Commit → List (List Commit)
batches_of fuel [] = []
batches_of zero (c ∷ cs) = []
batches_of (suc fuel) (c ∷ cs) =
    take enrich_batch_size (c ∷ cs) ∷ batches_of fuel (drop enrich_batch_size (c ∷ cs))

-- A commit without a field set, and the zero value that a map gives for a missing key.
abbrev pub zero_commit : Commit
zero_commit = record {
  org = [];
  repo = [];
  sha = [];
  author_login = [];
  author_id = 0;
  author_email = [];
  committer_login = [];
  committer_id = 0;
  co_authors = [];
  committed_at = 0;
  message = [];
  is_verified = false;
  parent_count = 0;
  additions = 0;
  deletions = 0;
  files_changed = 0;
  stats_verified = false;
  parent_shas = [];
  branch = [];
  href = [];
}

abbrev pub zero_enrichment : EnrichmentResult
zero_enrichment = record {
  commit = zero_commit;
  prs = [];
  reviews = [];
  check_runs = [];
  pr_branch_commits = [];
  is_clean_revert = false;
  revert_verification = [];
  reverted_sha = [];
  is_clean_merge = false;
  merge_verification = [];
}

-- enrichmentMap[sha]: the last result of the commit.
unfoldable pub enrichment_of : EnrichmentResult → Text → List EnrichmentResult → EnrichmentResult
enrichment_of found sha [] = found
enrichment_of found sha (e ∷ es) = enrichment_of (if e.commit.sha == sha then e else found) sha es

abbrev pub enriched_commit : Commit → EnrichmentResult → Commit
enriched_commit c e =
    if ltb 0 e.commit.additions || ltb 0 e.commit.deletions
    then record c { additions = e.commit.additions; deletions = e.commit.deletions }
    else c

abbrev pub rules_of : SyncConfig → StatsFetcher → List Text → Rules
rules_of config fetch_stats audited_branches = record {
  required_checks = config.required_checks;
  fetch_stats = fetch_stats;
  exempt_authors = config.exempt_authors;
  audited_branches = if landing_scoped config then audited_branches else [];
  require_signing = config.require_signing;
}

-- What the audit loop does for one commit, at the time `now`.
unfoldable pub audit_commit : Time → Rules → List EnrichmentResult → Commit → AuditResult
unfolding enrichment_of
audit_commit now rules es c =
    let e = enrichment_of zero_enrichment c.sha es in
    record (evaluate_commit (enriched_commit c e) e rules) { audited_at = now }

-- The newest date of the commits, and of the cursor where that is later.
unfoldable pub newest : Time → List Commit → Time
newest latest [] = latest
newest latest (c ∷ cs) = newest (if after c.committed_at latest then c.committed_at else latest) cs

abbrev pub or_cursor_date : Option SyncCursor → Time → Time
or_cursor_date none latest = latest
or_cursor_date (some cursor) latest =
    if after cursor.last_date latest then cursor.last_date else latest

abbrev pub cursor_sha : Option SyncCursor → Text
cursor_sha none = []
cursor_sha (some cursor) = cursor.last_sha

abbrev pub is_moved : Option SyncCursor → Time → Text → Bool
is_moved none date sha = true
is_moved (some cursor) date sha = sha /= cursor.last_sha || date /= cursor.last_date

-- The cursor that a sync writes, if any.
unfoldable pub next_cursor :
    Time → SyncConfig → RepoInfo → Text → Option SyncCursor → Fetched → Option SyncCursor
unfolding newest
next_cursor now config repo branch cursor fetched =
    let date = or_cursor_date cursor (newest 0 fetched.commits) in
    let sha =
      if not (is_zero config.until) || fetched.head_sha == []
      then cursor_sha cursor
      else fetched.head_sha in
    if (sha /= [] || not (is_zero date)) && is_moved cursor date sha
    then some (record {
      org = repo.org;
      repo = repo.name;
      branch = branch;
      last_date = date;
      last_sha = sha;
      updated_at = now;
    })
    else none

abbrev pub write_cursor : Time → Option SyncCursor → Sync (Unit {0})
write_cursor now none = pure tt
write_cursor now (some cursor) = write (upsert_sync_cursor now cursor ∷ [])

abbrev pub shas_of : List Commit → List Text
shas_of commits = map (λ (c : Commit). c.sha) commits

module _ (config : SyncConfig) (source : GithubSource) (enricher : Enricher)
    (fetch_stats : StatsFetcher) (now : Time) (repo : RepoInfo) where
  abbrev pub write_batch : List EnrichmentResult → Sync (Unit {0})
  write_batch es reach s = counted (write_enrichment_batch reach now repo.org repo.name es s)

  -- The work on one slice.
  unfoldable pub enrich_batch : List Commit → Sync (List EnrichmentResult)
  unfolding write_enrichment_batch
  enrich_batch batch = do
    enriched ← read (enricher.enrich_commits repo.org repo.name (shas_of batch))
    es ← ask enriched
    write_batch es
    pure es

  unfoldable pub enrich_batches : List (List Commit) → Sync (List EnrichmentResult)
  unfolding enrich_batch
  enrich_batches [] = pure []
  enrich_batches (batch ∷ batches) = do
    es ← enrich_batch batch
    rest ← enrich_batches batches
    pure (es ++ rest)

  -- enrichInParallel
  unfoldable pub enrich_in_parallel : List Commit → Sync (List EnrichmentResult)
  unfolding enrich_batches batches_of
  enrich_in_parallel unaudited = enrich_batches (batches_of (length unaudited) unaudited)

  -- The writes of what was fetched.
  unfoldable pub write_commits : Text → List Commit → Sync (Unit {0})
  write_commits branch commits = if length commits == 0 then pure tt else do
    write (upsert_commits now commits ∷ upsert_co_authors commits ∷ [])
    write (upsert_commit_branches repo.org repo.name (shas_of commits) branch ∷ [])

  -- The enrichment and the audit of what has no verdict.
  unfoldable pub audit_backlog : List Text → Sync (List AuditResult)
  unfolding enrich_in_parallel audit_commit
  audit_backlog audited_branches = do
    unaudited ← read (get_unaudited_commits repo.org repo.name config.since config.until)
    es ← enrich_in_parallel unaudited
    let results = map (audit_commit now (rules_of config fetch_stats audited_branches) es) unaudited
    write (upsert_audit_results results ∷ [])
    pure results

  -- syncRepoBranch
  unfoldable pub sync_repo_branch : Text → List Text → Sync (List AuditResult)
  unfolding write_commits audit_backlog next_cursor
  sync_repo_branch branch audited_branches = do
    cursor ← read (get_sync_cursor repo.org repo.name branch)
    fetched ← fetch_branch_commits config source now repo branch cursor
    write_commits branch fetched.commits
    results ← audit_backlog audited_branches
    write_cursor now (next_cursor now config repo branch cursor fetched)
    pure results
