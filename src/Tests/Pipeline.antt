-- ===== src/Tests/Pipeline.antt =====
-- The theorems on the sync at concrete inputs.
use gh_audit.Prelude.{
  ◌+◌, ◌≡◌, refl, sym, ap, ◌∙◌, ◌⊎◌, inl, true, false, none, some, [], ◌∷◌, Memᴰ, nat_eq, text_beq,
  text_eq, ok, failed,
}
use mathlib.Core.List.{flat_map}
use gh_audit.Text.{Text, text}
use gh_audit.Model.{Commit}
use gh_audit.Store.Table.{columns_eq, ◌&◌, row_at}
use gh_audit.Store.Table.Present.{IsThere}
use gh_audit.Store.Rows.{
  Store, RepoInfo, SyncCursor, commit_key, audit_key, review_key, check_run_key,
}
use gh_audit.Store.Commits.{commit_row}
use gh_audit.Store.Prs.{is_submitted}
use gh_audit.Github.Caching.{is_pr_merged}
use gh_audit.Pipeline.Batch.{write_enrichment_batch, enrichment_cache}
use gh_audit.Pipeline.Batch.Landed.{IsConsistent, Landed}
use gh_audit.Pipeline.Batch.Crash.{write_enrichment_batch-Landed}
use gh_audit.Pipeline.Fetch.{SyncConfig, GithubSource, Fetched, unavailable}
use gh_audit.Pipeline.Branch.{Enricher, next_cursor, sync_repo_branch}
use gh_audit.Pipeline.Branch.Cursor.{Advances, kept_cursor, next_cursor-Advances}
use gh_audit.Pipeline.Branch.Drained.{sync_repo_branch-IsThere}
use gh_audit.Pipeline.Branch.Total.{Answering, sync_repo_branch-Ends}
use gh_audit.Pipeline.Sync.Total.{Ends}
use gh_audit.Tests.Samples.{some_commit, first_commit, bot_commit, some_enrichment}

abbrev acme : Text
acme = text "acme"

abbrev web : Text
web = text "web"

abbrev pub repo : RepoInfo
repo = record {
  org = acme;
  name = web;
  full_name = [];
  default_branch = text "main";
  archived = false;
}

abbrev pub config : SyncConfig
config = record {
  orgs = [];
  since = 0;
  until = 0;
  org_repos_cache_freshness = 0;
  initial_lookback_days = 0;
  exempt_authors = [];
  required_checks = [];
  review_scope = [];
  require_signing = false;
  tool_version = [];
  config_fingerprint = [];
}

-- GitHub lists one commit, and has no comparison.
abbrev pub source : GithubSource
source = record {
  list_org_repos = λ org. ok (repo ∷ []);
  get_repo = λ org name. ok repo;
  list_commits = λ org name branch since until. ok (some_commit ∷ []);
  get_branch_head = λ org name branch. failed;
  compare_commits = λ org name base head branch. unavailable;
}

abbrev pub enricher : Enricher
enricher = record { enrich_commits = λ org name shas s. ok (some_enrichment ∷ []) }

pub answering : Answering source enricher
answering = record {
  lists = λ org name branch since until. (some_commit ∷ [], refl);
  compares = λ org name base head branch e. cc e;
  enriches = λ org name shas s. (some_enrichment ∷ [], refl);
}

abbrev empty_store : Store
empty_store = record {
  sync_cursors = [];
  commits = [];
  co_authors = [];
  commit_prs = [];
  pull_requests = [];
  reviews = [];
  check_runs = [];
  audit_runs = [];
  commit_branches = [];
  history_rewrites = [];
  org_repos = [];
  audit_results = [];
}

-- A failed run left a commit behind.
abbrev pub backlog_store : Store
backlog_store = record empty_store { commits = commit_row 5 first_commit ∷ [] }

pub first-IsThere : IsThere commit_key (acme & web & text "a1") backlog_store.commits
unfolding row_at commit_row text_beq
first-IsThere e = cc

abbrev ended :
    Ends
      (sync_repo_branch config source enricher none 100 repo (text "main") (text "main" ∷ []))
      backlog_store
ended =
    (sync_repo_branch-Ends config source enricher none 100 repo answering (text "main")
      (text "main" ∷ []) (text "a1") backlog_store refl refl first-IsThere).0

sync_repo_branch-IsThere_example :
    IsThere audit_key (acme & web & text "a1") ended.left.audit_results
sync_repo_branch-IsThere_example =
    sync_repo_branch-IsThere config source enricher none 100 repo (text "main") (text "main" ∷ [])
      (text "a1") (0 + ended.cost) backlog_store ended.left (0, ended.value) refl refl
      (record { stored_or_fetched = inl first-IsThere }) (ended.ends 0)

abbrev cursor : SyncCursor
cursor = record {
  org = acme;
  repo = web;
  branch = text "main";
  last_date = 60;
  last_sha = text "c9";
  updated_at = 70;
}

abbrev window : Fetched
window = record { commits = some_commit ∷ []; head_sha = text "c0"; via = text "date-window" }

next_cursor-Advances_example :
    Advances config
      (some cursor)
      window
      (kept_cursor (next_cursor 100 config repo (text "main") (some cursor) window) (some cursor))
next_cursor-Advances_example =
    next_cursor-Advances 100 config repo (text "main") (some cursor) window

only : {A : Type 0} {x y : A} → Memᴰ x (y ∷ []) → x ≡ y
only (Memᴰ.head e) = e
only (Memᴰ.tail m) = elim m [ ]

of_acme : {c : Commit} → Memᴰ c (first_commit ∷ bot_commit ∷ []) → (c.org ≡ acme) × (c.repo ≡ web)
of_acme (Memᴰ.head e) = (ap (λ (c : Commit). c.org) e, ap (λ (c : Commit). c.repo) e)
of_acme (Memᴰ.tail (Memᴰ.head e)) = (ap (λ (c : Commit). c.org) e, ap (λ (c : Commit). c.repo) e)
of_acme (Memᴰ.tail (Memᴰ.tail m)) = elim m [ ]

consistent : IsConsistent acme web (some_enrichment ∷ [])
unfolding flat_map gh_audit.Github.Caching.find
consistent = record {
  reviews =
      λ r q m n e. (ap review_key (only n ∙ sym (only m)), ap is_submitted (only n ∙ sym (only m)));
  check_runs = λ c d m n e. ap check_run_key (only n ∙ sym (only m));
  commits = λ c m. of_acme m;
}

frozen :
    is_pr_merged
      (some (
        enrichment_cache acme web
          (write_enrichment_batch 9 100 acme web (some_enrichment ∷ []) empty_store).0))
      7
    ≡ true
unfolding is_pr_merged enrichment_cache gh_audit.Store.Prs.get_pull_request row_at
    write_enrichment_batch gh_audit.Pipeline.Batch.all_branch_links flat_map
    gh_audit.Github.Caching.find text_beq gh_audit.Store.Prs.upsert_pull_requests
    gh_audit.Store.Table.bulk_upsert gh_audit.Pipeline.Batch.all_prs
    gh_audit.Store.Prs.upsert_commit_pr_links gh_audit.Store.Commits.upsert_commit_branches
    gh_audit.Store.Commits.upsert_co_authors gh_audit.Store.Commits.insert_commits_if_absent
    gh_audit.Store.Prs.upsert_check_runs gh_audit.Store.Prs.upsert_reviews
    gh_audit.Pipeline.Batch.all_branch_commits gh_audit.Pipeline.Batch.all_check_runs
    gh_audit.Pipeline.Batch.all_links gh_audit.Pipeline.Batch.all_reviews
    gh_audit.Pipeline.Batch.batch_statements gh_audit.Pipeline.Batch.branch_statements
    gh_audit.Pipeline.Batch.gather gh_audit.Pipeline.Batch.perform gh_audit.Pipeline.Batch.pr_links
    gh_audit.Pipeline.Batch.stats_statements gh_audit.Pipeline.Batch.sub_row_statements
    gh_audit.Store.Commits.co_author_rows commit_row gh_audit.Store.Commits.update_commit_stats
    gh_audit.Store.Commits.update_where gh_audit.Store.Prs.preserve_pr_detail
    gh_audit.Store.Table.bulk_insert_if_absent gh_audit.Store.Table.is_absent
    gh_audit.Store.Table.last_wins gh_audit.Store.Table.put_row gh_audit.Store.Table.put_rows
    gh_audit.Text.join
frozen = refl

write_enrichment_batch-Landed_example :
    (is_pr_merged (some (enrichment_cache acme web empty_store)) 7 ≡ true)
    ⊎ Landed acme web
        (some_enrichment ∷ [])
        (write_enrichment_batch 9 100 acme web (some_enrichment ∷ []) empty_store).0
write_enrichment_batch-Landed_example =
    write_enrichment_batch-Landed 100 acme web (some_enrichment ∷ []) 9 empty_store 7 consistent
      frozen
