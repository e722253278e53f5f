-- ===== src/Pipeline/Branch/Growth.antt =====
-- No part of a sync removes a stored commit or a verdict, whether it ends or fails: the relation, the
-- statements, and the fetch and its writes.
pub mod Whole
use gh_audit.Prelude.{
  ◌≡◌, refl, sym, subst, Option, none, some, List, [], ◌∷◌, map, arith, on_if, ◌==◌, nat_eq,
  text_eq, length, if◌then◌else◌, ◌&&◌, ◌/=◌, Outcome, ok, failed,
}
use gh_audit.Text.{Text, text}
use gh_audit.Model.{Time, Commit, AuditResult, EnrichmentResult, is_zero}
use gh_audit.Audit.Types.{StatsFetcher}
use gh_audit.History.{record_if_rewritten}
use gh_audit.Store.Table.{columns_eq, as_staged}
use gh_audit.Store.Table.Present.{IsThere, bulk_upsert-IsThere}
use gh_audit.Store.Rows.{Store, SyncCursor, RepoInfo, NameKey, commit_key, audit_key}
use gh_audit.Store.Commits.{
  commit_row, preserve_commit_detail, upsert_commits, upsert_co_authors, upsert_commit_branches,
}
use gh_audit.Store.Prs.{upsert_pull_requests}
use gh_audit.Store.Audits.{
  record_history_rewrite, audit_row, upsert_audit_results, upsert_sync_cursor,
}
use gh_audit.Pipeline.Batch.{Statement, all_prs}
use gh_audit.Pipeline.Batch.Growth.{
  Grows, AllGrow, upsert_co_authors-Grows, upsert_commit_branches-Grows,
}
use gh_audit.Pipeline.Sync.{◌>>=◌, ◌>>◌, pure, ask, write, try_write}
use gh_audit.Pipeline.Sync.Kept.{
  Lasting, Keeps, AllKeep, bind-Keeps, ask-Keeps, write-Keeps, try_write-Keeps,
}
use gh_audit.Pipeline.Fetch.{
  SyncConfig, GithubSource, fetch_branch_commits, Fetched, Comparison, compared, unavailable,
  refused, first_sha, since_for, fetch_window, fetch_compared, fetch_head,
}
use gh_audit.Pipeline.Branch.{Enricher, write_commits, shas_of}

pub record Lasts (s t : Store) : Type 0 where
  pub commits : (k : NameKey) → IsThere commit_key k s.commits → IsThere commit_key k t.commits
  pub verdicts :
      (k : NameKey) → IsThere audit_key k s.audit_results → IsThere audit_key k t.audit_results

pub Lasts-same :
    {s t : Store} → t.commits ≡ s.commits → t.audit_results ≡ s.audit_results → Lasts s t
Lasts-same c a = record {
  commits = λ k h. subst (IsThere commit_key k) (sym c) h;
  verdicts = λ k h. subst (IsThere audit_key k) (sym a) h;
}

abbrev pub lasting : Lasting
lasting = record {
  Kept = Lasts;
  same = λ s. Lasts-same refl refl;
  chain = λ s t u g h. record {
    commits = λ k there. h.commits k (g.commits k there);
    verdicts = λ k there. h.verdicts k (g.verdicts k there);
  };
}

Grows-Lasts : {s t : Store} → Grows s t → Lasts s t
Grows-Lasts g = record {
  commits = g.commits;
  verdicts = λ k h. subst (IsThere audit_key k) (sym g.audit_results) h;
}

pub AllGrow-Lasts : (ws : List Statement) → AllGrow ws → AllKeep lasting ws
AllGrow-Lasts [] h = tt
AllGrow-Lasts (w ∷ ws) h = (λ s. Grows-Lasts (h.0 s), AllGrow-Lasts ws h.1)

upsert_commits-Lasts :
    (now : Time) (cs : List Commit) (s : Store) → Lasts s (upsert_commits now cs s)
unfolding upsert_commits
upsert_commits-Lasts now cs s = record {
  commits = λ k h.
      bulk_upsert-IsThere commit_key preserve_commit_detail (map (commit_row now) cs) s.commits k h;
  verdicts = λ k h. h;
}

pub upsert_pull_requests-Lasts :
    (es : List EnrichmentResult) (s : Store) → Lasts s (upsert_pull_requests (all_prs es) s)
unfolding upsert_pull_requests
upsert_pull_requests-Lasts es s = Lasts-same refl refl

pub upsert_audit_results-Lasts :
    (results : List AuditResult) (s : Store) → Lasts s (upsert_audit_results results s)
unfolding upsert_audit_results
upsert_audit_results-Lasts results s = record {
  commits = λ k h. h;
  verdicts =
      λ k h. bulk_upsert-IsThere audit_key as_staged (map audit_row results) s.audit_results k h;
}

pub upsert_sync_cursor-Lasts :
    (now : Time) (c : SyncCursor) (s : Store) → Lasts s (upsert_sync_cursor now c s)
unfolding upsert_sync_cursor
upsert_sync_cursor-Lasts now c s = Lasts-same refl refl

module _ (config : SyncConfig) (source : GithubSource) (now : Time) (repo : RepoInfo) where
  fetch_window-Lasts :
      (branch : Text) (cursor : Option SyncCursor)
      → Keeps lasting (fetch_window config source now repo branch cursor)
  unfolding fetch_window
  fetch_window-Lasts branch cursor =
      bind-Keeps lasting
        (ask (
          source.list_commits repo.org repo.name branch (since_for config now cursor)
            (if is_zero config.until then now else config.until)))
        (λ commits.
          pure
            (record { commits = commits; head_sha = first_sha commits; via = text "date-window" }))
        (ask-Keeps lasting _) (λ commits reach s. lasting.same s)

  rewrite-Lasts :
      (branch prior head status : Text) (s : Store)
      → Lasts s (
          record_if_rewritten record_history_rewrite now repo.org repo.name branch prior head status
            s)
  unfolding record_if_rewritten record_history_rewrite
  rewrite-Lasts branch prior head status s = Lasts-same (ground arith) (ground arith)

  fetch_compared-Lasts :
      (branch : Text) (cursor : SyncCursor) (head : Text) (c : Comparison)
      → Keeps lasting (fetch_compared config source now repo branch cursor head c)
  unfolding fetch_compared
  fetch_compared-Lasts branch cursor head (compared commits status) =
      bind-Keeps lasting
        (try_write (
          record_if_rewritten record_history_rewrite now repo.org repo.name branch cursor.last_sha
            head status
          ∷ []))
        (λ done. pure (record { commits = commits; head_sha = head; via = text "graph" }))
        (try_write-Keeps lasting _ (rewrite-Lasts branch cursor.last_sha head status, tt))
        (λ done reach s. lasting.same s)
  fetch_compared-Lasts branch cursor head unavailable = fetch_window-Lasts branch (some cursor)
  fetch_compared-Lasts branch cursor head refused = λ reach s. lasting.same s

  fetch_head-Lasts :
      (branch : Text) (cursor : SyncCursor) (o : Outcome Text)
      → Keeps lasting (fetch_head config source now repo branch cursor o)
  unfolding fetch_head
  fetch_head-Lasts branch cursor failed = fetch_window-Lasts branch (some cursor)
  fetch_head-Lasts branch cursor (ok head) =
      on_if (Keeps lasting {A = Fetched}) (head == cursor.last_sha) (λ reach s. lasting.same s)
        (fetch_compared-Lasts branch cursor head _)

  pub fetch-Lasts :
      (branch : Text) (cursor : Option SyncCursor)
      → Keeps lasting (fetch_branch_commits config source now repo branch cursor)
  unfolding fetch_branch_commits
  fetch-Lasts branch none = fetch_window-Lasts branch none
  fetch-Lasts branch (some cursor) =
      on_if (Keeps lasting {A = Fetched})
        (is_zero config.since && is_zero config.until && cursor.last_sha /= [])
        (fetch_head-Lasts branch cursor (source.get_branch_head repo.org repo.name branch))
        (fetch_window-Lasts branch (some cursor))

  pub write_commits-Lasts :
      (enricher : Enricher) (fetch_stats : StatsFetcher) (branch : Text) (cs : List Commit)
      → Keeps lasting (write_commits config source enricher fetch_stats now repo branch cs)
  unfolding write_commits
  write_commits-Lasts enricher fetch_stats branch cs =
      on_if (Keeps lasting {A = Unit {0}}) (length cs == 0) (λ reach s. lasting.same s)
        (bind-Keeps lasting (write (upsert_commits now cs ∷ upsert_co_authors cs ∷ []))
          (λ done. write (upsert_commit_branches repo.org repo.name (shas_of cs) branch ∷ []))
          (write-Keeps lasting _
            (upsert_commits-Lasts now cs, ((λ s. Grows-Lasts (upsert_co_authors-Grows cs s)), tt)))
          (λ done. write-Keeps lasting _ (
            (λ s.
                Grows-Lasts
                  (upsert_commit_branches-Grows repo.org repo.name (shas_of cs) branch s)),
            tt,
          )))
