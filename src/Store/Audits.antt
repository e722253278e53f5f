-- ===== src/Store/Audits.antt =====
-- internal/db/audit.go, cursor.go, history.go, auditrun.go and org_repos.go: verdicts, cursors, the
-- records of runs and rewrites, and the cache of an organisation's repositories.
use gh_audit.Prelude.{
  Bool, true, false, not, ◌&&◌, ◌||◌, Option, none, some, List, [], ◌∷◌, map, leb, if◌then◌else◌,
  ◌==◌, nat_eq, text_eq, any, select,
}
use gh_audit.Text.{Text}
use gh_audit.Model.{Time, AuditResult, is_zero, before}
use gh_audit.History.{HistoryRewrite}
use gh_audit.Store.Table.{columns_eq, ◌&◌, row_at, put_row, as_staged, bulk_upsert, order_by}
use gh_audit.Store.Rows.{
  Store, SyncCursor, AuditRun, CommitRow, cursor_key, commit_key, audit_key, rewrite_key,
}

-- The columns that UpsertAuditResults writes: the table has none for the forgeable exemption, and
-- stamps the time of the audit itself.
abbrev pub audit_row : AuditResult → AuditResult
audit_row r = record r { exemption_forgeable = false; audited_at = 0 }

-- UpsertAuditResults
unfoldable pub upsert_audit_results : List AuditResult → Store → Store
upsert_audit_results results s = record s {
  audit_results = bulk_upsert audit_key as_staged (map audit_row results) s.audit_results;
}

-- DeleteAuditResults
unfoldable pub delete_audit_results : Text → Text → Store → Store
delete_audit_results org repo s = record s {
  audit_results =
      select (λ (a : AuditResult). not (a.org == org && a.repo == repo)) s.audit_results;
}

-- DeleteAuditResultsBySHA
unfoldable pub delete_audit_results_by_sha : Text → Text → Text → Store → Store
delete_audit_results_by_sha org repo sha s = record s {
  audit_results =
      select (λ (a : AuditResult). not (a.org == org && a.repo == repo && a.sha == sha))
        s.audit_results;
}

-- DeleteOrphanedAuditResults
unfoldable pub delete_orphaned_audit_results : Text → Text → Store → Store
delete_orphaned_audit_results org repo s = record s {
  audit_results =
      select
        (λ (a : AuditResult). not (
          a.org == org
          && a.repo == repo
          && not (
              any (λ (c : CommitRow). c.org == org && c.repo == repo && c.sha == a.sha) s.commits)))
        s.audit_results;
}

pub record RevertMergeClassification : Type 0 where
  pub is_clean_revert : Bool
  pub revert_verification : Text
  pub reverted_sha : Text
  pub is_clean_merge : Bool
  pub merge_verification : Text

abbrev pub classification_of : Option AuditResult → RevertMergeClassification
classification_of none = record {
  is_clean_revert = false;
  revert_verification = [];
  reverted_sha = [];
  is_clean_merge = false;
  merge_verification = [];
}
classification_of (some a) = record {
  is_clean_revert = a.is_clean_revert;
  revert_verification = a.revert_verification;
  reverted_sha = a.reverted_sha;
  is_clean_merge = a.is_clean_merge;
  merge_verification = a.merge_verification;
}

-- GetRevertMergeClassification
unfoldable pub get_revert_merge_classification :
    Text → Text → Text → Store → RevertMergeClassification
get_revert_merge_classification org repo sha s =
    classification_of (row_at audit_key (org & repo & sha) s.audit_results)

-- AuditQueryOpts
pub record AuditQueryOpts : Type 0 where
  pub org : Text
  pub repo : Text
  pub since : Time
  pub until : Time
  pub only_failures : Bool

-- AuditRow
pub record AuditRow : Type 0 where
  pub result : AuditResult
  pub author_login : Text
  pub committed_at : Time
  pub message : Text

-- The row of the LEFT JOIN; a verdict without its commit has no date.
abbrev pub joined : Option CommitRow → AuditResult → Option Time × AuditRow
joined none a = (none, record { result = a; author_login = []; committed_at = 0; message = [] })
joined (some c) a = (
  some c.committed_at,
  record {
    result = a;
    author_login = c.author_login;
    committed_at = c.committed_at;
    message = c.message;
  },
)

-- A comparison with NULL is not true.
abbrev pub holds_of : Option Time → (Time → Bool) → Bool
holds_of none f = false
holds_of (some t) f = f t

abbrev pub wanted : AuditQueryOpts → Option Time × AuditRow → Bool
wanted opts (date, row) =
    (opts.org == [] || row.result.org == opts.org)
    && (opts.repo == [] || row.result.repo == opts.repo)
    && (is_zero opts.since || holds_of date (λ t. not (before t opts.since)))
    && (is_zero opts.until || holds_of date (λ t. before t opts.until))
    && (not opts.only_failures || not row.result.is_compliant)

-- ORDER BY c.committed_at DESC, where DuckDB puts NULL last.
abbrev pub newest_first : Option Time × AuditRow → Option Time × AuditRow → Bool
newest_first (none, a) (none, b) = true
newest_first (none, a) (some u, b) = false
newest_first (some t, a) (none, b) = true
newest_first (some t, a) (some u, b) = leb u t

-- GetAuditResults, whose rows do without the logins of the authors of the PR's commits.
unfoldable pub get_audit_results : AuditQueryOpts → Store → List AuditRow
get_audit_results opts s =
    map (λ x. x.1)
      (order_by newest_first (
        select (wanted opts) (
          map
            (λ (a : AuditResult).
              joined (row_at commit_key (audit_key a) s.commits)
                (record a { pr_commit_author_logins = [] }))
            s.audit_results)))

-- GetSyncCursor
unfoldable pub get_sync_cursor : Text → Text → Text → Store → Option SyncCursor
get_sync_cursor org repo branch s = row_at cursor_key (org & repo & branch) s.sync_cursors

-- UpsertSyncCursor, at the time `now`
unfoldable pub upsert_sync_cursor : Time → SyncCursor → Store → Store
upsert_sync_cursor now c s =
    let stamped : SyncCursor = if is_zero c.updated_at then record c { updated_at = now } else c in
    record s { sync_cursors = put_row cursor_key stamped s.sync_cursors }

-- RecordHistoryRewrite
unfoldable pub record_history_rewrite : HistoryRewrite → Store → Store
record_history_rewrite r s = record s {
  history_rewrites = put_row rewrite_key r s.history_rewrites;
}

-- GetHistoryRewrites
unfoldable pub get_history_rewrites : Text → Text → Store → List HistoryRewrite
get_history_rewrites org repo s =
    order_by (λ (a : HistoryRewrite) (b : HistoryRewrite). leb b.detected_at a.detected_at)
      (select (λ (h : HistoryRewrite). h.org == org && h.repo == repo) s.history_rewrites)

abbrev pub run_key : AuditRun → Time
run_key r = r.finished_at

-- RecordAuditRun
unfoldable pub record_audit_run : AuditRun → Store → Store
record_audit_run r s = record s { audit_runs = put_row run_key r s.audit_runs }

abbrev pub first_row {ℓ} : {A : Type ℓ} → List A → Option A
first_row [] = none
first_row (x ∷ xs) = some x

-- GetLatestAuditRun
unfoldable pub get_latest_audit_run : Store → Option AuditRun
get_latest_audit_run s =
    first_row
      (order_by (λ (a : AuditRun) (b : AuditRun). leb b.finished_at a.finished_at) s.audit_runs)
