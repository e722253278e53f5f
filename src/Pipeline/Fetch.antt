-- ===== src/Pipeline/Fetch.antt =====
-- fetchBranchCommits and sinceFor of internal/sync/pipeline.go: the new commits of a branch.
use gh_audit.Prelude.{
  ℕ, ◌-◌, ◌*◌, Bool, not, ◌&&◌, ◌||◌, Option, none, some, List, [], ◌∷◌, if◌then◌else◌, ◌==◌,
  nat_eq, text_eq, ◌/=◌, length, any, select, Outcome, ok, failed,
}
use gh_audit.Text.{Text, text}
use gh_audit.Model.{Time, Commit, ExemptAuthor, is_zero}
use gh_audit.Audit.Types.{RequiredCheck}
use gh_audit.History.{record_if_rewritten}
use gh_audit.Store.Rows.{SyncCursor, RepoInfo}
use gh_audit.Store.Audits.{record_history_rewrite}
use gh_audit.Pipeline.Sync.{Sync, ◌>>=◌, ◌>>◌, pure, ask, try_write}

-- OrgConfig
pub record OrgConfig : Type 0 where
  pub name : Text
  pub repos : List Text
  pub exclude_repos : List Text
  pub branches : List Text

-- SyncConfig; the limits on what runs at a time are left out.
pub record SyncConfig : Type 0 where
  pub orgs : List OrgConfig
  pub since : Time
  pub until : Time
  pub org_repos_cache_freshness : Time
  pub initial_lookback_days : ℕ
  pub exempt_authors : List ExemptAuthor
  pub required_checks : List RequiredCheck
  pub review_scope : Text
  pub require_signing : Bool
  pub tool_version : Text
  pub config_fingerprint : Text

-- LandingScoped
unfoldable pub landing_scoped : SyncConfig → Bool
landing_scoped config = config.review_scope /= text "content"

-- What CompareCommits gives: the commits with GitHub's status, ErrCompareUnavailable, or another
-- error.
pub data Comparison : Type 0 where
  compared : List Commit → Text → Comparison
  unavailable : Comparison
  refused : Comparison

-- GitHubSource
pub record GithubSource : Type 0 where
  pub list_org_repos : Text → Outcome (List RepoInfo)
  pub get_repo : Text → Text → Outcome RepoInfo
  pub list_commits : Text → Text → Text → Time → Time → Outcome (List Commit)
  pub get_branch_head : Text → Text → Text → Outcome Text
  pub compare_commits : Text → Text → Text → Text → Text → Comparison

abbrev pub hour : Time
hour = 3600 * 1000000000

-- cursorOverlap
abbrev pub cursor_overlap : Time
cursor_overlap = 72 * hour

-- The days behind `now`, as AddDate of days in UTC counts them.
abbrev pub days_ago : ℕ → Time → Time
days_ago days now = now - days * (24 * hour)

abbrev pub lookback : ℕ → ℕ
lookback days = if days == 0 then 90 else days

-- sinceFor
unfoldable pub since_for : SyncConfig → Time → Option SyncCursor → Time
since_for config now none =
    if not (is_zero config.since)
    then config.since
    else days_ago (lookback config.initial_lookback_days) now
since_for config now (some cursor) =
    if not (is_zero config.since)
    then config.since
    else if not (is_zero cursor.last_date)
    then cursor.last_date - cursor_overlap
    else days_ago (lookback config.initial_lookback_days) now

-- The commits, the tip to record, and the path that was taken.
pub record Fetched : Type 0 where
  pub commits : List Commit
  pub head_sha : Text
  pub via : Text

abbrev pub first_sha : List Commit → Text
first_sha [] = []
first_sha (c ∷ cs) = c.sha

module _ (config : SyncConfig) (source : GithubSource) (now : Time) (repo : RepoInfo)
    (branch : Text) where
  -- The date window.
  unfoldable pub fetch_window : Option SyncCursor → Sync Fetched
  unfolding since_for
  fetch_window cursor = do
    commits ← ask (
        source.list_commits repo.org repo.name branch (since_for config now cursor)
          (if is_zero config.until then now else config.until))
    pure (record { commits = commits; head_sha = first_sha commits; via = text "date-window" })

  -- What becomes of the comparison of the tip that the cursor holds with the branch's.
  unfoldable pub fetch_compared : SyncCursor → Text → Comparison → Sync Fetched
  unfolding fetch_window
  fetch_compared cursor head (compared commits status) = do
    try_write (
        record_if_rewritten record_history_rewrite now repo.org repo.name branch cursor.last_sha
          head status
        ∷ [])
    pure (record { commits = commits; head_sha = head; via = text "graph" })
  fetch_compared cursor head unavailable = fetch_window (some cursor)
  fetch_compared cursor head refused = ask failed

  unfoldable pub fetch_head : SyncCursor → Outcome Text → Sync Fetched
  unfolding fetch_window fetch_compared
  fetch_head cursor failed = fetch_window (some cursor)
  fetch_head cursor (ok head) =
      if head == cursor.last_sha
      then pure (record { commits = []; head_sha = head; via = text "graph-unchanged" })
      else fetch_compared cursor head
          (source.compare_commits repo.org repo.name cursor.last_sha head branch)

  -- fetchBranchCommits
  unfoldable pub fetch_branch_commits : Option SyncCursor → Sync Fetched
  unfolding fetch_window fetch_head
  fetch_branch_commits none = fetch_window none
  fetch_branch_commits (some cursor) =
      if is_zero config.since && is_zero config.until && cursor.last_sha /= []
      then fetch_head cursor (source.get_branch_head repo.org repo.name branch)
      else fetch_window (some cursor)

-- filterRepos
unfoldable pub filter_repos : List RepoInfo → OrgConfig → List RepoInfo
filter_repos repos cfg =
    select
      (λ (r : RepoInfo).
        not r.archived
        && not (any (λ n. n == r.name) cfg.exclude_repos)
        && (length cfg.repos == 0 || any (λ n. n == r.name) cfg.repos))
      repos
