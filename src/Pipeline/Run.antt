-- ===== src/Pipeline/Run.antt =====
-- Run, resolveExplicitRepos and syncRepo of internal/sync/pipeline.go: the choice of the repositories
-- and the sync of each.
pub mod Choice
pub mod Verdicts
pub mod Answered
pub mod Total
use gh_audit.Prelude.{
  ℕ, Bool, true, false, ◌&&◌, Option, none, some, List, [], ◌∷◌, ◌++◌, map, ltb, if◌then◌else◌,
  ◌==◌, nat_eq, length,
}
use gh_audit.Text.{Text}
use gh_audit.Model.{Time}
use gh_audit.Audit.Types.{StatsFetcher}
use gh_audit.Store.Rows.{Store, RepoInfo, AuditRun}
use gh_audit.Store.Audits.{record_audit_run}
use gh_audit.Store.OrgRepos.{clear_org_repos, cache_org_repos, get_cached_org_repos}
use gh_audit.Pipeline.Sync.{Sync, ◌>>=◌, ◌>>◌, pure, read, ask, try_write}
use gh_audit.Pipeline.Fetch.{SyncConfig, OrgConfig, GithubSource, filter_repos}
use gh_audit.Pipeline.Branch.{Enricher, sync_repo_branch}

-- repoWithOrg
pub record RepoWithOrg : Type 0 where
  pub repo : RepoInfo
  pub org_cfg : OrgConfig

abbrev pub with_org : OrgConfig → RepoInfo → RepoWithOrg
with_org org_cfg repo = record { repo = repo; org_cfg = org_cfg }

module _ (config : SyncConfig) (source : GithubSource) (now : Time) where
  unfoldable pub resolve_each : OrgConfig → List Text → Sync (List RepoWithOrg)
  resolve_each org_cfg [] = pure []
  resolve_each org_cfg (name ∷ names) = do
    info ← ask (source.get_repo org_cfg.name name)
    rest ← resolve_each org_cfg names
    pure (with_org org_cfg info ∷ rest)

  -- resolveExplicitRepos
  unfoldable pub resolve_explicit_repos : OrgConfig → Sync (List RepoWithOrg)
  unfolding resolve_each
  resolve_explicit_repos org_cfg = resolve_each org_cfg org_cfg.repos

  -- CacheOrgRepos deletes the old rows by a statement of its own.
  abbrev pub cache_repos : OrgConfig → List RepoInfo → Sync (Unit {0})
  cache_repos org_cfg fetched =
      if ltb 0 config.org_repos_cache_freshness
      then try_write (clear_org_repos org_cfg.name ∷ cache_org_repos now org_cfg.name fetched ∷ [])
      else pure tt

  -- The list in the cache where it is fresh, or else the one that GitHub gives.
  unfoldable pub list_repos : OrgConfig → Option (List RepoInfo) → Sync (List RepoInfo)
  list_repos org_cfg (some cached) = pure cached
  list_repos org_cfg none = do
    fetched ← ask (source.list_org_repos org_cfg.name)
    cache_repos org_cfg fetched
    pure fetched

  abbrev pub read_cache : OrgConfig → Store → Option (List RepoInfo)
  read_cache org_cfg s =
      if ltb 0 config.org_repos_cache_freshness
      then get_cached_org_repos now org_cfg.name config.org_repos_cache_freshness s
      else none

  unfoldable pub discover_repos : OrgConfig → Sync (List RepoWithOrg)
  unfolding list_repos filter_repos
  discover_repos org_cfg = do
    cached ← read (read_cache org_cfg)
    repos ← list_repos org_cfg cached
    pure (map (with_org org_cfg) (filter_repos repos org_cfg))

  unfoldable pub org_repos : OrgConfig → Sync (List RepoWithOrg)
  unfolding discover_repos resolve_explicit_repos
  org_repos org_cfg =
      if length org_cfg.repos == 0 then discover_repos org_cfg else resolve_explicit_repos org_cfg

  -- The first loop of Run.
  unfoldable pub all_repos : List OrgConfig → Sync (List RepoWithOrg)
  unfolding org_repos
  all_repos [] = pure []
  all_repos (org_cfg ∷ orgs) = do
    resolved ← org_repos org_cfg
    rest ← all_repos orgs
    pure (resolved ++ rest)

abbrev pub or_default : Text → List Text → List Text
or_default branch [] = branch ∷ []
or_default branch (b ∷ bs) = b ∷ bs

-- The branches that syncRepo syncs, and audits against.
abbrev pub branches_to_sync : RepoWithOrg → List Text
branches_to_sync r = or_default r.repo.default_branch r.org_cfg.branches

abbrev pub is_ended : {A : Type 0} → Option A → Bool
is_ended none = false
is_ended (some a) = true

-- Each sync of a branch has its own number of statements that can still take effect, so that a branch
-- may fail and those beside it go on, or are cut short.
module _ (config : SyncConfig) (source : GithubSource) (enricher : Enricher)
    (fetch_stats : StatsFetcher) (now : Time) (reach_of : RepoInfo → Text → ℕ) where
  unfoldable pub sync_branches : RepoInfo → List Text → List Text → Store → Store × Bool
  sync_branches repo audited [] s = (s, true)
  sync_branches repo audited (b ∷ bs) s =
      let (t, out) =
        sync_repo_branch config source enricher fetch_stats now repo b audited (reach_of repo b)
          s in
      let (u, others) = sync_branches repo audited bs t in (u, is_ended out && others)

  -- syncRepo: whether no branch had an error.
  unfoldable pub sync_repo : RepoWithOrg → Store → Store × Bool
  unfolding sync_branches
  sync_repo r s = sync_branches r.repo (branches_to_sync r) (branches_to_sync r) s

  -- The second loop of Run.
  unfoldable pub sync_repos : List RepoWithOrg → Store → Store × Bool
  unfolding sync_repo
  sync_repos [] s = (s, true)
  sync_repos (r ∷ rs) s =
      let (t, first) = sync_repo r s in let (u, others) = sync_repos rs t in (u, first && others)

  -- The record of a run; the two counters of the pipeline are arguments.
  abbrev pub audit_run : ℕ → ℕ → AuditRun
  audit_run synced audited = record {
    finished_at = now;
    tool_version = config.tool_version;
    config_fingerprint = config.config_fingerprint;
    commits_synced = synced;
    commits_audited = audited;
  }

  unfoldable pub stamp : ℕ → ℕ → ℕ → Store × Bool → Store × Bool
  stamp synced audited reach (s, false) = (s, false)
  stamp synced audited reach (s, true) =
      ((try_write (record_audit_run (audit_run synced audited) ∷ []) reach s).0, true)

  unfoldable pub run_repos : ℕ → ℕ → Store × Option (ℕ × List RepoWithOrg) → Store × Bool
  unfolding sync_repos stamp
  run_repos synced audited (s, none) = (s, false)
  run_repos synced audited (s, some (reach, repos)) =
      stamp synced audited reach (sync_repos repos s)

  -- Run
  unfoldable pub run : ℕ → ℕ → ℕ → Store → Store × Bool
  unfolding run_repos all_repos
  run synced audited reach s =
      run_repos synced audited (all_repos config source now config.orgs reach s)
